-- ===== src/Status.antt =====
-- include/sqpkv/status.h and src/protocol/status.cc: `Status`, its codes, and `StatusOr`.
-- A std::string is the list of its bytes. strerror(errno) is an argument of `err_errno`.
pub mod Laws
use sqpkv.Prelude.{
  ℕ, zero, suc, Bool, true, false, Option, none, some, List, [], ◌∷◌, if◌then◌else◌,
}
use sqpkv.Rocks.{Rocks}

-- `Status::Code`. `unnamed b` is a value that a cast of the byte `b` gives and no enumerator names.
pub data Code : Type 0 where
  k_ok k_err k_eof : Code
  unnamed : ℕ → Code

-- static_cast<char>(code)
pub code_byte : Code → ℕ
code_byte k_ok = 0
code_byte k_err = 1
code_byte k_eof = 2
code_byte (unnamed b) = b

-- static_cast<Status::Code>(byte)
pub code_of_byte : ℕ → Code
code_of_byte zero = k_ok
code_of_byte (suc zero) = k_err
code_of_byte (suc (suc zero)) = k_eof
code_of_byte b = unnamed b

pub record Status : Type 0 where
  pub code : Code
  pub message : List ℕ

abbrev ok_text : List ℕ
ok_text = b'O' ∷ b'K' ∷ []

-- Status() and Status::Ok()
abbrev pub default_status : Status
default_status = record { code = k_ok; message = ok_text }

-- Status::Err(message)
abbrev pub err_with : List ℕ → Status
err_with message = record { code = k_err; message = message }

-- Status::Err(), with the text of errno
abbrev pub err_errno : List ℕ → Status
err_errno text = err_with text

-- Status::Eof()
abbrev pub eof_status : Status
eof_status = record { code = k_eof; message = [] }

-- Status(rocksdb::Status)
unfoldable pub of_rocks : (R : Rocks) → Rocks.DbStatus R → Status
of_rocks R s = if R.status_ok s then default_status else err_with (R.status_text s)

unfoldable pub is_ok : Status → Bool
is_ok s = elim s.code [ k_ok ↦ true | _ ↦ false ]

unfoldable pub is_err : Status → Bool
is_err s = elim s.code [ k_err ↦ true | _ ↦ false ]

unfoldable pub is_eof : Status → Bool
is_eof s = elim s.code [ k_eof ↦ true | _ ↦ false ]

-- `StatusOr<T>`: the status, and the object pointer, which may be null.
pub record StatusOr {ℓ} (A : Type ℓ) : Type ℓ where
  pub status : Status
  pub obj : Option A

-- StatusOr(std::unique_ptr<T>): the status is OK also where the pointer is null.
abbrev pub of_obj {ℓ} : {A : Type ℓ} → Option A → StatusOr A
of_obj o = record { status = default_status; obj = o }

-- StatusOr(Status)
abbrev pub of_status {ℓ} : {A : Type ℓ} → Status → StatusOr A
of_status s = record { status = s; obj = none }

-- Take(): the pointer, and the StatusOr that no longer has it.
abbrev pub take {ℓ} : {A : Type ℓ} → StatusOr A → Option A × StatusOr A
take result = (result.obj, record { status = result.status; obj = none })

-- DoAssignOrReturn: the pointer is taken exactly when the status is OK.
unfoldable pub assign_or_return {ℓ} : {A : Type ℓ} → Option A → StatusOr A → Option A × Status
unfolding is_ok
assign_or_return lhs result = (if is_ok result.status then (take result).0 else lhs, result.status)
