-- ===== src/Status/Laws.antt =====
-- Codes and statuses: the casts, and the three tests.
use sqpkv.Prelude.{zero, suc, ◌<◌, ◌≡◌, refl, true, false, arith, if◌then◌else◌}
use sqpkv.Rocks.{Rocks}
use sqpkv.Status.{
  Code, k_ok, k_err, k_eof, unnamed, code_byte, code_of_byte, default_status, err_with, of_rocks,
  is_ok, is_err, is_eof,
}

-- A code that the program makes itself: one of the three enumerators, or a byte that names none.
abbrev pub IsCode : Code → Type 0
IsCode (unnamed b) = (2 < b) × (b < 256)
IsCode _ = Unit {0}

-- The cast of a code to a byte and back gives the code.
pub code_of_byte-code_byte : (c : Code) → IsCode c → code_of_byte (code_byte c) ≡ c
unfolding code_of_byte code_byte
code_of_byte-code_byte k_ok h = refl
code_of_byte-code_byte k_err h = refl
code_of_byte-code_byte k_eof h = refl
code_of_byte-code_byte (unnamed zero) h = absurd (omega arith)
code_of_byte-code_byte (unnamed (suc zero)) h = absurd (omega arith)
code_of_byte-code_byte (unnamed (suc (suc zero))) h = absurd (omega arith)
code_of_byte-code_byte (unnamed (suc (suc (suc b)))) h = refl

code_byte-lt : (c : Code) → IsCode c → code_byte c < 256
unfolding code_byte
code_byte-lt k_ok h = omega arith
code_byte-lt k_err h = omega arith
code_byte-lt k_eof h = omega arith
code_byte-lt (unnamed b) h = h.1

-- The status of a RocksDB call is OK or an error, and never an end of file.
pub of_rocks-cases :
    (R : Rocks) (s : Rocks.DbStatus R)
    → (is_ok (of_rocks R s) ≡ R.status_ok s)
      × (is_err (of_rocks R s) ≡ (if R.status_ok s then false else true))
      × (is_eof (of_rocks R s) ≡ false)
      × IsCode (of_rocks R s).code
unfolding of_rocks is_ok is_err is_eof
of_rocks-cases R s =
    elim (R.status_ok s)
      as (λ b.
        (is_ok (if b then default_status else err_with (R.status_text s)) ≡ b)
        × (is_err (if b then default_status else err_with (R.status_text s))
            ≡ (if b then false else true))
        × (is_eof (if b then default_status else err_with (R.status_text s)) ≡ false)
        × IsCode (if b then default_status else err_with (R.status_text s)).code) [
          | true ↦ (refl, refl, refl, tt)
          | false ↦ (refl, refl, refl, tt)
        ]
