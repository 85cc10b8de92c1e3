-- ===== src/Prelude/Int.antt =====
-- Signed integers over the native numbers, as far as an `int` of the program needs them.
use Prim.Native.Nat.{ℕ, zero, suc, ◌+◌, ◌-◌, ◌%◌, ◌^◌}
use sqpkv.Prelude.Tests.{ltb, if◌then◌else◌}

-- `negsuc n` is -(n + 1).
pub data ℤ : Type 0 where
  pos : ℕ → ℤ
  negsuc : ℕ → ℤ

-- The int that an unsigned value converts to: its low 32 bits as a two's complement number.
abbrev pub to_int32 : ℕ → ℤ
to_int32 v = let w = v % 2 ^ 32 in if ltb w (2 ^ 31) then pos w else negsuc (2 ^ 32 - w - 1)

abbrev pub negate : ℕ → ℤ
negate zero = pos 0
negate (suc n) = negsuc n

-- `a % n` in C++: the remainder has the sign of `a`.
abbrev pub rem : ℤ → ℕ → ℤ
rem (pos a) n = pos (a % n)
rem (negsuc a) n = negate ((a + 1) % n)
