-- ===== src/Sharding/Digits.antt =====
-- The decimal numbers that std::stoul reads in src/server/sharding_policy.cc.
use sqpkv.Prelude.{
  ℕ, ◌+◌, ◌-◌, ◌*◌, ◌^◌, ◌<◌, ◌≤◌, ◌≡◌, true, false, some, List, [], ◌∷◌, arith, All, length,
  lt→ltb,
}
use native.Mathlib.Nat.{pow-suc}
use sqpkv.Sharding.{sign_of, is_digit, skip_spaces, leading_digits, stoul}

abbrev pub IsDigits : List ℕ → Type 0
IsDigits = All (λ c. (b'0' ≤ c) × (c ≤ b'9'))

-- The number that digits stand for: each counts by the power of ten of its place.
unfoldable pub decimal_value : List ℕ → ℕ
decimal_value [] = 0
decimal_value (c ∷ digits) = (c - b'0') * 10 ^ length digits + decimal_value digits

pub digit_is_digit : (c : ℕ) → (b'0' ≤ c) × (c ≤ b'9') → is_digit c ≡ true
digit_is_digit c h = ground arith

-- A digit is neither a space nor a sign.
pub digit_stands :
    (c : ℕ) (digits : List ℕ)
    → (b'0' ≤ c) × (c ≤ b'9')
    → sign_of (skip_spaces (c ∷ digits)) ≡ (false, c ∷ digits)
unfolding skip_spaces
digit_stands c digits h = ground arith

leading_digits-value :
    (acc : ℕ) (digits : List ℕ)
    → IsDigits digits
    → leading_digits acc digits ≡ acc * 10 ^ length digits + decimal_value digits
unfolding leading_digits decimal_value
leading_digits-value acc [] h = omega arith
leading_digits-value acc (c ∷ digits) h =
    rw (digit_is_digit c h.0)
      (rw (leading_digits-value (acc * 10 + (c - b'0')) digits h.1) (rw pow-suc (omega arith)))

-- A text of digits is read as the number that they stand for, if that fits 64 bits.
pub stoul-decimal_value :
    (c : ℕ) (digits : List ℕ)
    → IsDigits (c ∷ digits)
    → decimal_value (c ∷ digits) < 2 ^ 64
    → stoul (c ∷ digits) ≡ some (decimal_value (c ∷ digits))
unfolding stoul
stoul-decimal_value c digits h small =
    rw (digit_stands c digits h.0) (rw whole (rw (digit_is_digit c h.0) (rw (lt→ltb _ _ small))))
  where
    whole : leading_digits 0 (c ∷ digits) ≡ decimal_value (c ∷ digits)
    whole = omega (arith, leading_digits-value 0 (c ∷ digits) h)
