-- ===== src/ServerLauncher/NumberLaws.antt =====
-- std::stoi reads what std::to_string writes.
use sqpkv.Prelude.{
  ℕ, zero, suc, ◌+◌, ◌-◌, ◌*◌, ◌/◌, ◌%◌, ◌^◌, ◌≤◌, ◌<◌, ◌≡◌, refl, sym, ap, ◌∙◌, true, false, some,
  List, [], ◌∷◌, ◌++◌, arith, ltb, lt→ltb, Bool-cases, inl, inr,
}
use mathlib.Core.Path.{subst}
use sqpkv.Prelude.Int.{pos}
use sqpkv.Sharding.{leading_digits}
use sqpkv.Sharding.Digits.{IsDigits, digit_is_digit, digit_stands}
use sqpkv.ServerLauncher.Numbers.{digits_of, to_string, stoi}

IsDigits-append :
    (xs : List ℕ) (d : ℕ) → IsDigits xs → (b'0' ≤ d) × (d ≤ b'9') → IsDigits (xs ++ (d ∷ []))
IsDigits-append [] d h g = (g, tt)
IsDigits-append (x ∷ xs) d h g = (h.0, IsDigits-append xs d h.1 g)

leading_digits-append :
    (acc : ℕ) (xs : List ℕ) (d : ℕ)
    → IsDigits xs
    → (b'0' ≤ d) × (d ≤ b'9')
    → leading_digits acc (xs ++ (d ∷ [])) ≡ leading_digits acc xs * 10 + (d - b'0')
unfolding leading_digits
leading_digits-append acc [] d h g = rw (digit_is_digit d g) refl
leading_digits-append acc (x ∷ xs) d h g =
    rw (digit_is_digit x h.0) (leading_digits-append (acc * 10 + (x - b'0')) xs d h.1 g)

digits_of-value :
    (fuel n : ℕ)
    → n < fuel
    → IsDigits (digits_of fuel n) × (leading_digits 0 (digits_of fuel n) ≡ n)
unfolding digits_of leading_digits
digits_of-value zero n h = elim h [ ]
digits_of-value (suc fuel) n h = elim (Bool-cases (ltb n 10)) [
  | inl small ↦ rw small (
    ((omega arith, below n small), tt),
    rw (digit_is_digit (b'0' + n) (omega arith, below n small)) (omega arith),
  )
  | inr big ↦
      let (digits, value) = digits_of-value fuel (n / 10) (tenth n fuel big h) in
      rw big (
        IsDigits-append (digits_of fuel (n / 10)) (b'0' + n % 10) digits (omega arith, omega arith),
        leading_digits-append 0 (digits_of fuel (n / 10)) (b'0' + n % 10) digits
              (omega arith, omega arith)
            ∙ rw value (omega arith),
      )
]
  where
    below : (m : ℕ) → ltb m 10 ≡ true → b'0' + m ≤ b'9'
    below m e = ground arith

    tenth : (m f : ℕ) → ltb m 10 ≡ false → m < suc f → m / 10 < f
    tenth m f e g = omega (arith, at_least m e)
      where
        at_least : (k : ℕ) → ltb k 10 ≡ false → 10 ≤ k
        at_least k e = ground arith

snoc_cons : (xs : List ℕ) (d : ℕ) → (c : ℕ) × (rest : List ℕ) × (xs ++ (d ∷ []) ≡ c ∷ rest)
snoc_cons [] d = (d, [], refl)
snoc_cons (x ∷ xs) d = (x, xs ++ (d ∷ []), refl)

to_string_cons : (n : ℕ) → (c : ℕ) × (rest : List ℕ) × (to_string n ≡ c ∷ rest)
unfolding to_string digits_of
to_string_cons n = elim (Bool-cases (ltb n 10)) [
  | inl small ↦ rw small (b'0' + n, [], refl)
  | inr big ↦ rw big (snoc_cons (digits_of n (n / 10)) (b'0' + n % 10))
]

stoi-digits :
    (c : ℕ) (rest : List ℕ) (n : ℕ)
    → IsDigits (c ∷ rest)
    → leading_digits 0 (c ∷ rest) ≡ n
    → n < 2 ^ 31
    → stoi (c ∷ rest) ≡ some (pos n)
unfolding stoi
stoi-digits c rest n h value small =
    rw (digit_stands c rest h.0) (rw value (rw (digit_is_digit c h.0) (rw (lt→ltb _ _ small))))

-- Every number that an int holds is read back from its text.
pub stoi-to_string : (n : ℕ) → n < 2 ^ 31 → stoi (to_string n) ≡ some (pos n)
unfolding to_string
stoi-to_string n small =
    let (c, rest, e) = to_string_cons n in
    let (digits, value) = digits_of-value (suc n) n (omega arith) in
    ap stoi e
    ∙ stoi-digits c rest n (subst IsDigits e digits) (ap (leading_digits 0) (sym e) ∙ value) small
