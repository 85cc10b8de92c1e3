-- ===== src/ServerLauncher/Numbers.antt =====
-- std::to_string and std::stoi as src/server/server_launcher.cc uses them, and comparing ints.
use sqpkv.Prelude.{
  ℕ, zero, suc, ◌+◌, ◌/◌, ◌%◌, ◌^◌, Bool, false, ◌&&◌, Option, none, some, List, [], ◌∷◌, ◌++◌,
  ◌==◌, ltb, if◌then◌else◌,
}
use sqpkv.Prelude.Int.{ℤ, pos, negsuc, negate}
use sqpkv.Sharding.{sign_of, skip_spaces, leading_digits, starts_with_digit}

abbrev pub minus_one : ℤ
minus_one = negsuc 0

abbrev pub same_int : ℤ → ℤ → Bool
same_int (pos a) (pos b) = a == b
same_int (pos a) (negsuc b) = false
same_int (negsuc a) (pos b) = false
same_int (negsuc a) (negsuc b) = a == b

-- std::to_string of a number below `fuel`
unfoldable pub digits_of : ℕ → ℕ → List ℕ
digits_of zero n = []
digits_of (suc fuel) n =
    let front = digits_of fuel (n / 10) in
    if ltb n 10 then (b'0' + n) ∷ [] else front ++ ((b'0' + n % 10) ∷ [])

unfoldable pub to_string : ℕ → List ℕ
unfolding digits_of
to_string n = digits_of (suc n) n

-- std::stoi: std::invalid_argument without digits, std::out_of_range where an int does not hold it.
unfoldable pub stoi : List ℕ → Option ℤ
unfolding skip_spaces leading_digits
stoi text =
    let (negated, digits) = sign_of (skip_spaces text) in
    let value = leading_digits 0 digits in
    if starts_with_digit digits && ltb value (if negated then 2 ^ 31 + 1 else 2 ^ 31)
    then some (if negated then negate value else pos value)
    else none
