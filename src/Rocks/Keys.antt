-- ===== src/Rocks/Keys.antt =====
-- Keys as RocksDB orders them: prefixes, the bytewise order, and what the keys from a prefix on are.
use sqpkv.Prelude.{
  ℕ, ◌≤◌, length, ◌≡◌, refl, ap, sym, ◌∙◌, Bool, true, false, ◌&&◌, List, [], ◌∷◌, arith, All, ◌==◌,
  ltb, if◌then◌else◌, Bool-cases, inl, inr,
}

unfoldable pub is_prefix : List ℕ → List ℕ → Bool
is_prefix [] k = true
is_prefix (a ∷ p) [] = false
is_prefix (a ∷ p) (b ∷ k) = a == b && is_prefix p k

-- The bytewise order.
unfoldable pub key_lt : List ℕ → List ℕ → Bool
key_lt [] [] = false
key_lt [] (b ∷ j) = true
key_lt (a ∷ k) [] = false
key_lt (a ∷ k) (b ∷ j) = if a == b then key_lt k j else ltb a b

-- The keys from the first that is not below `p`.
pub from_key : List ℕ → List (List ℕ) → List (List ℕ)
from_key p [] = []
from_key p (k ∷ ks) = if key_lt k p then from_key p ks else k ∷ ks

unfoldable pub take_prefixed : List ℕ → List (List ℕ) → List (List ℕ)
take_prefixed p [] = []
take_prefixed p (k ∷ ks) = let rest = take_prefixed p ks in if is_prefix p k then k ∷ rest else []

-- Of the keys, those with the prefix.
unfoldable pub matching : List ℕ → List (List ℕ) → List (List ℕ)
matching p [] = []
matching p (k ∷ ks) = let rest = matching p ks in if is_prefix p k then k ∷ rest else rest

abbrev pub IsOrdered : List (List ℕ) → Type 0
IsOrdered [] = Unit {0}
IsOrdered (k ∷ ks) = All (λ j. key_lt k j ≡ true) ks × IsOrdered ks

-- A key with the prefix is not below it.
prefixed-not-lt : (p k : List ℕ) → is_prefix p k ≡ true → key_lt k p ≡ false
unfolding is_prefix key_lt
prefixed-not-lt [] [] h = refl
prefixed-not-lt [] (b ∷ k) h = refl
prefixed-not-lt (a ∷ p) [] h = cc
prefixed-not-lt (a ∷ p) (b ∷ k) h = ground (arith, prefixed-not-lt p k)

-- Behind a key that is not below the prefix and does not have it, no key has it.
past_prefix :
    (p k j : List ℕ)
    → key_lt k p ≡ false
    → is_prefix p k ≡ false
    → key_lt k j ≡ true
    → is_prefix p j ≡ false
unfolding is_prefix key_lt
past_prefix [] k j f g h = cc
past_prefix (a ∷ p) [] j f g h = cc
past_prefix (a ∷ p) (b ∷ k) [] f g h = refl
past_prefix (a ∷ p) (b ∷ k) (c ∷ j) f g h = ground (arith, past_prefix p k j)

matching-none :
    (p k : List ℕ) (ks : List (List ℕ))
    → key_lt k p ≡ false
    → is_prefix p k ≡ false
    → All (λ j. key_lt k j ≡ true) ks
    → matching p ks ≡ []
unfolding matching
matching-none p k [] f g h = refl
matching-none p k (j ∷ ks) f g h = rw (past_prefix p k j f g h.0) (matching-none p k ks f g h.1)

-- The order of the keys is transitive as far as a lower bound goes.
bound_moves : (p k j : List ℕ) → key_lt k p ≡ false → key_lt k j ≡ true → key_lt j p ≡ false
unfolding key_lt
bound_moves [] k [] f h = refl
bound_moves [] k (c ∷ j) f h = refl
bound_moves (a ∷ p) [] j f h = cc
bound_moves (a ∷ p) (b ∷ k) [] f h = cc
bound_moves (a ∷ p) (b ∷ k) (c ∷ j) f h = ground (arith, bound_moves p k j)

matching_skip :
    (p k : List ℕ) (ks : List (List ℕ)) → key_lt k p ≡ true → matching p (k ∷ ks) ≡ matching p ks
unfolding matching
matching_skip p k ks below = elim (Bool-cases (is_prefix p k)) [
  | inl e ↦ cc (below, prefixed-not-lt p k e)
  | inr e ↦ rw e
]

take_prefixed-matching :
    (p : List ℕ) (k : List ℕ) (ks : List (List ℕ))
    → IsOrdered (k ∷ ks)
    → key_lt k p ≡ false
    → take_prefixed p (k ∷ ks) ≡ matching p (k ∷ ks)
unfolding take_prefixed matching
take_prefixed-matching p k [] h f = refl
take_prefixed-matching p k (j ∷ ks) h f = elim (Bool-cases (is_prefix p k)) [
  | inl e ↦ rw e (
      ap (λ (t : List (List ℕ)). k ∷ t)
        (take_prefixed-matching p j ks h.1 (bound_moves p k j f h.0.0)))
  | inr e ↦ rw e (sym (matching-none p k (j ∷ ks) f e h.0))
]

-- Of ordered keys, those that a scan from the prefix on meets before the first without it are all
-- that have it.
pub scan-matching :
    (p : List ℕ) (ks : List (List ℕ))
    → IsOrdered ks
    → take_prefixed p (from_key p ks) ≡ matching p ks
unfolding from_key
scan-matching p [] h = unfold take_prefixed matching in refl
scan-matching p (k ∷ ks) h = elim (Bool-cases (key_lt k p)) [
  | inl below ↦ rw below (scan-matching p ks h.1 ∙ sym (matching_skip p k ks below))
  | inr above ↦ rw above (take_prefixed-matching p k ks h above)
]

pub length-from_key-le : (p : List ℕ) (ks : List (List ℕ)) → length (from_key p ks) ≤ length ks
unfolding from_key
length-from_key-le p [] = omega arith
length-from_key-le p (k ∷ ks) = ground (arith, length-from_key-le p ks)
