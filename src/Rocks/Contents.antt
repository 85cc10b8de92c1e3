-- ===== src/Rocks/Contents.antt =====
-- What the program relies on from RocksDB for single keys, as documented: a database holds at most one value
-- for a key.
use sqpkv.Prelude.{
  All, ==_iff, arith, ℕ, ◌≡◌, refl, sym, ap, ◌∙◌, Bool, true, false, Option, none, some, List, [],
  ◌∷◌, if◌then◌else◌, ◌==◌, ◌&&◌, Bool-cases, inl, inr,
}
use sqpkv.Rocks.{Rocks}
use sqpkv.Rocks.Keys.{is_prefix, matching, IsOrdered}
use sqpkv.Rocks.Laws.{IterLaws}

unfoldable pub same_key : List ℕ → List ℕ → Bool
same_key [] [] = true
same_key (a ∷ k) (b ∷ j) = a == b && same_key k j
same_key _ _ = false

unfoldable pub occurs : List ℕ → List (List ℕ) → Bool
occurs k [] = false
occurs k (j ∷ js) = if same_key j k then true else occurs k js

unfoldable pub has_value : Option (List ℕ) → Bool
has_value none = false
has_value (some v) = true

-- What a key-value store holds.
abbrev pub Contents : Type 0
Contents = List ℕ → Option (List ℕ)

abbrev pub set_key : List ℕ → Option (List ℕ) → Contents → Contents
set_key k v m j = if same_key k j then v else m j

-- A database without errors: Get finds what was put last and not deleted, and says so; the keys of a scan
-- are those that have a value.
pub record StoreLaws (R : Rocks) (L : IterLaws R) : Type 0 where
  pub contents : Rocks.Db R → Contents
  pub get-found :
      (db : Rocks.Db R) (k v : List ℕ)
      → contents db k ≡ some v
      → (R.status_ok (R.get db k).0 ≡ true) × ((R.get db k).1 ≡ v)
  pub get-missing :
      (db : Rocks.Db R) (k : List ℕ)
      → contents db k ≡ none
      → (R.status_ok (R.get db k).0 ≡ false) × ((R.get db k).1 ≡ [])
  pub put_ok : (db : Rocks.Db R) (k v : List ℕ) → R.status_ok (R.put db k v).0 ≡ true
  pub contents-put :
      (db : Rocks.Db R) (k v j : List ℕ)
      → contents (R.put db k v).1 j ≡ set_key k (some v) (contents db) j
  pub delete_ok : (db : Rocks.Db R) (k : List ℕ) → R.status_ok (R.delete db k).0 ≡ true
  pub contents-delete :
      (db : Rocks.Db R) (k j : List ℕ)
      → contents (R.delete db k).1 j ≡ set_key k none (contents db) j
  pub listing-contents :
      (db : Rocks.Db R) (k : List ℕ) → occurs k (L.listing db) ≡ has_value (contents db k)

pub same_key_sound : (k j : List ℕ) → same_key k j ≡ true → k ≡ j
unfolding same_key
same_key_sound [] [] h = refl
same_key_sound [] (b ∷ j) h = ground arith
same_key_sound (a ∷ k) [] h = ground arith
same_key_sound (a ∷ k) (b ∷ j) h = elim (Bool-cases (a == b)) [
  | inl e ↦ rw (same_key_sound k j (sym (rw (same_key, e) refl) ∙ h), (==_iff a b).0 e) refl
  | inr e ↦ (let clash : false ≡ true = sym (rw (same_key, e) refl) ∙ h in ground arith)
]

same_prefix : (p j k : List ℕ) → same_key j k ≡ true → is_prefix p j ≡ is_prefix p k
same_prefix p j k h = ap (is_prefix p) (same_key_sound j k h)

pub occurs-matching :
    (p k : List ℕ) (ks : List (List ℕ)) → occurs k (matching p ks) ≡ is_prefix p k && occurs k ks
unfolding occurs matching
occurs-matching p k [] = elim (Bool-cases (is_prefix p k)) [ inl e ↦ rw e refl | inr e ↦ rw e refl ]
occurs-matching p k (j ∷ js) = elim (Bool-cases (same_key j k)) [
  | inl s ↦
      let same : is_prefix p j ≡ is_prefix p k = same_prefix p j k s in
      elim (Bool-cases (is_prefix p j)) [
        | inl e ↦ rw (e, s, ← same) (rw e refl)
        | inr e ↦ let later = occurs-matching p k js in rw (e, s) (later ∙ rw (← same) (rw e refl))
      ]
  | inr s ↦ elim (Bool-cases (is_prefix p j)) [
    | inl e ↦ rw (e, s) (occurs-matching p k js)
    | inr e ↦ rw (e, s) (occurs-matching p k js)
  ]
]

All-matching :
    (P : List ℕ → Type 0) (p : List ℕ) (ks : List (List ℕ)) → All P ks → All P (matching p ks)
unfolding matching
All-matching P p [] h = tt
All-matching P p (k ∷ ks) (h, hs) = elim (Bool-cases (is_prefix p k)) [
  | inl e ↦ rw (matching, e) (h, All-matching P p ks hs)
  | inr e ↦ rw (matching, e) (All-matching P p ks hs)
]

pub matching-IsOrdered :
    (p : List ℕ) (ks : List (List ℕ)) → IsOrdered ks → IsOrdered (matching p ks)
unfolding matching
matching-IsOrdered p [] h = tt
matching-IsOrdered p (k ∷ ks) (h, hs) = elim (Bool-cases (is_prefix p k)) [
  | inl e ↦ rw (matching, e) (All-matching _ p ks h, matching-IsOrdered p ks hs)
  | inr e ↦ rw (matching, e) (matching-IsOrdered p ks hs)
]
