-- ===== src/TablePrefix/Laws.antt =====
-- The table prefix of src/server/table_prefix_transform.cc.
use sqpkv.Prelude.{
  ℕ, suc, ◌+◌, ◌≡◌, ◌⊎◌, ◌∙◌, ap, refl, true, false, none, some, List, [], ◌∷◌, ◌++◌, arith, All,
  take, length, ◌==◌, Bool-cases, Option-cases, ==_iff, inl, inr,
}
use sqpkv.TablePrefix.{find_underscore, transform, in_domain}

-- No byte of a table's name is '_'.
abbrev pub IsName : List ℕ → Type 0
IsName = All (λ c. (c == b'_') ≡ false)

-- A key of a table: the name, '_', and the rest.
abbrev pub key_of : List ℕ → List ℕ → List ℕ
key_of table id = table ++ (b'_' ∷ id)

find_underscore-key_of :
    (table id : List ℕ) (i : ℕ)
    → IsName table
    → find_underscore i (key_of table id) ≡ some (i + length table)
unfolding find_underscore
find_underscore-key_of [] id i h = ap some (omega arith)
find_underscore-key_of (c ∷ table) id i h =
    rw (h.0) (find_underscore-key_of table id (i + 1) h.1 ∙ ap some (omega arith))

take_through : (c : ℕ) (xs ys : List ℕ) → take (suc (length xs)) (xs ++ (c ∷ ys)) ≡ xs ++ (c ∷ [])
take_through c [] ys = refl
take_through c (x ∷ xs) ys = ap (λ t. x ∷ t) (take_through c xs ys)

-- All keys of one table, whose name has no '_', are mapped to the same prefix: the name and '_'.
transform-key_of :
    (table id : List ℕ) → IsName table → transform (key_of table id) ≡ some (table ++ (b'_' ∷ []))
unfolding transform
transform-key_of table id h = rw (find_underscore-key_of table id 0 h) (ap some cut)
  where
    front : List ℕ
    front = table ++ (b'_' ∷ [])

    at_end : 0 + length table + 1 ≡ suc (length table)
    at_end = omega arith

    cut : take (0 + length table + 1) (key_of table id) ≡ front
    cut = rw at_end (take_through b'_' table id)

abbrev IsKey : List ℕ → Type 0
IsKey key = (table : List ℕ) × (id : List ℕ) × IsName table × (key ≡ key_of table id)

found-IsKey : (key : List ℕ) (i j : ℕ) → find_underscore i key ≡ some j → IsKey key
unfolding find_underscore
found-IsKey [] i j e = cc
found-IsKey (c ∷ key) i j e = elim (Bool-cases (c == b'_')) [
  | inl here ↦ ([], key, tt, ap (λ b. b ∷ key) ((==_iff c b'_').0 here))
  | inr later ↦
      let (table, id, named, split) = found-IsKey key (i + 1) j (rw later at e) in
      (c ∷ table, id, (later, named), ap (λ t. c ∷ t) split)
]

-- Every key is either outside the domain, and then the transform faults, or it is a table's name, '_'
-- and a rest, is in the domain, and is mapped to the name and '_'.
pub transform_cases :
    (key : List ℕ)
    → ((in_domain key ≡ false) × (transform key ≡ none))
      ⊎ ((table : List ℕ) × (id : List ℕ) × IsName table
          × (key ≡ key_of table id)
          × (in_domain key ≡ true)
          × (transform key ≡ some (table ++ (b'_' ∷ []))))
transform_cases key = elim (Option-cases (find_underscore 0 key)) [
  | inl e ↦ inl (unfold in_domain in rw (e, in_domain), unfold transform in rw (e, transform))
  | inr (i, e) ↦
      let (table, id, named, split) = found-IsKey key 0 i e in
      inr (
        table,
        id,
        named,
        split,
        unfold in_domain in rw (e, in_domain),
        ap transform split ∙ transform-key_of table id named,
      )
]
