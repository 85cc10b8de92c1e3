-- ===== src/Tests/Entries.antt =====
-- A database of any keys as a list of entries, with the laws that RocksDB documents.
use sqpkv.Prelude.{
  ℕ, ◌≡◌, refl, sym, ap, ◌∙◌, Bool, true, false, Option, none, some, List, [], ◌∷◌, if◌then◌else◌,
  arith, All, Bool-cases, inl, inr,
}
use sqpkv.Rocks.{Rocks}
use sqpkv.Rocks.Keys.{is_prefix, key_lt, from_key, IsOrdered}
use sqpkv.Rocks.Laws.{IterLaws, is_some_key}
use sqpkv.Rocks.Contents.{same_key, same_key_sound, occurs, has_value, set_key, StoreLaws}
use sqpkv.Tests.Toy.{head_key, tail_keys, head_key-cons, tail_keys-cons}

abbrev pub Entries : Type 0
Entries = List (List ℕ × List ℕ)

abbrev lookup_in : Entries → List ℕ → Option (List ℕ)
lookup_in [] j = none
lookup_in ((k, v) ∷ es) j = if same_key k j then some v else lookup_in es j

abbrev erase : List ℕ → Entries → Entries
erase k [] = []
erase k ((i, v) ∷ es) = if same_key k i then erase k es else (i, v) ∷ erase k es

abbrev insert_key : List ℕ → List (List ℕ) → List (List ℕ)
insert_key i [] = i ∷ []
insert_key i (j ∷ js) =
    if same_key i j then j ∷ js else (if key_lt i j then i ∷ j ∷ js else j ∷ insert_key i js)

abbrev listed : Entries → List (List ℕ)
listed [] = []
listed ((k, v) ∷ es) = insert_key k (listed es)

pub lookup_in-erase :
    (k : List ℕ) (es : Entries) (j : List ℕ)
    → lookup_in (erase k es) j ≡ set_key k none (lookup_in es) j
lookup_in-erase k [] j = elim (Bool-cases (same_key k j)) [ inl e ↦ rw e refl | inr e ↦ rw e refl ]
lookup_in-erase k ((i, v) ∷ es) j = elim (Bool-cases (same_key k i)) [
  | inl e ↦
      let same : same_key k j ≡ same_key i j = ap (λ t. same_key t j) (same_key_sound k i e) in
      elim (Bool-cases (same_key k j)) [
        | inl f ↦ rw (e, f) (lookup_in-erase k es j ∙ rw f refl)
        | inr f ↦ rw (e, f) (lookup_in-erase k es j ∙ rw f (rw (sym same ∙ f) refl))
      ]
  | inr e ↦ elim (Bool-cases (same_key i j)) [
    | inl f ↦
        let other : same_key k j ≡ false =
          ap (λ t. same_key k t) (sym (same_key_sound i j f)) ∙ e in
        rw (e, other) (rw f refl)
    | inr f ↦ rw (e, f) (lookup_in-erase k es j)
  ]
]

occurs-insert_key :
    (k i : List ℕ) (ks : List (List ℕ))
    → occurs k (insert_key i ks) ≡ (if same_key i k then true else occurs k ks)
unfolding occurs
occurs-insert_key k i [] = refl
occurs-insert_key k i (j ∷ js) = elim (Bool-cases (same_key i j)) [
  | inl e ↦
      let same : same_key i k ≡ same_key j k = ap (λ t. same_key t k) (same_key_sound i j e) in
      elim (Bool-cases (same_key j k)) [
        | inl f ↦ rw (e, f) (rw (same, f) refl)
        | inr f ↦ rw (e, f) (rw (same, f) refl)
      ]
  | inr e ↦ elim (Bool-cases (key_lt i j)) [
    | inl f ↦ rw (e, f) refl
    | inr f ↦ elim (Bool-cases (same_key j k)) [
      | inl g ↦ elim (Bool-cases (same_key i k)) [
        | inl h ↦ rw (e, f, g, h) refl
        | inr h ↦ rw (e, f, g, h) refl
      ]
      | inr g ↦ rw (e, f, g) (occurs-insert_key k i js)
    ]
  ]
]

pub occurs-listed : (k : List ℕ) (es : Entries) → occurs k (listed es) ≡ has_value (lookup_in es k)
unfolding occurs has_value
occurs-listed k [] = refl
occurs-listed k ((i, v) ∷ es) = elim (Bool-cases (same_key i k)) [
  | inl e ↦ occurs-insert_key k i (listed es) ∙ rw (e) refl
  | inr e ↦ occurs-insert_key k i (listed es) ∙ rw (e) (occurs-listed k es)
]

key_lt_trans : (i j k : List ℕ) → key_lt i j ≡ true → key_lt j k ≡ true → key_lt i k ≡ true
unfolding key_lt
key_lt_trans [] [] k f h = cc
key_lt_trans (a ∷ i) [] k f h = cc
key_lt_trans [] (b ∷ j) [] f h = cc
key_lt_trans [] (b ∷ j) (c ∷ k) f h = refl
key_lt_trans (a ∷ i) (b ∷ j) [] f h = cc
key_lt_trans (a ∷ i) (b ∷ j) (c ∷ k) f h = ground (arith, key_lt_trans i j k)

key_lt_total : (i j : List ℕ) → same_key i j ≡ false → key_lt i j ≡ false → key_lt j i ≡ true
unfolding key_lt same_key
key_lt_total [] [] f h = cc
key_lt_total [] (b ∷ j) f h = cc
key_lt_total (a ∷ i) [] f h = refl
key_lt_total (a ∷ i) (b ∷ j) f h = ground (arith, key_lt_total i j)

All-insert_key :
    (P : List ℕ → Type 0) (i : List ℕ) (ks : List (List ℕ))
    → P i
    → All P ks
    → All P (insert_key i ks)
All-insert_key P i [] p ps = (p, tt)
All-insert_key P i (j ∷ js) p (q, ps) = elim (Bool-cases (same_key i j)) [
  | inl e ↦ rw e (q, ps)
  | inr e ↦ elim (Bool-cases (key_lt i j)) [
    | inl f ↦ rw (e, f) (p, (q, ps))
    | inr f ↦ rw (e, f) (q, All-insert_key P i js p ps)
  ]
]

All-below :
    (i j : List ℕ) (ks : List (List ℕ))
    → key_lt i j ≡ true
    → All (λ k. key_lt j k ≡ true) ks
    → All (λ k. key_lt i k ≡ true) ks
All-below i j [] e h = tt
All-below i j (k ∷ ks) e (f, h) = (key_lt_trans i j k e f, All-below i j ks e h)

insert_key-IsOrdered :
    (i : List ℕ) (ks : List (List ℕ)) → IsOrdered ks → IsOrdered (insert_key i ks)
insert_key-IsOrdered i [] h = (tt, tt)
insert_key-IsOrdered i (j ∷ js) (h, hs) = elim (Bool-cases (same_key i j)) [
  | inl e ↦ rw e (h, hs)
  | inr e ↦ elim (Bool-cases (key_lt i j)) [
    | inl f ↦ rw (e, f) ((f, All-below i j js f h), (h, hs))
    | inr f ↦
        rw (e, f) (All-insert_key _ i js (key_lt_total i j e f) h, insert_key-IsOrdered i js hs)
  ]
]

pub listed-IsOrdered : (es : Entries) → IsOrdered (listed es)
listed-IsOrdered [] = tt
listed-IsOrdered ((k, v) ∷ es) = insert_key-IsOrdered k (listed es) (listed-IsOrdered es)

abbrev found_in : Option (List ℕ) → Bool × List ℕ
found_in none = (false, [])
found_in (some v) = (true, v)

abbrev pub entries : Rocks
entries = record {
  Db = Entries;
  DbStatus = Bool;
  status_ok = λ s. s;
  status_not_found = λ s. if s then false else true;
  status_text = λ s. [];
  get = λ db k. found_in (lookup_in db k);
  put = λ db k v. (true, (k, v) ∷ db);
  delete = λ db k. (true, erase k db);
  Iter = List (List ℕ);
  new_iterator = listed;
  seek = λ it p. from_key p it;
  valid = is_some_key;
  key = head_key;
  next = tail_keys;
  starts_with = λ k p. is_prefix p k;
}

abbrev pub entries_laws : IterLaws entries
entries_laws = record {
  listing = listed;
  listing-IsOrdered = listed-IsOrdered;
  ahead = λ it. it;
  ahead-seek = λ db p. refl;
  valid-ahead = λ it. refl;
  key-ahead = head_key-cons;
  ahead-next = tail_keys-cons;
  starts_with-is_prefix = λ k p. refl;
}

abbrev pub entries_store : StoreLaws entries entries_laws
entries_store = record {
  contents = lookup_in;
  get-found = λ db k v e. (rw e refl, rw e refl);
  get-missing = λ db k e. (rw e refl, rw e refl);
  put_ok = λ db k v. refl;
  contents-put = λ db k v j. refl;
  delete_ok = λ db k. refl;
  contents-delete = λ db k j. lookup_in-erase k db j;
  listing-contents = λ db k. occurs-listed k db;
}
