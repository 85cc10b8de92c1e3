-- ===== src/Tests/Toy.antt =====
-- A small database with RocksDB's operations: two keys, "t_1" and "t_2", each with a value or none.
-- Another key is answered by a status that is not OK.
use sqpkv.Prelude.{
  ℕ, ◌≡◌, refl, Bool, true, false, Option, none, some, List, [], ◌∷◌, if◌then◌else◌, ◌&&◌, ◌==◌,
}
use sqpkv.Rocks.{Rocks}
use sqpkv.Rocks.Keys.{is_prefix, key_lt, from_key, IsOrdered}
use sqpkv.Rocks.Laws.{IterLaws, is_some_key}

abbrev pub key_1 : List ℕ
key_1 = b't' ∷ b'_' ∷ b'1' ∷ []

abbrev pub key_2 : List ℕ
key_2 = b't' ∷ b'_' ∷ b'2' ∷ []

abbrev pub prefix : List ℕ
prefix = b't' ∷ b'_' ∷ []

abbrev pub value_a : List ℕ
value_a = b'a' ∷ []

abbrev pub ToyDb : Type 0
ToyDb = Option (List ℕ) × Option (List ℕ)

abbrev same : List ℕ → List ℕ → Bool
same [] [] = true
same [] (b ∷ k) = false
same (a ∷ j) [] = false
same (a ∷ j) (b ∷ k) = a == b && same j k

abbrev found : Option (List ℕ) → Bool × List ℕ
found none = (false, [])
found (some v) = (true, v)

abbrev pub toy_get : ToyDb → List ℕ → Bool × List ℕ
toy_get db k =
    if same k key_1 then found db.0 else (if same k key_2 then found db.1 else (false, []))

abbrev pub toy_put : ToyDb → List ℕ → List ℕ → Bool × ToyDb
toy_put db k v =
    if same k key_1
    then (true, (some v, db.1))
    else (if same k key_2 then (true, (db.0, some v)) else (false, db))

abbrev pub toy_delete : ToyDb → List ℕ → Bool × ToyDb
toy_delete db k =
    if same k key_1
    then (true, (none, db.1))
    else (if same k key_2 then (true, (db.0, none)) else (true, db))

abbrev pub toy_listing : ToyDb → List (List ℕ)
toy_listing (none, none) = []
toy_listing (none, some v) = key_2 ∷ []
toy_listing (some v, none) = key_1 ∷ []
toy_listing (some v, some w) = key_1 ∷ key_2 ∷ []

abbrev pub head_key : List (List ℕ) → List ℕ
head_key [] = []
head_key (k ∷ ks) = k

abbrev pub tail_keys : List (List ℕ) → List (List ℕ)
tail_keys [] = []
tail_keys (k ∷ ks) = ks

abbrev pub toy : Rocks
toy = record {
  Db = ToyDb;
  DbStatus = Bool;
  status_ok = λ s. s;
  status_not_found = λ s. if s then false else true;
  status_text = λ s. if s then b'O' ∷ b'K' ∷ [] else b'N' ∷ b'o' ∷ [];
  get = toy_get;
  put = toy_put;
  delete = toy_delete;
  Iter = List (List ℕ);
  new_iterator = toy_listing;
  seek = λ it p. from_key p it;
  valid = is_some_key;
  key = head_key;
  next = tail_keys;
  starts_with = λ k p. is_prefix p k;
}

pub toy_listing-IsOrdered : (db : ToyDb) → IsOrdered (toy_listing db)
unfolding key_lt
toy_listing-IsOrdered (none, none) = tt
toy_listing-IsOrdered (none, some v) = (tt, tt)
toy_listing-IsOrdered (some v, none) = (tt, tt)
toy_listing-IsOrdered (some v, some w) = ((refl, tt), (tt, tt))

pub head_key-cons :
    (it : List (List ℕ)) (k : List ℕ) (ks : List (List ℕ)) → it ≡ k ∷ ks → head_key it ≡ k
head_key-cons it k ks e = rw e

pub tail_keys-cons :
    (it : List (List ℕ)) (k : List ℕ) (ks : List (List ℕ)) → it ≡ k ∷ ks → tail_keys it ≡ ks
tail_keys-cons it k ks e = rw e

abbrev pub toy_laws : IterLaws toy
toy_laws = record {
  listing = toy_listing;
  listing-IsOrdered = toy_listing-IsOrdered;
  ahead = λ it. it;
  ahead-seek = λ db p. refl;
  valid-ahead = λ it. refl;
  key-ahead = head_key-cons;
  ahead-next = tail_keys-cons;
  starts_with-is_prefix = λ k p. refl;
}

abbrev pub both : Rocks.Db toy
both = (some value_a, some [])
