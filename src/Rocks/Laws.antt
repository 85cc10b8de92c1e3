-- ===== src/Rocks/Laws.antt =====
-- What the program relies on from RocksDB's iterators, as documented: a scan meets the keys in order.
use sqpkv.Prelude.{ℕ, ◌≡◌, Bool, true, false, List, [], ◌∷◌}
use sqpkv.Rocks.{Rocks}
use sqpkv.Rocks.Keys.{is_prefix, from_key, IsOrdered}

abbrev pub is_some_key : List (List ℕ) → Bool
is_some_key [] = false
is_some_key (_ ∷ _) = true

pub record IterLaws (R : Rocks) : Type 0 where
  -- the keys of the database, in order
  pub listing : Rocks.Db R → List (List ℕ)
  pub listing-IsOrdered : (db : Rocks.Db R) → IsOrdered (listing db)
  -- the keys that an iterator is still to meet, the one at its position first
  pub ahead : Rocks.Iter R → List (List ℕ)
  pub ahead-seek :
      (db : Rocks.Db R) (p : List ℕ)
      → ahead (R.seek (R.new_iterator db) p) ≡ from_key p (listing db)
  pub valid-ahead : (it : Rocks.Iter R) → R.valid it ≡ is_some_key (ahead it)
  pub key-ahead :
      (it : Rocks.Iter R) (k : List ℕ) (ks : List (List ℕ)) → ahead it ≡ k ∷ ks → R.key it ≡ k
  pub ahead-next :
      (it : Rocks.Iter R) (k : List ℕ) (ks : List (List ℕ))
      → ahead it ≡ k ∷ ks
      → ahead (R.next it) ≡ ks
  pub starts_with-is_prefix : (k p : List ℕ) → R.starts_with k p ≡ is_prefix p k
