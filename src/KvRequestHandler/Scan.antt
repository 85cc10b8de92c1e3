-- ===== src/KvRequestHandler/Scan.antt =====
-- The key loop of src/server/kv_request_handler.cc over a RocksDB iterator.
use sqpkv.Prelude.{
  ℕ, zero, suc, ◌<◌, ◌≡◌, ap, ◌∙◌, some, List, [], ◌∷◌, ◌++◌, arith, append_assoc, append-nil,
  length, Bool-cases, inl, inr,
}
use sqpkv.Rocks.{Rocks}
use sqpkv.Rocks.Keys.{
  is_prefix, take_prefixed, from_key, matching, scan-matching, length-from_key-le,
}
use sqpkv.Rocks.Laws.{IterLaws}
use sqpkv.KvRequestHandler.{collect_keys}

module _ (R : Rocks) (L : IterLaws R) where
  collect_keys-ahead :
      (ks : List (List ℕ)) (fuel : ℕ) (it : Rocks.Iter R) (p : List ℕ) (acc : List (List ℕ))
      → L.ahead it ≡ ks
      → length ks < fuel
      → collect_keys R fuel it p acc ≡ some (acc ++ take_prefixed p ks)
  unfolding collect_keys take_prefixed
  collect_keys-ahead ks zero it p acc e h = elim h [ ]
  collect_keys-ahead [] (suc fuel) it p acc e h = rw (L.valid-ahead it) (rw e (rw append-nil))
  collect_keys-ahead (k ∷ ks) (suc fuel) it p acc e h = rw (L.valid-ahead it) (
      rw e (
        rw (L.key-ahead it k ks e) (
          rw (L.starts_with-is_prefix k p) (elim (Bool-cases (is_prefix p k)) [
            | inl yes_prefix ↦ rw yes_prefix (
                collect_keys-ahead ks fuel (R.next it) p (acc ++ (k ∷ [])) (L.ahead-next it k ks e)
                  (omega arith)
                ∙ ap some (append_assoc acc (k ∷ []) (take_prefixed p ks)))
            | inr no_prefix ↦ rw no_prefix (rw append-nil)
          ]))))

  -- With fuel for every key of the database the loop ends, and the keys are those with the prefix,
  -- in order.
  pub collect_keys-matching :
      (fuel : ℕ) (db : Rocks.Db R) (p : List ℕ)
      → length (L.listing db) < fuel
      → collect_keys R fuel (R.seek (R.new_iterator db) p) p [] ≡ some (matching p (L.listing db))
  collect_keys-matching fuel db p h =
      collect_keys-ahead (from_key p (L.listing db)) fuel (R.seek (R.new_iterator db) p) p []
        (L.ahead-seek db p) (omega (arith, length-from_key-le p (L.listing db)))
      ∙ ap some (scan-matching p (L.listing db) (L.listing-IsOrdered db))
