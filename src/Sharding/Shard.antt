-- ===== src/Sharding/Shard.antt =====
-- The shard of a key in src/server/sharding_policy.cc.
use sqpkv.Prelude.{ℕ, ◌%◌, ◌^◌, ◌<◌, ◌≡◌, refl, false, none, some, List, [], ◌∷◌, arith, ◌==◌}
use sqpkv.Prelude.Int.{pos, to_int32}
use sqpkv.TablePrefix.Laws.{IsName, key_of}
use sqpkv.Sharding.{behind_underscore, extract_key, RoundRobinShardingPolicy, get_shard_id}
use sqpkv.Sharding.Digits.{IsDigits, decimal_value, stoul-decimal_value}

behind_underscore-key_of :
    (table id : List ℕ) → IsName table → behind_underscore (key_of table id) ≡ some id
unfolding behind_underscore
behind_underscore-key_of [] id h = refl
behind_underscore-key_of (c ∷ table) id h = rw (h.0) (behind_underscore-key_of table id h.1)

-- A key that is a table's name, '_' and a decimal number below 2 ^ 31 is on the shard of that number
-- modulo the number of nodes, when there are nodes and the table's name has no '_'.
pub get_shard_id-key_of :
    (policy : RoundRobinShardingPolicy) (table : List ℕ) (c : ℕ) (digits : List ℕ)
    → IsName table
    → IsDigits (c ∷ digits)
    → decimal_value (c ∷ digits) < 2 ^ 31
    → 0 < policy.num_nodes
    → get_shard_id policy (key_of table (c ∷ digits))
      ≡ some (pos (decimal_value (c ∷ digits) % policy.num_nodes))
unfolding get_shard_id extract_key
get_shard_id-key_of policy table c digits named numeric small nodes =
    rw (behind_underscore-key_of table (c ∷ digits) named) (
      rw (stoul-decimal_value c digits numeric (omega arith)) (rw (as_int _ small) (rw some_nodes)))
  where
    some_nodes : (policy.num_nodes == 0) ≡ false
    some_nodes = ground arith

    as_int : (v : ℕ) → v < 2 ^ 31 → to_int32 v ≡ pos v
    as_int v h = ground arith

no_underscore : (key : List ℕ) → IsName key → behind_underscore key ≡ none
unfolding behind_underscore
no_underscore [] h = refl
no_underscore (c ∷ key) h = rw h.0 (no_underscore key h.1)

-- A key with no '_' has no shard: the loop over its bytes reads past its end.
get_shard_id-no_underscore :
    (policy : RoundRobinShardingPolicy) (key : List ℕ) → IsName key → get_shard_id policy key ≡ none
unfolding get_shard_id extract_key
get_shard_id-no_underscore policy key h = rw (no_underscore key h)
