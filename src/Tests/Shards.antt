-- ===== src/Tests/Shards.antt =====
-- The theorems about table prefixes and shards at concrete keys.
use sqpkv.Prelude.{ℕ, ◌≡◌, refl, true, false, none, some, List, [], ◌∷◌, ◌++◌, arith, ◌⊎◌}
use sqpkv.Prelude.Int.{pos}
use sqpkv.TablePrefix.{transform, in_domain}
use sqpkv.TablePrefix.Laws.{IsName, key_of, transform_cases}
use sqpkv.Sharding.{RoundRobinShardingPolicy, get_shard_id}
use sqpkv.Sharding.Digits.{decimal_value}
use sqpkv.Sharding.Shard.{get_shard_id-key_of}

abbrev table : List ℕ
table = b't' ∷ b'b' ∷ []

abbrev policy : RoundRobinShardingPolicy
policy = record { num_nodes = 5 }

get_shard_id-key_of_example : get_shard_id policy (key_of table (b'1' ∷ b'7' ∷ [])) ≡ some (pos 2)
unfolding decimal_value
get_shard_id-key_of_example =
    get_shard_id-key_of policy table b'1' (b'7' ∷ []) (refl, (refl, tt))
      ((omega arith, omega arith), ((omega arith, omega arith), tt)) (omega arith) (omega arith)

transform_cases_example :
    ((in_domain (b'k' ∷ []) ≡ false) × (transform (b'k' ∷ []) ≡ none))
    ⊎ ((name : List ℕ) × (id : List ℕ) × IsName name
        × (b'k' ∷ [] ≡ key_of name id)
        × (in_domain (b'k' ∷ []) ≡ true)
        × (transform (b'k' ∷ []) ≡ some (name ++ (b'_' ∷ []))))
transform_cases_example = transform_cases (b'k' ∷ [])
