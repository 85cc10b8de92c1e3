-- ===== src/TablePrefix.antt =====
-- src/server/table_prefix_transform.h and table_prefix_transform.cc: the prefix of a key up to its
-- first '_', which RocksDB takes as the key's table.
pub mod Laws
use sqpkv.Prelude.{
  ℕ, ◌+◌, Bool, true, false, Option, none, some, List, [], ◌∷◌, take, ◌==◌, if◌then◌else◌, ◌>>=◌,
}

-- for (size_t i = 0; i < key.size_; i++) if (key[i] == '_') ..., from position `i` on
pub find_underscore : ℕ → List ℕ → Option ℕ
find_underscore i [] = none
find_underscore i (c ∷ key) = if c == b'_' then some i else find_underscore (i + 1) key

-- Transform: a key without '_' falls off the end of the function, a fault.
pub transform : List ℕ → Option (List ℕ)
unfolding find_underscore
transform key = do i ← find_underscore 0 key; some (take (i + 1) key)

-- InDomain
pub in_domain : List ℕ → Bool
unfolding find_underscore
in_domain key = elim (find_underscore 0 key) [ none ↦ false | some _ ↦ true ]
