-- ===== src/ShardingProxyWorker/Shards.antt =====
-- Which server src/server/sharding_proxy_worker.cc sends a key to.
use sqpkv.Prelude.{length, ℕ, suc, ◌%◌, ◌^◌, ◌<◌, ◌≡◌, refl, ◌∙◌, ap, none, List, ◌∷◌, arith}
use sqpkv.Prelude.Int.{pos}
use sqpkv.Sharding.Digits.{IsDigits, decimal_value}
use sqpkv.Sharding.Shard.{get_shard_id-key_of}
use sqpkv.TablePrefix.Laws.{IsName, key_of}
use sqpkv.ShardingProxyWorker.{ShardingProxyWorker, proxy_for, server_at, server_of, choose_server}

module _ (clientfd : ℕ) (server_fds : List ℕ) (table : List ℕ) (c : ℕ) (digits : List ℕ)
    (named : IsName table) (numeric : IsDigits (c ∷ digits))
    (small : decimal_value (c ∷ digits) < 2 ^ 31) (nodes : 0 < length server_fds) where
  shard : ℕ
  shard = decimal_value (c ∷ digits) % length server_fds

  choose_server-shard :
      choose_server (proxy_for clientfd server_fds) (key_of table (c ∷ digits))
      ≡ server_of server_fds (pos shard)
  unfolding choose_server shard
  choose_server-shard =
      rw
        (get_shard_id-key_of (ShardingProxyWorker.sharding_policy (proxy_for clientfd server_fds))
          table c digits named numeric small nodes)
        refl

  -- With servers, and a key that is a table's name, '_' and a decimal number below 2 ^ 31 and a
  -- multiple of the number of servers: the proxy reads before its vector of servers, a fault.
  pub choose_server-zero :
      decimal_value (c ∷ digits) % length server_fds ≡ 0
      → choose_server (proxy_for clientfd server_fds) (key_of table (c ∷ digits)) ≡ none
  unfolding shard server_of
  choose_server-zero e = choose_server-shard ∙ ap (λ n. server_of server_fds (pos n)) e

  -- With servers, and a key that is a table's name, '_' and a decimal number below 2 ^ 31 that leaves
  -- the remainder k + 1 by the number of servers: the proxy takes server k, which is never the last.
  pub choose_server-next :
      (k : ℕ)
      → decimal_value (c ∷ digits) % length server_fds ≡ suc k
      → (suc k < length server_fds)
        × (choose_server (proxy_for clientfd server_fds) (key_of table (c ∷ digits))
            ≡ server_at server_fds k)
  unfolding shard server_of
  choose_server-next k e =
      (omega arith, choose_server-shard ∙ ap (λ n. server_of server_fds (pos n)) e)
