-- ===== src/ShardingProxyWorker/Create.antt =====
-- When src/server/sharding_proxy_worker.cc creates a proxy.
use sqpkv.Prelude.{
  ℕ, zero, suc, ◌≡◌, inl, inr, refl, none, some, List, [], ◌∷◌, ◌++◌, All, Option-cases, Bool-cases,
}
use mathlib.Core.Path.{subst}
use sqpkv.Sockets.{Sockets}
use sqpkv.Network.{Network, sock_connect_to}
use sqpkv.Status.{StatusOr, of_obj, of_status, err_errno, is_ok}
use sqpkv.ShardingProxyWorker.{ShardingProxyWorker, connect_all, create_proxy, close_all}

module _ (S : Sockets) (N : Network S) (port : ℕ) where
  zero-append : (xs : List ℕ) → All (λ fd. fd ≡ 0) xs → All (λ fd. fd ≡ 0) (xs ++ (0 ∷ []))
  zero-append [] h = (refl, tt)
  zero-append (x ∷ xs) h = (h.0, zero-append xs h.1)

  connect_all-zero :
      (hostnames : List (List ℕ)) (before : List ℕ) (w : Sockets.World S)
      → All (λ fd. fd ≡ 0) before
      → All (λ fd. fd ≡ 0) (connect_all S N hostnames port before w).1
  unfolding connect_all
  connect_all-zero [] before w h = h
  connect_all-zero (hostname ∷ hostnames) before w h =
      elim (Option-cases (sock_connect_to S N w hostname port).0) [
        | inl e ↦ rw (connect_all, e) h
        | inr (zero, e) ↦
            rw (connect_all, e)
              ((connect_all-zero hostnames (before ++ (0 ∷ []))
                (sock_connect_to S N w hostname port).1 (zero-append before h)))
        | inr (suc fd, e) ↦ rw (connect_all, e) h
      ]

  abbrev servers_of : StatusOr ShardingProxyWorker → List ℕ
  servers_of r = elim r.obj [ none ↦ [] | some proxy ↦ proxy.shard_servers ]

  created-zero :
      (hostnames : List (List ℕ)) (clientfd : ℕ) (w : Sockets.World S)
      → All (λ fd. fd ≡ 0) (servers_of (create_proxy S N hostnames port clientfd w).0)
  unfolding create_proxy
  created-zero hostnames clientfd w =
      elim (Bool-cases (is_ok (connect_all S N hostnames port [] w).0)) [
        | inl good ↦ rw (create_proxy, good) (connect_all-zero hostnames [] w tt)
        | inr bad ↦ rw (create_proxy, bad) tt
      ]

  -- Every server of a proxy that CreateProxy creates has the descriptor 0, whatever the hosts answer.
  pub create_proxy-zero :
      (hostnames : List (List ℕ)) (clientfd : ℕ) (proxy : ShardingProxyWorker)
      (w w' : Sockets.World S)
      → create_proxy S N hostnames port clientfd w ≡ (of_obj (some proxy), w')
      → All (λ fd. fd ≡ 0) proxy.shard_servers
  create_proxy-zero hostnames clientfd proxy w w' e =
      subst
        (λ (r : StatusOr ShardingProxyWorker × Sockets.World S).
          All (λ fd. fd ≡ 0) (servers_of r.0))
        e (created-zero hostnames clientfd w)

  connect_all-refused :
      (hostname : List ℕ) (hostnames : List (List ℕ)) (fd : ℕ) (w w1 : Sockets.World S)
      → sock_connect_to S N w hostname port ≡ (some (suc fd), w1)
      → connect_all S N (hostname ∷ hostnames) port [] w ≡ (err_errno (S.errno_text w1), [], w1)
  unfolding connect_all
  connect_all-refused hostname hostnames fd w w1 e = rw (connect_all, e) (rw e refl)

  -- Where the connection to the first host is made, on a descriptor that is not 0, CreateProxy gives an
  -- error with the text of errno and leaves the connection open.
  pub create_proxy-refused :
      (hostname : List ℕ) (hostnames : List (List ℕ)) (clientfd fd : ℕ) (w w1 : Sockets.World S)
      → sock_connect_to S N w hostname port ≡ (some (suc fd), w1)
      → create_proxy S N (hostname ∷ hostnames) port clientfd w
        ≡ (of_status (err_errno (S.errno_text w1)), w1)
  unfolding create_proxy is_ok close_all
  create_proxy-refused hostname hostnames clientfd fd w w1 e =
      rw (create_proxy, connect_all-refused hostname hostnames fd w w1 e)
        (rw (connect_all-refused hostname hostnames fd w w1 e) refl)
