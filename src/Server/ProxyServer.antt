-- ===== src/Server/ProxyServer.antt =====
-- src/server/server.cc with the workers of src/server/sharding_proxy_worker_factory.cc.
use sqpkv.Prelude.{ℕ, suc, ◌≡◌, refl, some, List, ◌∷◌}
use sqpkv.Sockets.{Sockets}
use sqpkv.Network.{Network, sock_connect_to}
use sqpkv.Status.{of_status, err_errno, is_ok}
use sqpkv.ShardingProxyWorker.Create.{create_proxy-refused}
use sqpkv.Server.{Server, after_create, after_accept, accept_one, accept_loop}
use sqpkv.Server.Factories.{create_proxy_worker, proxy_workers}

module _ (S : Sockets) (N : Network S) (hostname : List ℕ) (hostnames : List (List ℕ))
    (port : ℕ) where
  create_proxy_worker-refused :
      (client fd : ℕ) (w w1 : Sockets.World S)
      → sock_connect_to S N w hostname port ≡ (some (suc fd), w1)
      → create_proxy_worker S N (hostname ∷ hostnames) port w client
        ≡ (of_status (err_errno (S.errno_text w1)), w1)
  unfolding create_proxy_worker is_ok
  create_proxy_worker-refused client fd w w1 e =
      rw (create_proxy_worker, create_proxy-refused S N port hostname hostnames client fd w w1 e)
        (rw (create_proxy-refused S N port hostname hostnames client fd w w1 e) refl)

  -- The first client that a proxy server accepts ends its loop without a worker, when the connection to
  -- the first shard is made on a descriptor other than 0.
  pub accept_loop-proxy_workers :
      (fuel sock_fd client fd : ℕ)
      (server : Server S N (proxy_workers S N (hostname ∷ hostnames) port))
      (w w1 w2 : Sockets.World S)
      → N.accept w sock_fd ≡ (some client, w1)
      → sock_connect_to S N w1 hostname port ≡ (some (suc fd), w2)
      → accept_loop S N (proxy_workers S N (hostname ∷ hostnames) port) (suc fuel) server sock_fd w
        ≡ some (server, w2)
  unfolding accept_loop accept_one after_accept after_create is_ok
  accept_loop-proxy_workers fuel sock_fd client fd server w w1 w2 accepted connected =
      rw accepted (rw (create_proxy_worker-refused client fd w1 w2 connected) refl)
