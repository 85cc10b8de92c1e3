-- ===== src/Tests/Servers.antt =====
-- The theorems about the server and its workers at concrete inputs.
use sqpkv.Prelude.{◌>>=◌, ℕ, ◌≡◌, refl, true, Option, none, some, List, [], ◌∷◌, All, arith}
use sqpkv.Sockets.{Sockets}
use sqpkv.Network.{Network, sock_connect_to}
use sqpkv.KvWorker.{new_worker, KvWorker}
use sqpkv.ShardingProxyWorker.{proxy_for, create_proxy}
use sqpkv.ShardingProxyWorker.Create.{create_proxy-zero}
use sqpkv.Server.{Server, new_server, start, stop_server, destroy_server, accept_loop}
use sqpkv.Server.Accepting.{Serves}
use sqpkv.Server.Stopping.{closed, stopped_server, start-stop_server}
use sqpkv.Server.Factories.{kv_workers, proxy_workers}
use sqpkv.Server.ProxyServer.{accept_loop-proxy_workers}
use sqpkv.Tests.Net.{toy_net}

abbrev pub next_client : Sockets.World toy_net → Option ℕ × Sockets.World toy_net
next_client ([], written) = (none, ([], written))
next_client (client ∷ clients, written) = (some client, (clients, written))

-- Every socket has this descriptor, every host is found, and the clients come from the stream of bytes.
abbrev pub toy_network : ℕ → Network toy_net
toy_network fd = record {
  Address = ℕ;
  open_socket = λ w. (some fd, w);
  resolve = λ w hostname port. some port;
  connect = λ w sockfd server. (true, w);
  bind_port = λ w sockfd port. (true, w);
  listen = λ w sockfd. w;
  accept = λ w sockfd. next_client w;
}

abbrev pub two_workers : List KvWorker
two_workers = new_worker 7 ∷ new_worker 8 ∷ []

start-stop_server_example :
    (start toy_net
          (toy_network 5)
          (kv_workers toy_net)
          3
          (new_server toy_net (toy_network 5) (kv_workers toy_net) 4242)
          (7 ∷ 8 ∷ [], [])
        >>= λ r. stop_server toy_net (toy_network 5) (kv_workers toy_net) r.0 r.1)
      ≡ some (stopped_server toy_net (toy_network 5) 4242 (7 ∷ 8 ∷ []), ([], []))
    × (stop_server toy_net
          (toy_network 5)
          (kv_workers toy_net)
          (stopped_server toy_net (toy_network 5) 4242 (7 ∷ 8 ∷ []))
          ([], [])
        ≡ none)
    × (destroy_server toy_net
          (toy_network 5)
          (kv_workers toy_net)
          (stopped_server toy_net (toy_network 5) 4242 (7 ∷ 8 ∷ []))
          ([], [])
        ≡ none)
unfolding Serves closed
start-stop_server_example =
    start-stop_server toy_net (toy_network 5) 7 (8 ∷ []) two_workers 3 5 4242 (7 ∷ 8 ∷ [], [])
      (7 ∷ 8 ∷ [], []) (7 ∷ 8 ∷ [], []) ([], []) ([], []) (omega arith) refl refl
      (_, _, _, _, refl, refl, refl, (_, _, _, _, refl, refl, refl, (refl, refl)))

create_proxy-zero_example : All (λ (fd : ℕ). fd ≡ 0) (0 ∷ 0 ∷ [])
unfolding create_proxy sock_connect_to
create_proxy-zero_example =
    create_proxy-zero toy_net (toy_network 0) 4242 ((b'a' ∷ []) ∷ (b'b' ∷ []) ∷ []) 7
      (record (proxy_for 2 (0 ∷ 0 ∷ [])) { clientfd = 7 }) ([], []) ([], []) refl

abbrev proxies :
    Server toy_net (toy_network 5) (proxy_workers toy_net (toy_network 5) ((b'a' ∷ []) ∷ []) 4242)
proxies = record { workers = []; port = 4242; sock_fd = some 4 }

accept_loop-proxy_workers_example :
    accept_loop toy_net
      (toy_network 5)
      (proxy_workers toy_net (toy_network 5) ((b'a' ∷ []) ∷ []) 4242)
      1
      proxies
      4
      (7 ∷ 8 ∷ [], [])
    ≡ some (proxies, (8 ∷ [], []))
unfolding sock_connect_to
accept_loop-proxy_workers_example =
    accept_loop-proxy_workers toy_net (toy_network 5) (b'a' ∷ []) [] 4242 0 4 7 4 proxies
      (7 ∷ 8 ∷ [], []) (8 ∷ [], []) (8 ∷ [], []) refl refl
