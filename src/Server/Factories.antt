-- ===== src/Server/Factories.antt =====
-- src/server/kv_worker_factory.cc and sharding_proxy_worker_factory.cc: the two classes of workers.
use sqpkv.Prelude.{ℕ, true, false, none, some, List}
use sqpkv.Sockets.{Sockets}
use sqpkv.Network.{Network}
use sqpkv.Status.{StatusOr, of_obj, of_status, is_ok}
use sqpkv.KvWorker.{new_worker, KvWorker, stop}
use sqpkv.ShardingProxyWorker.{Stoppable, create_proxy, stop_proxy}
use sqpkv.Server.{Workers}

-- KvWorkerFactory: the thread of the worker is its run.
abbrev pub kv_workers : (S : Sockets) → Workers S
kv_workers S = record {
  Worker = KvWorker;
  stop = stop S;
  create_worker = λ w client_fd. (of_obj (some (new_worker client_fd)), w);
}

-- ShardingProxyWorkerFactory::CreateWorker
unfoldable pub create_proxy_worker :
    (S : Sockets)
    → Network S
    → List (List ℕ)
    → ℕ
    → Sockets.World S
    → ℕ
    → StatusOr Stoppable × Sockets.World S
unfolding create_proxy is_ok
create_proxy_worker S N hostnames port w client_fd =
    let (proxy, w1) = create_proxy S N hostnames port client_fd w in
    elim (is_ok proxy.status) [
      | false ↦ (of_status proxy.status, w1)
      | true ↦ elim proxy.obj [
        | none ↦ (of_obj none, w1)
        | some p ↦ (of_obj (some (some p.clientfd, p.shard_servers, true)), w1)
      ]
    ]

-- ShardingProxyWorkerFactory(hostnames, port); its thread has been started.
abbrev pub proxy_workers : (S : Sockets) → Network S → List (List ℕ) → ℕ → Workers S
proxy_workers S N hostnames port = record {
  Worker = Stoppable;
  stop = stop_proxy S;
  create_worker = create_proxy_worker S N hostnames port;
}
