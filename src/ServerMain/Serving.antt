-- ===== src/ServerMain/Serving.antt =====
-- A shard of the cluster from main of src/server/main.cc on.
use sqpkv.Prelude.{ℕ, ◌<◌, ◌≡◌, refl, Bool, true, false, some, List, length, lt→ltb}
use sqpkv.Prelude.Int.{pos}
use sqpkv.Rocks.{Rocks}
use sqpkv.Sockets.{Sockets}
use sqpkv.Network.{Network}
use sqpkv.Server.{Workers, get_instance}
use sqpkv.Server.Accepting.{Serves, start-Serves}
use sqpkv.Server.Factories.{kv_workers, proxy_workers}
use sqpkv.ServerLauncher.{Mpi, ServerLauncher}
use sqpkv.ServerLauncher.Numbers.{same_int}
use sqpkv.ServerLauncher.Launch.{
  proxy_main, Machine, shard_main, ready, init_sharding_config, main_of, run_launcher,
}
use sqpkv.ServerMain.{
  finished, on_signal, exit_of, finalized, serve_with, run_proxy, run_shard, serve_main, run_to_end,
  main_program,
}

module _ (S : Sockets) (N : Network S) where
  -- The workers of a process: those of the proxy, or those of a shard.
  abbrev pub workers_for : Bool → List (List ℕ) → ℕ → Workers S
  workers_for true ip_addresses port = proxy_workers S N ip_addresses port
  workers_for false ip_addresses port = kv_workers S

  -- With a socket that is bound to the port, accept gives these clients and then fails, and these workers are
  -- made for them; the world at the end.
  abbrev pub Accepts :
      (W : Workers S)
      → ℕ
      → List ℕ
      → List (Workers.Worker W)
      → Sockets.World S
      → Sockets.World S
      → Type 0
  Accepts W port clients workers w w' =
      (fd : ℕ) × (w1 : Sockets.World S) × (w2 : Sockets.World S) × (N.open_socket w ≡ (some fd, w1))
      × (N.bind_port w1 fd port ≡ (true, w2))
      × Serves S N W fd clients workers (N.listen w2 fd) w'

  -- The server has these workers when Start has returned.
  abbrev pub Serving :
      (W : Workers S) → ℕ → ℕ → List (Workers.Worker W) → Sockets.World S → Sockets.World S → Type 0
  Serving W fuel port workers w w' =
      (fd : ℕ) × (serve_with S N fuel W port w
        ≡ some (finished (record { workers = workers; port = port; sock_fd = some fd }), w'))

  serve_with-Accepts :
      (W : Workers S) (fuel port : ℕ) (clients : List ℕ) (workers : List (Workers.Worker W))
      (w w' : Sockets.World S)
      → length clients < fuel
      → 0 < port
      → Accepts W port clients workers w w'
      → Serving W fuel port workers w w'
  unfolding serve_with get_instance
  serve_with-Accepts W fuel port clients workers w w' enough has_port
        (fd, w1, w2, opened, bound, serves) =
      (
        fd,
        rw (serve_with, get_instance, lt→ltb 0 port has_port)
            (rw
              (start-Serves S N W clients workers fuel fd port w w1 w2 w' enough opened bound
                serves)
              refl),
      )

module _ (R : Rocks) (M : Mpi) (S : Sockets) (N : Network S) where
  exits_with :
      (is_proxy : Bool) (l : ServerLauncher R) (fuel port : ℕ)
      (workers : List (Workers.Worker (workers_for S N is_proxy l.ip_addresses port)))
      (w w' : Sockets.World S)
      → Serving S N (workers_for S N is_proxy l.ip_addresses port) fuel port workers w w'
      → serve_main R M S N fuel port
          (elim is_proxy [ true ↦ proxy_main l.ip_addresses | false ↦ shard_main l.db ])
          w
        ≡ some (finalized 0, w')
  unfolding serve_main run_proxy run_shard exit_of
  exits_with true l fuel port workers w w' (fd, e) = rw e refl
  exits_with false l fuel port workers w w' (fd, e) = rw e refl

  -- A process whose launch is ready, with a signal handler and a port. Its kind of workers is the proxy's
  -- where its shard id is 0. Its socket is opened and bound, and it accepts some clients, for each of
  -- which a worker of this kind is created, until accept fails. When Start has returned, its server has
  -- these workers, in the order in which the clients came; MPI is finalized, and main returns 0. (More
  -- rounds than there are clients are enough; a worker's thread that faults, which would end the process,
  -- is no part of the run.)
  pub main_program-Accepts :
      (machine : Machine R M) (l : ServerLauncher R) (fuel port : ℕ) (clients : List ℕ)
      (workers : List
        (Workers.Worker (workers_for S N (same_int l.shard_id (pos 0)) l.ip_addresses port)))
      (messages messages' : Mpi.World M) (w w' : Sockets.World S)
      → init_sharding_config R M machine messages ≡ some (ready l, messages')
      → length clients < fuel
      → 0 < port
      → Accepts S N
          (workers_for S N (same_int l.shard_id (pos 0)) l.ip_addresses port)
          port
          clients
          workers
          w
          w'
      → Serving S N
          (workers_for S N (same_int l.shard_id (pos 0)) l.ip_addresses port)
          fuel
          port
          workers
          w
          w'
        × (main_program R M S N true fuel port machine messages w
            ≡ some (finalized 0, messages', w'))
  unfolding main_program run_to_end run_launcher main_of on_signal
  main_program-Accepts machine l fuel port clients workers messages messages' w w' launched enough
        has_port accepts =
      let serving =
        serve_with-Accepts S N (workers_for S N (same_int l.shard_id (pos 0)) l.ip_addresses port)
          fuel port clients workers w w' enough has_port accepts in
      (
        serving,
        rw (main_program, run_to_end, run_launcher, launched)
            (rw (exits_with (same_int l.shard_id (pos 0)) l fuel port workers w w' serving) refl),
      )
