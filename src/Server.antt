-- ===== src/Server.antt =====
-- src/server/server.h and server.cc: the server that accepts clients and makes a worker for each;
-- src/server/worker.h and worker_factory.h as the interface that it uses.
pub mod Accepting
pub mod Factories
pub mod ProxyServer
pub mod Stopping
use sqpkv.Prelude.{
  ◌>>=◌, ℕ, zero, suc, Bool, true, false, ◌&&◌, Option, none, some, List, [], ◌∷◌, ◌++◌, ltb,
  if◌then◌else◌,
}
use sqpkv.Sockets.{Sockets}
use sqpkv.Network.{Network}
use sqpkv.Status.{StatusOr, is_ok}

-- A class of workers with the factory that makes them: Worker and WorkerFactory.
pub record Workers (S : Sockets) : Type 1 where
  pub Worker : Type 0
  pub stop : Sockets.World S → Worker → Option (Worker × Sockets.World S)
  pub create_worker : Sockets.World S → ℕ → StatusOr Worker × Sockets.World S

module _ (S : Sockets) (N : Network S) (W : Workers S) where
  -- The fields of the server; -1 is `none`.
  pub record Server : Type 0 where
    pub workers : List (Workers.Worker W)
    pub port : ℕ
    pub sock_fd : Option ℕ

  -- Server(worker_factory, port)
  abbrev pub new_server : ℕ → Server
  new_server port = record { workers = []; port = port; sock_fd = none }

  -- GetInstance(worker_factory, port): the static `instance` before, and it after the call, which is
  -- what the call returns. The port is not negative.
  unfoldable pub get_instance : Option Server → ℕ → Option Server
  get_instance none port = if ltb 0 port then some (new_server port) else none
  get_instance (some instance) port = some instance

  -- workers_.push_back(worker.Get()) for an OK result, else `false`
  pub push_worker : Server → Workers.Worker W → Server
  push_worker server worker = record server { workers = server.workers ++ (worker ∷ []) }

  -- Accept() behind CreateWorker. An OK result with a null pointer, which no factory gives, would push
  -- the null pointer; it is left out of the list.
  pub after_create :
      Server → StatusOr (Workers.Worker W) × Sockets.World S → Bool × Server × Sockets.World S
  unfolding is_ok push_worker
  after_create server (worker, w) = elim (is_ok worker.status) [
    | false ↦ (false, server, w)
    | true ↦ elim worker.obj [
      | none ↦ (true, server, w)
      | some created ↦ (true, push_worker server created, w)
    ]
  ]

  -- Accept() behind accept.
  pub after_accept : Server → Option ℕ × Sockets.World S → Bool × Server × Sockets.World S
  unfolding after_create
  after_accept server (none, w) = (false, server, w)
  after_accept server (some client_fd, w) = after_create server (W.create_worker w client_fd)

  -- Accept()
  pub accept_one : Server → ℕ → Sockets.World S → Bool × Server × Sockets.World S
  unfolding after_accept
  accept_one server sock_fd w = after_accept server (N.accept w sock_fd)

  abbrev pub go_on :
      (Server → Sockets.World S → Option (Server × Sockets.World S))
      → Bool × Server × Sockets.World S
      → Option (Server × Sockets.World S)
  go_on later (false, server, w) = some (server, w)
  go_on later (true, server, w) = later server w

  -- while (Accept()) {}: `fuel` calls of Accept; `none` where they are not enough.
  pub accept_loop : ℕ → Server → ℕ → Sockets.World S → Option (Server × Sockets.World S)
  unfolding accept_one
  accept_loop zero server sock_fd w = none
  accept_loop (suc fuel) server sock_fd w =
      go_on (λ server' w'. accept_loop fuel server' sock_fd w') (accept_one server sock_fd w)

  -- Start()
  pub start : ℕ → Server → Sockets.World S → Option (Server × Sockets.World S)
  unfolding accept_loop
  start fuel server w =
      let w1 = (N.open_socket w).1 in
      elim (N.open_socket w).0 [
        | none ↦ some (record server { sock_fd = none }, w1)
        | some fd ↦
            let w2 = (N.bind_port w1 fd server.port).1 in
            elim (N.bind_port w1 fd server.port).0 [
              | false ↦ some (record server { sock_fd = some fd }, w2)
              | true ↦ accept_loop fuel (record server { sock_fd = some fd }) fd (N.listen w2 fd)
            ]
      ]

  -- The loop of Stop over the workers.
  pub stop_workers :
      List (Workers.Worker W) → Sockets.World S → Option (List (Workers.Worker W) × Sockets.World S)
  stop_workers [] w = some ([], w)
  stop_workers (worker ∷ workers) w = do
    (stopped, w1) ← W.stop w worker
    (rest, w2) ← stop_workers workers w1
    some (stopped ∷ rest, w2)

  -- Stop()
  pub stop_server : Server → Sockets.World S → Option (Server × Sockets.World S)
  unfolding stop_workers
  stop_server server w = do
    let w1 : Sockets.World S = elim server.sock_fd [ none ↦ w | some fd ↦ S.close w fd ]
    (stopped, w2) ← stop_workers server.workers w1
    some (record server { sock_fd = none; workers = stopped }, w2)

  -- ~Server()
  pub destroy_server : Server → Sockets.World S → Option (Sockets.World S)
  unfolding stop_server
  destroy_server server w = do (_, w') ← stop_server server w; some w'
