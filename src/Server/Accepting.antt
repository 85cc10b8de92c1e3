-- ===== src/Server/Accepting.antt =====
-- What src/server/server.cc accepts.
use sqpkv.Prelude.{
  ℕ, zero, suc, ◌≡◌, ◌<◌, refl, ◌∙◌, true, false, none, some, List, [], ◌∷◌, ◌++◌, arith,
  append_assoc, append-nil, length,
}
use sqpkv.Sockets.{Sockets}
use sqpkv.Network.{Network}
use sqpkv.Status.{of_obj, is_ok}
use sqpkv.Server.{
  Workers, Server, new_server, push_worker, after_create, after_accept, accept_one, accept_loop,
  start,
}

module _ (S : Sockets) (N : Network S) (W : Workers S) where
  -- From this world on, accept gives these clients and then fails, and the factory makes these workers for
  -- them; the world at the end.
  unfoldable pub Serves :
      ℕ → List ℕ → List (Workers.Worker W) → Sockets.World S → Sockets.World S → Type 0
  Serves sock_fd [] workers w w' = (workers ≡ []) × (N.accept w sock_fd ≡ (none, w'))
  Serves sock_fd (client ∷ clients) workers w w' =
      (w1 : Sockets.World S) × (w2 : Sockets.World S) × (worker : Workers.Worker W) × (rest : List
        (Workers.Worker W))
      × (N.accept w sock_fd ≡ (some client, w1))
      × (W.create_worker w1 client ≡ (of_obj (some worker), w2))
      × (workers ≡ worker ∷ rest)
      × Serves sock_fd clients rest w2 w'

  module _ (sock_fd : ℕ) (server : Server S N W) (w w1 : Sockets.World S) where
    accept_one-failed :
        N.accept w sock_fd ≡ (none, w1) → accept_one S N W server sock_fd w ≡ (false, server, w1)
    unfolding accept_one after_accept
    accept_one-failed e = rw e refl

    accept_one-created :
        (client : ℕ) (worker : Workers.Worker W) (w2 : Sockets.World S)
        → N.accept w sock_fd ≡ (some client, w1)
        → W.create_worker w1 client ≡ (of_obj (some worker), w2)
        → accept_one S N W server sock_fd w ≡ (true, push_worker S N W server worker, w2)
    unfolding accept_one after_accept after_create is_ok
    accept_one-created client worker w2 e f = rw (e, f) refl

  -- The accept loop ends where accept fails first, after a worker for each client, in the order in which
  -- they came, behind the workers that there were.
  accept_loop-Serves :
      (clients : List ℕ) (workers : List (Workers.Worker W)) (fuel sock_fd : ℕ)
      (server : Server S N W) (w w' : Sockets.World S)
      → length clients < fuel
      → Serves sock_fd clients workers w w'
      → accept_loop S N W fuel server sock_fd w
        ≡ some (record server { workers = server.workers ++ workers }, w')
  unfolding accept_loop Serves push_worker
  accept_loop-Serves clients workers zero sock_fd server w w' h serves = elim h [ ]
  accept_loop-Serves [] workers (suc fuel) sock_fd server w w' h (none_left, failed) =
      rw (accept_one-failed sock_fd server w w' failed) (rw none_left (rw append-nil refl))
  accept_loop-Serves (client ∷ clients) workers (suc fuel) sock_fd server w w' h
        (w1, w2, worker, rest, accepted, created, split, later) =
      rw (accept_one-created sock_fd server w w1 client worker w2 accepted created) (
        accept_loop-Serves clients rest fuel sock_fd (push_worker S N W server worker) w2 w'
          (omega arith) later
        ∙ rw split (rw append_assoc refl))

  -- Once its socket is open and bound to the port, a new server makes a worker for each client that it
  -- accepts, in the order in which they come, until accept fails, and then Start returns. One call of
  -- Accept more than there are clients is enough.
  pub start-Serves :
      (clients : List ℕ) (workers : List (Workers.Worker W)) (fuel fd port : ℕ)
      (w w1 w2 w' : Sockets.World S)
      → length clients < fuel
      → N.open_socket w ≡ (some fd, w1)
      → N.bind_port w1 fd port ≡ (true, w2)
      → Serves fd clients workers (N.listen w2 fd) w'
      → start S N W fuel (new_server S N W port) w
        ≡ some (record { workers = workers; port = port; sock_fd = some fd }, w')
  unfolding start
  start-Serves clients workers fuel fd port w w1 w2 w' h opened bound serves =
      rw (start, opened)
        (rw (start, opened, bound)
          (rw (opened, bound)
            (accept_loop-Serves clients workers fuel fd
              (record { workers = []; port = port; sock_fd = some fd }) (N.listen w2 fd) w' h
              serves)))
