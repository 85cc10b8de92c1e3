-- ===== src/Server/Stopping.antt =====
-- What Stop of src/server/server.cc closes, and what a second Stop does, as the destructor calls it.
use sqpkv.Prelude.{
  length, ◌<◌, ◌>>=◌, ℕ, ◌≡◌, refl, sym, ap, ◌∙◌, true, false, none, some, List, [], ◌∷◌, map,
}
use sqpkv.Sockets.{Sockets}
use sqpkv.Network.{Network}
use sqpkv.KvWorker.{KvWorker, new_worker, stop}
use sqpkv.Status.{StatusOr}
use sqpkv.Server.Accepting.{Serves, start-Serves}
use sqpkv.Server.{start, Server, new_server, stop_workers, stop_server, destroy_server}
use sqpkv.Server.Factories.{kv_workers}

module _ (S : Sockets) (N : Network S) where
  -- The sockets are closed one after the other.
  unfoldable pub closed : List ℕ → Sockets.World S → Sockets.World S
  closed [] w = w
  closed (fd ∷ fds) w = closed fds (S.close w fd)

  abbrev pub stopped_worker : ℕ → KvWorker
  stopped_worker client = record { clientfd = none; joinable = false }

  stop_workers-closed :
      (clients : List ℕ) (w : Sockets.World S)
      → stop_workers S N (kv_workers S) (map new_worker clients) w
        ≡ some (map stopped_worker clients, closed clients w)
  unfolding stop_workers stop closed
  stop_workers-closed [] w = refl
  stop_workers-closed (client ∷ clients) w =
      rw (stop_workers-closed clients (S.close w client)) refl

  -- The workers that a server of this class has made for its clients
  Serves-new_worker :
      (fd : ℕ) (clients : List ℕ) (workers : List KvWorker) (w w' : Sockets.World S)
      → Serves S N (kv_workers S) fd clients workers w w'
      → workers ≡ map new_worker clients
  unfolding Serves
  Serves-new_worker fd [] workers w w' (none_left, _) = none_left
  Serves-new_worker fd (client ∷ clients) workers w w'
        (w1, w2, worker, rest, _, created, split, later) =
      split
      ∙ ap (λ x. x ∷ rest) (sym (ap worker_of created))
      ∙ ap (λ xs. new_worker client ∷ xs) (Serves-new_worker fd clients rest w2 w' later)
    where
      worker_of : StatusOr KvWorker × Sockets.World S → KvWorker
      worker_of (result, w) = elim result.obj [ none ↦ new_worker client | some x ↦ x ]

  abbrev pub stopped_server : ℕ → List ℕ → Server S N (kv_workers S)
  stopped_server port clients = record {
    workers = map stopped_worker clients;
    port = port;
    sock_fd = none;
  }

  -- A new server of the class that serves the database, whose socket is opened and bound to the port, and which
  -- accepts some clients until accept fails, returns from Start. Stop closes then its socket and the socket of each client,
  -- in the order in which they came, once their threads end. A second Stop faults, and so does the destructor,
  -- which calls it. (More rounds than there are clients are enough.)
  pub start-stop_server :
      (client : ℕ) (clients : List ℕ) (workers : List KvWorker) (fuel fd port : ℕ)
      (w w1 w2 w' later : Sockets.World S)
      → length (client ∷ clients) < fuel
      → N.open_socket w ≡ (some fd, w1)
      → N.bind_port w1 fd port ≡ (true, w2)
      → Serves S N (kv_workers S) fd (client ∷ clients) workers (N.listen w2 fd) w'
      → (start S N (kv_workers S) fuel (new_server S N (kv_workers S) port) w >>= λ r.
            stop_server S N (kv_workers S) r.0 r.1)
          ≡ some (stopped_server port (client ∷ clients), closed (fd ∷ client ∷ clients) w')
        × (stop_server S N (kv_workers S) (stopped_server port (client ∷ clients)) later ≡ none)
        × (destroy_server S N (kv_workers S) (stopped_server port (client ∷ clients)) later ≡ none)
  unfolding stop_server destroy_server stop_workers stop closed
  start-stop_server client clients workers fuel fd port w w1 w2 w' later enough opened bound
        serves =
      (
        rw
            (start-Serves S N (kv_workers S) (client ∷ clients) workers fuel fd port w w1 w2 w'
              enough opened bound serves)
            (rw
              (
                stop_server,
                Serves-new_worker fd (client ∷ clients) workers (N.listen w2 fd) w' serves,
                stop_workers-closed (client ∷ clients) (S.close w' fd),
              )
              refl),
        refl,
        refl,
      )
