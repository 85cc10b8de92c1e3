-- ===== src/ServerMain.antt =====
-- src/server/main.cc, and the part of src/server/server_launcher.cc that serves: Run, ProxyMain and ShardMain.
-- The flag port is not negative. Of the faults, that of a null server is told apart, which the flags bring
-- about. `none` is any other fault, which the handler of a segmentation fault ends with a failure too, a
-- wait for ever, or a server that is given more clients than `fuel`. A fault of a worker's thread, which
-- ends the process at any time, is no part of these runs.
pub mod Finalized
pub mod Serving
use sqpkv.Prelude.{
  ℕ, zero, suc, ◌≡◌, ◌⊎◌, inl, inr, refl, Bool, true, false, Option, none, some, List, [], ◌>>=◌,
}
use sqpkv.Rocks.{Rocks}
use sqpkv.Sockets.{Sockets}
use sqpkv.Network.{Network}
use sqpkv.Server.{Server, Workers, get_instance, start}
use sqpkv.Server.Factories.{kv_workers, proxy_workers}
use sqpkv.ServerLauncher.{Mpi}
use sqpkv.ServerLauncher.Launch.{Machine, Main, failure, proxy_main, shard_main, run_launcher}

-- How the program ends: exit(code) without MPI_Finalize, the return from main behind it, or a signal.
pub data Exit : Type 0 where
  exited : ℕ → Exit
  finalized : ℕ → Exit
  killed : ℕ → Exit

abbrev pub exit_failure : ℕ
exit_failure = 1

-- SIGSEGV
abbrev sigsegv : ℕ
sigsegv = 11

-- CrashHandler(sig)
pub crash_handler : ℕ → Exit
crash_handler sig = exited exit_failure

module _ (S : Sockets) (N : Network S) where
  -- What serving comes to: the server when Start has returned, or a segmentation fault, since Start has
  -- been called on a null pointer.
  pub data ServerRun (W : Workers S) : Type 0 where
    finished : Server S N W → ServerRun W
    no_server : ServerRun W

  -- The server of a new process with these workers: a port of 0 gives a null pointer, on which Start
  -- opens a socket before it writes to the object.
  pub serve_with :
      ℕ → (W : Workers S) → ℕ → Sockets.World S → Option (ServerRun W × Sockets.World S)
  unfolding get_instance
  serve_with fuel factory port w = elim (get_instance S N factory none port) [
    | none ↦ some (no_server, (N.open_socket w).1)
    | some server ↦ do (server', w') ← start S N factory fuel server w; some (finished server', w')
  ]

  -- ProxyMain()
  pub run_proxy :
      ℕ
      → (ip_addresses : List (List ℕ)) → (port : ℕ) → Sockets.World S
      → Option (ServerRun (proxy_workers S N ip_addresses port) × Sockets.World S)
  unfolding serve_with
  run_proxy fuel ip_addresses port = serve_with fuel (proxy_workers S N ip_addresses port) port

  -- ShardMain(): the workers share the database.
  pub run_shard : ℕ → ℕ → Sockets.World S → Option (ServerRun (kv_workers S) × Sockets.World S)
  unfolding serve_with
  run_shard fuel port = serve_with fuel (kv_workers S) port

  -- ProxyMain and ShardMain return 0, and Run finalizes MPI behind them.
  pub exit_of : {W : Workers S} → ServerRun W → Exit
  exit_of (finished server) = finalized 0
  exit_of no_server = killed sigsegv

module _ (R : Rocks) (M : Mpi) (S : Sockets) (N : Network S) where
  -- Run() behind InitShardingConfig
  pub serve_main : ℕ → ℕ → Main R M → Sockets.World S → Option (Exit × Sockets.World S)
  unfolding run_proxy run_shard exit_of
  serve_main fuel port failure w = some (exited exit_failure, w)
  serve_main fuel port (proxy_main ip_addresses) w = do
    (s, w') ← run_proxy S N fuel ip_addresses port w
    some (exit_of S N s, w')
  serve_main fuel port (shard_main db) w = do
    (s, w') ← run_shard S N fuel port w
    some (exit_of S N s, w')

  -- Run()
  pub run_to_end :
      ℕ
      → ℕ
      → Machine R M
      → Mpi.World M
      → Sockets.World S
      → Option (Exit × Mpi.World M × Sockets.World S)
  unfolding run_launcher serve_main
  run_to_end fuel port machine messages w = do
    (m, messages') ← run_launcher R M machine messages
    (e, w') ← serve_main fuel port m w
    some (e, messages', w')

  -- A signal that the handler takes
  pub on_signal : Exit → Exit
  unfolding crash_handler
  on_signal (killed sig) = crash_handler sig
  on_signal e = e

  -- main(), with what signal() answers in InstallSignalHandler
  pub main_program :
      Bool
      → ℕ
      → ℕ
      → Machine R M
      → Mpi.World M
      → Sockets.World S
      → Option (Exit × Mpi.World M × Sockets.World S)
  unfolding run_to_end on_signal
  main_program false fuel port machine messages w = some (exited exit_failure, messages, w)
  main_program true fuel port machine messages w = do
    (e, messages', w') ← run_to_end fuel port machine messages w
    some (on_signal e, messages', w')
