-- ===== src/ServerMain/Finalized.antt =====
-- When the program of src/server/main.cc returns from main.
use sqpkv.Prelude.{
  ℕ, zero, suc, ◌<◌, ◌≡◌, refl, Bool, true, false, Option, none, some, arith, ◌>>=◌, Option-cases,
  inl, inr, lt→ltb, ltb,
}
use mathlib.Core.Path.{subst}
use sqpkv.Rocks.{Rocks}
use sqpkv.Sockets.{Sockets}
use sqpkv.Network.{Network}
use sqpkv.Server.{Workers, get_instance, start, new_server}
use sqpkv.Server.Factories.{kv_workers, proxy_workers}
use sqpkv.ServerLauncher.{Mpi, ServerLauncher}
use sqpkv.ServerLauncher.Launch.{
  Machine, Main, failure, proxy_main, shard_main, exits, ready, init_sharding_config, main_of,
  run_launcher,
}
use sqpkv.ServerMain.{
  Exit, exited, finalized, killed, exit_of, on_signal, crash_handler, serve_with, run_proxy,
  run_shard, serve_main, run_to_end, main_program,
}

-- A return from main has the code 0 and needs a port.
Returns : ℕ → Exit → Type 0
Returns port (finalized code) = (code ≡ 0) × (0 < port)
Returns port (exited code) = Unit
Returns port (killed sig) = Unit

abbrev AllReturn : {B : Type 0} → ℕ → Option (Exit × B) → Type 0
AllReturn port none = Unit
AllReturn port (some r) = Returns port r.0

module _ (S : Sockets) (N : Network S) where
  serving :
      (fuel : ℕ) (factory : Workers S) (port : ℕ) (w : Sockets.World S)
      → AllReturn port (serve_with S N fuel factory port w >>= λ r. some (exit_of S N r.0, r.1))
  unfolding serve_with get_instance exit_of Returns
  serving fuel factory zero w = tt
  serving fuel factory (suc port) w =
      let has_port : ltb 0 (suc port) ≡ true = lt→ltb 0 (suc port) (omega arith) in
      elim (Option-cases (start S N factory fuel (new_server S N factory (suc port)) w)) [
        | inl e ↦ rw (serve_with, has_port, e) tt
        | inr (r, e) ↦ rw (serve_with, has_port, e) (refl, omega arith)
      ]

module _ (R : Rocks) (M : Mpi) (S : Sockets) (N : Network S) where
  serve_main-AllReturn :
      (fuel port : ℕ) (m : Main R M) (w : Sockets.World S)
      → AllReturn port (serve_main R M S N fuel port m w)
  unfolding serve_main run_proxy run_shard Returns
  serve_main-AllReturn fuel port failure w = tt
  serve_main-AllReturn fuel port (proxy_main ip_addresses) w =
      serving S N fuel (proxy_workers S N ip_addresses port) port w
  serve_main-AllReturn fuel port (shard_main db) w = serving S N fuel (kv_workers S) port w

  -- How the program has been launched when it returns from main with a code.
  Launched : Bool → ℕ → Machine R M → Mpi.World M → Exit → Mpi.World M → Type 0
  Launched signal_set port machine messages (finalized code) messages' =
      (signal_set ≡ true)
      × (code ≡ 0)
      × (0 < port)
      × ((l : ServerLauncher R) × (init_sharding_config R M machine messages
            ≡ some (ready l, messages')))
  Launched signal_set port machine messages (exited code) messages' = Unit
  Launched signal_set port machine messages (killed sig) messages' = Unit

  abbrev AllLaunched :
      Bool → ℕ → Machine R M → Mpi.World M → Option (Exit × Mpi.World M × Sockets.World S) → Type 0
  AllLaunched signal_set port machine messages none = Unit
  AllLaunched signal_set port machine messages (some r) =
      Launched signal_set port machine messages r.0 r.1

  abbrev finishing :
      Mpi.World M → Option (Exit × Sockets.World S) → Option (Exit × Mpi.World M × Sockets.World S)
  finishing messages gone = do (e, w) ← gone; some (e, messages, w)

  ready-AllLaunched :
      (port : ℕ) (machine : Machine R M) (messages messages' : Mpi.World M) (l : ServerLauncher R)
      (r : Option (Exit × Sockets.World S))
      → init_sharding_config R M machine messages ≡ some (ready l, messages')
      → AllReturn port r
      → AllLaunched true port machine messages
          (finishing messages' r >>= λ u. some (on_signal R M S N u.0, u.1, u.2))
  unfolding on_signal Returns Launched crash_handler
  ready-AllLaunched port machine messages messages' l none known h = tt
  ready-AllLaunched port machine messages messages' l (some (finalized code, w)) known h =
      (refl, h.0, h.1, (l, known))
  ready-AllLaunched port machine messages messages' l (some (exited code, w)) known h = tt
  ready-AllLaunched port machine messages messages' l (some (killed sig, w)) known h = tt

  main_program-AllLaunched :
      (signal_set : Bool) (fuel port : ℕ) (machine : Machine R M) (messages : Mpi.World M)
      (w : Sockets.World S)
      → AllLaunched signal_set port machine messages
          (main_program R M S N signal_set fuel port machine messages w)
  unfolding main_program run_to_end run_launcher main_of on_signal serve_main Launched
  main_program-AllLaunched false fuel port machine messages w = tt
  main_program-AllLaunched true fuel port machine messages w =
      elim (Option-cases (init_sharding_config R M machine messages)) [
        | inl e ↦ rw (main_program, run_to_end, run_launcher, e) tt
        | inr ((exits, m1), e) ↦ rw (main_program, run_to_end, run_launcher, e) tt
        | inr ((ready l, m1), e) ↦
            rw (main_program, run_to_end, run_launcher, e)
              (ready-AllLaunched port machine messages m1 l
                (serve_main R M S N fuel port (main_of R M (ready l)) w) e
                (serve_main-AllReturn fuel port (main_of R M (ready l)) w))
      ]

  -- Whatever MPI, RocksDB, the sockets and signal() answer: where the program returns from main, it returns
  -- 0, the signal handler was set, the launch was ready, and the port is not 0.
  pub main_program-finalized :
      (signal_set : Bool) (fuel port code : ℕ) (machine : Machine R M)
      (messages messages' : Mpi.World M) (w w' : Sockets.World S)
      → main_program R M S N signal_set fuel port machine messages w
        ≡ some (finalized code, messages', w')
      → (signal_set ≡ true)
        × (code ≡ 0)
        × (0 < port)
        × ((l : ServerLauncher R) × (init_sharding_config R M machine messages
              ≡ some (ready l, messages')))
  unfolding Launched
  main_program-finalized signal_set fuel port code machine messages messages' w w' e =
      subst (AllLaunched signal_set port machine messages) e
        (main_program-AllLaunched signal_set fuel port machine messages w)
