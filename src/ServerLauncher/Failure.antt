-- ===== src/ServerLauncher/Failure.antt =====
-- How the processes of src/server/server_launcher.cc end when one of them has no database.
use sqpkv.Prelude.{suc, ◌≡◌, refl, none, some, List, ◌++◌, length}
use sqpkv.Prelude.Int.{ℤ}
use sqpkv.Rocks.{Rocks}
use sqpkv.ServerLauncher.{Mpi, new_launcher, open_db, get_shard_id}
use sqpkv.ServerLauncher.Numbers.{to_string}
use sqpkv.ServerLauncher.HandShake.{MpiLaws, has_failed, Sent, shake_hands-refused}
use sqpkv.ServerLauncher.Launch.{Machine, failure, init_sharding_config, main_of, run_launcher}

module _ (R : Rocks) (M : Mpi) (L : MpiLaws M) where
  get_shard_id-closed :
      (machine : Machine R M)
      → machine.open_at (machine.kv_path ++ to_string machine.rank) ≡ none
      → get_shard_id R
          (open_db R machine.open_at machine.kv_path (new_launcher R machine.rank machine.size))
        ≡ some (new_launcher R machine.rank machine.size)
  unfolding get_shard_id open_db
  get_shard_id-closed machine closed = rw closed (rw closed refl)

  -- A process of rank 0 whose database does not open, to which each other rank has sent its shard id, exits
  -- with a failure and never serves, whatever these shard ids are. (A broadcast of rank 0 gives rank 0 its
  -- own value.)
  pub run_launcher-closed :
      (machine : Machine R M) (ids : List ℤ) (w : Mpi.World M)
      → machine.open_at (machine.kv_path ++ to_string machine.rank) ≡ none
      → machine.rank ≡ 0
      → machine.size ≡ suc (length ids)
      → Sent R M L 1 ids w
      → ((x : ℤ) (v : Mpi.World M) → (v' : Mpi.World M) × (M.bcast_int v 0 x ≡ some (x, v')))
      → (w' : Mpi.World M) × (run_launcher R M machine w ≡ some (failure, w'))
  unfolding run_launcher init_sharding_config main_of has_failed
  run_launcher-closed machine ids w closed rank_0 size sent own =
      let (known, w1, e) =
        shake_hands-refused R M L (new_launcher R machine.rank machine.size) ids w rank_0 size sent
          own refl in
      (w1, rw (run_launcher, init_sharding_config, get_shard_id-closed machine closed) (rw e refl))
