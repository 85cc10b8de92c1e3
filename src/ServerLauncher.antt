-- ===== src/ServerLauncher.antt =====
-- src/server/server_launcher.h and server_launcher.cc: how one of the processes of the cluster starts.
-- `none` is a fault, or a call of MPI that never returns.
pub mod Numbers
pub mod NumberLaws
pub mod HandShake
pub mod Saves
pub mod FirstStart
pub mod Program
pub mod Agreement
pub mod Validity
pub mod Deadlock
pub mod Commit
pub mod Addresses
pub mod Ip
pub mod Launch
pub mod Failure
use sqpkv.Prelude.{
  ℕ, zero, suc, ◌+◌, ◌-◌, Bool, true, false, ◌&&◌, Option, none, some, List, [], ◌∷◌, ◌++◌, ◌==◌,
  if◌then◌else◌, ◌>>=◌,
}
use sqpkv.Prelude.Int.{ℤ, pos, negsuc}
use sqpkv.Rocks.{Rocks}
use sqpkv.ServerLauncher.Numbers.{to_string, stoi, minus_one, same_int}

-- The calls of MPI, which is not part of the repository, on the state of the messages of this process:
-- an MPI_Recv of an int or of characters from a rank, which does not return where nothing ever comes,
-- MPI_Send, and MPI_Bcast of an int with its root.
pub record Mpi : Type 1 where
  pub World : Type 0
  pub recv_int : World → ℕ → Option (ℤ × World)
  pub send_int : World → ℕ → ℤ → World
  pub bcast_int : World → ℕ → ℤ → Option (ℤ × World)
  pub recv_chars : World → ℕ → ℤ → Option (List ℕ × World)
  pub send_chars : World → ℕ → List ℕ → World

abbrev pub shard_id_key : List ℕ
shard_id_key = b's' ∷ b'h' ∷ b'a' ∷ b'r' ∷ b'd' ∷ b'_' ∷ b'i' ∷ b'd' ∷ []

-- id_to_rank[id], the pairs put in last first: a key that is not there gives 0.
unfoldable pub rank_of : List (ℤ × ℕ) → ℤ → ℕ
rank_of [] id = 0
rank_of ((i, rank) ∷ ids) id = elim (same_int i id) [ true ↦ rank | false ↦ rank_of ids id ]

-- The proxy's rank behind the shard id of one more rank.
unfoldable pub next_proxy : ℤ → ℕ → ℤ → ℤ
next_proxy proxy_rank rank comm_shard_id = elim (same_int comm_shard_id minus_one) [
  | true ↦ minus_one
  | false ↦ elim (same_int proxy_rank minus_one) [
    | true ↦ proxy_rank
    | false ↦ elim (same_int comm_shard_id (pos 0)) [ true ↦ pos rank | false ↦ proxy_rank ]
  ]
]

-- int save_success as it is sent, and as it is read.
abbrev pub int_of : Bool → ℤ
int_of true = pos 1
int_of false = pos 0

abbrev pub truth_of : ℤ → Bool
truth_of (pos zero) = false
truth_of _ = true

module _ (R : Rocks) where
  -- The fields of ServerLauncher, once MPI has told the rank and the size.
  pub record ServerLauncher : Type 0 where
    pub shard_id : ℤ
    pub world_size : ℕ
    pub world_rank : ℕ
    pub proxy_rank : ℤ
    pub db : Option (Rocks.Db R)
    pub ip_addresses : List (List ℕ)
    pub id_to_rank : List (ℤ × ℕ)

  -- ServerLauncher(), MPI_Comm_rank and MPI_Comm_size
  abbrev pub new_launcher : ℕ → ℕ → ServerLauncher
  new_launcher rank size = record {
    shard_id = minus_one;
    world_size = size;
    world_rank = rank;
    proxy_rank = minus_one;
    db = none;
    ip_addresses = [];
    id_to_rank = [];
  }

  -- OpenDb(): `open_at` is rocksdb::DB::Open at a path, which gives a null pointer where it fails.
  unfoldable pub open_db : (List ℕ → Option (Rocks.Db R)) → List ℕ → ServerLauncher → ServerLauncher
  open_db open_at kv_path launcher = record launcher {
    db = open_at (kv_path ++ to_string launcher.world_rank);
  }

  -- GetShardId()
  unfoldable pub get_shard_id : ServerLauncher → Option ServerLauncher
  unfolding stoi
  get_shard_id launcher = elim launcher.db [
    | none ↦ some (record launcher { shard_id = minus_one })
    | some db ↦
        let (s, shard_id_value) = R.get db shard_id_key in
        elim (R.status_ok s) [
          | true ↦ do shard_id ← stoi shard_id_value; some (record launcher { shard_id = shard_id })
          | false ↦ elim (R.status_not_found s) [
            | true ↦ some (record launcher { shard_id = pos launcher.world_rank })
            | false ↦ some (record launcher { shard_id = minus_one })
          ]
        ]
  ]

module _ (R : Rocks) (M : Mpi) where
  -- The loop of rank 0 in ShakeHands over the `n` ranks from `rank` on: the proxy's rank and the map.
  unfoldable pub collect_ids :
      ℕ → ℕ → ℤ → List (ℤ × ℕ) → Mpi.World M → Option (ℤ × List (ℤ × ℕ) × Mpi.World M)
  unfolding next_proxy
  collect_ids zero rank proxy_rank ids w = some (proxy_rank, ids, w)
  collect_ids (suc n) rank proxy_rank ids w = do
    (comm_shard_id, w') ← M.recv_int w rank
    collect_ids n (suc rank) (next_proxy proxy_rank rank comm_shard_id)
        ((comm_shard_id, rank) ∷ ids) w'

  -- The first part of ShakeHands: every rank learns the proxy's rank.
  unfoldable pub elect : ServerLauncher R → Mpi.World M → Option (ServerLauncher R × Mpi.World M)
  unfolding collect_ids
  elect launcher w = elim (launcher.world_rank == 0) [
    | true ↦ do
      (proxy_rank, ids, w1) ←
          collect_ids (launcher.world_size - 1) 1
            (if same_int launcher.shard_id minus_one then minus_one else pos 0)
            ((launcher.shard_id, 0) ∷ launcher.id_to_rank) w
      (proxy_rank', w2) ← M.bcast_int w1 0 proxy_rank
      some (record launcher { proxy_rank = proxy_rank'; id_to_rank = ids }, w2)
    | false ↦ do
      let w1 = M.send_int w 0 launcher.shard_id
      (proxy_rank', w2) ← M.bcast_int w1 0 launcher.proxy_rank
      some (record launcher { proxy_rank = proxy_rank' }, w2)
  ]

  -- The loop of the proxy over the save results of the `n` shards from `shard_id` on.
  unfoldable pub collect_saves :
      ℕ → ℕ → List (ℤ × ℕ) → Bool → Mpi.World M → Option (Bool × Mpi.World M)
  unfolding rank_of
  collect_saves zero shard_id ids save_success w = some (save_success, w)
  collect_saves (suc n) shard_id ids save_success w = do
    (comm_save_success, w') ← M.recv_int w (rank_of ids (pos shard_id))
    collect_saves n (suc shard_id) ids (truth_of comm_save_success && save_success) w'

  -- The second part of ShakeHands, with the rank of the proxy: every rank saves its own rank, and
  -- learns whether all have done it.
  unfoldable pub preserve :
      ℕ → ServerLauncher R → Mpi.World M → Option (ServerLauncher R × Mpi.World M)
  unfolding collect_saves
  preserve proxy launcher w = do
    db ← launcher.db
    let (s, db') = R.put db shard_id_key (to_string launcher.world_rank)
    (save_success, w1) ← (elim (launcher.world_rank == proxy) [
      | true ↦ do
        (all_saved, v) ←
            collect_saves (launcher.world_size - 1) 1 launcher.id_to_rank (R.status_ok s) w
        M.bcast_int v proxy (int_of all_saved)
      | false ↦
          M.bcast_int (M.send_int w proxy (int_of (R.status_ok s))) proxy (int_of (R.status_ok s))
    ])
    some (
      record launcher {
        db = some db';
        proxy_rank = if truth_of save_success then launcher.proxy_rank else minus_one;
      },
      w1,
    )

  -- ShakeHands(): no rank below -1 is ever broadcast.
  unfoldable pub shake_hands :
      ServerLauncher R → Mpi.World M → Option (ServerLauncher R × Mpi.World M)
  unfolding elect preserve
  shake_hands launcher w = do
    (elected, w1) ← elect launcher w
    elim elected.proxy_rank [
      | negsuc n ↦ some (elected, w1)
      | pos proxy ↦ preserve proxy elected w1
    ]
