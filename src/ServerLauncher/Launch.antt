-- ===== src/ServerLauncher/Launch.antt =====
-- ResolveIpAddresses, InitShardingConfig and Run of src/server/server_launcher.cc.
use sqpkv.Prelude.{
  ℕ, zero, suc, ◌+◌, ◌-◌, Bool, true, false, Option, none, some, List, [], ◌∷◌, ◌++◌, drop, length,
  ◌==◌, if◌then◌else◌, ◌>>=◌,
}
use sqpkv.Prelude.Int.{ℤ, pos, negsuc}
use sqpkv.Rocks.{Rocks}
use sqpkv.Status.{Status, default_status, err_errno, is_ok}
use sqpkv.ServerLauncher.{
  Mpi, ServerLauncher, new_launcher, open_db, get_shard_id, shake_hands, rank_of, int_of, truth_of,
}
use sqpkv.ServerLauncher.Addresses.{Interface, get_infiniband_ip, c_string}
use sqpkv.ServerLauncher.Numbers.{minus_one, same_int}

module _ (R : Rocks) (M : Mpi) where
  -- The loop of the proxy over the addresses of the `n` shards from `shard_id` on. `buffer` is the array
  -- ip_address, of which each message takes the front.
  unfoldable pub collect_ips :
      ℕ
      → ℕ
      → List (ℤ × ℕ)
      → List ℕ
      → Bool
      → List (List ℕ)
      → Mpi.World M
      → Option (Bool × List (List ℕ) × Mpi.World M)
  unfolding rank_of c_string
  collect_ips zero shard_id ids buffer success ip_addresses w = some (success, ip_addresses, w)
  collect_ips (suc n) shard_id ids buffer success ip_addresses w = do
    let rank = rank_of ids (pos shard_id)
    (ip_address_size, w1) ← M.recv_int w rank
    elim (same_int ip_address_size minus_one) [
      | true ↦ collect_ips n (suc shard_id) ids buffer false ip_addresses w1
      | false ↦ do
        (bytes, w2) ← M.recv_chars w1 rank ip_address_size
        let buffer' = bytes ++ drop (length bytes) buffer
        ip_address ← c_string buffer'
        collect_ips n (suc shard_id) ids buffer' success (ip_addresses ++ (ip_address ∷ [])) w2
    ]

  -- ip_address_resolution_success ? Status::Ok() : Status::Err()
  abbrev resolution_status : List ℕ → ℤ → Status
  resolution_status errno_text success =
      if truth_of success then default_status else err_errno errno_text

  -- The branch of a shard, which gives its address to the proxy.
  tell_ip : Option (List ℕ) → ℕ → Mpi.World M → Option (ℤ × Mpi.World M)
  tell_ip none proxy w = M.bcast_int (M.send_int w proxy minus_one) proxy (pos 1)
  tell_ip (some ip_address) proxy w =
      M.bcast_int
        (M.send_chars (M.send_int w proxy (pos (length ip_address + 1))) proxy
          (ip_address ++ (0 ∷ [])))
        proxy (pos 1)

  -- ResolveIpAddresses(): `host` is the result of GetInfinibandIp, which the proxy does not look at: it
  -- writes the array to the file of its host name. Where the result is -1 this reads an array that was not
  -- filled (or holds an address from before a failing getnameinfo), which is taken for a fault.
  unfoldable pub resolve_ip_addresses :
      Option (List ℕ)
      → List ℕ
      → ServerLauncher R
      → Mpi.World M
      → Option (Status × ServerLauncher R × Mpi.World M)
  unfolding collect_ips tell_ip
  resolve_ip_addresses host errno_text launcher w = elim launcher.proxy_rank [
    | negsuc n ↦ none
    | pos proxy ↦ elim (launcher.world_rank == proxy) [
      | true ↦ do
        ip_address ← host
        (success, ip_addresses, w1) ←
            collect_ips (launcher.world_size - 1) 1 launcher.id_to_rank (ip_address ++ (0 ∷ []))
              true launcher.ip_addresses w
        (told, w2) ← M.bcast_int w1 proxy (int_of success)
        some
            (resolution_status errno_text told, record launcher { ip_addresses = ip_addresses }, w2)
      | false ↦ do
        (told, w1) ← tell_ip host proxy w
        some (resolution_status errno_text told, launcher, w1)
    ]
  ]

  -- What a process becomes: it exits with EXIT_FAILURE, or it is ready to serve.
  pub data Started : Type 0 where
    exits : Started
    ready : ServerLauncher R → Started

  -- What a process knows beside MPI: its rank, the number of processes, the databases, the flag kv_path,
  -- its interfaces, and the text of errno.
  pub record Machine : Type 0 where
    pub rank : ℕ
    pub size : ℕ
    pub open_at : List ℕ → Option (Rocks.Db R)
    pub kv_path : List ℕ
    pub interfaces : Option (List Interface)
    pub errno_text : List ℕ

  -- InitShardingConfig()
  unfoldable pub init_sharding_config : Machine → Mpi.World M → Option (Started × Mpi.World M)
  unfolding open_db get_shard_id shake_hands resolve_ip_addresses get_infiniband_ip is_ok
  init_sharding_config machine w = do
    known ←
        get_shard_id R
          (open_db R machine.open_at machine.kv_path (new_launcher R machine.rank machine.size))
    (shaken, w1) ← shake_hands R M known w
    elim (same_int shaken.proxy_rank minus_one) [
      | true ↦ some (exits, w1)
      | false ↦ do
        (s, resolved, w2) ←
            resolve_ip_addresses (get_infiniband_ip machine.interfaces) machine.errno_text shaken w1
        elim (is_ok s) [ false ↦ some (exits, w2) | true ↦ some (ready resolved, w2) ]
    ]

  -- What Run goes on with: ProxyMain with the addresses of the shards, or ShardMain with the database.
  pub data Main : Type 0 where
    failure : Main
    proxy_main : List (List ℕ) → Main
    shard_main : Option (Rocks.Db R) → Main

  -- Run(), up to the start of the server
  unfoldable pub main_of : Started → Main
  main_of exits = failure
  main_of (ready launcher) = elim (same_int launcher.shard_id (pos 0)) [
    | true ↦ proxy_main launcher.ip_addresses
    | false ↦ shard_main launcher.db
  ]

  unfoldable pub run_launcher : Machine → Mpi.World M → Option (Main × Mpi.World M)
  unfolding init_sharding_config main_of
  run_launcher machine w = do
    (started, w') ← init_sharding_config machine w
    some (main_of started, w')
