-- ===== src/Tests/Programs.antt =====
-- The theorems about src/server/main.cc at a concrete input: a cluster of one process, which has saved a shard id.
use sqpkv.Prelude.{ℕ, ◌<◌, ◌≡◌, refl, true, some, List, [], ◌∷◌, arith}
use sqpkv.Prelude.Int.{pos}
use sqpkv.Status.{is_ok}
use sqpkv.Server.Accepting.{Serves}
use sqpkv.Server.Factories.{kv_workers}
use sqpkv.ServerLauncher.{
  ServerLauncher, new_launcher, shake_hands, elect, collect_ids, collect_saves, preserve,
  get_shard_id, open_db, next_proxy, rank_of,
}
use sqpkv.ServerLauncher.Numbers.{stoi, to_string, digits_of}
use sqpkv.ServerLauncher.Addresses.{find_ip, get_infiniband_ip}
use sqpkv.ServerLauncher.Launch.{
  Machine, ready, init_sharding_config, collect_ips, resolve_ip_addresses,
}
use sqpkv.ServerMain.{finalized, main_program}
use sqpkv.ServerMain.Finalized.{main_program-finalized}
use sqpkv.ServerMain.Serving.{Accepts, Serving, main_program-Accepts}
use sqpkv.Tests.Launcher.{keeping, toy_mpi, own, Inbox, interfaces}
use sqpkv.Tests.Net.{toy_net}
use sqpkv.Tests.Servers.{toy_network, two_workers}

abbrev alone : Machine keeping (toy_mpi own)
alone = record {
  rank = 0;
  size = 1;
  open_at = λ path. some (b'2' ∷ []);
  kv_path = b'k' ∷ [];
  interfaces = some interfaces;
  errno_text = [];
}

abbrev silent : Inbox
silent rank = []

abbrev alone_ready : ServerLauncher keeping
alone_ready = record (new_launcher keeping 0 1) {
  shard_id = pos 2;
  proxy_rank = pos 0;
  db = some (b'0' ∷ []);
  id_to_rank = (pos 2, 0) ∷ [];
}

launched :
    init_sharding_config keeping (toy_mpi own) alone silent ≡ some (ready alone_ready, silent)
unfolding init_sharding_config shake_hands elect collect_ids collect_saves preserve get_shard_id
    open_db next_proxy stoi to_string digits_of find_ip get_infiniband_ip collect_ips
    resolve_ip_addresses is_ok rank_of
launched = refl

abbrev clients : List ℕ × List ℕ
clients = (7 ∷ 8 ∷ [], [])

abbrev accepts_two :
    Accepts toy_net
      (toy_network 5)
      (kv_workers toy_net)
      4242
      (7 ∷ 8 ∷ [])
      two_workers
      clients
      ([], [])
unfolding Serves
accepts_two = (
  5,
  clients,
  clients,
  refl,
  refl,
  (_, _, _, _, refl, refl, refl, (_, _, _, _, refl, refl, refl, (refl, refl))),
)

main_program-Accepts_example :
    Serving toy_net (toy_network 5) (kv_workers toy_net) 3 4242 two_workers clients ([], [])
    × (main_program keeping (toy_mpi own) toy_net (toy_network 5) true 3 4242 alone silent clients
        ≡ some (finalized 0, silent, ([], [])))
main_program-Accepts_example =
    main_program-Accepts keeping (toy_mpi own) toy_net (toy_network 5) alone alone_ready 3 4242
      (7 ∷ 8 ∷ []) two_workers silent silent clients ([], []) launched (omega arith) (omega arith)
      accepts_two

abbrev code : ℕ
code = 0

main_program-finalized_example :
    (true ≡ true)
    × (code ≡ 0)
    × (0 < 4242)
    × ((l : ServerLauncher keeping) × (init_sharding_config keeping (toy_mpi own) alone silent
          ≡ some (ready l, silent)))
main_program-finalized_example =
    main_program-finalized keeping (toy_mpi own) toy_net (toy_network 5) true 3 4242 0 alone silent
      silent clients ([], [])
      (main_program-Accepts keeping (toy_mpi own) toy_net (toy_network 5) alone alone_ready 3 4242
        (7 ∷ 8 ∷ []) two_workers silent silent clients ([], []) launched (omega arith) (omega arith)
        accepts_two).1
