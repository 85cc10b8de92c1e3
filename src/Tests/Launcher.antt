-- ===== src/Tests/Launcher.antt =====
-- The theorems about src/server/server_launcher.cc at concrete inputs.
use sqpkv.Prelude.{
  ℕ, ◌≡◌, ◌≢◌, refl, Bool, true, false, Option, none, some, List, [], ◌∷◌, ◌==◌, ==_iff,
  if◌then◌else◌, arith,
}
use sqpkv.Rocks.{Rocks}
use sqpkv.Prelude.Int.{ℤ, pos}
use sqpkv.ServerLauncher.{Mpi, ServerLauncher, new_launcher, preserve, shake_hands, get_shard_id}
use sqpkv.ServerLauncher.Numbers.{minus_one, to_string}
use sqpkv.ServerLauncher.HandShake.{MpiLaws}
use sqpkv.ServerLauncher.Addresses.{Interface}
use sqpkv.ServerLauncher.Launch.{Machine}
use sqpkv.ServerLauncher.FirstStart.{every, Waits, shake_hands-first}
use sqpkv.ServerLauncher.Saves.{get_shard_id-preserve}
use sqpkv.Tests.Toy.{toy}

-- The ints that are to come from each rank
abbrev pub Inbox : Type 0
Inbox = ℕ → List ℤ

abbrev receive_from : Inbox → ℕ → List ℤ → Option (ℤ × Inbox)
receive_from w rank [] = none
receive_from w rank (x ∷ xs) = some (x, λ q. if q == rank then xs else w q)

-- Every broadcast gives what `heard` makes of the own value.
abbrev pub toy_mpi : (ℤ → ℤ) → Mpi
toy_mpi heard = record {
  World = Inbox;
  recv_int = λ w rank. receive_from w rank (w rank);
  send_int = λ w rank x. w;
  bcast_int = λ w root x. some (heard x, w);
  recv_chars = λ w rank n. none;
  send_chars = λ w rank bytes. w;
}

toy_mpi-next :
    (heard : ℤ → ℤ) (w : Inbox) (rank : ℕ) (x : ℤ) (xs : List ℤ)
    → w rank ≡ x ∷ xs
    → (w' : Inbox) × (receive_from w rank (w rank) ≡ some (x, w'))
      × (w' rank ≡ xs)
      × ((q : ℕ) → q ≢ rank → w' q ≡ w q)
toy_mpi-next heard w rank x xs e = (
  λ q. if q == rank then xs else w q,
  rw e refl,
  rw ((==_iff rank rank).1 refl) refl,
  λ q other. rw (differs q other) refl,
)
  where
    differs : (q : ℕ) → q ≢ rank → (q == rank) ≡ false
    differs q other = ground arith

toy_mpi-never : (w : Inbox) (rank : ℕ) → w rank ≡ [] → receive_from w rank (w rank) ≡ none
toy_mpi-never w rank e = rw e refl

abbrev toy_mpi_laws : (heard : ℤ → ℤ) → MpiLaws (toy_mpi heard)
toy_mpi_laws heard = record {
  waiting = λ w rank. w rank;
  recv_int-next = toy_mpi-next heard;
  recv_int-never = toy_mpi-never;
}

abbrev pub own : ℤ → ℤ
own x = x

abbrev proxy_1 : ℤ → ℤ
proxy_1 x = pos 1

-- What the ranks 1 and 2 send to rank 0
abbrev pub inbox : ℤ → ℤ → Inbox
inbox id_1 id_2 rank = if rank == 1 then id_1 ∷ [] else (if rank == 2 then id_2 ∷ [] else [])

abbrev pub rank_0 : ℤ → ServerLauncher toy
rank_0 id = record (new_launcher toy 0 3) { shard_id = id }

-- The process of rank 1, to which rank 0 sends that it has saved
abbrev rank_1 : ServerLauncher toy
rank_1 = record (new_launcher toy 1 3) { shard_id = pos 0; db = some (none, none) }

abbrev saved_0 : Inbox
saved_0 rank = if rank == 0 then pos 1 ∷ [] else []

-- A database that keeps whatever is put
abbrev pub keeping : Rocks
keeping = record {
  Db = List ℕ;
  DbStatus = Bool;
  status_ok = λ s. s;
  status_not_found = λ s. false;
  status_text = λ s. [];
  get = λ db key. (true, db);
  put = λ db key value. (true, value);
  delete = λ db key. (true, db);
  Iter = Unit;
  new_iterator = λ db. tt;
  seek = λ it key. it;
  valid = λ it. false;
  key = λ it. [];
  next = λ it. it;
  starts_with = λ k p. true;
}

abbrev shard_7 : ServerLauncher keeping
shard_7 = record (new_launcher keeping 2 3) { shard_id = pos 7; db = some [] }

abbrev shard_7_after : ServerLauncher keeping
shard_7_after = record shard_7 { db = some (to_string 2) }

get_shard_id-preserve_example :
    get_shard_id keeping shard_7_after ≡ some (record shard_7_after { shard_id = pos 2 })
unfolding preserve
get_shard_id-preserve_example =
    get_shard_id-preserve keeping (toy_mpi own) 0 shard_7 shard_7_after [] true saved_0 saved_0
      (omega arith) refl refl refl refl

abbrev pub address : ℕ → Interface
address last = record {
  name = b'i' ∷ b'b' ∷ b'0' ∷ [];
  has_address = true;
  is_inet = true;
  numeric_host = some (b'1' ∷ last ∷ []);
}

abbrev pub loopback : Interface
loopback = record {
  name = b'l' ∷ b'o' ∷ [];
  has_address = true;
  is_inet = true;
  numeric_host = some (b'0' ∷ []);
}

abbrev pub interfaces : List Interface
interfaces = loopback ∷ address b'1' ∷ address b'2' ∷ loopback ∷ []

-- The first of three processes, whose database does not open
abbrev machine : Machine toy (toy_mpi own)
machine = record {
  rank = 0;
  size = 3;
  open_at = λ path. none;
  kv_path = b'k' ∷ [];
  interfaces = some interfaces;
  errno_text = [];
}

-- The first start: the ranks 1 and 2 send their rank, and that they have saved it, or not.
abbrev first_inbox : Inbox
first_inbox rank =
    if rank == 1 then pos 1 ∷ pos 1 ∷ [] else (if rank == 2 then pos 2 ∷ pos 0 ∷ [] else [])

abbrev first_0 : ServerLauncher keeping
first_0 = record (new_launcher keeping 0 3) { shard_id = pos 0; db = some [] }

shake_hands-first_example :
    (known : List (ℤ × ℕ)) × (w' : Inbox) × (shake_hands keeping (toy_mpi own) first_0 first_inbox
      ≡ some (
        record first_0 {
          proxy_rank = if every (true ∷ true ∷ false ∷ []) then pos 0 else minus_one;
          db = some (to_string 0);
          id_to_rank = known;
        },
        w',
      ))
unfolding Waits
shake_hands-first_example =
    shake_hands-first keeping (toy_mpi own) (toy_mpi_laws own) first_0 [] (true ∷ false ∷ [])
      first_inbox refl refl refl refl (([], refl), (([], refl), tt)) (λ x v. (v, refl, λ q. refl))
