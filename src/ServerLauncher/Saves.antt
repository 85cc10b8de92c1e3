-- ===== src/ServerLauncher/Saves.antt =====
-- What ShakeHands of src/server/server_launcher.cc saves, and when its proxy waits for ever.
use sqpkv.Prelude.{
  ℕ, suc, ◌≡◌, ◌<◌, ◌^◌, refl, Bool, true, Option, none, some, [], ◌∷◌, arith, ◌>>=◌, Option-cases,
  inl, inr, ==_iff,
}
use mathlib.Core.Path.{subst}
use sqpkv.Prelude.Int.{ℤ, pos}
use sqpkv.Rocks.{Rocks}
use sqpkv.ServerLauncher.{
  Mpi, ServerLauncher, elect, preserve, shake_hands, collect_saves, rank_of, get_shard_id,
  shard_id_key,
}
use sqpkv.ServerLauncher.Numbers.{to_string}
use sqpkv.ServerLauncher.NumberLaws.{stoi-to_string}
use sqpkv.ServerLauncher.HandShake.{MpiLaws, one_less}
use sqpkv.Protocol.Frame.{not_zero}

module _ (R : Rocks) (M : Mpi) (L : MpiLaws M) where
  collect_saves-stuck :
      (n shard_id : ℕ) (saved : Bool) (x : ℤ) (w : Mpi.World M)
      → L.waiting w 0 ≡ x ∷ []
      → collect_saves R M (suc (suc n)) shard_id [] saved w ≡ none
  unfolding collect_saves rank_of
  collect_saves-stuck n shard_id saved x w e =
      let (w1, got, left, _) = L.recv_int-next w 0 x [] e in
      rw got (rw (L.recv_int-never w1 0 left) refl)

  preserve-stuck :
      (n proxy : ℕ) (launcher : ServerLauncher R) (x : ℤ) (w : Mpi.World M)
      → launcher.world_rank ≡ proxy
      → launcher.world_size ≡ suc (suc (suc n))
      → launcher.id_to_rank ≡ []
      → L.waiting w 0 ≡ x ∷ []
      → preserve R M proxy launcher w ≡ none
  unfolding preserve
  preserve-stuck n proxy launcher x w rank size ids e = elim (Option-cases launcher.db) [
    | inl closed ↦ rw (preserve, closed) refl
    | inr (db, opened) ↦
        rw (preserve, opened, rank, (==_iff proxy proxy).1 refl, size, ids, one_less (suc (suc n)))
          (rw
            (collect_saves-stuck n 1
              (R.status_ok (R.put db shard_id_key (to_string launcher.world_rank)).0) x w e)
            refl)
  ]

  -- A process of another rank than 0 that is told to be the proxy, among three processes or more, with an
  -- empty id_to_rank and one int to come from rank 0, never returns from ShakeHands (or faults on a
  -- database that is not open): it waits for the result of every shard from rank 0.
  pub shake_hands-stuck :
      (n rank : ℕ) (launcher : ServerLauncher R) (x : ℤ) (w w1 : Mpi.World M)
      → launcher.world_rank ≡ suc rank
      → launcher.world_size ≡ suc (suc (suc n))
      → launcher.id_to_rank ≡ []
      → M.bcast_int (M.send_int w 0 launcher.shard_id) 0 launcher.proxy_rank
        ≡ some (pos (suc rank), w1)
      → L.waiting w1 0 ≡ x ∷ []
      → shake_hands R M launcher w ≡ none
  unfolding shake_hands elect
  shake_hands-stuck n rank launcher x w w1 own size ids told e =
      rw (shake_hands, elect, own, not_zero (suc rank) (omega arith), told)
        (preserve-stuck n (suc rank) (record launcher { proxy_rank = pos (suc rank) }) x w1 own size
          ids e)

module _ (R : Rocks) (M : Mpi) where
  -- GetShardId finds this id in the launcher's database, if there is a launcher.
  Finds : ℤ → Option (ServerLauncher R × Mpi.World M) → Type 0
  Finds id none = Unit
  Finds id (some r) = get_shard_id R r.0 ≡ some (record r.0 { shard_id = id })

  bind-Finds :
      {A : Type 0} (id : ℤ) (m : Option A) (f : A → Option (ServerLauncher R × Mpi.World M))
      → ((a : A) → Finds id (f a))
      → Finds id (m >>= f)
  unfolding Finds
  bind-Finds id none f h = tt
  bind-Finds id (some a) f h = h a

  get_shard_id-known :
      (rank : ℕ) (launcher : ServerLauncher R) (db : Rocks.Db R) (s : Rocks.DbStatus R)
      → rank < 2 ^ 31
      → launcher.db ≡ some db
      → R.get db shard_id_key ≡ (s, to_string rank)
      → R.status_ok s ≡ true
      → get_shard_id R launcher ≡ some (record launcher { shard_id = pos rank })
  unfolding get_shard_id
  get_shard_id-known rank launcher db s small opened got good =
      rw (get_shard_id, opened, got, good)
        (rw got (rw (stoi-to_string rank small) (rw opened refl)))

  saved-Finds :
      (launcher : ServerLauncher R) (proxy_rank : ℤ) (db : Rocks.Db R) (s : Rocks.DbStatus R)
      (w : Mpi.World M)
      → launcher.world_rank < 2 ^ 31
      → R.get db shard_id_key ≡ (s, to_string launcher.world_rank)
      → R.status_ok s ≡ true
      → Finds
          (pos launcher.world_rank)
          (some (record launcher { proxy_rank = proxy_rank; db = some db }, w))
  unfolding Finds
  saved-Finds launcher proxy_rank db s w small got good =
      get_shard_id-known launcher.world_rank
        (record launcher { proxy_rank = proxy_rank; db = some db }) db s small refl got good

  preserve-Finds :
      (proxy : ℕ) (launcher : ServerLauncher R) (db : Rocks.Db R) (s : Rocks.DbStatus R)
      (w : Mpi.World M)
      → launcher.world_rank < 2 ^ 31
      → launcher.db ≡ some db
      → R.get (R.put db shard_id_key (to_string launcher.world_rank)).1 shard_id_key
        ≡ (s, to_string launcher.world_rank)
      → R.status_ok s ≡ true
      → Finds (pos launcher.world_rank) (preserve R M proxy launcher w)
  unfolding preserve
  preserve-Finds proxy launcher db s w small opened got good =
      rw (preserve, opened)
        (bind-Finds {A = ℤ × Mpi.World M} (pos launcher.world_rank) _ _ (λ r.
          saved-Finds launcher _ (R.put db shard_id_key (to_string launcher.world_rank)).1 s r.1
            small got good))

  -- What ShakeHands saves is the rank: once its second part has returned, and when the database gives what
  -- was put, GetShardId gives the process's rank, whichever shard id the process had before. (The rank is
  -- below 2 ^ 31.)
  pub get_shard_id-preserve :
      (proxy : ℕ) (launcher launcher' : ServerLauncher R) (db : Rocks.Db R) (s : Rocks.DbStatus R)
      (w w' : Mpi.World M)
      → launcher.world_rank < 2 ^ 31
      → launcher.db ≡ some db
      → R.get (R.put db shard_id_key (to_string launcher.world_rank)).1 shard_id_key
        ≡ (s, to_string launcher.world_rank)
      → R.status_ok s ≡ true
      → preserve R M proxy launcher w ≡ some (launcher', w')
      → get_shard_id R launcher' ≡ some (record launcher' { shard_id = pos launcher.world_rank })
  unfolding Finds
  get_shard_id-preserve proxy launcher launcher' db s w w' small opened got good e =
      subst (Finds (pos launcher.world_rank)) e
        (preserve-Finds proxy launcher db s w small opened got good)
