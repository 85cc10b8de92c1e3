-- ===== src/ServerLauncher/FirstStart.antt =====
-- The first start of a cluster, as ShakeHands of src/server/server_launcher.cc does it at rank 0: no process
-- has a shard id yet, so that each takes its rank for one.
use sqpkv.Prelude.{
  ℕ, zero, suc, ◌+◌, ◌≡◌, ◌≤◌, ◌<◌, ◌⊎◌, inl, inr, refl, ◌∙◌, Bool, true, false, ◌&&◌, some, List,
  [], ◌∷◌, ◌++◌, ◌==◌, ==_iff, arith, length, Bool-cases, if◌then◌else◌,
}
use sqpkv.Prelude.Int.{ℤ, pos}
use sqpkv.Rocks.{Rocks}
use sqpkv.Protocol.Frame.{not_zero}
use sqpkv.ServerLauncher.{
  Mpi, ServerLauncher, next_proxy, collect_ids, elect, preserve, shake_hands, collect_saves,
  rank_of, int_of, truth_of, shard_id_key,
}
use sqpkv.ServerLauncher.Numbers.{minus_one, to_string}
use sqpkv.ServerLauncher.HandShake.{MpiLaws, one_less}

-- id_to_rank behind `n` ranks from `rank` on whose shard ids are their ranks
ranks : ℕ → ℕ → List (ℤ × ℕ) → List (ℤ × ℕ)
ranks zero rank known = known
ranks (suc n) rank known = ranks n (suc rank) ((pos rank, rank) ∷ known)

pub every : List Bool → Bool
every [] = true
every (b ∷ bs) = b && every bs

all_saved : List Bool → Bool → Bool
all_saved [] saved = saved
all_saved (b ∷ bs) saved = all_saved bs (b && saved)

all_saved-every : (bs : List Bool) (saved : Bool) → all_saved bs saved ≡ every (saved ∷ bs)
unfolding all_saved every
all_saved-every [] true = refl
all_saved-every [] false = refl
all_saved-every (true ∷ bs) true = all_saved-every bs true
all_saved-every (true ∷ bs) false = all_saved-every bs false
all_saved-every (false ∷ bs) true = all_saved-every bs false
all_saved-every (false ∷ bs) false = all_saved-every bs false

same_refl : (n : ℕ) → (n == n) ≡ true
same_refl n = (==_iff n n).1 refl

rank_of-next :
    (rank k m : ℕ) (known : List (ℤ × ℕ))
    → rank_of known (pos k) ≡ k ⊎ ((rank ≤ k) × (k < m))
    → rank_of ((pos rank, rank) ∷ known) (pos k) ≡ k ⊎ ((suc rank ≤ k) × (k < m))
unfolding rank_of
rank_of-next rank k m known h = elim (Bool-cases (rank == k)) [
  | inl here ↦ inl (rw (rank_of, here) ((==_iff rank k).0 here))
  | inr behind ↦ elim h [
    | inl e ↦ inl (rw (rank_of, behind) e)
    | inr g ↦ inr (apart rank k g.0 behind, g.1)
  ]
]
  where
    apart : (a b : ℕ) → a ≤ b → (a == b) ≡ false → suc a ≤ b
    apart a b g f = ground arith

rank_of-ranks :
    (n rank k : ℕ) (known : List (ℤ × ℕ))
    → rank_of known (pos k) ≡ k ⊎ ((rank ≤ k) × (k < rank + n))
    → rank_of (ranks n rank known) (pos k) ≡ k
unfolding ranks
rank_of-ranks zero rank k known (inl e) = e
rank_of-ranks zero rank k known (inr h) = absurd (omega arith)
rank_of-ranks (suc n) rank k known (inl e) =
    rank_of-ranks n (suc rank) k ((pos rank, rank) ∷ known)
      (rank_of-next rank k (suc rank + n) known (inl e))
rank_of-ranks (suc n) rank k known (inr h) =
    rank_of-ranks n (suc rank) k ((pos rank, rank) ∷ known)
      (rank_of-next rank k (suc rank + n) known (inr (h.0, omega arith)))

module _ (R : Rocks) (M : Mpi) (L : MpiLaws M) where
  -- Each rank from `rank` on has sent what `front` makes of its rank and its save result.
  unfoldable pub Waits : (ℕ → Bool → List ℤ) → ℕ → List Bool → Mpi.World M → Type 0
  Waits front rank [] w = Unit
  Waits front rank (b ∷ bs) w =
      ((later : List ℤ) × (L.waiting w rank ≡ front rank b ++ later)) × Waits front (suc rank) bs w

  Waits-later :
      (front : ℕ → Bool → List ℤ) (rank : ℕ) (bs : List Bool) (w w' : Mpi.World M)
      → ((q : ℕ) → rank ≤ q → L.waiting w' q ≡ L.waiting w q)
      → Waits front rank bs w
      → Waits front rank bs w'
  unfolding Waits
  Waits-later front rank [] w w' same sent = tt
  Waits-later front rank (b ∷ bs) w w' same ((later, e), sent) = (
    (later, same rank (omega arith) ∙ e),
    Waits-later front (suc rank) bs w w' (λ q h. same q (omega (arith, h))) sent,
  )

  abbrev pub id_and_result : ℕ → Bool → List ℤ
  id_and_result rank b = pos rank ∷ int_of b ∷ []

  abbrev result : ℕ → Bool → List ℤ
  result rank b = int_of b ∷ []

  collect_ids-first :
      (bs : List Bool) (rank : ℕ) (known : List (ℤ × ℕ)) (w : Mpi.World M)
      → 0 < rank
      → Waits id_and_result rank bs w
      → (w' : Mpi.World M) × (collect_ids R M (length bs) rank (pos 0) known w
          ≡ some (pos 0, ranks (length bs) rank known, w'))
        × Waits result rank bs w'
        × ((q : ℕ) → q < rank → L.waiting w' q ≡ L.waiting w q)
  unfolding collect_ids ranks Waits next_proxy
  collect_ids-first [] rank known w h sent = (w, refl, tt, λ q g. refl)
  collect_ids-first (b ∷ bs) rank known w h ((later, e), sent) =
      let (w1, got, left, same) = L.recv_int-next w rank (pos rank) (int_of b ∷ later) e in
      let (w', all, waits, before) =
        collect_ids-first bs (suc rank) ((pos rank, rank) ∷ known) w1 (omega arith) (
          Waits-later id_and_result (suc rank) bs w w1 (λ q g. same q (λ x. omega (arith, x, g)))
            sent) in
      (
        w',
        rw (collect_ids, got) (rw (next_proxy, not_zero rank h) all),
        ((later, before rank (omega arith) ∙ left), waits),
        λ q g. before q (omega (arith, g)) ∙ same q (λ x. omega (arith, x, g)),
      )

  truth_of-int_of : (b : Bool) → truth_of (int_of b) ≡ b
  truth_of-int_of true = refl
  truth_of-int_of false = refl

  collect_saves-first :
      (bs : List Bool) (k : ℕ) (ids : List (ℤ × ℕ)) (saved : Bool) (w : Mpi.World M)
      → ((q : ℕ) → k ≤ q → q < k + length bs → rank_of ids (pos q) ≡ q)
      → Waits result k bs w
      → (w' : Mpi.World M) × (collect_saves R M (length bs) k ids saved w
          ≡ some (all_saved bs saved, w'))
  unfolding collect_saves all_saved Waits
  collect_saves-first [] k ids saved w h sent = (w, refl)
  collect_saves-first (b ∷ bs) k ids saved w h ((later, e), sent) =
      let (w1, got, left, same) = L.recv_int-next w k (int_of b) later e in
      let (w', all) =
        collect_saves-first bs (suc k) ids (b && saved) w1
          (λ q g f. h q (omega (arith, g)) (omega (arith, f)))
          (Waits-later result (suc k) bs w w1 (λ q g. same q (λ x. omega (arith, x, g))) sent) in
      (w', rw (h k (omega arith) (omega arith)) (rw got (rw (truth_of-int_of b) all)))

  elect-rank_0 :
      (launcher : ServerLauncher R) (n : ℕ) (p : ℤ) (known : List (ℤ × ℕ)) (w w1 w2 : Mpi.World M)
      → launcher.world_rank ≡ 0
      → launcher.world_size ≡ suc n
      → launcher.shard_id ≡ pos 0
      → collect_ids R M n 1 (pos 0) ((pos 0, 0) ∷ launcher.id_to_rank) w ≡ some (p, known, w1)
      → M.bcast_int w1 0 p ≡ some (p, w2)
      → elect R M launcher w ≡ some (record launcher { proxy_rank = p; id_to_rank = known }, w2)
  unfolding elect
  elect-rank_0 launcher n p known w w1 w2 rank_0 size first asked told =
      rw (elect, rank_0, size, first, one_less n) (rw (asked, told) (rw rank_0 refl))

  preserve-rank_0 :
      (launcher : ServerLauncher R) (db : Rocks.Db R) (n : ℕ) (total : Bool) (w w1 w2 : Mpi.World M)
      → launcher.world_rank ≡ 0
      → launcher.world_size ≡ suc n
      → launcher.db ≡ some db
      → collect_saves R M n 1 launcher.id_to_rank
          (R.status_ok (R.put db shard_id_key (to_string 0)).0)
          w
        ≡ some (total, w1)
      → M.bcast_int w1 0 (int_of total) ≡ some (int_of total, w2)
      → preserve R M 0 launcher w
        ≡ some (
          record launcher {
            proxy_rank = if total then launcher.proxy_rank else minus_one;
            db = some (R.put db shard_id_key (to_string 0)).1;
          },
          w2,
        )
  unfolding preserve
  preserve-rank_0 launcher db n total w w1 w2 rank_0 size opened collected told =
      rw (preserve, opened, rank_0, size, one_less n)
        (rw rank_0 (rw (collected, told) (rw (truth_of-int_of total) refl)))

  -- The first start, at rank 0 with an open database, when each other rank has sent its rank for its shard
  -- id and behind it whether it has saved it: ShakeHands ends with rank 0 as the proxy if the database of
  -- rank 0 has taken the shard id and all the others have saved theirs, else with no proxy, -1; and
  -- rank 0 has put its own. (A broadcast of rank 0 gives rank 0 its own value, and takes no message.)
  pub shake_hands-first :
      (launcher : ServerLauncher R) (db : Rocks.Db R) (saves : List Bool) (w : Mpi.World M)
      → launcher.world_rank ≡ 0
      → launcher.world_size ≡ suc (length saves)
      → launcher.shard_id ≡ pos 0
      → launcher.db ≡ some db
      → Waits id_and_result 1 saves w
      → ((x : ℤ) (v : Mpi.World M)
          → (v' : Mpi.World M) × (M.bcast_int v 0 x ≡ some (x, v'))
            × ((q : ℕ) → L.waiting v' q ≡ L.waiting v q))
      → (known : List (ℤ × ℕ)) × (w' : Mpi.World M) × (shake_hands R M launcher w
          ≡ some (
            record launcher {
              proxy_rank =
                  if every (R.status_ok (R.put db shard_id_key (to_string 0)).0 ∷ saves)
                  then pos 0
                  else minus_one;
              db = some (R.put db shard_id_key (to_string 0)).1;
              id_to_rank = known;
            },
            w',
          ))
  unfolding shake_hands
  shake_hands-first launcher db saves w rank_0 size first opened sent own =
      let (w1, asked, waits, _) =
        collect_ids-first saves 1 ((pos 0, 0) ∷ launcher.id_to_rank) w (omega arith) sent in
      let (w2, told, kept) = own (pos 0) w1 in
      let known = ranks (length saves) 1 ((pos 0, 0) ∷ launcher.id_to_rank) in
      let ok = R.status_ok (R.put db shard_id_key (to_string 0)).0 in
      let (w3, saved) =
        collect_saves-first saves 1 known ok w2
          (λ q g f.
            rank_of-ranks (length saves) 1 q ((pos 0, 0) ∷ launcher.id_to_rank) (inr (g, f)))
          (Waits-later result 1 saves w1 w2 (λ q g. kept q) waits) in
      let (w4, ended, _) = own (int_of (all_saved saves ok)) w3 in
      (
        known,
        w4,
        rw
            (
              shake_hands,
              elect-rank_0 launcher (length saves) (pos 0) known w w1 w2 rank_0 size first asked
                  told,
            )
            (preserve-rank_0 (record launcher { proxy_rank = pos 0; id_to_rank = known }) db
                (length saves) (all_saved saves ok) w2 w3 w4 rank_0 size opened saved ended
              ∙ rw (all_saved-every saves ok) refl),
      )
