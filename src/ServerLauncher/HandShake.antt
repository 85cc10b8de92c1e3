-- ===== src/ServerLauncher/HandShake.antt =====
-- The election of the proxy in ShakeHands of src/server/server_launcher.cc.
use sqpkv.Prelude.{
  ℕ, suc, ◌-◌, ◌≡◌, ◌≢◌, ◌<◌, refl, sym, ◌∙◌, Bool, true, false, none, some, List, [], ◌∷◌, arith,
  length, Bool-cases, inl, inr, if◌then◌else◌,
}
use sqpkv.Prelude.Int.{ℤ, pos}
use sqpkv.Rocks.{Rocks}
use sqpkv.ServerLauncher.{Mpi, ServerLauncher, next_proxy, collect_ids, elect, shake_hands}
use sqpkv.ServerLauncher.Numbers.{minus_one, same_int}

-- The ints that are still to come from each rank, and what MPI_Recv does with them: it takes the first one
-- from its rank, and never returns where there is none.
pub record MpiLaws (M : Mpi) : Type 0 where
  pub waiting : Mpi.World M → ℕ → List ℤ
  pub recv_int-next :
      (w : Mpi.World M) (rank : ℕ) (x : ℤ) (xs : List ℤ)
      → waiting w rank ≡ x ∷ xs
      → (w' : Mpi.World M) × (Mpi.recv_int M w rank ≡ some (x, w'))
        × (waiting w' rank ≡ xs)
        × ((q : ℕ) → q ≢ rank → waiting w' q ≡ waiting w q)
  pub recv_int-never :
      (w : Mpi.World M) (rank : ℕ) → waiting w rank ≡ [] → Mpi.recv_int M w rank ≡ none

-- One of the shard ids is -1.
unfoldable pub has_failed : List ℤ → Bool
has_failed [] = false
has_failed (id ∷ ids) = elim (same_int id minus_one) [ true ↦ true | false ↦ has_failed ids ]

-- The last rank whose shard id is 0, for the ids of the ranks from `rank` on.
unfoldable pub last_zero : ℤ → ℕ → List ℤ → ℤ
last_zero p rank [] = p
last_zero p rank (id ∷ ids) = elim (same_int id (pos 0)) [
  | true ↦ last_zero (pos rank) (suc rank) ids
  | false ↦ last_zero p (suc rank) ids
]

-- Which rank is the proxy, by the shard ids of all ranks.
unfoldable pub proxy_of : List ℤ → ℤ
unfolding has_failed last_zero
proxy_of ids = elim (has_failed ids) [ true ↦ minus_one | false ↦ last_zero (pos 0) 0 ids ]

-- The rank that collect_ids ends with
unfoldable pub elected : ℤ → ℕ → List ℤ → ℤ
elected p rank [] = p
elected p rank (id ∷ ids) = elected (next_proxy p rank id) (suc rank) ids

elected-minus_one : (rank : ℕ) (ids : List ℤ) → elected minus_one rank ids ≡ minus_one
unfolding elected next_proxy
elected-minus_one rank [] = refl
elected-minus_one rank (id ∷ ids) = elim (Bool-cases (same_int id minus_one)) [
  | inl failed ↦ rw (elected, next_proxy, failed) (elected-minus_one (suc rank) ids)
  | inr good ↦ rw (elected, next_proxy, good) (elected-minus_one (suc rank) ids)
]

failed_at : (id : ℤ) (ids : List ℤ) → same_int id minus_one ≡ true → has_failed (id ∷ ids) ≡ true
unfolding has_failed
failed_at id ids e = rw (has_failed, e) refl

failed_behind :
    (id : ℤ) (ids : List ℤ) → same_int id minus_one ≡ false → has_failed (id ∷ ids) ≡ has_failed ids
unfolding has_failed
failed_behind id ids e = rw (has_failed, e) refl

elected-failed :
    (p : ℤ) (rank : ℕ) (ids : List ℤ) → has_failed ids ≡ true → elected p rank ids ≡ minus_one
unfolding elected next_proxy has_failed
elected-failed p rank [] h = ground arith
elected-failed p rank (id ∷ ids) h = elim (Bool-cases (same_int id minus_one)) [
  | inl failed ↦ rw (elected, next_proxy, failed) (elected-minus_one (suc rank) ids)
  | inr good ↦
      elected-failed (next_proxy p rank id) (suc rank) ids (sym (failed_behind id ids good) ∙ h)
]

elected-last_zero :
    (n rank : ℕ) (ids : List ℤ)
    → has_failed ids ≡ false
    → elected (pos n) rank ids ≡ last_zero (pos n) rank ids
unfolding elected next_proxy last_zero
elected-last_zero n rank [] h = refl
elected-last_zero n rank (id ∷ ids) h = elim (Bool-cases (same_int id minus_one)) [
  | inl failed ↦ (let clash : true ≡ false = sym (failed_at id ids failed) ∙ h in ground arith)
  | inr good ↦ elim (Bool-cases (same_int id (pos 0))) [
    | inl zero_id ↦
        rw (elected, next_proxy, last_zero, good, zero_id)
          (elected-last_zero rank (suc rank) ids (sym (failed_behind id ids good) ∙ h))
    | inr other ↦
        rw (elected, next_proxy, last_zero, good, other)
          (elected-last_zero n (suc rank) ids (sym (failed_behind id ids good) ∙ h))
  ]
]

proxy_of-failed : (ids : List ℤ) → has_failed ids ≡ true → proxy_of ids ≡ minus_one
unfolding proxy_of
proxy_of-failed ids failed = rw (proxy_of, failed) refl

proxy_of-good :
    (id : ℤ) (ids : List ℤ)
    → has_failed (id ∷ ids) ≡ false
    → proxy_of (id ∷ ids) ≡ last_zero (pos 0) 1 ids
unfolding proxy_of last_zero
proxy_of-good id ids good = elim (Bool-cases (same_int id (pos 0))) [
  | inl zero_id ↦ rw (proxy_of, good, last_zero, zero_id) refl
  | inr other ↦ rw (proxy_of, good, last_zero, other) refl
]

pub elected-proxy_of :
    (id : ℤ) (ids : List ℤ)
    → elected (if same_int id minus_one then minus_one else pos 0) 1 ids ≡ proxy_of (id ∷ ids)
elected-proxy_of id ids = elim (Bool-cases (same_int id minus_one)) [
  | inl failed ↦
      rw failed
        (elected-minus_one 1 ids ∙ sym (proxy_of-failed (id ∷ ids) (failed_at id ids failed)))
  | inr good ↦ rw good (elim (Bool-cases (has_failed ids)) [
    | inl later ↦
        elected-failed (pos 0) 1 ids later
        ∙ sym (proxy_of-failed (id ∷ ids) (failed_behind id ids good ∙ later))
    | inr all ↦
        elected-last_zero 0 1 ids all ∙ sym (proxy_of-good id ids (failed_behind id ids good ∙ all))
  ])
]

pub one_less : (n : ℕ) → suc n - 1 ≡ n
one_less n = omega arith

module _ (R : Rocks) (M : Mpi) (L : MpiLaws M) where
  -- Each rank from `rank` on has sent its shard id.
  pub Sent : ℕ → List ℤ → Mpi.World M → Type 0
  Sent rank [] w = Unit
  Sent rank (id ∷ ids) w =
      ((later : List ℤ) × (L.waiting w rank ≡ id ∷ later)) × Sent (suc rank) ids w

  Sent-later :
      (rank from : ℕ) (ids : List ℤ) (w w' : Mpi.World M)
      → rank < from
      → ((q : ℕ) → q ≢ rank → L.waiting w' q ≡ L.waiting w q)
      → Sent from ids w
      → Sent from ids w'
  unfolding Sent
  Sent-later rank from [] w w' h same sent = tt
  Sent-later rank from (id ∷ ids) w w' h same ((later, e), sent) = (
    (later, same from (λ q. omega (arith, q, h)) ∙ e),
    Sent-later rank (suc from) ids w w' (omega arith) same sent,
  )

  collect_ids-elected :
      (rank : ℕ) (ids : List ℤ) (p : ℤ) (known : List (ℤ × ℕ)) (w : Mpi.World M)
      → Sent rank ids w
      → (known' : List (ℤ × ℕ)) × (w' : Mpi.World M) × (collect_ids R M (length ids) rank p known w
          ≡ some (elected p rank ids, known', w'))
  unfolding collect_ids elected Sent
  collect_ids-elected rank [] p known w sent = (known, w, refl)
  collect_ids-elected rank (id ∷ ids) p known w ((later, e), sent) =
      let (w1, got, _, same) = L.recv_int-next w rank id later e in
      let (known', w', all) =
        collect_ids-elected (suc rank) ids (next_proxy p rank id) ((id, rank) ∷ known) w1
          (Sent-later rank (suc rank) ids w w1 (omega arith) same sent) in
      (known', w', rw (collect_ids, got) all)

  -- At rank 0, to which each other rank has sent its shard id, the election ends: the rank that is broadcast
  -- is -1 if one of the shard ids is -1, else the last rank whose shard id is 0, and rank 0 if there is none.
  -- (A broadcast of rank 0 gives rank 0 its own value.)
  pub elect-proxy_of :
      (launcher : ServerLauncher R) (ids : List ℤ) (w : Mpi.World M)
      → launcher.world_rank ≡ 0
      → launcher.world_size ≡ suc (length ids)
      → Sent 1 ids w
      → ((x : ℤ) (v : Mpi.World M) → (v' : Mpi.World M) × (M.bcast_int v 0 x ≡ some (x, v')))
      → (known : List (ℤ × ℕ)) × (w' : Mpi.World M) × (elect R M launcher w
          ≡ some (
            record launcher { proxy_rank = proxy_of (launcher.shard_id ∷ ids); id_to_rank = known },
            w',
          ))
  unfolding elect
  elect-proxy_of launcher ids w rank_0 size sent own =
      let (known, w1, all) =
        collect_ids-elected 1 ids
          (if same_int launcher.shard_id minus_one then minus_one else pos 0)
          ((launcher.shard_id, 0) ∷ launcher.id_to_rank) w sent in
      let (w2, told) =
        own (elected (if same_int launcher.shard_id minus_one then minus_one else pos 0) 1 ids)
          w1 in
      (
        known,
        w2,
        rw (elect, rank_0, size, one_less (length ids))
            (rw (all, told) (rw (elected-proxy_of launcher.shard_id ids) (rw rank_0 refl))),
      )

  -- If the shard id of any of the processes is -1, ShakeHands at rank 0, to which each other rank has sent
  -- its shard id, ends with the proxy's rank -1 and has not touched the database, whether it is open or not.
  -- (A broadcast of rank 0 gives rank 0 its own value.)
  pub shake_hands-refused :
      (launcher : ServerLauncher R) (ids : List ℤ) (w : Mpi.World M)
      → launcher.world_rank ≡ 0
      → launcher.world_size ≡ suc (length ids)
      → Sent 1 ids w
      → ((x : ℤ) (v : Mpi.World M) → (v' : Mpi.World M) × (M.bcast_int v 0 x ≡ some (x, v')))
      → has_failed (launcher.shard_id ∷ ids) ≡ true
      → (known : List (ℤ × ℕ)) × (w' : Mpi.World M) × (shake_hands R M launcher w
          ≡ some (record launcher { proxy_rank = minus_one; id_to_rank = known }, w'))
  unfolding shake_hands
  shake_hands-refused launcher ids w rank_0 size sent own failed =
      let (known, w1, e) = elect-proxy_of launcher ids w rank_0 size sent own in
      (known, w1, rw (shake_hands, e) (rw (proxy_of-failed (launcher.shard_id ∷ ids) failed) refl))
