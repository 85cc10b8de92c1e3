-- ===== src/ServerLauncher/Program.antt =====
-- ShakeHands of src/server/server_launcher.cc as the calls of MPI that it makes, one after the other, for the
-- system of all processes; run on its own it is shake_hands.
use sqpkv.Prelude.{
  ℕ, zero, suc, ◌-◌, ◌≡◌, refl, sym, ◌∙◌, Bool, true, false, ◌&&◌, Option, none, some, List, ◌∷◌,
  ◌==◌, if◌then◌else◌, ◌>>=◌, Bool-cases, Option-cases, inl, inr,
}
use sqpkv.Prelude.Int.{ℤ, pos, negsuc}
use sqpkv.Rocks.{Rocks}
use sqpkv.Cluster.{Process, ended, faulted, recv, send, bcast, run}
use sqpkv.ServerLauncher.{
  Mpi, ServerLauncher, next_proxy, collect_ids, elect, collect_saves, preserve, shake_hands,
  rank_of, int_of, truth_of, shard_id_key,
}
use sqpkv.ServerLauncher.Numbers.{minus_one, same_int, to_string}

bind_assoc :
    {A B C : Type 0} (m : Option A) (f : A → Option B) (g : B → Option C)
    → (m >>= f >>= g) ≡ (m >>= λ a. f a >>= g)
bind_assoc none f g = refl
bind_assoc (some a) f g = refl

bind_ext :
    {A B : Type 0} (m : Option A) (f g : A → Option B)
    → ((a : A) → f a ≡ g a)
    → (m >>= f) ≡ (m >>= g)
bind_ext none f g h = refl
bind_ext (some a) f g h = h a

module _ (R : Rocks) where
  abbrev pub Launching : Type 0
  Launching = Process (ServerLauncher R)

  -- The loop of rank 0 over the shard ids, and what follows it
  unfoldable pub ids_then : ℕ → ℕ → ℤ → List (ℤ × ℕ) → (ℤ → List (ℤ × ℕ) → Launching) → Launching
  ids_then zero rank proxy_rank ids later = later proxy_rank ids
  ids_then (suc n) rank proxy_rank ids later =
      recv rank
        (λ id. ids_then n (suc rank) (next_proxy proxy_rank rank id) ((id, rank) ∷ ids) later)

  -- The loop of the proxy over the save results, and what follows it
  unfoldable pub saves_then : ℕ → ℕ → List (ℤ × ℕ) → Bool → (Bool → Launching) → Launching
  saves_then zero shard_id ids saved later = later saved
  saves_then (suc n) shard_id ids saved later =
      recv (rank_of ids (pos shard_id))
        (λ x. saves_then n (suc shard_id) ids (truth_of x && saved) later)

  -- The second part of ShakeHands
  unfoldable pub preserving : ℕ → ServerLauncher R → Launching
  unfolding saves_then
  preserving proxy launcher = elim launcher.db [
    | none ↦ faulted
    | some db ↦
        let (s, db') = R.put db shard_id_key (to_string launcher.world_rank) in
        let finish : ℤ → Launching = λ success. ended (record launcher {
          db = some db';
          proxy_rank = if truth_of success then launcher.proxy_rank else minus_one;
        }) in
        elim (launcher.world_rank == proxy) [
          | true ↦
              saves_then (launcher.world_size - 1) 1 launcher.id_to_rank (R.status_ok s)
                (λ all_saved. bcast proxy (int_of all_saved) finish)
          | false ↦
              send proxy (int_of (R.status_ok s)) (bcast proxy (int_of (R.status_ok s)) finish)
        ]
  ]

  unfoldable pub elected_then : ServerLauncher R → Launching
  unfolding preserving
  elected_then launcher = elim launcher.proxy_rank [
    | negsuc n ↦ ended launcher
    | pos proxy ↦ preserving proxy launcher
  ]

  -- ShakeHands()
  unfoldable pub shaking_hands : ServerLauncher R → Launching
  unfolding ids_then elected_then
  shaking_hands launcher = elim (launcher.world_rank == 0) [
    | true ↦
        ids_then (launcher.world_size - 1) 1
          (if same_int launcher.shard_id minus_one then minus_one else pos 0)
          ((launcher.shard_id, 0) ∷ launcher.id_to_rank)
          (λ proxy_rank ids.
            bcast 0 proxy_rank
              (λ told. elected_then (record launcher { proxy_rank = told; id_to_rank = ids })))
    | false ↦
        send 0 launcher.shard_id (
          bcast 0 launcher.proxy_rank
            (λ told. elected_then (record launcher { proxy_rank = told })))
  ]

  module _ (M : Mpi) where
    run-ids_then :
        (n rank : ℕ) (p : ℤ) (ids : List (ℤ × ℕ)) (later : ℤ → List (ℤ × ℕ) → Launching)
        (w : Mpi.World M)
        → run M (ids_then n rank p ids later) w
          ≡ (collect_ids R M n rank p ids w >>= λ r. run M (later r.0 r.1) r.2)
    unfolding ids_then collect_ids run
    run-ids_then zero rank p ids later w = refl
    run-ids_then (suc n) rank p ids later w = elim (Option-cases (M.recv_int w rank)) [
      | inl e ↦ rw (run, e) refl
      | inr (r, e) ↦
          rw (run, e)
            (run-ids_then n (suc rank) (next_proxy p rank r.0) ((r.0, rank) ∷ ids) later r.1)
    ]

    run-saves_then :
        (n k : ℕ) (ids : List (ℤ × ℕ)) (saved : Bool) (later : Bool → Launching) (w : Mpi.World M)
        → run M (saves_then n k ids saved later) w
          ≡ (collect_saves R M n k ids saved w >>= λ r. run M (later r.0) r.1)
    unfolding saves_then collect_saves run
    run-saves_then zero k ids saved later w = refl
    run-saves_then (suc n) k ids saved later w =
        elim (Option-cases (M.recv_int w (rank_of ids (pos k)))) [
          | inl e ↦ rw (run, e) refl
          | inr (r, e) ↦
              rw (run, e) (run-saves_then n (suc k) ids (truth_of r.0 && saved) later r.1)
        ]

    run-preserving :
        (proxy : ℕ) (launcher : ServerLauncher R) (w : Mpi.World M)
        → run M (preserving proxy launcher) w ≡ preserve R M proxy launcher w
    unfolding preserving preserve run
    run-preserving proxy launcher w = elim (Option-cases launcher.db) [
      | inl closed ↦ rw (preserving, preserve, closed) refl
      | inr (db, opened) ↦ elim (Bool-cases (launcher.world_rank == proxy)) [
        | inl own ↦
            rw (preserving, preserve, opened, own)
              (run-saves_then (launcher.world_size - 1) 1 launcher.id_to_rank _ _ w
                ∙ sym (
                    bind_assoc
                      (collect_saves R M (launcher.world_size - 1) 1 launcher.id_to_rank _ w) _ _))
        | inr other ↦ rw (preserving, preserve, opened, other) refl
      ]
    ]

    run-elected_then :
        (launcher : ServerLauncher R) (w : Mpi.World M)
        → run M (elected_then launcher) w ≡ (elim launcher.proxy_rank [
          | negsuc n ↦ some (launcher, w)
          | pos proxy ↦ preserve R M proxy launcher w
        ])
    unfolding elected_then run
    run-elected_then launcher w = go launcher.proxy_rank
      where
        go :
            (p : ℤ)
            → run M (elim p [ negsuc n ↦ ended launcher | pos proxy ↦ preserving proxy launcher ]) w
              ≡ (elim p [
                | negsuc n ↦ some (launcher, w)
                | pos proxy ↦ preserve R M proxy launcher w
              ])
        go (negsuc n) = refl
        go (pos proxy) = run-preserving proxy launcher w

    -- The program of a process, run on its own against what MPI gives it, is ShakeHands as it is modelled for
    -- one process: the same result, or the same fault or wait.
    pub run-shaking_hands :
        (launcher : ServerLauncher R) (w : Mpi.World M)
        → run M (shaking_hands launcher) w ≡ shake_hands R M launcher w
    unfolding shaking_hands shake_hands elect run
    run-shaking_hands launcher w = elim (Bool-cases (launcher.world_rank == 0)) [
      | inl root ↦
          let m =
            collect_ids R M (launcher.world_size - 1) 1
              (if same_int launcher.shard_id minus_one then minus_one else pos 0)
              ((launcher.shard_id, 0) ∷ launcher.id_to_rank) w in
          rw (shaking_hands, shake_hands, elect, root)
            (run-ids_then (launcher.world_size - 1) 1 _ _ _ w
              ∙ bind_ext m _ _ (λ r.
                bind_ext (M.bcast_int r.2 0 r.0) _ _ (λ q.
                  run-elected_then (record launcher { proxy_rank = q.0; id_to_rank = r.1 }) q.1)
                ∙ sym (bind_assoc (M.bcast_int r.2 0 r.0) _ _))
              ∙ sym (bind_assoc m _ _))
      | inr other ↦
          let m = M.bcast_int (M.send_int w 0 launcher.shard_id) 0 launcher.proxy_rank in
          rw (shaking_hands, shake_hands, elect, other)
            (bind_ext m _ _ (λ q. run-elected_then (record launcher { proxy_rank = q.0 }) q.1)
              ∙ sym (bind_assoc m _ _))
    ]
