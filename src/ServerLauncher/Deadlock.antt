-- ===== src/ServerLauncher/Deadlock.antt =====
-- ShakeHands of src/server/server_launcher.cc with a proxy other than rank 0: the proxy reads the save results
-- by its own id_to_rank, which only rank 0 has filled.
use sqpkv.Prelude.{
  ℕ, zero, suc, ◌-◌, ◌≡◌, ◌≢◌, ◌≤◌, refl, sym, ap, ◌∙◌, Bool, true, false, some, List, [], ◌∷◌,
  ◌++◌, ◌==◌, if◌then◌else◌, Bool-cases, Option-cases, inl, inr, arith, length, ◌&&◌,
}
use mathlib.Core.Path.{subst}
use sqpkv.Prelude.Int.{ℤ, pos, negsuc}
use sqpkv.Rocks.{Rocks}
use sqpkv.Cluster.{
  Process, ended, faulted, recv, send, bcast, Event, got, sent, heard, Does, here, receives, sends,
  tells, hears,
}
use sqpkv.Cluster.Channels.{values_of, got_from, sent_to, same_self, differs}
use sqpkv.Cluster.Progress.{received, sent_off, has_heard, never_faulted}
use sqpkv.Cluster.Execution.{Execution}
use sqpkv.ServerLauncher.{ServerLauncher, next_proxy, truth_of, int_of, rank_of, shard_id_key}
use sqpkv.ServerLauncher.Numbers.{minus_one, to_string}
use sqpkv.ServerLauncher.HandShake.{proxy_of, one_less}
use sqpkv.ServerLauncher.Program.{
  Launching, ids_then, saves_then, preserving, elected_then, shaking_hands,
}
use sqpkv.ServerLauncher.Agreement.{Ends, FrontOf, of_root, casts, values_of-casts}
use sqpkv.ServerLauncher.Validity.{shard_ids, first_told, first_heard}

-- A program sends at most `m` ints to the rank `to`, however far it goes.
module _ {A : Type 0} (self to : ℕ) where
  abbrev pub Sends : ℕ → Process A → Type 0
  Sends m p = (es : List Event) (q : Process A) → Does A self p es q → length (sent_to to es) ≤ m

  pub Sends-ended : (m : ℕ) (a : A) → Sends m (ended a)
  unfolding sent_to
  Sends-ended m a es q here = omega arith

  pub Sends-faulted : (m : ℕ) → Sends m faulted
  unfolding sent_to
  Sends-faulted m es q here = omega arith

  pub Sends-recv :
      (m from : ℕ) (k : ℤ → Process A) → ((x : ℤ) → Sends m (k x)) → Sends m (recv from k)
  unfolding sent_to
  Sends-recv m from k h es q here = omega arith
  Sends-recv m from k h es q (receives d) = h _ _ q d

  pub Sends-bcast :
      (m root : ℕ) (x : ℤ) (k : ℤ → Process A)
      → ((y : ℤ) → Sends m (k y))
      → Sends m (bcast root x k)
  unfolding sent_to
  Sends-bcast m root x k h es q here = omega arith
  Sends-bcast m root x k h es q (tells own d) = h _ _ q d
  Sends-bcast m root x k h es q (hears other d) = h _ _ q d

  Sends-send : (m i : ℕ) (x : ℤ) (p : Process A) → Sends m p → Sends (suc m) (send i x p)
  unfolding sent_to
  Sends-send m i x p h es q here = omega arith
  Sends-send m i x p h es q (sends {es = fs} d) = elim (Bool-cases (i == to)) [
    | inl e ↦ rw (sent_to, e) (let few = h fs q d in omega (arith, few))
    | inr e ↦ rw (sent_to, e) (let few = h fs q d in omega (arith, few))
  ]

module _ (R : Rocks) (self to : ℕ) where
  abbrev SendsOne : Launching R → Type 0
  SendsOne p = Sends self to 1 p

  saves_then-SendsOne :
      (n k : ℕ) (ids : List (ℤ × ℕ)) (saved : Bool) (later : Bool → Launching R)
      → ((b : Bool) → SendsOne (later b))
      → SendsOne (saves_then R n k ids saved later)
  unfolding saves_then
  saves_then-SendsOne zero k ids saved later h = h saved
  saves_then-SendsOne (suc n) k ids saved later h =
      Sends-recv self to 1 (rank_of ids (pos k)) _
        (λ x. saves_then-SendsOne n (suc k) ids (truth_of x && saved) later h)

  ids_then-SendsOne :
      (n rank : ℕ) (p : ℤ) (ids : List (ℤ × ℕ)) (later : ℤ → List (ℤ × ℕ) → Launching R)
      → ((p' : ℤ) (ids' : List (ℤ × ℕ)) → SendsOne (later p' ids'))
      → SendsOne (ids_then R n rank p ids later)
  unfolding ids_then
  ids_then-SendsOne zero rank p ids later h = h p ids
  ids_then-SendsOne (suc n) rank p ids later h =
      Sends-recv self to 1 rank _
        (λ x. ids_then-SendsOne n (suc rank) (next_proxy p rank x) ((x, rank) ∷ ids) later h)

  preserving-SendsOne : (q : ℕ) (launcher : ServerLauncher R) → SendsOne (preserving R q launcher)
  unfolding preserving
  preserving-SendsOne q launcher = elim (Option-cases launcher.db) [
    | inl closed ↦ rw (preserving, closed) (Sends-faulted self to 1)
    | inr (db, opened) ↦ elim (Bool-cases (launcher.world_rank == q)) [
      | inl own ↦
          rw (preserving, opened, own)
            (saves_then-SendsOne (launcher.world_size - 1) 1 launcher.id_to_rank _ _
              (λ b. Sends-bcast self to 1 q (int_of b) _ (λ y. Sends-ended self to 1 _)))
      | inr other ↦
          rw (preserving, opened, other)
            (Sends-send self to 0 q _ _
              (Sends-bcast self to 0 q _ _ (λ y. Sends-ended self to 0 _)))
    ]
  ]

  elected_then-SendsOne : (launcher : ServerLauncher R) → SendsOne (elected_then R launcher)
  unfolding elected_then
  elected_then-SendsOne launcher = by_rank launcher.proxy_rank
    where
      by_rank :
          (p : ℤ)
          → SendsOne
              (elim p [ negsuc n ↦ ended launcher | pos proxy ↦ preserving R proxy launcher ])
      by_rank (pos q) = preserving-SendsOne q launcher
      by_rank (negsuc n) = Sends-ended self to 1 launcher

  -- Rank 0 sends each other rank at most one int.
  shaking_hands-SendsOne :
      (launcher : ServerLauncher R) → launcher.world_rank ≡ 0 → SendsOne (shaking_hands R launcher)
  unfolding shaking_hands
  shaking_hands-SendsOne launcher root =
      rw (shaking_hands, root)
        (ids_then-SendsOne (launcher.world_size - 1) 1 _ _ _ (λ p ids.
          Sends-bcast self to 1 0 p _ (λ told.
            elected_then-SendsOne (record launcher { proxy_rank = told; id_to_rank = ids }))))

module _ (R : Rocks) where
  -- A proxy without a map that has told a value has got two ints from rank 0, where there are three processes.
  preserving-gets :
      (m q : ℕ) (launcher : ServerLauncher R) (es : List Event) (p : Launching R) (v : ℤ)
      (vs : List ℤ)
      → launcher.world_rank ≡ q
      → launcher.world_size ≡ suc (suc (suc m))
      → launcher.id_to_rank ≡ []
      → Does (ServerLauncher R) q (preserving R q launcher) es p
      → values_of q es ≡ v ∷ vs
      → (x y : ℤ) × (xs : List ℤ) × (got_from 0 es ≡ x ∷ y ∷ xs)
  unfolding preserving saves_then rank_of values_of got_from
  preserving-gets m q launcher es p v vs own size empty d h = elim (Option-cases launcher.db) [
    | inl closed ↦
        never_faulted q q es p v vs
          (subst (λ x. Does (ServerLauncher R) q x es p) (rw (preserving, closed) refl) d) h
    | inr (db, opened) ↦
        let same : (launcher.world_rank == q) ≡ true = rw own (same_self q) in
        let (s, db') = R.put db shard_id_key (to_string launcher.world_rank) in
        let later : Bool → Launching R = λ b. bcast q (int_of b) (λ success.
          ended (record launcher {
            db = some db';
            proxy_rank = if truth_of success then launcher.proxy_rank else minus_one;
          })) in
        let eq : preserving R q launcher ≡ saves_then R (suc (suc m)) 1 [] (R.status_ok s) later =
          rw (preserving, opened, same, size, empty, one_less (suc (suc m))) refl in
        let (x, fs, e, d') =
          received q q 0 _ es p v vs (subst (λ x. Does (ServerLauncher R) q x es p) eq d) h in
        let (y, gs, f, _) = received q q 0 _ fs p v vs d' (sym (ap (values_of q) e) ∙ h) in
        (x, y, got_from 0 gs, ap (got_from 0) e ∙ ap (λ l. got_from 0 (got 0 x ∷ l)) f)
  ]

  -- A rank other than 0 that is the proxy, and that has told a value
  told_by_proxy :
      (m q : ℕ) (launcher : ServerLauncher R) (es : List Event) (p : Launching R) (v : ℤ)
      (vs : List ℤ)
      → q ≢ 0
      → launcher.world_rank ≡ q
      → launcher.world_size ≡ suc (suc (suc m))
      → launcher.id_to_rank ≡ []
      → Does (ServerLauncher R) q (shaking_hands R launcher) es p
      → values_of q es ≡ v ∷ vs
      → ((x : ℤ) (xs : List ℤ) → values_of 0 es ≡ x ∷ xs → x ≡ pos q)
      → (x y : ℤ) × (xs : List ℤ) × (got_from 0 es ≡ x ∷ y ∷ xs)
  unfolding shaking_hands elected_then values_of got_from
  told_by_proxy m q launcher es p v vs away own size empty d h told =
      let other : (launcher.world_rank == 0) ≡ false = rw own (differs q 0 away) in
      let rest : Launching R =
        bcast 0 launcher.proxy_rank
          (λ told. elected_then R (record launcher { proxy_rank = told })) in
      let eq : shaking_hands R launcher ≡ send 0 launcher.shard_id rest =
        rw (shaking_hands, other) refl in
      let (fs, e, d') =
        sent_off q q 0 launcher.shard_id rest es p v vs
          (subst (λ x. Does (ServerLauncher R) q x es p) eq d) h in
      let (y, gs, f, d'') =
        has_heard q q 0 launcher.proxy_rank _ fs p v vs d' (sym (ap (values_of q) e) ∙ h) in
      let heard_q : y ≡ pos q =
        told y (values_of 0 gs)
          (ap (values_of 0) e ∙ ap (λ l. values_of 0 (sent 0 launcher.shard_id ∷ l)) f) in
      let skip : values_of q (heard 0 y ∷ gs) ≡ values_of q gs =
        rw (values_of, differs 0 q (λ z. away (sym z))) refl in
      let l : ServerLauncher R = record launcher { proxy_rank = pos q } in
      let (a, b, xs, g) =
        preserving-gets m q l gs p v vs own size empty
          (subst
            (λ z.
              Does (ServerLauncher R) q (elected_then R (record launcher { proxy_rank = z })) gs p)
            heard_q d'')
          (sym skip
            ∙ sym (ap (values_of q) e ∙ ap (λ l. values_of q (sent 0 launcher.shard_id ∷ l)) f)
            ∙ h) in
      (a, b, xs, ap (got_from 0) e ∙ ap (λ l. got_from 0 (sent 0 launcher.shard_id ∷ l)) f ∙ g)

  -- Where three processes or more of a cluster, each with the number of its rank and an empty id_to_rank, have
  -- all begun ShakeHands, and the shard ids give a rank other than 0 for the proxy: no process ever ends it, in
  -- whatever order they go on.
  pub deadlock :
      (launchers : ℕ → ServerLauncher R) (m q : ℕ)
      (t : Execution (λ rank. shaking_hands R (launchers rank))) (p : ℕ) (a : ServerLauncher R)
      → ((rank : ℕ) → (launchers rank).world_rank ≡ rank)
      → ((rank : ℕ) → (launchers rank).world_size ≡ suc (suc (suc m)))
      → ((rank : ℕ) → (launchers rank).id_to_rank ≡ [])
      → q ≢ 0
      → proxy_of (shard_ids R launchers 0 (suc (suc (suc m)))) ≡ pos q
      → t.process p ≢ ended a
  unfolding of_root
  deadlock launchers m q t p a numbered size empty away proxy e =
      let all : ℕ → List ℤ = λ r. of_root r (casts (t.done r)) in
      let (cs, (front, ends)) = first_heard R launchers numbered (suc (suc m)) t p a (size 0) e in
      let (s, c, _) = subst (λ x. Ends x cs a.proxy_rank) proxy ends in
      let (later, f) =
        subst (λ l. FrontOf l all) (ap (λ l. (0, pos q) ∷ l) c)
          (subst (λ x. FrontOf ((0, x) ∷ cs) all) proxy front) q in
      let short : of_root q ((0, pos q) ∷ (q, s) ∷ []) ≡ s ∷ [] =
        rw (of_root, differs 0 q (λ z. away (sym z)), same_self q) refl in
      let (more, order) = t.heard_in_order 0 q in
      let (under_way, in_order) = t.got_in_order 0 q in
      let (x, y, xs, two) =
        told_by_proxy m q (launchers q) (t.done q) (t.process q) s later away (numbered q) (size q)
          (empty q) (t.goes q) (values_of-casts q (t.done q) ∙ sym f ∙ ap (λ l. l ++ later) short)
          (λ v vs h.
            first_told R launchers numbered (suc (suc m)) t v (vs ++ more) (size 0)
              (sym order ∙ ap (λ l. l ++ more) h)
            ∙ proxy) in
      let few =
        shaking_hands-SendsOne R 0 q (launchers 0) (numbered 0) (t.done 0) (t.process 0)
          (t.goes 0) in
      let sent : sent_to q (t.done 0) ≡ x ∷ y ∷ xs ++ under_way =
        sym in_order ∙ ap (λ l. l ++ under_way) two in
      let more : length (sent_to q (t.done 0)) ≡ suc (suc (length (xs ++ under_way))) =
        ap length sent in
      omega (arith, few, more)
