-- ===== src/ServerLauncher/Commit.antt =====
-- A successful first ShakeHands of src/server/server_launcher.cc in the system of all processes: what it says
-- of their databases.
pub mod Loops
pub mod Shards
use sqpkv.Prelude.{
  ℕ, zero, suc, ◌+◌, ◌-◌, ◌≡◌, ◌≢◌, ◌<◌, ◌≤◌, ◌⊎◌, refl, sym, ap, ◌∙◌, Bool, true, false, Option,
  none, some, List, [], ◌∷◌, ◌++◌, ◌==◌, if◌then◌else◌, Bool-cases, Option-cases, inl, inr, arith,
  length, ◌&&◌,
}
use mathlib.Core.Path.{subst}
use sqpkv.Prelude.Int.{ℤ, pos, negsuc}
use sqpkv.Rocks.{Rocks}
use sqpkv.Cluster.{
  Process, ended, faulted, recv, send, bcast, Event, got, sent, heard, Does, here, receives, sends,
  tells, hears,
}
use sqpkv.Cluster.Channels.{values_of, got_from, sent_to, same_self, differs, equal_or_not}
use sqpkv.Cluster.Progress.{no_first, has_heard, never_faulted}
use sqpkv.Cluster.Execution.{Execution}
use sqpkv.ServerLauncher.{ServerLauncher, next_proxy, truth_of, int_of, rank_of, shard_id_key}
use sqpkv.ServerLauncher.Numbers.{minus_one, same_int, to_string}
use sqpkv.ServerLauncher.HandShake.{one_less}
use sqpkv.ServerLauncher.Program.{
  Launching, ids_then, saves_then, preserving, elected_then, shaking_hands,
}
use sqpkv.ServerLauncher.Agreement.{Ends, FrontOf, of_root, casts, values_of-casts, ended-Ends}
use sqpkv.ServerLauncher.Validity.{first_received}
use sqpkv.ServerLauncher.Deadlock.{Sends-faulted, Sends, Sends-ended, Sends-recv, Sends-bcast}
use sqpkv.ServerLauncher.Commit.Loops.{
  truth_of-int_of, Numbered, Numbered-next, ids_then-Numbered, saves_then-good, Saved,
}
use sqpkv.ServerLauncher.Commit.Shards.{head_is, tail_is, shard-Saved}

module _ (R : Rocks) where
  root_preserving :
      (n : ℕ) (l : ServerLauncher R) (es : List Event) (q : Launching R) (s : ℤ) (vs : List ℤ)
      → (l.world_rank == 0) ≡ true
      → l.world_size ≡ suc n
      → Numbered (1 + n) l.id_to_rank
      → Does (ServerLauncher R) 0 (preserving R 0 l) es q
      → values_of 0 es ≡ s ∷ vs
      → truth_of s ≡ true
      → Saved R l
        × ((r : ℕ)
            → 1 ≤ r
            → r < 1 + n
            → (y : ℤ) × (ys : List ℤ) × (got_from r es ≡ y ∷ ys) × (truth_of y ≡ true))
  unfolding preserving
  root_preserving n l es q s vs root size known d h good = elim (Option-cases l.db) [
    | inl closed ↦
        never_faulted 0 0 es q s vs
          (subst (λ x. Does (ServerLauncher R) 0 x es q) (rw (preserving, closed) refl) d) h
    | inr (db, opened) ↦
        let (status, db') = R.put db shard_id_key (to_string l.world_rank) in
        let finish : ℤ → Launching R = λ success. ended (record l {
          db = some db';
          proxy_rank = if truth_of success then l.proxy_rank else minus_one;
        }) in
        let eq : preserving R 0 l
            ≡ saves_then R n 1 l.id_to_rank (R.status_ok status) (λ b. bcast 0 (int_of b) finish) =
          rw (preserving, opened, root, size, one_less n) refl in
        let (saved, others) =
          saves_then-good R n 1 l.id_to_rank (R.status_ok status) finish es q s vs
            (subst (λ x. Does (ServerLauncher R) 0 x es q) eq d) h good known in
        ((db, opened, saved), others)
  ]

  -- Rank 0, when it has told itself for the proxy and then a success
  root-Saved :
      (n : ℕ) (l : ServerLauncher R) (es : List Event) (q : Launching R) (s : ℤ) (vs : List ℤ)
      → (l.world_rank == 0) ≡ true
      → l.world_size ≡ suc n
      → l.shard_id ≡ pos 0
      → ((r : ℕ) (x : ℤ) (xs : List ℤ) → 1 ≤ r → got_from r es ≡ x ∷ xs → x ≡ pos r)
      → Does (ServerLauncher R) 0 (shaking_hands R l) es q
      → values_of 0 es ≡ pos 0 ∷ s ∷ vs
      → truth_of s ≡ true
      → Saved R l
        × ((r : ℕ)
            → 1 ≤ r
            → r < 1 + n
            → (x y : ℤ) × (ys : List ℤ) × (got_from r es ≡ x ∷ y ∷ ys) × (truth_of y ≡ true))
  unfolding shaking_hands elected_then values_of got_from
  root-Saved n l es q s vs root size id own d h good =
      let ids = (l.shard_id, 0) ∷ l.id_to_rank in
      let p = (if same_int l.shard_id minus_one then minus_one else pos 0) in
      let k : List (ℤ × ℕ) → ℤ → Launching R =
        λ ids told. elected_then R (record l { proxy_rank = told; id_to_rank = ids }) in
      let later : ℤ → List (ℤ × ℕ) → Launching R = λ p' ids'. bcast 0 p' (k ids') in
      let eq : shaking_hands R l ≡ ids_then R n 1 p ids later =
        rw (shaking_hands, root, size, one_less n) refl in
      let known : Numbered 1 ids =
        subst (λ z. Numbered 1 ((z, 0) ∷ l.id_to_rank)) (sym id)
          (Numbered-next 0 l.id_to_rank (λ k less. absurd (omega (arith, less)))) in
      let (p', ids', fs, d1, h1, known', firsts, _) =
        ids_then-Numbered R n 1 p ids later es q (pos 0) (s ∷ vs)
          (subst (λ x. Does (ServerLauncher R) 0 x es q) eq d) h own known in
      let (y, gs, e, d2) = has_heard 0 0 0 p' (k ids') fs q (pos 0) (s ∷ vs) d1 h1 in
      let split : y ∷ values_of 0 gs ≡ pos 0 ∷ s ∷ vs = sym (ap (values_of 0) e) ∙ h1 in
      let d3 : Does (ServerLauncher R) 0 (k ids' (pos 0)) gs q =
        subst (λ z. Does (ServerLauncher R) 0 (k ids' z) gs q)
          (head_is y (pos 0) (values_of 0 gs) (s ∷ vs) split) d2 in
      let (saved, others) =
        root_preserving n (record l { proxy_rank = pos 0; id_to_rank = ids' }) gs q s vs root size
          known' d3 (tail_is y (pos 0) (values_of 0 gs) (s ∷ vs) split) good in
      (
        saved,
        λ r a b.
            let (x, f) = firsts r a b in
            let (x', xs, g, t) = others r a b in
            (x, x', xs, f ∙ ap (λ rest. x ∷ rest) (ap (got_from r) e ∙ g), t),
      )

  -- The first broadcasts of rank 0, where a process has ended with rank 0 for the proxy
  told_success :
      (launchers : ℕ → ServerLauncher R) (t : Execution (λ rank. shaking_hands R (launchers rank)))
      (p : ℕ) (a : ServerLauncher R)
      → t.process p ≡ ended a
      → a.proxy_rank ≡ pos 0
      → (s : ℤ) × (vs : List ℤ) × (values_of 0 (t.done 0) ≡ pos 0 ∷ s ∷ vs) × (truth_of s ≡ true)
  unfolding of_root
  told_success launchers t p a e proxy =
      let (v, cs, front, ends) = ended-Ends R launchers t p a e in by_value v cs front ends
    where
      all : ℕ → List ℤ
      all r = of_root r (casts (t.done r))

      number_of : ℤ → ℕ
      number_of (pos n) = n
      number_of (negsuc n) = n

      by_value :
          (v : ℤ) (cs : List (ℕ × ℤ))
          → FrontOf ((0, v) ∷ cs) all
          → Ends v cs a.proxy_rank
          → (s : ℤ) × (vs : List ℤ) × (values_of 0 (t.done 0) ≡ pos 0 ∷ s ∷ vs)
            × (truth_of s ≡ true)
      by_value (negsuc n) cs front (_, out) = (let clash : pos 0 ≡ negsuc n = sym proxy ∙ out in cc)
      by_value (pos q) cs front (s, c, out) = elim (Bool-cases (truth_of s)) [
        | inr bad ↦ (let clash : pos 0 ≡ minus_one = sym proxy ∙ out ∙ rw bad refl in cc)
        | inl good ↦
            let same : pos 0 ≡ pos q = sym proxy ∙ out ∙ rw good refl in
            let root : q ≡ 0 = ap number_of (sym same) in
            let front' : FrontOf ((0, pos 0) ∷ (0, s) ∷ []) all =
              subst (λ i. FrontOf ((0, pos i) ∷ (i, s) ∷ []) all) root
                (subst (λ l. FrontOf ((0, pos q) ∷ l) all) c front) in
            let (later, f) = front' 0 in (s, later, values_of-casts 0 (t.done 0) ∙ sym f, good)
      ]

  -- The first start of a cluster, with the number of its rank for the shard id of each process: where any process
  -- has ended ShakeHands with rank 0 for the proxy, the database of every process is open and has taken its
  -- rank, in whatever order the processes have gone on.
  pub commit :
      (launchers : ℕ → ServerLauncher R) (n : ℕ)
      (t : Execution (λ rank. shaking_hands R (launchers rank))) (p rank : ℕ) (a : ServerLauncher R)
      → ((i : ℕ) → (launchers i).world_rank ≡ i)
      → ((i : ℕ) → (launchers i).shard_id ≡ pos i)
      → (launchers 0).world_size ≡ suc n
      → t.process p ≡ ended a
      → a.proxy_rank ≡ pos 0
      → rank < suc n
      → Saved R (launchers rank)
  commit launchers n t p rank a numbered first size e proxy less =
      let (s, vs, h, good) = told_success launchers t p a e proxy in
      let (saved, others) =
        root-Saved n (launchers 0) (t.done 0) (t.process 0) s vs (rw (numbered 0) refl) size
          (first 0)
          (λ r x xs some_rank g.
            sym (first_received R launchers numbered t r x xs (λ z. omega (arith, z, some_rank)) g)
            ∙ first r)
          (t.goes 0) h good in
      elim (equal_or_not rank 0) [
        | inl root ↦ subst (λ i. Saved R (launchers i)) (sym root) saved
        | inr other ↦
            let (x, y, ys, g, ok) = others rank (omega (arith, other)) (omega (arith, less)) in
            let (more, order) = t.got_in_order rank 0 in
            shard-Saved R rank (launchers rank) (t.done rank) (t.process rank) x y (ys ++ more)
              (rw (numbered rank) (differs rank 0 other)) (t.goes rank)
              (sym order ∙ ap (λ l. l ++ more) g) ok
      ]
