-- ===== src/ServerLauncher/Commit/Loops.antt =====
-- The loops of rank 0 in ShakeHands of src/server/server_launcher.cc, which behind them tells a success.
use sqpkv.Prelude.{
  ℕ, zero, suc, ◌+◌, ◌≡◌, ◌≢◌, ◌<◌, ◌≤◌, refl, sym, ap, ◌∙◌, Bool, true, false, some, List, ◌∷◌,
  inl, inr, arith, ◌&&◌,
}
use mathlib.Core.Path.{subst}
use sqpkv.Prelude.Int.{ℤ, pos}
use sqpkv.Rocks.{Rocks}
use sqpkv.Cluster.{bcast, Event, got, Does}
use sqpkv.Cluster.Channels.{values_of, got_from, same_self, differs, equal_or_not}
use sqpkv.Cluster.Progress.{received}
use sqpkv.ServerLauncher.{ServerLauncher, next_proxy, truth_of, int_of, rank_of, shard_id_key}
use sqpkv.ServerLauncher.Numbers.{to_string}
use sqpkv.ServerLauncher.Program.{Launching, ids_then, saves_then}
use sqpkv.ServerLauncher.Validity.{told_by_0}

pub truth_of-int_of : (b : Bool) → truth_of (int_of b) ≡ b
truth_of-int_of true = refl
truth_of-int_of false = refl

both_true : (a b : Bool) → a && b ≡ true → (a ≡ true) × (b ≡ true)
both_true true true h = (refl, refl)
both_true true false h = ground arith
both_true false b h = ground arith

-- The map has each rank below `n` under its own number.
abbrev pub Numbered : ℕ → List (ℤ × ℕ) → Type 0
Numbered n ids = (k : ℕ) → k < n → rank_of ids (pos k) ≡ k

pub Numbered-next :
    (n : ℕ) (ids : List (ℤ × ℕ)) → Numbered n ids → Numbered (suc n) ((pos n, n) ∷ ids)
unfolding rank_of
Numbered-next n ids h k less = elim (equal_or_not n k) [
  | inl e ↦ rw (rank_of, e, same_self k) e
  | inr ne ↦ rw (rank_of, differs n k ne) (h k (omega (arith, ne, less)))
]

got_behind : (r x : ℕ) (y : ℤ) (es : List Event) → r ≢ x → got_from x (got r y ∷ es) ≡ got_from x es
unfolding got_from
got_behind r x y es h = rw (got_from, differs r x h) refl

got_ahead : (r : ℕ) (y : ℤ) (es : List Event) → got_from r (got r y ∷ es) ≡ y ∷ got_from r es
unfolding got_from
got_ahead r y es = rw (got_from, same_self r) refl

module _ (R : Rocks) where
  -- Behind the loop over the shard ids, where the first int of each rank is its number
  pub ids_then-Numbered :
      (n rank : ℕ) (p : ℤ) (ids : List (ℤ × ℕ)) (later : ℤ → List (ℤ × ℕ) → Launching R)
      (es : List Event) (q : Launching R) (v : ℤ) (vs : List ℤ)
      → Does (ServerLauncher R) 0 (ids_then R n rank p ids later) es q
      → values_of 0 es ≡ v ∷ vs
      → ((r : ℕ) (x : ℤ) (xs : List ℤ) → rank ≤ r → got_from r es ≡ x ∷ xs → x ≡ pos r)
      → Numbered rank ids
      → (p' : ℤ) × (ids' : List (ℤ × ℕ)) × (fs : List Event) × Does
          (ServerLauncher R)
          0
          (later p' ids')
          fs
          q
        × (values_of 0 fs ≡ v ∷ vs)
        × Numbered (rank + n) ids'
        × ((r : ℕ) → rank ≤ r → r < rank + n → (x : ℤ) × (got_from r es ≡ x ∷ got_from r fs))
        × ((r : ℕ) → r < rank → got_from r es ≡ got_from r fs)
  unfolding ids_then values_of got_from
  ids_then-Numbered zero rank p ids later es q v vs d h own known = (
    p,
    ids,
    es,
    d,
    h,
    (λ k less. known k (omega (arith, less))),
    (λ r a b. absurd (omega (arith, a, b))),
    (λ r a. refl),
  )
  ids_then-Numbered (suc n) rank p ids later es q v vs d h own known =
      let (x, fs, e, d') = received 0 0 rank _ es q v vs d h in
      let mine : got_from rank es ≡ x ∷ got_from rank fs =
        ap (got_from rank) e ∙ got_ahead rank x fs in
      let numbered : x ≡ pos rank = own rank x (got_from rank fs) (omega arith) mine in
      let (p', ids', gs, d'', h', known', firsts, before) =
        ids_then-Numbered n (suc rank) (next_proxy p rank x) ((x, rank) ∷ ids) later fs q v vs d'
          (sym (ap (values_of 0) e) ∙ h)
          (λ r y ys a g.
            own r y ys (omega (arith, a))
              (ap (got_from r) e ∙ got_behind rank r x fs (λ z. omega (arith, z, a)) ∙ g))
          (subst (λ z. Numbered (suc rank) ((z, rank) ∷ ids)) (sym numbered)
            (Numbered-next rank ids known)) in
      (
        p',
        ids',
        gs,
        d'',
        h',
        (λ k less. known' k (omega (arith, less))),
        (λ r a b. elim (equal_or_not rank r) [
          | inl same ↦ (
            x,
            subst (λ z. got_from z es ≡ x ∷ got_from z gs) same
                (mine ∙ ap (λ l. x ∷ l) (before rank (omega arith))),
          )
          | inr apart ↦
              let (y, f) = firsts r (omega (arith, a, apart)) (omega (arith, b)) in
              (y, ap (got_from r) e ∙ got_behind rank r x fs apart ∙ f)
        ]),
        (λ r a.
            ap (got_from r) e
            ∙ got_behind rank r x fs (λ z. omega (arith, z, a))
            ∙ before r (omega (arith, a))),
      )

  -- The loop over the save results of the ranks, behind which a success is told
  pub saves_then-good :
      (n k : ℕ) (ids : List (ℤ × ℕ)) (saved : Bool) (f : ℤ → Launching R) (es : List Event)
      (q : Launching R) (s : ℤ) (vs : List ℤ)
      → Does (ServerLauncher R) 0 (saves_then R n k ids saved (λ b. bcast 0 (int_of b) f)) es q
      → values_of 0 es ≡ s ∷ vs
      → truth_of s ≡ true
      → Numbered (k + n) ids
      → (saved ≡ true)
        × ((r : ℕ)
            → k ≤ r
            → r < k + n
            → (y : ℤ) × (ys : List ℤ) × (got_from r es ≡ y ∷ ys) × (truth_of y ≡ true))
  unfolding saves_then values_of
  saves_then-good zero k ids saved f es q s vs d h good known = (
    sym (truth_of-int_of saved) ∙ ap truth_of (told_by_0 (int_of saved) f es q s vs d h) ∙ good,
    λ r a b. absurd (omega (arith, a, b)),
  )
  saves_then-good (suc n) k ids saved f es q s vs d h good known =
      let (y, fs, e, d') = received 0 0 (rank_of ids (pos k)) _ es q s vs d h in
      let from_k : es ≡ got k y ∷ fs = e ∙ ap (λ i. got i y ∷ fs) (known k (omega arith)) in
      let (all, rest) =
        saves_then-good n (suc k) ids (truth_of y && saved) f fs q s vs d'
          (sym (ap (values_of 0) e) ∙ h) good (λ i less. known i (omega (arith, less))) in
      let (mine, saved_too) = both_true (truth_of y) saved all in
      (
        saved_too,
        λ r a b. elim (equal_or_not k r) [
          | inl same ↦ (
            y,
            got_from k fs,
            subst (λ z. got_from z es ≡ y ∷ got_from k fs) same
                (ap (got_from k) from_k ∙ got_ahead k y fs),
            mine,
          )
          | inr apart ↦
              let (x, xs, g, t) = rest r (omega (arith, a, apart)) (omega (arith, b)) in
              (x, xs, ap (got_from r) from_k ∙ got_behind k r y fs apart ∙ g, t)
        ],
      )

  -- The database of a process is open, and has taken the rank.
  abbrev pub Saved : ServerLauncher R → Type 0
  Saved l =
      (db : Rocks.Db R) × (l.db ≡ some db)
      × (R.status_ok (R.put db shard_id_key (to_string l.world_rank)).0 ≡ true)
