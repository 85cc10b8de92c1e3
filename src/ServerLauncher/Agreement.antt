-- ===== src/ServerLauncher/Agreement.antt =====
-- The processes of a cluster in ShakeHands of src/server/server_launcher.cc: what each can end with, and that
-- they end with the same proxy.
use sqpkv.Prelude.{
  ℕ, zero, suc, ◌-◌, ◌≡◌, refl, sym, ap, ◌∙◌, Bool, ◌&&◌, Option, some, List, [], ◌∷◌, ◌++◌, ◌==◌,
  if◌then◌else◌, Bool-cases, Option-cases, inl, inr,
}
use mathlib.Core.Path.{subst}
use sqpkv.Prelude.Int.{ℤ, pos, negsuc}
use sqpkv.Rocks.{Rocks}
use sqpkv.Cluster.{
  ended, faulted, recv, send, bcast, Event, got, sent, heard, Does, here, receives, sends, tells,
  hears,
}
use sqpkv.Cluster.Channels.{values_of, same_self, differs, equal_or_not}
use sqpkv.Cluster.Execution.{Execution}
use sqpkv.ServerLauncher.{ServerLauncher, next_proxy, rank_of, int_of, truth_of, shard_id_key}
use sqpkv.ServerLauncher.Numbers.{minus_one, same_int, to_string}
use sqpkv.ServerLauncher.Program.{
  Launching, ids_then, saves_then, preserving, elected_then, shaking_hands,
}

-- The broadcasts among the events: their roots and values
pub casts : List Event → List (ℕ × ℤ)
casts [] = []
casts (got from x ∷ es) = casts es
casts (sent to x ∷ es) = casts es
casts (heard root x ∷ es) = (root, x) ∷ casts es

unfoldable pub of_root : ℕ → List (ℕ × ℤ) → List ℤ
of_root r [] = []
of_root r ((root, x) ∷ cs) = if root == r then x ∷ of_root r cs else of_root r cs

pub values_of-casts : (r : ℕ) (es : List Event) → values_of r es ≡ of_root r (casts es)
unfolding values_of casts of_root
values_of-casts r [] = refl
values_of-casts r (got from x ∷ es) = values_of-casts r es
values_of-casts r (sent to x ∷ es) = values_of-casts r es
values_of-casts r (heard root x ∷ es) = elim (Bool-cases (root == r)) [
  | inl e ↦ rw e (ap (λ t. x ∷ t) (values_of-casts r es))
  | inr e ↦ rw e (values_of-casts r es)
]

-- What follows the first broadcast, by the value that has been heard
abbrev pub Ends : ℤ → List (ℕ × ℤ) → ℤ → Type 0
Ends (negsuc n) cs out = (cs ≡ []) × (out ≡ negsuc n)
Ends (pos q) cs out =
    (s : ℤ) × (cs ≡ (q, s) ∷ []) × (out ≡ (if truth_of s then pos q else minus_one))

module _ (R : Rocks) (self : ℕ) where
  abbrev Goes : Launching R → List Event → ServerLauncher R → Type 0
  Goes p es l = Does (ServerLauncher R) self p es (ended l)

  ended-only :
      (a b : ServerLauncher R) (es : List Event) → Goes (ended a) es b → (es ≡ []) × (a ≡ b)
  ended-only a b es here = (refl, refl)

  bcast_then :
      (root : ℕ) (x : ℤ) (k : ℤ → Launching R) (es : List Event) (b : ServerLauncher R)
      → Goes (bcast root x k) es b
      → (y : ℤ) × (fs : List Event) × (es ≡ heard root y ∷ fs) × Goes (k y) fs b
  bcast_then root x k es b (tells own d) = (x, _, refl, d)
  bcast_then root x k es b (hears other d) = (_, _, refl, d)

  send_then :
      (to : ℕ) (x : ℤ) (p : Launching R) (es : List Event) (b : ServerLauncher R)
      → Goes (send to x p) es b
      → (fs : List Event) × (es ≡ sent to x ∷ fs) × Goes p fs b
  send_then to x p es b (sends d) = (_, refl, d)

  recv_then :
      (from : ℕ) (k : ℤ → Launching R) (es : List Event) (b : ServerLauncher R)
      → Goes (recv from k) es b
      → (x : ℤ) × (fs : List Event) × (es ≡ got from x ∷ fs) × Goes (k x) fs b
  recv_then from k es b (receives d) = (_, _, refl, d)

  saves_then-later :
      (n k : ℕ) (ids : List (ℤ × ℕ)) (saved : Bool) (later : Bool → Launching R) (es : List Event)
      (b : ServerLauncher R)
      → Goes (saves_then R n k ids saved later) es b
      → (all_saved : Bool) × (fs : List Event) × (casts es ≡ casts fs) × Goes (later all_saved) fs b
  unfolding saves_then casts
  saves_then-later zero k ids saved later es b d = (saved, es, refl, d)
  saves_then-later (suc n) k ids saved later es b d =
      let (x, fs, e, d') = recv_then (rank_of ids (pos k)) _ es b d in
      let (all_saved, gs, same, d'') =
        saves_then-later n (suc k) ids (truth_of x && saved) later fs b d' in
      (all_saved, gs, rw e same, d'')

  ids_then-later :
      (n rank : ℕ) (p : ℤ) (ids : List (ℤ × ℕ)) (later : ℤ → List (ℤ × ℕ) → Launching R)
      (es : List Event) (b : ServerLauncher R)
      → Goes (ids_then R n rank p ids later) es b
      → (p' : ℤ) × (ids' : List (ℤ × ℕ)) × (fs : List Event) × (casts es ≡ casts fs)
        × Goes (later p' ids') fs b
  unfolding ids_then casts
  ids_then-later zero rank p ids later es b d = (p, ids, es, refl, d)
  ids_then-later (suc n) rank p ids later es b d =
      let (x, fs, e, d') = recv_then rank _ es b d in
      let (p', ids', gs, same, d'') =
        ids_then-later n (suc rank) (next_proxy p rank x) ((x, rank) ∷ ids) later fs b d' in
      (p', ids', gs, rw e same, d'')

  last_cast :
      (q : ℕ) (x : ℤ) (f : ℤ → ServerLauncher R) (es : List Event) (b : ServerLauncher R)
      → Goes (bcast q x (λ s. ended (f s))) es b
      → (s : ℤ) × (casts es ≡ (q, s) ∷ []) × (f s ≡ b)
  unfolding casts
  last_cast q x f es b d =
      let (s, fs, e, d') = bcast_then q x _ es b d in
      let (none_left, same) = ended-only (f s) b fs d' in (s, rw (e, none_left) refl, same)

  faulted-never : (es : List Event) (b : ServerLauncher R) → Goes faulted es b → ⊥
  faulted-never es b d = elim d [ ]

  by_last_cast :
      (q : ℕ) (x : ℤ) (launcher : ServerLauncher R) (db : Option (Rocks.Db R)) (es fs : List Event)
      (b : ServerLauncher R)
      → launcher.proxy_rank ≡ pos q
      → casts es ≡ casts fs
      → Goes
          (bcast q x (λ s. ended (record launcher {
            db = db;
            proxy_rank = if truth_of s then launcher.proxy_rank else minus_one;
          })))
          fs
          b
      → Ends (pos q) (casts es) b.proxy_rank
  by_last_cast q x launcher db es fs b told same d =
      let (s, one, ends) = last_cast q x _ fs b d in
      (s, same ∙ one, sym (ap (λ (l : ServerLauncher R). l.proxy_rank) ends) ∙ rw told refl)

  preserving-Ends :
      (q : ℕ) (launcher : ServerLauncher R) (es : List Event) (b : ServerLauncher R)
      → launcher.proxy_rank ≡ pos q
      → Goes (preserving R q launcher) es b
      → Ends (pos q) (casts es) b.proxy_rank
  unfolding preserving casts
  preserving-Ends q launcher es b told d = elim (Option-cases launcher.db) [
    | inl closed ↦
        absurd (faulted-never es b (subst (λ p. Goes p es b) (rw (preserving, closed) refl) d))
    | inr (db, opened) ↦
        let (s, db') = R.put db shard_id_key (to_string launcher.world_rank) in
        let finish : ℤ → Launching R = λ success. ended (record launcher {
          db = some db';
          proxy_rank = if truth_of success then launcher.proxy_rank else minus_one;
        }) in
        elim (Bool-cases (launcher.world_rank == q)) [
          | inl own ↦
              let later : Bool → Launching R = λ all_saved. bcast q (int_of all_saved) finish in
              let eq : preserving R q launcher
                  ≡ saves_then R (launcher.world_size - 1) 1 launcher.id_to_rank (R.status_ok s)
                      later =
                rw (preserving, opened, own) refl in
              let (all_saved, fs, same, d') =
                saves_then-later (launcher.world_size - 1) 1 launcher.id_to_rank (R.status_ok s)
                  later es b (subst (λ p. Goes p es b) eq d) in
              by_last_cast q (int_of all_saved) launcher (some db') es fs b told same d'
          | inr other ↦
              let eq : preserving R q launcher
                  ≡ send q (int_of (R.status_ok s)) (bcast q (int_of (R.status_ok s)) finish) =
                rw (preserving, opened, other) refl in
              let (fs, e, d') =
                send_then q (int_of (R.status_ok s)) _ es b (subst (λ p. Goes p es b) eq d) in
              by_last_cast q (int_of (R.status_ok s)) launcher (some db') es fs b told (rw e refl)
                d'
        ]
  ]

  elected_then-Ends :
      (launcher : ServerLauncher R) (es : List Event) (b : ServerLauncher R)
      → Goes (elected_then R launcher) es b
      → Ends launcher.proxy_rank (casts es) b.proxy_rank
  unfolding elected_then casts
  elected_then-Ends launcher es b d = by_rank launcher.proxy_rank refl d
    where
      by_rank :
          (p : ℤ)
          → launcher.proxy_rank ≡ p
          → Goes
              (elim p [ negsuc n ↦ ended launcher | pos proxy ↦ preserving R proxy launcher ])
              es
              b
          → Ends p (casts es) b.proxy_rank
      by_rank (pos q) told d = preserving-Ends q launcher es b told d
      by_rank (negsuc n) told d =
          let (none_left, same) = ended-only launcher b es d in
          (rw none_left refl, sym (ap (λ (l : ServerLauncher R). l.proxy_rank) same) ∙ told)

  -- A process that ends has heard first a value of rank 0, and then what follows it.
  shaking_hands-Ends :
      (launcher : ServerLauncher R) (es : List Event) (b : ServerLauncher R)
      → Goes (shaking_hands R launcher) es b
      → (v : ℤ) × (cs : List (ℕ × ℤ)) × (casts es ≡ (0, v) ∷ cs) × Ends v cs b.proxy_rank
  unfolding shaking_hands casts
  shaking_hands-Ends launcher es b d = elim (Bool-cases (launcher.world_rank == 0)) [
    | inl root ↦
        let ids = (launcher.shard_id, 0) ∷ launcher.id_to_rank in
        let p = (if same_int launcher.shard_id minus_one then minus_one else pos 0) in
        let later : ℤ → List (ℤ × ℕ) → Launching R = λ proxy_rank ids.
          bcast 0 proxy_rank
            (λ told. elected_then R (record launcher { proxy_rank = told; id_to_rank = ids })) in
        let eq : shaking_hands R launcher ≡ ids_then R (launcher.world_size - 1) 1 p ids later =
          rw (shaking_hands, root) refl in
        let (p', ids', fs, same, d') =
          ids_then-later (launcher.world_size - 1) 1 p ids later es b
            (subst (λ p. Goes p es b) eq d) in
        let (v, gs, e, d'') = bcast_then 0 p' _ fs b d' in
        (
          v,
          casts gs,
          same ∙ rw e refl,
          elected_then-Ends (record launcher { proxy_rank = v; id_to_rank = ids' }) gs b d'',
        )
    | inr other ↦
        let p : Launching R =
          bcast 0 launcher.proxy_rank
            (λ told. elected_then R (record launcher { proxy_rank = told })) in
        let eq : shaking_hands R launcher ≡ send 0 launcher.shard_id p =
          rw (shaking_hands, other) refl in
        let (fs, e, d') = send_then 0 launcher.shard_id p es b (subst (λ p. Goes p es b) eq d) in
        let (v, gs, e', d'') = bcast_then 0 launcher.proxy_rank _ fs b d' in
        (
          v,
          casts gs,
          rw (e, e') refl,
          elected_then-Ends (record launcher { proxy_rank = v }) gs b d'',
        )
  ]

first_of : List ℤ → ℤ
first_of [] = pos 0
first_of (x ∷ xs) = x

second_of : List ℤ → ℤ
unfolding first_of
second_of [] = pos 0
second_of (x ∷ xs) = first_of xs

-- The values that have been heard are a front part of those of each root.
abbrev pub FrontOf : List (ℕ × ℤ) → (ℕ → List ℤ) → Type 0
FrontOf cs all = (r : ℕ) → (later : List ℤ) × (of_root r cs ++ later ≡ all r)

first-FrontOf :
    (v : ℤ) (cs : List (ℕ × ℤ)) (all : ℕ → List ℤ)
    → FrontOf ((0, v) ∷ cs) all
    → first_of (all 0) ≡ v
unfolding first_of of_root
first-FrontOf v cs all front = let (later, e) = front 0 in rw (← e) refl

-- Where the value for what the root q says second, or first where it is not rank 0, is found
said_by : ℕ → (ℕ → List ℤ) → ℤ
said_by q all = if q == 0 then second_of (all 0) else first_of (all q)

said_by-FrontOf :
    (v : ℤ) (q : ℕ) (s : ℤ) (all : ℕ → List ℤ)
    → FrontOf ((0, v) ∷ (q, s) ∷ []) all
    → said_by q all ≡ s
unfolding said_by first_of second_of of_root
said_by-FrontOf v q s all front = elim (equal_or_not q 0) [
  | inl e ↦
      subst (λ r. FrontOf ((0, v) ∷ (r, s) ∷ []) all → said_by r all ≡ s) (sym e)
        (λ (front : FrontOf ((0, v) ∷ (0, s) ∷ []) all). let (later, e) = front 0 in rw (← e) refl)
        front
  | inr ne ↦
      let (later, e) = front q in
      rw (said_by, differs q 0 ne, ← e)
        (rw (of_root, differs 0 q (λ z. ne (sym z)), same_self q) refl)
]

-- Two processes with these ends have the same one.
same_end :
    (v u : ℤ) (cs ds : List (ℕ × ℤ)) (out out' : ℤ) (all : ℕ → List ℤ)
    → FrontOf ((0, v) ∷ cs) all
    → FrontOf ((0, u) ∷ ds) all
    → Ends v cs out
    → Ends u ds out'
    → out ≡ out'
same_end v u cs ds out out' all f g h k =
    alike v h f (subst (λ w. Ends w ds out') same k) (subst (λ w. FrontOf ((0, w) ∷ ds) all) same g)
  where
    same : u ≡ v
    same = sym (first-FrontOf u ds all g) ∙ first-FrontOf v cs all f

    alike :
        (v : ℤ)
        → Ends v cs out
        → FrontOf ((0, v) ∷ cs) all
        → Ends v ds out'
        → FrontOf ((0, v) ∷ ds) all
        → out ≡ out'
    alike (negsuc n) (_, e) _ (_, e') _ = e ∙ sym e'
    alike (pos q) (s, c, e) f (s', d, e') g =
        let one = said_by-FrontOf (pos q) q s all (subst (λ l. FrontOf ((0, pos q) ∷ l) all) c f) in
        let other =
          said_by-FrontOf (pos q) q s' all (subst (λ l. FrontOf ((0, pos q) ∷ l) all) d g) in
        e ∙ rw (← one, ← other) refl ∙ sym e'

module _ (R : Rocks) where
  Execution-FrontOf :
      (processes : ℕ → Launching R) (x : Execution processes) (p : ℕ)
      → FrontOf (casts (x.done p)) (λ r. of_root r (casts (x.done r)))
  Execution-FrontOf processes x p r =
      let (later, e) = x.heard_in_order r p in
      (later, rw (← values_of-casts r (x.done p), ← values_of-casts r (x.done r)) e)

  pub ended-Ends :
      (launchers : ℕ → ServerLauncher R) (x : Execution (λ rank. shaking_hands R (launchers rank)))
      (p : ℕ) (a : ServerLauncher R)
      → x.process p ≡ ended a
      → (v : ℤ) × (cs : List (ℕ × ℤ)) × FrontOf ((0, v) ∷ cs) (λ r. of_root r (casts (x.done r)))
        × Ends v cs a.proxy_rank
  ended-Ends launchers x p a e =
      let (v, cs, heard_by, ends) = shaking_hands-Ends R p (launchers p) (x.done p) a (
        subst (λ z. Does (ServerLauncher R) p (shaking_hands R (launchers p)) (x.done p) z) e
          (x.goes p)) in
      (
        v,
        cs,
        subst (λ l. FrontOf l (λ r. of_root r (casts (x.done r)))) heard_by
            (Execution-FrontOf (λ rank. shaking_hands R (launchers rank)) x p),
        ends,
      )

  -- Where the processes of a cluster have all begun ShakeHands and any two of them have ended it, in whatever
  -- order the processes of the cluster have gone on, these two know the same rank of the proxy.
  pub agreement :
      (launchers : ℕ → ServerLauncher R) (x : Execution (λ rank. shaking_hands R (launchers rank)))
      (p q : ℕ) (a b : ServerLauncher R)
      → x.process p ≡ ended a
      → x.process q ≡ ended b
      → a.proxy_rank ≡ b.proxy_rank
  agreement launchers x p q a b e f =
      let (v, cs, front, ends) = ended-Ends launchers x p a e in
      let (u, ds, front', ends') = ended-Ends launchers x q b f in
      same_end v u cs ds a.proxy_rank b.proxy_rank (λ r. of_root r (casts (x.done r))) front front'
        ends ends'
