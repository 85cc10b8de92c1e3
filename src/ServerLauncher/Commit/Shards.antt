-- ===== src/ServerLauncher/Commit/Shards.antt =====
-- What a rank other than 0 sends to rank 0 in ShakeHands of src/server/server_launcher.cc.
use sqpkv.Prelude.{
  ℕ, zero, suc, ◌-◌, ◌≡◌, ◌≢◌, refl, sym, ap, ◌∙◌, Bool, true, false, some, List, [], ◌∷◌, ◌==◌,
  if◌then◌else◌, Bool-cases, Option-cases, inl, inr, arith, length, ◌&&◌,
}
use mathlib.Core.Path.{subst}
use sqpkv.Prelude.Int.{ℤ, pos, negsuc}
use sqpkv.Rocks.{Rocks}
use sqpkv.Cluster.{Process, ended, faulted, send, bcast, Event, Does, here, sends, tells, hears}
use sqpkv.Cluster.Channels.{sent_to, differs, equal_or_not}
use sqpkv.Cluster.Progress.{no_first}
use sqpkv.ServerLauncher.{ServerLauncher, truth_of, int_of, rank_of, shard_id_key}
use sqpkv.ServerLauncher.Numbers.{minus_one, to_string}
use sqpkv.ServerLauncher.Program.{Launching, saves_then, preserving, elected_then, shaking_hands}
use sqpkv.ServerLauncher.Deadlock.{Sends-faulted, Sends, Sends-ended, Sends-recv, Sends-bcast}
use sqpkv.ServerLauncher.Commit.Loops.{truth_of-int_of, Saved}

pub head_is : (a b : ℤ) (more bs : List ℤ) → a ∷ more ≡ b ∷ bs → a ≡ b
head_is a b more bs e = ap (λ (l : List ℤ). elim l [ [] ↦ a | x ∷ xs ↦ x ]) e

pub tail_is : (a b : ℤ) (more bs : List ℤ) → a ∷ more ≡ b ∷ bs → more ≡ bs
tail_is a b more bs e = ap (λ (l : List ℤ). elim l [ [] ↦ more | x ∷ xs ↦ xs ]) e

module _ {A : Type 0} (self : ℕ) where
  send_next :
      (x : ℤ) (p : Process A) (es : List Event) (q : Process A) (a : ℤ) (more : List ℤ)
      → Does A self (send 0 x p) es q
      → sent_to 0 es ≡ a ∷ more
      → (fs : List Event) × Does A self p fs q × (x ≡ a) × (sent_to 0 fs ≡ more)
  unfolding sent_to
  send_next x p es q a more here h = no_first a more h
  send_next x p es q a more (sends {es = fs} d) h =
      (fs, d, head_is x a (sent_to 0 fs) more h, tail_is x a (sent_to 0 fs) more h)

  bcast_next :
      (root : ℕ) (x : ℤ) (k : ℤ → Process A) (es : List Event) (q : Process A) (a : ℤ)
      (more : List ℤ)
      → Does A self (bcast root x k) es q
      → sent_to 0 es ≡ a ∷ more
      → (y : ℤ) × (fs : List Event) × Does A self (k y) fs q × (sent_to 0 fs ≡ a ∷ more)
  unfolding sent_to
  bcast_next root x k es q a more here h = no_first a more h
  bcast_next root x k es q a more (tells own d) h = (x, _, d, h)
  bcast_next root x k es q a more (hears other d) h = (_, _, d, h)

  sent_elsewhere :
      (to : ℕ) (x : ℤ) (p : Process A) (es : List Event) (q : Process A) (a : ℤ) (more : List ℤ)
      → to ≢ 0
      → Does A self (send to x p) es q
      → sent_to 0 es ≡ a ∷ more
      → (fs : List Event) × Does A self p fs q × (sent_to 0 fs ≡ a ∷ more)
  unfolding sent_to
  sent_elsewhere to x p es q a more ne here h = no_first a more h
  sent_elsewhere to x p es q a more ne (sends {es = fs} d) h =
      (fs, d, sym (rw (sent_to, differs to 0 ne) refl) ∙ h)

  nothing_sent :
      {B : Type 0} (p : Process A) (es : List Event) (q : Process A) (a : ℤ) (more : List ℤ)
      → Sends self 0 0 p
      → Does A self p es q
      → sent_to 0 es ≡ a ∷ more
      → B
  nothing_sent p es q a more few d h =
      let bound = few es q d in
      let count : length (sent_to 0 es) ≡ suc (length more) = ap length h in
      absurd (omega (arith, bound, count))

module _ (R : Rocks) (self : ℕ) where
  saves_then-silent :
      (n k : ℕ) (ids : List (ℤ × ℕ)) (saved : Bool) (later : Bool → Launching R)
      → ((b : Bool) → Sends self 0 0 (later b))
      → Sends self 0 0 (saves_then R n k ids saved later)
  unfolding saves_then
  saves_then-silent zero k ids saved later h = h saved
  saves_then-silent (suc n) k ids saved later h =
      Sends-recv self 0 0 (rank_of ids (pos k)) _
        (λ x. saves_then-silent n (suc k) ids (truth_of x && saved) later h)

  preserving-Saved :
      (proxy : ℕ) (l : ServerLauncher R) (es : List Event) (q : Launching R) (y : ℤ) (ys : List ℤ)
      → Does (ServerLauncher R) self (preserving R proxy l) es q
      → sent_to 0 es ≡ y ∷ ys
      → truth_of y ≡ true
      → Saved R l
  unfolding preserving
  preserving-Saved proxy l es q y ys d h good = elim (Option-cases l.db) [
    | inl closed ↦
        nothing_sent self faulted es q y ys (Sends-faulted self 0 0)
          (subst (λ x. Does (ServerLauncher R) self x es q) (rw (preserving, closed) refl) d) h
    | inr (db, opened) ↦
        let (s, db') = R.put db shard_id_key (to_string l.world_rank) in
        let finish : ℤ → Launching R = λ success. ended (record l {
          db = some db';
          proxy_rank = if truth_of success then l.proxy_rank else minus_one;
        }) in
        elim (Bool-cases (l.world_rank == proxy)) [
          | inl own ↦
              let later : Bool → Launching R = λ b. bcast proxy (int_of b) finish in
              let eq : preserving R proxy l
                  ≡ saves_then R (l.world_size - 1) 1 l.id_to_rank (R.status_ok s) later =
                rw (preserving, opened, own) refl in
              nothing_sent self _ es q y ys
                (saves_then-silent (l.world_size - 1) 1 l.id_to_rank (R.status_ok s) later
                  (λ b. Sends-bcast self 0 0 proxy (int_of b) finish (λ x. Sends-ended self 0 0 _)))
                (subst (λ x. Does (ServerLauncher R) self x es q) eq d) h
          | inr other ↦
              let next : Launching R = bcast proxy (int_of (R.status_ok s)) finish in
              let eq : preserving R proxy l ≡ send proxy (int_of (R.status_ok s)) next =
                rw (preserving, opened, other) refl in
              let d' : Does (ServerLauncher R) self (send proxy (int_of (R.status_ok s)) next) es
                  q =
                subst (λ x. Does (ServerLauncher R) self x es q) eq d in
              elim (equal_or_not proxy 0) [
                | inl zero_proxy ↦
                    let (fs, _, same, _) =
                      send_next self (int_of (R.status_ok s)) next es q y ys
                        (subst
                          (λ i.
                            Does (ServerLauncher R) self (send i (int_of (R.status_ok s)) next) es
                              q)
                          zero_proxy d')
                        h in
                    (db, opened, sym (truth_of-int_of (R.status_ok s)) ∙ ap truth_of same ∙ good)
                | inr ne ↦
                    let (fs, d'', h') =
                      sent_elsewhere self proxy (int_of (R.status_ok s)) next es q y ys ne d' h in
                    nothing_sent self next fs q y ys
                      (Sends-bcast self 0 0 proxy _ finish (λ x. Sends-ended self 0 0 _)) d'' h'
              ]
        ]
  ]

  -- A rank other than 0 whose second int for rank 0 is a success has saved its rank.
  pub shard-Saved :
      (l : ServerLauncher R) (es : List Event) (q : Launching R) (x y : ℤ) (ys : List ℤ)
      → (l.world_rank == 0) ≡ false
      → Does (ServerLauncher R) self (shaking_hands R l) es q
      → sent_to 0 es ≡ x ∷ y ∷ ys
      → truth_of y ≡ true
      → Saved R l
  unfolding shaking_hands elected_then
  shard-Saved l es q x y ys other d h good =
      let rest : Launching R =
        bcast 0 l.proxy_rank (λ told. elected_then R (record l { proxy_rank = told })) in
      let eq : shaking_hands R l ≡ send 0 l.shard_id rest = rw (shaking_hands, other) refl in
      let (fs, d1, _, h1) =
        send_next self l.shard_id rest es q x (y ∷ ys)
          (subst (λ p. Does (ServerLauncher R) self p es q) eq d) h in
      let (told, gs, d2, h2) = bcast_next self 0 l.proxy_rank _ fs q y ys d1 h1 in
      by_rank told gs d2 h2
    where
      by_rank :
          (told : ℤ) (gs : List Event)
          → Does (ServerLauncher R) self (elected_then R (record l { proxy_rank = told })) gs q
          → sent_to 0 gs ≡ y ∷ ys
          → Saved R l
      by_rank (pos proxy) gs d h =
          preserving-Saved proxy (record l { proxy_rank = pos proxy }) gs q y ys d h good
      by_rank (negsuc n) gs d h = nothing_sent self (ended _) gs q y ys (Sends-ended self 0 0 _) d h
