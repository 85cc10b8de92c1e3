-- ===== src/ServerLauncher/Validity.antt =====
-- Which proxy the processes of a cluster end ShakeHands of src/server/server_launcher.cc with: rank 0 has the
-- shard id of every other rank before it tells one.
use sqpkv.Prelude.{
  ℕ, zero, suc, ◌≡◌, ◌≢◌, ◌<◌, ◌⊎◌, refl, sym, ap, ◌∙◌, List, [], ◌∷◌, ◌++◌, if◌then◌else◌,
  Bool-cases, inl, inr, arith, length,
}
use mathlib.Core.Path.{subst}
use sqpkv.Prelude.Int.{ℤ, pos, negsuc}
use sqpkv.Rocks.{Rocks}
use sqpkv.Cluster.{Process, ended, send, bcast, Event, got, sent, Does, here, sends, tells, hears}
use sqpkv.Cluster.Channels.{values_of, got_from, sent_to, same_self, differs}
use sqpkv.Cluster.Progress.{no_first, received}
use sqpkv.Cluster.Execution.{Execution}
use sqpkv.ServerLauncher.{ServerLauncher, next_proxy, truth_of}
use sqpkv.ServerLauncher.Numbers.{minus_one, same_int}
use sqpkv.ServerLauncher.HandShake.{elected, elected-proxy_of, proxy_of, one_less}
use sqpkv.ServerLauncher.Program.{Launching, ids_then, elected_then, shaking_hands}
use sqpkv.ServerLauncher.Agreement.{Ends, FrontOf, of_root, casts, values_of-casts, ended-Ends}

-- The first int received from each rank, from `rank` on
GotFirst : ℕ → List ℤ → List Event → Type 0
GotFirst rank [] es = Unit
GotFirst rank (x ∷ xs) es =
    ((later : List ℤ) × (got_from rank es ≡ x ∷ later)) × GotFirst (suc rank) xs es

GotFirst-later :
    (rank from : ℕ) (x : ℤ) (xs : List ℤ) (es : List Event)
    → rank < from
    → GotFirst from xs es
    → GotFirst from xs (got rank x ∷ es)
unfolding GotFirst got_from
GotFirst-later rank from x [] es h g = tt
GotFirst-later rank from x (y ∷ ys) es h ((later, e), g) = (
  (later, rw (got_from, differs rank from (λ q. omega (arith, q, h))) e),
  GotFirst-later rank (suc from) x ys es (omega arith) g,
)

module _ {A : Type 0} where
  pub told_by_0 :
      (x : ℤ) (k : ℤ → Process A) (es : List Event) (q : Process A) (v : ℤ) (vs : List ℤ)
      → Does A 0 (bcast 0 x k) es q
      → values_of 0 es ≡ v ∷ vs
      → x ≡ v
  unfolding values_of
  told_by_0 x k es q v vs here h = no_first v vs h
  told_by_0 x k es q v vs (tells own d) h = ap first h
    where
      first : List ℤ → ℤ
      first [] = x
      first (y ∷ ys) = y
  told_by_0 x k es q v vs (hears other d) h = absurd (other refl)

  sent_first :
      (self x : ℕ) (y : ℤ) (p : Process A) (es : List Event) (q : Process A) (v : ℤ) (vs : List ℤ)
      → Does A self (send x y p) es q
      → sent_to x es ≡ v ∷ vs
      → y ≡ v
  unfolding sent_to
  sent_first self x y p es q v vs here h = no_first v vs h
  sent_first self x y p es q v vs (sends {es = fs} d) h =
      let e : sent_to x (sent x y ∷ fs) ≡ y ∷ sent_to x fs = rw (sent_to, same_self x) refl in
      ap first (sym e ∙ h)
    where
      first : List ℤ → ℤ
      first [] = y
      first (z ∷ zs) = z

module _ (R : Rocks) where
  ids_then-elected :
      (n rank : ℕ) (p : ℤ) (ids : List (ℤ × ℕ)) (k : List (ℤ × ℕ) → ℤ → Launching R)
      (es : List Event) (q : Launching R) (v : ℤ) (vs : List ℤ)
      → Does (ServerLauncher R) 0 (ids_then R n rank p ids (λ p' ids'. bcast 0 p' (k ids'))) es q
      → values_of 0 es ≡ v ∷ vs
      → (xs : List ℤ) × (length xs ≡ n) × (elected p rank xs ≡ v) × GotFirst rank xs es
  unfolding ids_then elected GotFirst values_of got_from
  ids_then-elected zero rank p ids k es q v vs d h =
      ([], refl, told_by_0 p (k ids) es q v vs d h, tt)
  ids_then-elected (suc n) rank p ids k es q v vs d h =
      let (x, fs, e, d') = received 0 0 rank _ es q v vs d h in
      let (xs, l, same, g) =
        ids_then-elected n (suc rank) (next_proxy p rank x) ((x, rank) ∷ ids) k fs q v vs d'
          (sym (ap (values_of 0) e) ∙ h) in
      (
        x ∷ xs,
        rw l refl,
        same,
        (
          (got_from rank fs, ap (got_from rank) e ∙ rw (got_from, same_self rank) refl),
          subst (λ l. GotFirst (suc rank) xs l) (sym e)
              (GotFirst-later rank (suc rank) x xs fs (omega arith) g),
        ),
      )

  -- The shard ids of the `n` ranks from `rank` on
  unfoldable pub shard_ids : (ℕ → ServerLauncher R) → ℕ → ℕ → List ℤ
  shard_ids launchers rank zero = []
  shard_ids launchers rank (suc n) = (launchers rank).shard_id ∷ shard_ids launchers (suc rank) n

  module _ (launchers : ℕ → ServerLauncher R)
      (numbered : (rank : ℕ) → (launchers rank).world_rank ≡ rank) where
    abbrev begun : ℕ → Launching R
    begun rank = shaking_hands R (launchers rank)

    pub first_received :
        (t : Execution begun) (rank : ℕ) (x : ℤ) (later : List ℤ)
        → rank ≢ 0
        → got_from rank (t.done 0) ≡ x ∷ later
        → (launchers rank).shard_id ≡ x
    unfolding shaking_hands
    first_received t rank x later other e =
        let l = launchers rank in
        let rest : Launching R =
          bcast 0 l.proxy_rank (λ told. elected_then R (record l { proxy_rank = told })) in
        let eq : begun rank ≡ send 0 l.shard_id rest =
          rw (shaking_hands, numbered rank, differs rank 0 other) refl in
        let (more, order) = t.got_in_order rank 0 in
        sent_first rank 0 l.shard_id rest (t.done rank) (t.process rank) x (later ++ more)
          (subst (λ p. Does (ServerLauncher R) rank p (t.done rank) (t.process rank)) eq
            (t.goes rank))
          (sym order ∙ ap (λ l. l ++ more) e)

    GotFirst-shard_ids :
        (t : Execution begun) (rank : ℕ) (xs : List ℤ)
        → 0 < rank
        → GotFirst rank xs (t.done 0)
        → xs ≡ shard_ids launchers rank (length xs)
    unfolding GotFirst shard_ids
    GotFirst-shard_ids t rank [] h g = refl
    GotFirst-shard_ids t rank (x ∷ xs) h ((later, e), g) =
        rw
          (
            first_received t rank x later (omega (arith, h)),
            ← GotFirst-shard_ids t (suc rank) xs (omega arith) g,
          )
          refl

    pub first_told :
        (n : ℕ) (t : Execution begun) (v : ℤ) (vs : List ℤ)
        → (launchers 0).world_size ≡ suc n
        → values_of 0 (t.done 0) ≡ v ∷ vs
        → v ≡ proxy_of (shard_ids launchers 0 (suc n))
    unfolding shard_ids shaking_hands
    first_told n t v vs size h =
        let l = launchers 0 in
        let p = (if same_int l.shard_id minus_one then minus_one else pos 0) in
        let k : List (ℤ × ℕ) → ℤ → Launching R =
          λ ids told. elected_then R (record l { proxy_rank = told; id_to_rank = ids }) in
        let eq : begun 0
            ≡ ids_then R n 1 p ((l.shard_id, 0) ∷ l.id_to_rank) (λ p' ids. bcast 0 p' (k ids)) =
          rw (shaking_hands, numbered 0, size, one_less n) refl in
        let (xs, len, same, g) =
          ids_then-elected n 1 p ((l.shard_id, 0) ∷ l.id_to_rank) k (t.done 0) (t.process 0) v vs
            (subst (λ x. Does (ServerLauncher R) 0 x (t.done 0) (t.process 0)) eq (t.goes 0)) h in
        sym same
        ∙ elected-proxy_of l.shard_id xs
        ∙ ap (λ ys. proxy_of (l.shard_id ∷ ys))
            (GotFirst-shard_ids t 1 xs (omega arith) g ∙ ap (shard_ids launchers 1) len)

    -- A process that ends has heard the proxy that the shard ids of all ranks give.
    pub first_heard :
        (n : ℕ) (t : Execution begun) (p : ℕ) (a : ServerLauncher R)
        → (launchers 0).world_size ≡ suc n
        → t.process p ≡ ended a
        → (cs : List (ℕ × ℤ)) × (let v = proxy_of (shard_ids launchers 0 (suc n)) in
            (FrontOf ((0, v) ∷ cs) (λ r. of_root r (casts (t.done r))) × Ends v cs a.proxy_rank))
    unfolding of_root
    first_heard n t p a size e =
        let (v, cs, front, ends) = ended-Ends R launchers t p a e in
        let (later, f) = front 0 in
        let same =
          first_told n t v (of_root 0 cs ++ later) size (values_of-casts 0 (t.done 0) ∙ sym f) in
        (
          cs,
          (
            subst (λ x. FrontOf ((0, x) ∷ cs) (λ r. of_root r (casts (t.done r)))) same front,
            subst (λ x. Ends x cs a.proxy_rank) same ends,
          ),
        )

refused_or : (v : ℤ) (cs : List (ℕ × ℤ)) (out : ℤ) → Ends v cs out → (out ≡ minus_one) ⊎ (out ≡ v)
refused_or (negsuc n) cs out (_, e) = inr e
refused_or (pos q) cs out (s, _, e) = elim (Bool-cases (truth_of s)) [
  | inl good ↦ inr (e ∙ rw good refl)
  | inr bad ↦ inl (e ∙ rw bad refl)
]

module _ (R : Rocks) where
  -- Where the processes of a cluster, each with the number of its rank, have all begun ShakeHands, in whatever
  -- order they have gone on: one that has ended it has the proxy's rank -1, or the one that the shard ids of
  -- all ranks give (-1 if one of them is -1, else the last rank with 0, and rank 0 if there is none).
  pub validity :
      (launchers : ℕ → ServerLauncher R) (n : ℕ)
      (t : Execution (λ rank. shaking_hands R (launchers rank))) (p : ℕ) (a : ServerLauncher R)
      → ((rank : ℕ) → (launchers rank).world_rank ≡ rank)
      → (launchers 0).world_size ≡ suc n
      → t.process p ≡ ended a
      → (a.proxy_rank ≡ minus_one) ⊎ (a.proxy_rank ≡ proxy_of (shard_ids R launchers 0 (suc n)))
  validity launchers n t p a numbered size e =
      let (cs, (_, ends)) = first_heard R launchers numbered n t p a size e in
      refused_or (proxy_of (shard_ids R launchers 0 (suc n))) cs a.proxy_rank ends
