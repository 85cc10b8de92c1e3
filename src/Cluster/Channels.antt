-- ===== src/Cluster/Channels.antt =====
-- What the steps of a cluster keep: a process has done what its program says, and each rank has heard of a
-- root's values, and received of the ints sent to it, a front part in their order.
use sqpkv.Prelude.{
  ℕ, ◌≡◌, ◌≢◌, ◌⊎◌, inl, inr, refl, ap, true, false, List, [], ◌∷◌, ◌++◌, ◌==◌, ==_iff, arith,
  if◌then◌else◌, Bool-cases,
}
use sqpkv.Prelude.Int.{ℤ}
use sqpkv.Cluster.{
  Process, Event, got, sent, heard, Does, here, receives, sends, tells, hears, set, Cluster, Step,
  step, Reach, start, go, starting,
}

-- The values of a root among the events
unfoldable pub values_of : ℕ → List Event → List ℤ
values_of r [] = []
values_of r (got from x ∷ es) = values_of r es
values_of r (sent to x ∷ es) = values_of r es
values_of r (heard root x ∷ es) = if root == r then x ∷ values_of r es else values_of r es

-- The ints received from a rank, and those sent to one
unfoldable pub got_from : ℕ → List Event → List ℤ
got_from r [] = []
got_from r (got from x ∷ es) = if from == r then x ∷ got_from r es else got_from r es
got_from r (sent to x ∷ es) = got_from r es
got_from r (heard root x ∷ es) = got_from r es

unfoldable pub sent_to : ℕ → List Event → List ℤ
sent_to r [] = []
sent_to r (got from x ∷ es) = sent_to r es
sent_to r (sent to x ∷ es) = if to == r then x ∷ sent_to r es else sent_to r es
sent_to r (heard root x ∷ es) = sent_to r es

pub values_of-append :
    (r : ℕ) (es fs : List Event) → values_of r (es ++ fs) ≡ values_of r es ++ values_of r fs
unfolding values_of
values_of-append r [] fs = refl
values_of-append r (got from x ∷ es) fs = values_of-append r es fs
values_of-append r (sent to x ∷ es) fs = values_of-append r es fs
values_of-append r (heard root x ∷ es) fs = elim (Bool-cases (root == r)) [
  | inl e ↦ rw e (ap (λ t. x ∷ t) (values_of-append r es fs))
  | inr e ↦ rw e (values_of-append r es fs)
]

pub got_from-append :
    (r : ℕ) (es fs : List Event) → got_from r (es ++ fs) ≡ got_from r es ++ got_from r fs
unfolding got_from
got_from-append r [] fs = refl
got_from-append r (sent to x ∷ es) fs = got_from-append r es fs
got_from-append r (heard root x ∷ es) fs = got_from-append r es fs
got_from-append r (got from x ∷ es) fs = elim (Bool-cases (from == r)) [
  | inl e ↦ rw e (ap (λ t. x ∷ t) (got_from-append r es fs))
  | inr e ↦ rw e (got_from-append r es fs)
]

pub sent_to-append :
    (r : ℕ) (es fs : List Event) → sent_to r (es ++ fs) ≡ sent_to r es ++ sent_to r fs
unfolding sent_to
sent_to-append r [] fs = refl
sent_to-append r (got from x ∷ es) fs = sent_to-append r es fs
sent_to-append r (heard root x ∷ es) fs = sent_to-append r es fs
sent_to-append r (sent to x ∷ es) fs = elim (Bool-cases (to == r)) [
  | inl e ↦ rw e (ap (λ t. x ∷ t) (sent_to-append r es fs))
  | inr e ↦ rw e (sent_to-append r es fs)
]

pub same_self : (i : ℕ) → (i == i) ≡ true
same_self i = (==_iff i i).1 refl

pub differs : (i j : ℕ) → i ≢ j → (i == j) ≡ false
differs i j h = ground arith

pub equal_or_not : (i j : ℕ) → (i ≡ j) ⊎ (i ≢ j)
equal_or_not i j = ground arith

pub set-here {ℓ} : {A : Type ℓ} (i : ℕ) (v : A) (f : ℕ → A) → set i v f i ≡ v
set-here i v f = rw (same_self i) refl

pub set-elsewhere {ℓ} : {A : Type ℓ} (i j : ℕ) (v : A) (f : ℕ → A) → j ≢ i → set i v f j ≡ f j
set-elsewhere i j v f h = rw (differs j i h) refl

module _ {A : Type 0} where
  Does-append :
      {self : ℕ} {p q r : Process A} {es fs : List Event}
      → Does A self p es q
      → Does A self q fs r
      → Does A self p (es ++ fs) r
  Does-append here d = d
  Does-append (receives c) d = receives (Does-append c d)
  Does-append (sends c) d = sends (Does-append c d)
  Does-append (tells e c) d = tells e (Does-append c d)
  Does-append (hears e c) d = hears e (Does-append c d)

  -- Each process has come to where it is from where it was at first by what it has done.
  abbrev pub Replays : (ℕ → Process A) → Cluster A → Type 0
  Replays processes s = (rank : ℕ) → Does A rank (processes rank) (s.done rank) (s.process rank)

  Step-Replays :
      (processes : ℕ → Process A) {s t : Cluster A}
      → Step s t
      → Replays processes s
      → Replays processes t
  Step-Replays processes (step s self e next d enabled) h rank = elim (equal_or_not rank self) [
    | inl same ↦ rw (same, same_self self) (Does-append (h self) d)
    | inr other ↦ rw (differs rank self other) (h rank)
  ]

  pub Reach-Replays :
      (processes : ℕ → Process A) {t : Cluster A}
      → Reach (starting processes) t
      → Replays processes t
  Reach-Replays processes start rank = here
  Reach-Replays processes (go r st) rank =
      Step-Replays processes st (Reach-Replays processes r) rank
