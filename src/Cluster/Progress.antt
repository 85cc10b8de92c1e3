-- ===== src/Cluster/Progress.antt =====
-- A process that has heard a value of some root has gone past the calls of MPI before it.
use sqpkv.Prelude.{ℕ, ◌≡◌, refl, arith, List, [], ◌∷◌}
use sqpkv.Prelude.Int.{ℤ}
use sqpkv.Cluster.{
  Process, faulted, recv, send, bcast, Event, got, sent, heard, Does, here, receives, sends, tells,
  hears,
}
use sqpkv.Cluster.Channels.{values_of}

pub no_first {ℓ} : {A : Type ℓ} (x : ℤ) (xs : List ℤ) → [] ≡ x ∷ xs → A
no_first x xs e = ground arith

module _ {A : Type 0} (self r : ℕ) where
  pub received :
      (from : ℕ) (k : ℤ → Process A) (es : List Event) (q : Process A) (v : ℤ) (vs : List ℤ)
      → Does A self (recv from k) es q
      → values_of r es ≡ v ∷ vs
      → (x : ℤ) × (fs : List Event) × (es ≡ got from x ∷ fs) × Does A self (k x) fs q
  unfolding values_of
  received from k es q v vs here h = no_first v vs h
  received from k es q v vs (receives d) h = (_, _, refl, d)

  pub sent_off :
      (to : ℕ) (x : ℤ) (p : Process A) (es : List Event) (q : Process A) (v : ℤ) (vs : List ℤ)
      → Does A self (send to x p) es q
      → values_of r es ≡ v ∷ vs
      → (fs : List Event) × (es ≡ sent to x ∷ fs) × Does A self p fs q
  unfolding values_of
  sent_off to x p es q v vs here h = no_first v vs h
  sent_off to x p es q v vs (sends d) h = (_, refl, d)

  pub has_heard :
      (root : ℕ) (x : ℤ) (k : ℤ → Process A) (es : List Event) (q : Process A) (v : ℤ) (vs : List ℤ)
      → Does A self (bcast root x k) es q
      → values_of r es ≡ v ∷ vs
      → (y : ℤ) × (fs : List Event) × (es ≡ heard root y ∷ fs) × Does A self (k y) fs q
  unfolding values_of
  has_heard root x k es q v vs here h = no_first v vs h
  has_heard root x k es q v vs (tells own d) h = (x, _, refl, d)
  has_heard root x k es q v vs (hears other d) h = (_, _, refl, d)

  pub never_faulted :
      {B : Type 0} (es : List Event) (q : Process A) (v : ℤ) (vs : List ℤ)
      → Does A self faulted es q
      → values_of r es ≡ v ∷ vs
      → B
  unfolding values_of
  never_faulted es q v vs here h = no_first v vs h
