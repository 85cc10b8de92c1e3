-- ===== src/Cluster.antt =====
-- The processes of a cluster that exchange messages by MPI, as one system: the calls of MPI that
-- src/server/server_launcher.cc makes, in the order that each process makes them, and the steps by which the
-- processes go on together. What the steps say of MPI is what its standard documents: MPI_Send returns at
-- once, the ints from one rank to another arrive in order, MPI_Recv waits for the next one, and MPI_Bcast
-- gives every other rank the values of the root, in order, and the root its own.
pub mod Channels
pub mod Order
pub mod Ints
pub mod Progress
pub mod Execution
use sqpkv.Prelude.{
  ℕ, zero, suc, ◌≡◌, ◌≢◌, refl, Bool, true, false, ◌&&◌, Option, none, some, List, [], ◌∷◌, ◌++◌,
  ◌==◌, if◌then◌else◌, ◌>>=◌,
}
use sqpkv.Prelude.Int.{ℤ}
use sqpkv.ServerLauncher.{Mpi}

-- What a process has still to do: its next call of MPI, and what it does with the result; or it ends.
pub data Process (A : Type 0) : Type 0 where
  ended : A → Process A
  faulted : Process A
  recv : ℕ → (ℤ → Process A) → Process A
  send : ℕ → ℤ → Process A → Process A
  bcast : ℕ → ℤ → (ℤ → Process A) → Process A

-- What a process has done: an int received from a rank, one sent to a rank, a value broadcast by a root.
pub data Event : Type 0 where
  got sent heard : ℕ → ℤ → Event

-- The process of one rank goes from here to there by these events. Only the root says what a broadcast is.
pub data Does (A : Type 0) (self : ℕ) : Process A → List Event → Process A → Type 0 where
  here : {p : Process A} → Does A self p [] p
  receives :
      {from : ℕ} {x : ℤ} {k : ℤ → Process A} {es : List Event} {q : Process A}
      → Does A self (k x) es q
      → Does A self (recv from k) (got from x ∷ es) q
  sends :
      {to : ℕ} {x : ℤ} {p q : Process A} {es : List Event}
      → Does A self p es q
      → Does A self (send to x p) (sent to x ∷ es) q
  tells :
      {root : ℕ} {x : ℤ} {k : ℤ → Process A} {es : List Event} {q : Process A}
      → root ≡ self
      → Does A self (k x) es q
      → Does A self (bcast root x k) (heard root x ∷ es) q
  hears :
      {root : ℕ} {x y : ℤ} {k : ℤ → Process A} {es : List Event} {q : Process A}
      → root ≢ self
      → Does A self (k y) es q
      → Does A self (bcast root x k) (heard root y ∷ es) q

-- A family that differs from another at one place
abbrev pub set {ℓ} : {A : Type ℓ} → ℕ → A → (ℕ → A) → ℕ → A
set i v f j = if j == i then v else f j

abbrev pub rest_of : List ℤ → List ℤ
rest_of [] = []
rest_of (x ∷ xs) = xs

-- All processes, what each has done, the ints under way from one rank to another, and the values of each
-- root that a rank has not heard yet.
pub record Cluster (A : Type 0) : Type 0 where
  pub process : ℕ → Process A
  pub done : ℕ → List Event
  pub ints : ℕ → ℕ → List ℤ
  pub values : ℕ → ℕ → List ℤ

module _ {A : Type 0} where
  -- An event can take place at a rank.
  abbrev pub Enabled : ℕ → Event → Cluster A → Type 0
  Enabled self (got from x) s = (later : List ℤ) × (s.ints from self ≡ x ∷ later)
  Enabled self (sent to x) s = Unit
  Enabled self (heard root x) s = root ≢ self → (later : List ℤ) × (s.values root self ≡ x ∷ later)

  -- The ints under way behind an event of a rank
  abbrev pub ints_after : ℕ → Event → Cluster A → ℕ → ℕ → List ℤ
  ints_after self (got from x) s =
      set from (set self (rest_of (s.ints from self)) (s.ints from)) s.ints
  ints_after self (sent to x) s =
      set self (set to (s.ints self to ++ (x ∷ [])) (s.ints self)) s.ints
  ints_after self (heard root x) s = s.ints

  -- The values not heard behind it: the root's value is under way to all, another rank has heard one.
  abbrev pub values_after : ℕ → Event → Cluster A → ℕ → ℕ → List ℤ
  values_after self (got from x) s = s.values
  values_after self (sent to x) s = s.values
  values_after self (heard root x) s = elim (root == self) [
    | true ↦ set root (λ to. s.values root to ++ (x ∷ [])) s.values
    | false ↦ set root (set self (rest_of (s.values root self)) (s.values root)) s.values
  ]

  abbrev pub perform : ℕ → Event → Process A → Cluster A → Cluster A
  perform self e next s = record {
    process = set self next s.process;
    done = set self (s.done self ++ (e ∷ [])) s.done;
    ints = ints_after self e s;
    values = values_after self e s;
  }

  -- One process makes one call: the interleaving is free.
  pub data Step : Cluster A → Cluster A → Type 0 where
    step :
        (s : Cluster A) (self : ℕ) (e : Event) (next : Process A)
        → Does A self (s.process self) (e ∷ []) next
        → Enabled self e s
        → Step s (perform self e next s)

  pub data Reach (s : Cluster A) : Cluster A → Type 0 where
    start : Reach s s
    go : {t u : Cluster A} → Reach s t → Step t u → Reach s u

  -- The start of a cluster: these processes, and nothing under way
  abbrev pub starting : (ℕ → Process A) → Cluster A
  starting processes = record {
    process = processes;
    done = λ rank. [];
    ints = λ from to. [];
    values = λ root to. [];
  }

  -- A process on its own, against what MPI gives it
  unfoldable pub run : (M : Mpi) → Process A → Mpi.World M → Option (A × Mpi.World M)
  run M (ended a) w = some (a, w)
  run M faulted w = none
  run M (recv from k) w = M.recv_int w from >>= λ r. run M (k r.0) r.1
  run M (send to x p) w = run M p (M.send_int w to x)
  run M (bcast root x k) w = M.bcast_int w root x >>= λ r. run M (k r.0) r.1
