-- ===== src/Cluster/Execution.antt =====
-- How far the processes of a cluster have come, and what MPI documents of it: each rank hears the values that a
-- root broadcasts in their order, and receives the ints from another rank in the order in which they were
-- sent. The steps of Cluster give such an execution.
use sqpkv.Prelude.{ℕ, ◌≡◌, ◌++◌, List, [], append-nil, ap, ◌∙◌, inl, inr}
use sqpkv.Prelude.Int.{ℤ}
use sqpkv.Cluster.{Process, Event, Does, Cluster, Reach, starting}
use sqpkv.Cluster.Channels.{values_of, got_from, sent_to, equal_or_not, Reach-Replays}
use sqpkv.Cluster.Order.{Reach-InOrder}
use sqpkv.Cluster.Ints.{Reach-InTransit}

pub record Execution {A : Type 0} (processes : ℕ → Process A) : Type 0 where
  pub process : ℕ → Process A
  pub done : ℕ → List Event
  pub goes : (rank : ℕ) → Does A rank (processes rank) (done rank) (process rank)
  pub heard_in_order :
      (root rank : ℕ)
      → (later : List ℤ) × (values_of root (done rank) ++ later ≡ values_of root (done root))
  pub got_in_order :
      (from to : ℕ) → (later : List ℤ) × (got_from from (done to) ++ later ≡ sent_to to (done from))

abbrev pub execution :
    {A : Type 0} (processes : ℕ → Process A) (t : Cluster A)
    → Reach (starting processes) t
    → Execution processes
execution processes t reached = record {
  process = t.process;
  done = t.done;
  goes = Reach-Replays processes reached;
  heard_in_order = λ root rank. elim (equal_or_not rank root) [
    | inl same ↦
        ([], append-nil (values_of root (t.done rank)) ∙ ap (λ i. values_of root (t.done i)) same)
    | inr other ↦ (t.values root rank, Reach-InOrder processes reached root rank other)
  ];
  got_in_order = λ from to. (t.ints from to, Reach-InTransit processes reached from to);
}
