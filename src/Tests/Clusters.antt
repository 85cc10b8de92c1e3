-- ===== src/Tests/Clusters.antt =====
-- The theorems about the cluster of the processes in ShakeHands at concrete inputs.
use sqpkv.Prelude.{if◌then◌else◌, ℕ, ◌≡◌, ◌≢◌, refl, some, [], ◌∷◌, ◌==◌, arith, ◌⊎◌}
use sqpkv.Prelude.Int.{pos}
use sqpkv.Cluster.{
  ended, got, sent, heard, here, receives, sends, tells, hears, Cluster, step, Reach, start, go,
  starting, run,
}
use sqpkv.Cluster.Execution.{Execution, execution}
use sqpkv.ServerLauncher.{ServerLauncher, new_launcher, shake_hands, rank_of, next_proxy}
use sqpkv.ServerLauncher.Numbers.{minus_one, to_string}
use sqpkv.ServerLauncher.HandShake.{proxy_of, last_zero, has_failed}
use sqpkv.ServerLauncher.Program.{
  shaking_hands, preserving, elected_then, ids_then, saves_then, run-shaking_hands,
}
use sqpkv.ServerLauncher.Agreement.{agreement}
use sqpkv.ServerLauncher.Validity.{shard_ids, validity}
use sqpkv.ServerLauncher.Deadlock.{deadlock}
use sqpkv.ServerLauncher.Commit.{commit}
use sqpkv.ServerLauncher.Commit.Loops.{Saved}
use sqpkv.Tests.Launcher.{keeping, toy_mpi, own, inbox, rank_0}
use sqpkv.Tests.Toy.{toy}

run-shaking_hands_example :
    run (toy_mpi own) (shaking_hands toy (rank_0 (pos 2))) (inbox (pos 0) (pos 1))
    ≡ shake_hands toy (toy_mpi own) (rank_0 (pos 2)) (inbox (pos 0) (pos 1))
run-shaking_hands_example =
    run-shaking_hands toy (toy_mpi own) (rank_0 (pos 2)) (inbox (pos 0) (pos 1))

abbrev Reached : (ℕ → ServerLauncher keeping) → Type 0
Reached launchers =
    (t : Cluster (ServerLauncher keeping)) × Reach
      (starting (λ rank. shaking_hands keeping (launchers rank))) t

abbrev execution_of :
    (launchers : ℕ → ServerLauncher keeping)
    → Reached launchers
    → Execution (λ rank. shaking_hands keeping (launchers rank))
execution_of launchers (t, reached) =
    execution (λ rank. shaking_hands keeping (launchers rank)) t reached

-- The first start of two processes
abbrev pair : ℕ → ServerLauncher keeping
pair rank = record (new_launcher keeping rank 2) { shard_id = pos rank; db = some [] }

abbrev pair_at_end : Reached pair
unfolding shaking_hands elected_then preserving ids_then saves_then next_proxy rank_of
pair_at_end = (
  _,
  go
      (go
        (go
          (go
            (go
              (go
                (go (go start (step _ 1 (sent 0 (pos 1)) _ (sends here) tt))
                  (step _ 0 (got 1 (pos 1)) _ (receives here) ([], refl)))
                (step _ 0 (heard 0 (pos 0)) _ (tells refl here) (λ other. absurd (other refl))))
              (step _ 1 (heard 0 (pos 0)) _ (hears (λ e. omega (arith, e)) here)
                (λ other. ([], refl))))
            (step _ 1 (sent 0 (pos 1)) _ (sends here) tt))
          (step _ 0 (got 1 (pos 1)) _ (receives here) ([], refl)))
        (step _ 0 (heard 0 (pos 1)) _ (tells refl here) (λ other. absurd (other refl))))
      (step _ 1 (heard 0 (pos 1)) _ (hears (λ e. omega (arith, e)) here) (λ other. ([], refl))),
)

abbrev ended_pair : ℕ → ServerLauncher keeping
ended_pair rank = record (pair rank) {
  proxy_rank = pos 0;
  db = some (to_string rank);
  id_to_rank = if rank == 0 then (pos 1, 1) ∷ (pos 0, 0) ∷ [] else [];
}

agreement_example : (ended_pair 0).proxy_rank ≡ (ended_pair 1).proxy_rank
unfolding shaking_hands elected_then preserving ids_then saves_then next_proxy rank_of
agreement_example =
    agreement keeping pair (execution_of pair pair_at_end) 0 1 (ended_pair 0) (ended_pair 1) refl
      refl

validity_example :
    ((ended_pair 1).proxy_rank ≡ minus_one)
    ⊎ ((ended_pair 1).proxy_rank ≡ proxy_of (shard_ids keeping pair 0 2))
unfolding shaking_hands elected_then preserving ids_then saves_then next_proxy rank_of
validity_example =
    validity keeping pair 1 (execution_of pair pair_at_end) 1 (ended_pair 1) (λ rank. refl) refl
      refl

commit_example : Saved keeping (pair 1)
unfolding shaking_hands elected_then preserving ids_then saves_then next_proxy rank_of
commit_example =
    commit keeping pair 1 (execution_of pair pair_at_end) 0 1 (ended_pair 0) (λ i. refl) (λ i. refl)
      refl refl refl (omega arith)

-- Three processes that have lost nothing, but were numbered otherwise when they saved their shard ids: the
-- election has ended.
abbrev trio : ℕ → ServerLauncher keeping
trio rank = record (new_launcher keeping rank 3) {
  shard_id = if rank == 0 then pos 1 else (if rank == 1 then pos 0 else pos 2);
  db = some [];
}

abbrev trio_elected : Reached trio
unfolding shaking_hands elected_then preserving ids_then saves_then next_proxy rank_of
trio_elected = (
  _,
  go
      (go
        (go
          (go
            (go (go start (step _ 1 (sent 0 (pos 0)) _ (sends here) tt))
              (step _ 2 (sent 0 (pos 2)) _ (sends here) tt))
            (step _ 0 (got 1 (pos 0)) _ (receives here) ([], refl)))
          (step _ 0 (got 2 (pos 2)) _ (receives here) ([], refl)))
        (step _ 0 (heard 0 (pos 1)) _ (tells refl here) (λ other. absurd (other refl))))
      (step _ 1 (heard 0 (pos 1)) _ (hears (λ e. omega (arith, e)) here) (λ other. ([], refl))),
)

deadlock_example : (execution_of trio trio_elected).process 1 ≢ ended (trio 1)
unfolding shaking_hands elected_then preserving ids_then saves_then next_proxy rank_of proxy_of
    last_zero has_failed shard_ids
deadlock_example =
    deadlock keeping trio 0 1 (execution_of trio trio_elected) 1 (trio 1) (λ rank. refl)
      (λ rank. refl) (λ rank. refl) (λ e. omega (arith, e)) refl
