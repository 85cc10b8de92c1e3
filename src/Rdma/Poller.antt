-- ===== src/Rdma/Poller.antt =====
-- The poller thread of src/rdma/rdma_connection.cc, PollCompletionQueue.
use sqpkv.Prelude.{
  ℕ, zero, suc, ◌≡◌, ◌⊎◌, inl, inr, refl, true, false, Option, none, some, ◌>>=◌, Bool-cases,
}
use sqpkv.Rdma.{Verbs, Handler, Completion}
use sqpkv.Rdma.Completions.{RdmaConnection, Completed, drain, poll_rounds, poll_completion_queue}

module _ (V : Verbs) (H : Handler) (mr_size entries : ℕ) (c : RdmaConnection V H mr_size)
    (w : Verbs.World V) where
  -- Waiting for the first event, or asking for the next one behind it, has failed.
  abbrev pub NoEvent : Type 0
  NoEvent =
      ((V.get_cq_event w).0 ≡ false)
      ⊎ (((V.get_cq_event w).0 ≡ true) × ((V.req_notify_cq (V.get_cq_event w).1).0 ≡ false))

  -- Both have been done.
  abbrev pub Event : Type 0
  Event = ((V.get_cq_event w).0 ≡ true) × ((V.req_notify_cq (V.get_cq_event w).1).0 ≡ true)

  -- No second round gets past its first line.
  second-none :
      (n : ℕ) (last : Option Completion) (c' : RdmaConnection V H mr_size) (w' : Verbs.World V)
      → poll_rounds V H mr_size n entries false last c' w' ≡ none
  unfolding poll_rounds
  second-none zero last c' w' = refl
  second-none (suc n) last c' w' = refl

  bind-none :
      {A : Type 0} (m : Option A) (f : A → Completed V H mr_size)
      → ((a : A) → f a ≡ none)
      → (m >>= f) ≡ none
  bind-none none f h = refl
  bind-none (some a) f h = h a

  -- Whatever ibverbs answers: either the wait for the first event, or the request for the next one behind
  -- it, fails, and PollCompletionQueue returns with the connection as it was; or the first event comes,
  -- and it never returns: if it is done with the entries for this event, its second round reads through
  -- a null pointer. (Two rounds are enough, for any number of calls of ibv_poll_cq.)
  pub poll_completion_queue-first :
      (n : ℕ)
      → (NoEvent
          × ((w' : Verbs.World V) × (poll_completion_queue V H mr_size (suc (suc n)) entries c w
                ≡ some (c, w'))))
        ⊎ (Event × (poll_completion_queue V H mr_size (suc (suc n)) entries c w ≡ none))
  unfolding poll_completion_queue poll_rounds
  poll_completion_queue-first n = elim (Bool-cases (V.get_cq_event w).0) [
    | inr failed ↦ inl (inl failed, ((V.get_cq_event w).1, rw (poll_rounds, failed) refl))
    | inl event ↦ elim (Bool-cases (V.req_notify_cq (V.get_cq_event w).1).0) [
      | inr failed ↦ inl (
        inr (event, failed),
        ((V.req_notify_cq (V.get_cq_event w).1).1, rw (poll_rounds, event, failed) refl),
      )
      | inl asked ↦ inr (
        (event, asked),
        rw (poll_rounds, event, asked)
            (bind-none (drain V H mr_size entries none c (V.req_notify_cq (V.get_cq_event w).1).1)
              (λ r. poll_rounds V H mr_size (suc n) entries false r.1.0 r.0 r.1.1)
              (λ r. second-none (suc n) r.1.0 r.0 r.1.1)),
      )
    ]
  ]
