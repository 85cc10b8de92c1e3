-- ===== src/Rdma/PeerMr.antt =====
-- The peer's region in OnWorkCompletion of src/rdma/rdma_connection.cc.
use sqpkv.Prelude.{
  zero, suc, ℕ, ◌≡◌, refl, true, Option, none, some, List, ◌==◌, ◌>>=◌, Option-cases, Bool-cases,
  inl, inr, ◌⊎◌,
}
use mathlib.Core.Path.{subst}
use sqpkv.Memory.{Block}
use sqpkv.Status.{StatusOr, is_eof}
use sqpkv.Rdma.{
  Verbs, Handler, Completion, Polled, entry, no_entry, poll_failed, unsuccessful, receive, sent,
  post_send, post_receive,
}
use sqpkv.Rdma.Completions.{
  RdmaConnection, post_again, arrived, after_read, on_receive, on_work_completion, drain,
}

module _ (V : Verbs) (H : Handler) (mr_size : ℕ) where
  -- The peer's region has been received, and is this one.
  abbrev pub HasPeer : List ℕ → RdmaConnection V H mr_size → Type 0
  HasPeer mr c = (c.mr_received ≡ true) × (c.context.peer_mr ≡ mr)

  abbrev KeepsPeer : {B : Type 0} → List ℕ → Option (RdmaConnection V H mr_size × B) → Type 0
  KeepsPeer mr none = Unit
  KeepsPeer mr (some r) = HasPeer mr r.0

  bind-KeepsPeer :
      {A B : Type 0} (mr : List ℕ) (m : Option A) (f : A → Option (RdmaConnection V H mr_size × B))
      → ((a : A) → KeepsPeer mr (f a))
      → KeepsPeer mr (m >>= f)
  bind-KeepsPeer mr none f h = tt
  bind-KeepsPeer mr (some a) f h = h a

  post_again-KeepsPeer :
      (mr : List ℕ) (c : RdmaConnection V H mr_size) (w : Verbs.World V)
      → HasPeer mr c
      → KeepsPeer mr (post_again V H mr_size c w)
  unfolding post_again
  post_again-KeepsPeer mr c w h = bind-KeepsPeer mr (post_receive V c.context.local_mr w) _ (λ r. h)

  after_read-KeepsPeer :
      (mr : List ℕ) (c : RdmaConnection V H mr_size) (w : Verbs.World V)
      (r : StatusOr ℕ × Block × Handler.Self H)
      → HasPeer mr c
      → KeepsPeer mr (after_read V H mr_size c w r)
  unfolding after_read
  after_read-KeepsPeer mr c w (status_or, out, handler) h =
      elim (Bool-cases (is_eof status_or.status)) [
        | inl eof ↦ rw (after_read, eof) h
        | inr no_eof ↦
            rw (after_read, no_eof)
              (bind-KeepsPeer mr status_or.obj _ (λ size. elim (Bool-cases (size == 0)) [
                | inl empty ↦ rw empty (post_again-KeepsPeer mr _ w h)
                | inr nonempty ↦ rw nonempty (
                    bind-KeepsPeer mr
                      (post_send V (record c.context { remote_buffer = out }) size w) _
                      (λ s. post_again-KeepsPeer mr _ s.1 h))
              ]))
      ]

  arrived-HasPeer :
      (mr bytes : List ℕ) (c : RdmaConnection V H mr_size)
      → HasPeer mr c
      → HasPeer mr (arrived V H mr_size bytes c)
  unfolding arrived
  arrived-HasPeer mr bytes c (got, same) = (refl, rw got same)

  on_work_completion-KeepsPeer :
      (mr : List ℕ) (wc : Completion) (c : RdmaConnection V H mr_size) (w : Verbs.World V)
      → HasPeer mr c
      → KeepsPeer mr (on_work_completion V H mr_size wc c w)
  unfolding on_work_completion on_receive
  on_work_completion-KeepsPeer mr unsuccessful c w h = h
  on_work_completion-KeepsPeer mr (receive bytes) c w h =
      let c' = arrived V H mr_size bytes c in
      bind-KeepsPeer mr
        (H.handle_read_completion c'.handler c'.context.local_buffer c'.context.remote_buffer) _
        (λ r.
          after_read-KeepsPeer mr (arrived V H mr_size bytes c) w r (arrived-HasPeer mr bytes c h))
  on_work_completion-KeepsPeer mr sent c w h = elim (Bool-cases c.mr_sent) [
    | inl e ↦ rw (on_work_completion, e) (post_again-KeepsPeer mr _ w h)
    | inr e ↦ rw (on_work_completion, e) (post_again-KeepsPeer mr _ w h)
  ]

  -- A completion is handled, and the loop goes on.
  behind-KeepsPeer :
      {B : Type 0} (mr : List ℕ) (wc : Completion)
      (f : RdmaConnection V H mr_size × Verbs.World V → Option (RdmaConnection V H mr_size × B))
      (c : RdmaConnection V H mr_size) (w : Verbs.World V)
      → HasPeer mr c
      → ((r : RdmaConnection V H mr_size × Verbs.World V) → HasPeer mr r.0 → KeepsPeer mr (f r))
      → KeepsPeer mr (on_work_completion V H mr_size wc c w >>= f)
  behind-KeepsPeer mr wc f c w h later =
      elim (Option-cases (on_work_completion V H mr_size wc c w)) [
        | inl e ↦ rw e tt
        | inr (r, e) ↦
            rw e (later r (subst (KeepsPeer mr) e (on_work_completion-KeepsPeer mr wc c w h)))
      ]

  Polled-cases :
      (p : Polled) → (p ≡ no_entry) ⊎ ((p ≡ poll_failed) ⊎ ((wc : Completion) × (p ≡ entry wc)))
  Polled-cases no_entry = inl refl
  Polled-cases poll_failed = inr (inl refl)
  Polled-cases (entry wc) = inr (inr (wc, refl))

  drain-KeepsPeer :
      (mr : List ℕ) (fuel : ℕ) (last : Option Completion) (c : RdmaConnection V H mr_size)
      (w : Verbs.World V)
      → HasPeer mr c
      → KeepsPeer {B = Option Completion × Verbs.World V} mr (drain V H mr_size fuel last c w)
  unfolding drain
  drain-KeepsPeer mr zero last c w h = tt
  drain-KeepsPeer mr (suc fuel) last c w h = elim (Polled-cases (V.poll_cq w).0) [
    | inl e ↦ rw (drain, e) h
    | inr (inl e) ↦
        rw (drain, e)
          (bind-KeepsPeer mr last _ (λ wc.
            behind-KeepsPeer mr wc _ c (V.poll_cq w).1 h
              (λ r. drain-KeepsPeer mr fuel last r.0 r.1)))
    | inr (inr (wc, e)) ↦
        rw (drain, e)
          (behind-KeepsPeer mr wc _ c (V.poll_cq w).1 h
            (λ r. drain-KeepsPeer mr fuel (some wc) r.0 r.1))
  ]

  -- Once the peer's region has been received, it is the same when the poller thread has taken all entries
  -- of the completion queue, whatever they are, errors of ibv_poll_cq included.
  pub drain-HasPeer :
      (mr : List ℕ) (fuel : ℕ) (last last' : Option Completion) (c c' : RdmaConnection V H mr_size)
      (w w' : Verbs.World V)
      → HasPeer mr c
      → drain V H mr_size fuel last c w ≡ some (c', (last', w'))
      → HasPeer mr c'
  drain-HasPeer mr fuel last last' c c' w w' h e =
      subst (KeepsPeer {B = Option Completion × Verbs.World V} mr) e
        (drain-KeepsPeer mr fuel last c w h)
