-- ===== src/Rdma/Writes.antt =====
-- The completed sends in OnWorkCompletion of src/rdma/rdma_connection.cc.
use sqpkv.Prelude.{
  ℕ, zero, suc, ◌≡◌, refl, true, false, Option, none, some, ◌>>=◌, Option-cases, inl, inr,
  replicate,
}
use mathlib.Core.Path.{subst}
use sqpkv.Memory.{Block}
use sqpkv.Rdma.{Verbs, Handler, sent, post_receive}
use sqpkv.Rdma.Completions.{RdmaConnection, Completed, post_again, on_work_completion, poll}

-- `n` calls of HandleWriteCompletion
pub writes : (H : Handler) → ℕ → Block → Handler.Self H → Handler.Self H
writes H zero buffer handler = handler
writes H (suc n) buffer handler = writes H n buffer (H.handle_write_completion handler buffer)

module _ (V : Verbs) (H : Handler) (mr_size : ℕ) where
  abbrev Writes : Handler.Self H → Completed V H mr_size → Type 0
  Writes handler none = Unit
  Writes handler (some r) = (r.0.mr_sent ≡ true) × (r.0.handler ≡ handler)

  bind-Writes :
      {A : Type 0} (handler : Handler.Self H) (m : Option A) (f : A → Completed V H mr_size)
      → ((a : A) → Writes handler (f a))
      → Writes handler (m >>= f)
  bind-Writes handler none f h = tt
  bind-Writes handler (some a) f h = h a

  poll-writes :
      (n : ℕ) (c : RdmaConnection V H mr_size) (w : Verbs.World V)
      → c.mr_sent ≡ true
      → Writes
          (writes H n c.context.local_buffer c.handler)
          (poll V H mr_size (replicate n sent) c w)
  unfolding poll on_work_completion post_again writes
  poll-writes zero c w h = (h, refl)
  poll-writes (suc n) c w h = elim (Option-cases (post_receive V c.context.local_mr w)) [
    | inl f ↦ rw h (rw f tt)
    | inr (r, f) ↦ rw h (rw f (poll-writes n (told c) r.1 refl))
  ]
    where
      told : RdmaConnection V H mr_size → RdmaConnection V H mr_size
      told d = record d {
        mr_sent = true;
        handler = H.handle_write_completion d.handler d.context.local_buffer;
      }

  first-writes :
      (n : ℕ) (c : RdmaConnection V H mr_size) (w : Verbs.World V)
      → c.mr_sent ≡ false
      → Writes
          (writes H n c.context.local_buffer c.handler)
          (poll V H mr_size (replicate (suc n) sent) c w)
  unfolding poll on_work_completion post_again
  first-writes n c w h = elim (Option-cases (post_receive V c.context.local_mr w)) [
    | inl f ↦ rw h (rw f tt)
    | inr (r, f) ↦ rw h (rw f (poll-writes n (record c { mr_sent = true }) r.1 refl))
  ]

  -- Of the sends that complete on a new connection, when the calls behind them do not fault, the first,
  -- which is that of the own region, is only noted, and the handler is told of each of the others.
  poll-sent :
      (n : ℕ) (c c' : RdmaConnection V H mr_size) (w w' : Verbs.World V)
      → c.mr_sent ≡ false
      → poll V H mr_size (replicate (suc n) sent) c w ≡ some (c', w')
      → (c'.mr_sent ≡ true) × (c'.handler ≡ writes H n c.context.local_buffer c.handler)
  poll-sent n c c' w w' h e =
      subst (Writes (writes H n c.context.local_buffer c.handler)) e (first-writes n c w h)
