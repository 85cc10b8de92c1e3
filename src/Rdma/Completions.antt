-- ===== src/Rdma/Completions.antt =====
-- OnWorkCompletion of src/rdma/rdma_connection.cc: the completions of a connection, which its poller
-- thread takes one after the other.
use sqpkv.Prelude.{
  zero, suc, none, ℕ, Bool, true, false, Option, some, List, [], ◌∷◌, ◌++◌, ◌==◌, take, drop,
  length, ◌>>=◌, if◌then◌else◌,
}
use sqpkv.Memory.{Block}
use sqpkv.Status.{StatusOr, is_eof}
use sqpkv.Rdma.{
  Verbs, Handler, Context, Completion, entry, no_entry, poll_failed, unsuccessful, receive, sent,
  post_send, post_receive,
}

module _ (V : Verbs) (H : Handler) (mr_size : ℕ) where
  -- The fields of RDMAConnection that completions change, with the context and the handler.
  pub record RdmaConnection : Type 0 where
    pub mr_sent : Bool
    pub mr_received : Bool
    pub context : Context
    pub handler : Handler.Self H

  abbrev pub Completed : Type 0
  Completed = Option (RdmaConnection × Verbs.World V)

  -- PostReceive(context), whose status is not looked at
  unfoldable pub post_again : RdmaConnection → Verbs.World V → Completed
  unfolding post_receive
  post_again c w = do (_, w') ← post_receive V c.context.local_mr w; some (c, w')

  -- What has come is in the local buffer; the first message is taken for the peer's struct ibv_mr too.
  unfoldable pub arrived : List ℕ → RdmaConnection → RdmaConnection
  arrived bytes c =
      let local_buffer : Block = bytes ++ drop (length bytes) c.context.local_buffer in
      record c {
        mr_received = true;
        context = record c.context {
          local_buffer = local_buffer;
          peer_mr = if c.mr_received then c.context.peer_mr else take mr_size local_buffer;
        };
      }

  -- Behind HandleReadCompletion: *status_or.GetPtr() faults on an error without an object.
  unfoldable pub after_read :
      RdmaConnection → Verbs.World V → StatusOr ℕ × Block × Handler.Self H → Completed
  unfolding post_again is_eof post_send
  after_read c w (status_or, out, handler) =
      let c' : RdmaConnection = record c {
        context = record c.context { remote_buffer = out };
        handler = handler;
      } in
      elim (is_eof status_or.status) [
        | true ↦ some (c', V.disconnect w)
        | false ↦ do
          size_written ← status_or.obj
          elim (size_written == 0) [
            | true ↦ post_again c' w
            | false ↦ do (_, w') ← post_send V c'.context size_written w; post_again c' w'
          ]
      ]

  unfoldable pub on_receive : RdmaConnection → Verbs.World V → Completed
  unfolding after_read
  on_receive c w =
      H.handle_read_completion c.handler c.context.local_buffer c.context.remote_buffer
      >>= after_read c w

  -- OnWorkCompletion(wc)
  unfoldable pub on_work_completion : Completion → RdmaConnection → Verbs.World V → Completed
  unfolding post_again on_receive arrived
  on_work_completion unsuccessful c w = some (c, w)
  on_work_completion (receive bytes) c w = on_receive (arrived bytes c) w
  on_work_completion sent c w = elim c.mr_sent [
    | false ↦ post_again (record c { mr_sent = true }) w
    | true ↦
        post_again
          (record c { handler = H.handle_write_completion c.handler c.context.local_buffer }) w
  ]

  -- OnWorkCompletion for one entry of a completion queue after the other
  unfoldable pub poll : List Completion → RdmaConnection → Verbs.World V → Completed
  unfolding on_work_completion
  poll [] c w = some (c, w)
  poll (wc ∷ wcs) c w = do (c', w') ← on_work_completion wc c w; poll wcs c' w'

  -- while (ibv_poll_cq(cq, 1, &wc)) of PollCompletionQueue, at most `fuel` calls of it, with the entry
  -- `wc` as it was last written, `none` where it is not yet. An error is not 0 either: the loop goes on
  -- with the last entry, and faults where there is none.
  unfoldable pub drain :
      ℕ
      → Option Completion
      → RdmaConnection
      → Verbs.World V
      → Option (RdmaConnection × (Option Completion × Verbs.World V))
  unfolding on_work_completion
  drain zero last c w = none
  drain (suc fuel) last c w = elim (V.poll_cq w).0 [
    | no_entry ↦ some (c, (last, (V.poll_cq w).1))
    | entry wc ↦ do (c', w') ← on_work_completion wc c (V.poll_cq w).1; drain fuel (some wc) c' w'
    | poll_failed ↦ do
      wc ← last
      (c', w') ← on_work_completion wc c (V.poll_cq w).1
      drain fuel last c' w'
  ]

  -- The loop of PollCompletionQueue, `fuel` rounds of it, with `entries` calls of ibv_poll_cq in each.
  -- The flag tells whether `context` points to something: ibv_get_cq_event writes the context of the
  -- completion queue over it, for which BuildContext gives a null pointer.
  unfoldable pub poll_rounds :
      ℕ → ℕ → Bool → Option Completion → RdmaConnection → Verbs.World V → Completed
  unfolding drain
  poll_rounds zero entries there last c w = none
  poll_rounds (suc fuel) entries false last c w = none
  poll_rounds (suc fuel) entries true last c w = elim (V.get_cq_event w).0 [
    | false ↦ some (c, (V.get_cq_event w).1)
    | true ↦
        let w1 = (V.get_cq_event w).1 in
        elim (V.req_notify_cq w1).0 [
          | false ↦ some (c, (V.req_notify_cq w1).1)
          | true ↦ do
            (c', (last', w')) ← drain entries last c (V.req_notify_cq w1).1
            poll_rounds fuel entries false last' c' w'
        ]
  ]

  -- PollCompletionQueue(context)
  unfoldable pub poll_completion_queue : ℕ → ℕ → RdmaConnection → Verbs.World V → Completed
  unfolding poll_rounds
  poll_completion_queue fuel entries c w = poll_rounds fuel entries true none c w
