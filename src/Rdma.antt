-- ===== src/Rdma.antt =====
-- src/rdma/rdma_connection.h and rdma_connection.cc: a connection over RDMA, and
-- src/rdma/request_handler.h, the interface of the handler that it serves.
-- `none` is a fault or a call that never returns.
pub mod Events
pub mod Refused
pub mod Listening
pub mod Completions
pub mod PeerMr
pub mod Poller
pub mod Serving
pub mod Writes
use sqpkv.Prelude.{
  ℕ, zero, suc, ◌+◌, Bool, true, false, Option, none, some, List, [], ◌∷◌, ◌++◌, ◌==◌, take, drop,
  length, replicate, if◌then◌else◌, ◌>>=◌,
}
use sqpkv.Memory.{Block}
use sqpkv.Status.{Status, StatusOr, default_status, err_errno, is_ok, is_eof, of_obj, of_status}
use sqpkv.Protocol.{max_net_packet_size}

-- kMaxBufferSize
abbrev max_buffer_size : ℕ
max_buffer_size = max_net_packet_size + 4

-- Which of the two buffers of a connection is registered.
pub data Region : Type 0 where
  local_region remote_region : Region

-- A struct rdma_cm_event, by its kind.
pub data CmEvent : Type 0 where
  addr_resolved route_resolved connect_request established disconnected other_event : CmEvent

-- How a completion queue entry is told apart: its status is not success, it is a receive with the
-- bytes that have come into the local buffer, or it is a send.
pub data Completion : Type 0 where
  unsuccessful : Completion
  receive : List ℕ → Completion
  sent : Completion

-- What ibv_poll_cq gives: 1 with an entry, 0, or a negative number, which leaves the entry as it was.
pub data Polled : Type 0 where
  entry : Completion → Polled
  no_entry poll_failed : Polled

-- The attributes of a queue pair that BuildQueuePairAttr sets to numbers. The rest of them are the
-- context's protection domain and completion queue, the type RC, and flags of the library.
pub record QueuePairAttr : Type 0 where
  pub max_send_wr : ℕ
  pub max_recv_wr : ℕ
  pub max_send_sge : ℕ
  pub max_recv_sge : ℕ
  pub max_atomic_arg : ℕ

-- BuildQueuePairAttr
abbrev pub queue_pair_attr : QueuePairAttr
queue_pair_attr = record {
  max_send_wr = max_buffer_size;
  max_recv_wr = max_buffer_size;
  max_send_sge = 4;
  max_recv_sge = 4;
  max_atomic_arg = 8;
}

-- The fields of a struct rdma_conn_param that are not left 0
pub record ConnParam : Type 0 where
  pub initiator_depth : ℕ
  pub responder_resources : ℕ
  pub rnr_retry_count : ℕ

-- BuildParams
abbrev pub conn_param : ConnParam
conn_param = record { initiator_depth = 7; responder_resources = 7; rnr_retry_count = 7 }

-- The calls of ibverbs and rdmacm, which are not part of the repository. A call that gives a pointer,
-- and one that gives an int, is `true` where the pointer is not null, and where the int is 0.
pub record Verbs : Type 1 where
  pub World : Type 0
  pub errno_text : World → List ℕ
  pub alloc_pd : World → Bool × World
  pub create_comp_channel : World → Bool × World
  pub create_cq : World → Bool × World
  pub req_notify_cq : World → Bool × World
  pub create_qp : World → QueuePairAttr → Bool × World
  -- ibv_reg_mr: a struct ibv_mr, as its bytes, or a null pointer
  pub reg_mr : World → Region → Option (List ℕ) × World
  pub post_recv : World → Bool × World
  -- ibv_get_cq_event, acknowledged, and ibv_poll_cq for one entry
  pub get_cq_event : World → Bool × World
  pub poll_cq : World → Polled × World
  pub post_send : World → List ℕ → Bool × World
  pub disconnect : World → World
  -- rdma_destroy_qp, ibv_dereg_mr of both regions, rdma_destroy_id
  pub destroy : World → World
  pub get_addr_info : World → List ℕ → ℕ → Bool × World
  pub create_event_channel : World → Bool × World
  pub create_id : World → Bool × World
  pub resolve_addr : World → Bool × World
  pub resolve_route : World → Bool × World
  pub rdma_connect : World → ConnParam → Bool × World
  pub rdma_accept : World → ConnParam → Bool × World
  pub bind_addr : World → Bool × World
  pub listen : World → Bool × World
  pub src_port : World → ℕ
  -- rdma_get_cm_event, acknowledged; `none` where it fails
  pub get_cm_event : World → Option CmEvent × World

-- A class of request handlers: HandleReadCompletion gives its result and the output buffer.
pub record Handler : Type 1 where
  pub Self : Type 0
  pub handle_read_completion : Self → Block → Block → Option (StatusOr ℕ × Block × Self)
  pub handle_write_completion : Self → Block → Self

-- The fields of Context that are read again. A pointer to a registered region may be null.
pub record Context : Type 0 where
  -- whether cq_poller_thread is a thread that has not been joined
  pub polled : Bool
  pub connected : Bool
  pub local_buffer : Block
  pub local_mr : Option (List ℕ)
  pub remote_buffer : Block
  pub remote_mr : Option (List ℕ)
  pub peer_mr : List ℕ

module _ (V : Verbs) where
  -- ERROR_IF_ZERO and ERROR_IF_NON_ZERO
  abbrev pub error_unless {ℓ} :
      {A : Type ℓ} → (Status → Verbs.World V → A) → Bool × Verbs.World V → (Verbs.World V → A) → A
  error_unless failed (false, w) later = failed (err_errno (V.errno_text w)) w
  error_unless failed (true, w) later = later w

  abbrev pub returned : Status → Verbs.World V → Option (Status × Verbs.World V)
  returned s w = some (s, w)

  -- The status of RegisterMemoryRegion with the two struct ibv_mr of the context.
  abbrev pub Registered : Type 0
  Registered = Status × Option (List ℕ) × Option (List ℕ) × Verbs.World V

  -- RegisterMemoryRegion behind its second registration: ERROR_IF_NON_ZERO takes a pointer that is not
  -- null for an error, and behind it the function ends without a return.
  pub after_remote : Option (List ℕ) → Option (List ℕ) × Verbs.World V → Option Registered
  after_remote local_mr (some mr, w) = some (err_errno (V.errno_text w), local_mr, some mr, w)
  after_remote local_mr (none, w) = none

  pub after_local : Option (List ℕ) × Verbs.World V → Option Registered
  unfolding after_remote
  after_local (some mr, w) = some (err_errno (V.errno_text w), some mr, none, w)
  after_local (none, w) = after_remote none (V.reg_mr w remote_region)

  -- RegisterMemoryRegion(context)
  pub register_memory_region : Verbs.World V → Option Registered
  unfolding after_local
  register_memory_region w = after_local (V.reg_mr w local_region)

  -- PostReceive(context), whose local region's key is read: a null pointer faults.
  pub post_receive : Option (List ℕ) → Verbs.World V → Option (Status × Verbs.World V)
  post_receive local_mr w = do
    mr ← local_mr
    error_unless returned (V.post_recv w) (λ w'. returned default_status w')

  -- PostSend(context, size): it reads the remote region's key, where a null pointer faults, waits until
  -- the connection is established, for ever if it is not yet, and ends without a return where the send
  -- is posted.
  pub post_send : Context → ℕ → Verbs.World V → Option (Status × Verbs.World V)
  post_send context size w = do
    mr ← context.remote_mr
    elim context.connected [
      | false ↦ none
      | true ↦ error_unless returned (V.post_send w (take size context.remote_buffer)) (λ w'. none)
    ]

  -- SendMr(context): the bytes of the remote region's struct ibv_mr go over the front of the remote
  -- buffer.
  pub send_mr : Context → Verbs.World V → Option (Status × Context × Verbs.World V)
  unfolding post_send
  send_mr context w = do
    mr ← context.remote_mr
    let context' : Context = record context {
      remote_buffer = mr ++ drop (length mr) context.remote_buffer;
    }
    (s, w') ← post_send context' (length mr) w
    some (s, context', w')

  -- BuildContext(id) up to the queue pair: the errors return the status.
  abbrev pub no_context : Status → Verbs.World V → Option (StatusOr Context × Verbs.World V)
  no_context s w = some (of_status s, w)

  -- BuildContext behind the start of the poller thread. An error destroys the context with the thread
  -- that runs, which ends the process. The new buffers are taken as zero bytes.
  pub thread_started : Verbs.World V → Option (StatusOr Context × Verbs.World V)
  unfolding register_memory_region post_receive is_ok
  thread_started w = do
    (registered, local_mr, remote_mr, w1) ← register_memory_region w
    elim (is_ok registered) [
      | false ↦ none
      | true ↦ do
        (posted, w2) ← post_receive local_mr w1
        elim (is_ok posted) [
          | false ↦ none
          | true ↦ some (
            of_obj (
                some (record {
                  polled = true;
                  connected = false;
                  local_buffer = replicate max_buffer_size 0;
                  local_mr = local_mr;
                  remote_buffer = replicate max_buffer_size 0;
                  remote_mr = remote_mr;
                  peer_mr = [];
                })),
            w2,
          )
        ]
    ]

  -- BuildContext(id)
  pub build_context : Verbs.World V → Option (StatusOr Context × Verbs.World V)
  unfolding thread_started
  build_context w = error_unless no_context (V.alloc_pd w) (λ w1.
      error_unless no_context (V.create_comp_channel w1) (λ w2.
        error_unless no_context (V.create_cq w2) (λ w3.
          error_unless no_context (V.req_notify_cq w3) (λ w4.
            error_unless no_context (V.create_qp w4 queue_pair_attr) (λ w5. thread_started w5)))))
