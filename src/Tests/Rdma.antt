-- ===== src/Tests/Rdma.antt =====
-- The theorems about src/rdma at concrete inputs.
use sqpkv.Prelude.{
  ℕ, suc, ◌≡◌, refl, Bool, true, false, Option, none, some, List, [], ◌∷◌, ◌+◌, ◌>>=◌, arith, ◌⊎◌,
  replicate,
}
use sqpkv.Status.{is_ok, err_errno, of_obj}
use sqpkv.Packet.Wire.{get_all, request_wire}
use sqpkv.Packet.Reply.{reply_wire, reply_size}
use sqpkv.Rocks.Keys.{is_prefix, matching}
use sqpkv.KvRequestHandler.Serve.{serve}
use sqpkv.Rdma.{
  Verbs, CmEvent, connect_request, addr_resolved, Handler, Context, Completion, receive, sent,
  Polled, entry, no_entry, post_send,
}
use sqpkv.Rdma.Events.{new_endpoint, connect, run}
use sqpkv.Rdma.Refused.{connect-not_ok}
use sqpkv.Rdma.Listening.{run-new_endpoint}
use sqpkv.Rdma.Completions.{
  RdmaConnection, post_again, on_work_completion, drain, poll_completion_queue,
}
use sqpkv.Rdma.PeerMr.{HasPeer, drain-HasPeer}
use sqpkv.Rdma.Poller.{NoEvent, Event, poll_completion_queue-first}
use sqpkv.Rdma.Serving.{kv_handler, served, on_work_completion-serve}
use sqpkv.Tests.Toy.{toy, toy_laws, both, prefix}

-- The events and the completions that are still to come
abbrev Events : Type 0
Events = List CmEvent × List Completion

abbrev works : Events → Bool × Events
works w = (true, w)

abbrev breaks : Events → Bool × Events
breaks w = (false, w)

abbrev next_event : Events → Option CmEvent × Events
next_event ([], wcs) = (none, ([], wcs))
next_event (event ∷ events, wcs) = (some event, (events, wcs))

abbrev has_entry : Events → Bool × Events
has_entry (events, []) = (false, (events, []))
has_entry (events, wc ∷ wcs) = (true, (events, wc ∷ wcs))

abbrev next_entry : Events → Polled × Events
next_entry (events, []) = (no_entry, (events, []))
next_entry (events, wc ∷ wcs) = (entry wc, (events, wcs))

-- No queue pair can be made, and no send can be posted.
abbrev toy_verbs : Verbs
toy_verbs = record {
  World = Events;
  errno_text = λ w. [];
  alloc_pd = works;
  create_comp_channel = works;
  create_cq = works;
  req_notify_cq = works;
  create_qp = λ w attributes. (false, w);
  reg_mr = λ w r. (some (1 ∷ 2 ∷ []), w);
  post_recv = works;
  get_cq_event = has_entry;
  poll_cq = next_entry;
  post_send = λ w bytes. (false, w);
  disconnect = λ w. w;
  destroy = λ w. w;
  get_addr_info = λ w host port. (true, w);
  create_event_channel = works;
  create_id = works;
  resolve_addr = works;
  resolve_route = works;
  rdma_connect = λ w params. (true, w);
  rdma_accept = λ w params. (true, w);
  bind_addr = works;
  listen = works;
  src_port = λ w. 4242;
  get_cm_event = next_event;
}

connect-not_ok_example : is_ok (err_errno []) ≡ false
unfolding connect
connect-not_ok_example =
    connect-not_ok toy_verbs 1 4242 (b'h' ∷ []) (addr_resolved ∷ [], []) ([], []) (err_errno [])
      new_endpoint refl

run-new_endpoint_example : new_endpoint ≡ new_endpoint
unfolding run
run-new_endpoint_example =
    run-new_endpoint toy_verbs 2 (connect_request ∷ [], []) ([], []) new_endpoint refl

-- A handler that counts its calls
abbrev counter : Handler
counter = record {
  Self = ℕ;
  handle_read_completion = λ n in_buffer out_buffer. some (of_obj (some 0), out_buffer, suc n);
  handle_write_completion = λ n buffer. n;
}

abbrev up : Context
up = record {
  polled = true;
  connected = true;
  local_buffer = replicate 40 0;
  local_mr = some (3 ∷ 4 ∷ []);
  remote_buffer = replicate 40 0;
  remote_mr = some (7 ∷ 8 ∷ []);
  peer_mr = 5 ∷ 6 ∷ [];
}

abbrev counted : RdmaConnection toy_verbs counter 2
counted = record { mr_sent = false; mr_received = true; context = up; handler = 0 }

abbrev counted_after : RdmaConnection toy_verbs counter 2
counted_after = record {
  mr_sent = true;
  mr_received = true;
  context = record up { local_buffer = 8 ∷ 9 ∷ replicate 38 0 };
  handler = 1;
}

drain-HasPeer_example : HasPeer toy_verbs counter 2 (5 ∷ 6 ∷ []) counted_after
unfolding drain
drain-HasPeer_example =
    drain-HasPeer toy_verbs counter 2 (5 ∷ 6 ∷ []) 3 none (some (receive (8 ∷ 9 ∷ []))) counted
      counted_after ([], sent ∷ receive (8 ∷ 9 ∷ []) ∷ []) ([], []) (refl, refl) refl

-- A completed send and a receive, for which there is an event
abbrev two_entries : Events
two_entries = ([], sent ∷ receive (8 ∷ 9 ∷ []) ∷ [])

poll_completion_queue-first_example :
    (NoEvent toy_verbs counter 2 3 counted two_entries
      × ((w' : Events) × (poll_completion_queue toy_verbs counter 2 2 3 counted two_entries
            ≡ some (counted, w'))))
    ⊎ (Event toy_verbs counter 2 3 counted two_entries
        × (poll_completion_queue toy_verbs counter 2 2 3 counted two_entries ≡ none))
poll_completion_queue-first_example =
    poll_completion_queue-first toy_verbs counter 2 3 counted two_entries 0

abbrev serving : RdmaConnection toy_verbs (kv_handler toy 3) 2
serving = record { mr_sent = true; mr_received = true; context = up; handler = both }

on_work_completion-serve_example :
    on_work_completion toy_verbs
      (kv_handler toy 3)
      2
      (receive (request_wire (get_all prefix)))
      serving
      ([], [])
    ≡ (post_send toy_verbs
          (served toy_verbs toy toy_laws 3 2 (get_all prefix) serving).context
          (reply_size (serve toy toy_laws (get_all prefix) both).0 + 4)
          ([], [])
        >>= λ s.
            post_again toy_verbs
              (kv_handler toy 3)
              2
              (served toy_verbs toy toy_laws 3 2 (get_all prefix) serving)
              s.1)
unfolding request_wire reply_wire reply_size serve matching is_prefix
on_work_completion-serve_example =
    on_work_completion-serve toy_verbs toy toy_laws 3 2 (get_all prefix) serving ([], [])
      (omega arith) (omega arith) (omega arith)
