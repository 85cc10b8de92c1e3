-- ===== src/Rdma/Serving.antt =====
-- src/server/kv_request_handler.cc behind src/rdma/rdma_connection.cc.
use sqpkv.Prelude.{ℕ, ◌+◌, ◌≡◌, ◌<◌, refl, some, arith, drop, length, ◌>>=◌}
use sqpkv.Memory.{u32_mod}
use sqpkv.Memory.Laws.{filled}
use sqpkv.Rocks.{Rocks}
use sqpkv.Rocks.Laws.{IterLaws}
use sqpkv.Status.{is_eof}
use sqpkv.Packet.Wire.{Request, request_wire}
use sqpkv.Packet.Reply.{reply_size, reply_wire}
use sqpkv.KvRequestHandler.{handle_read_completion}
use sqpkv.KvRequestHandler.Serve.{serve}
use sqpkv.KvRequestHandler.Refine.{Fits, handle_read_completion-serve}
use sqpkv.Protocol.Frame.{not_zero}
use sqpkv.Rdma.{Verbs, Handler, receive, post_send}
use sqpkv.Rdma.Completions.{
  RdmaConnection, post_again, arrived, after_read, on_receive, on_work_completion,
}

-- KvRequestHandler as a class of handlers, its state the database; HandleWriteCompletion does nothing.
abbrev pub kv_handler : Rocks → ℕ → Handler
kv_handler R keys_fuel = record {
  Self = Rocks.Db R;
  handle_read_completion = λ db in_buffer out_buffer. do
    handled ← handle_read_completion R keys_fuel in_buffer out_buffer db
    some (handled.size, handled.out, handled.db);
  handle_write_completion = λ db buffer. db;
}

module _ (V : Verbs) (R : Rocks) (L : IterLaws R) (keys_fuel mr_size : ℕ) where
  -- The connection when the handler has served a request.
  abbrev pub served :
      Request
      → RdmaConnection V (kv_handler R keys_fuel) mr_size
      → RdmaConnection V (kv_handler R keys_fuel) mr_size
  served r c =
      let c1 = arrived V (kv_handler R keys_fuel) mr_size (request_wire r) c in
      record c1 {
        context = record c1.context {
          remote_buffer = filled (reply_wire (serve R L r c.handler).0) c.context.remote_buffer;
        };
        handler = (serve R L r c.handler).1;
      }

  pub on_work_completion-serve :
      (r : Request) (c : RdmaConnection V (kv_handler R keys_fuel) mr_size) (w : Verbs.World V)
      → length (L.listing c.handler) < keys_fuel
      → length (request_wire r) < u32_mod
      → Fits R L (serve R L r c.handler).0 c.context.remote_buffer
      → on_work_completion V (kv_handler R keys_fuel) mr_size (receive (request_wire r)) c w ≡ (
          post_send V (served r c).context (reply_size (serve R L r c.handler).0 + 4) w >>= λ s.
          post_again V (kv_handler R keys_fuel) mr_size (served r c) s.1)
  unfolding on_work_completion on_receive after_read arrived is_eof
  on_work_completion-serve r c w enough small fits =
      rw
        (handle_read_completion-serve R L keys_fuel r
          (drop (length (request_wire r)) c.context.local_buffer) c.context.remote_buffer c.handler
          enough small fits)
        (rw (◌>>=◌, not_zero (reply_size (serve R L r c.handler).0 + 4) (omega arith)) refl)
