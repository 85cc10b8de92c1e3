-- ===== src/Tests/Handlers.antt =====
-- Runs of src/server/kv_request_handler.cc, and its theorems at concrete inputs.
use sqpkv.Prelude.{
  map, ℕ, ◌+◌, ◌≡◌, some, List, [], ◌∷◌, ◌++◌, arith, replicate, drop, length, ◌>>=◌,
}
use sqpkv.Memory.Laws.{filled}
use sqpkv.Rocks.Keys.{matching, is_prefix}
use sqpkv.Status.{of_obj}
use sqpkv.Packet.Factory.{create_response_packet}
use sqpkv.Packet.Wire.{Request, get, put, delete, get_all, request_wire, request_payload}
use sqpkv.Packet.Parse.{received}
use sqpkv.Packet.Reply.{reply_payload, reply_size, reply_wire, parsed_as}
use sqpkv.Packet.ParseReply.{slack_of}
use sqpkv.KvRequestHandler.{handle_read_completion}
use sqpkv.KvRequestHandler.Serve.{serve}
use sqpkv.KvRequestHandler.Refine.{handle_read_completion-serve, create_response_packet-handle}
use sqpkv.Memory.{Block}
use sqpkv.Status.{of_rocks}
use sqpkv.Rocks.Contents.{StoreLaws, same_key}
use sqpkv.KvRequestHandler.Store.{handle_all, HasRoom, Replies, after_all, handle_all-Replies}
use sqpkv.Tests.Entries.{Entries, entries, entries_laws, entries_store}
use sqpkv.Tests.Toy.{toy, toy_laws, both, prefix, key_1, value_a}

abbrev room : List ℕ
room = replicate 64 0

handle_read_completion-serve_example :
    handle_read_completion toy 3 (request_wire (get_all prefix) ++ []) room both
    ≡ some (record {
      size = of_obj (some (28 + 4));
      out = filled (reply_wire (serve toy toy_laws (get_all prefix) both).0) room;
      db = both;
    })
unfolding request_wire reply_wire reply_size serve matching is_prefix
handle_read_completion-serve_example =
    handle_read_completion-serve toy toy_laws 3 (get_all prefix) [] room both (omega arith)
      (omega arith) (omega arith)

create_response_packet-handle_example :
    (handle_read_completion toy 3 (request_wire (get_all prefix) ++ []) room both >>= λ handled.
    create_response_packet handled.out)
    ≡ some (
        some (
          parsed_as
            (received (
              reply_payload (serve toy toy_laws (get_all prefix) both).0
              ++ slack_of
                  (serve toy toy_laws (get_all prefix) both).0
                  (drop (length (reply_wire (serve toy toy_laws (get_all prefix) both).0)) room)))
            (serve toy toy_laws (get_all prefix) both).0))
unfolding request_wire reply_wire reply_size serve matching is_prefix
create_response_packet-handle_example =
    create_response_packet-handle toy toy_laws 3 (get_all prefix) [] room both (omega arith)
      (omega arith) (omega arith) (omega arith)

-- A PUT, a GET of its key, a GET_ALL and a DELETE
abbrev requests : List Request
requests = put key_1 value_a ∷ get key_1 ∷ get_all prefix ∷ delete key_1 ∷ []

handle_all-Replies_example :
    (outs : List Block) × (db' : Entries) × (handle_all entries 3
        (map request_wire requests)
        room
        []
      ≡ some (outs, db'))
    × Replies requests (StoreLaws.contents entries_store []) outs
    × (StoreLaws.contents entries_store db'
        ≡ after_all requests (StoreLaws.contents entries_store []))
unfolding HasRoom serve request_wire request_payload reply_wire reply_size reply_payload matching
    is_prefix of_rocks same_key
handle_all-Replies_example =
    handle_all-Replies entries entries_laws entries_store 3 requests room [] (
      omega arith,
      omega arith,
      omega arith,
      omega arith,
      (
        omega arith,
        omega arith,
        omega arith,
        omega arith,
        (
          omega arith,
          omega arith,
          omega arith,
          omega arith,
          (omega arith, omega arith, omega arith, omega arith, tt),
        ),
      ),
    )
