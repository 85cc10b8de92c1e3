-- ===== src/Tests/Packets.antt =====
-- Runs of src/protocol/packet.cc, and the theorems about packets at concrete inputs.
use sqpkv.Prelude.{ℕ, ◌≡◌, refl, some, List, [], ◌∷◌, ◌++◌, arith, replicate}
use sqpkv.Memory.Laws.{filled}
use sqpkv.Status.{default_status}
use sqpkv.Packet.Factory.{create_command_packet, create_response_packet}
use sqpkv.Packet.Wire.{Request, put, request_payload, request_wire, packet_of, build}
use sqpkv.Packet.Build.{released, build-request_wire}
use sqpkv.Packet.Parse.{received, create_command_packet-request_wire}
use sqpkv.Packet.Reply.{
  Reply, reply_payload, reply_size, reply_wire, parsed_as, built_as, build_reply,
}
use sqpkv.Packet.BuildReply.{build_reply-reply_wire}
use sqpkv.Packet.ParseReply.{slack_of, create_response_packet-reply_wire}

abbrev room : List ℕ
room = replicate 24 7

abbrev put_kv : Request
put_kv = put (b'k' ∷ []) (b'v' ∷ b'w' ∷ [])

put_kv_wire :
    request_wire put_kv
    ≡ 12 ∷ 0 ∷ 0 ∷ 0 ∷ 1 ∷ 1 ∷ 0 ∷ 0 ∷ 0 ∷ b'k' ∷ 2 ∷ 0 ∷ 0 ∷ 0 ∷ b'v' ∷ b'w' ∷ []
unfolding request_wire
put_kv_wire = refl

build-request_wire_example :
    build put_kv (some room)
    ≡ some (packet_of (released 12) put_kv, filled (request_wire put_kv) room)
unfolding request_wire
build-request_wire_example = build-request_wire put_kv room (omega arith) (omega arith)

create_command_packet-request_wire_example :
    create_command_packet (request_wire put_kv ++ (9 ∷ []))
    ≡ some (some (packet_of (received (request_payload put_kv)) put_kv))
unfolding request_wire
create_command_packet-request_wire_example =
    create_command_packet-request_wire put_kv (9 ∷ []) (omega arith)

-- A GET of which one byte of two has arrived, and one whose size wraps around.
abbrev two_keys : Reply
two_keys = Reply.get_all default_status ((b'a' ∷ []) ∷ (b'b' ∷ []) ∷ [])

build_reply-reply_wire_example :
    build_reply two_keys (some (replicate 40 7))
    ≡ some (
      built_as (released (reply_size two_keys)) two_keys,
      filled (reply_wire two_keys) (replicate 40 7),
    )
unfolding reply_size reply_wire
build_reply-reply_wire_example =
    build_reply-reply_wire two_keys (replicate 40 7) (omega arith) (omega arith) (omega arith)

create_response_packet-reply_wire_example :
    create_response_packet (reply_wire two_keys ++ (7 ∷ 7 ∷ 7 ∷ []))
    ≡ some (
        some (
          parsed_as
            (received (reply_payload two_keys ++ slack_of two_keys (7 ∷ 7 ∷ 7 ∷ [])))
            two_keys))
unfolding reply_size reply_wire
create_response_packet-reply_wire_example =
    create_response_packet-reply_wire two_keys (7 ∷ 7 ∷ 7 ∷ []) tt (omega arith) (omega arith)
      (omega arith)
