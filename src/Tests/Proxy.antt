-- ===== src/Tests/Proxy.antt =====
-- The theorems about the sharding proxy at concrete inputs.
use mathlib.Core.Path.{subst}
use sqpkv.Prelude.{
  length, ℕ, ◌%◌, Option, sym, ◌∙◌, ◌≡◌, refl, ◌<◌, ◌++◌, none, some, List, [], ◌∷◌, arith,
}
use sqpkv.Memory.{load}
use sqpkv.Sockets.{Sockets}
use sqpkv.Status.{Status, default_status, is_ok}
use sqpkv.Packet.{to_binary}
use sqpkv.Packet.Command.{GetAllPacket, get_all}
use sqpkv.Packet.Response.{GetAllResponsePacket}
use sqpkv.Packet.Reply.{Reply, reply_wire, reply_payload, reply_size, parsed_as}
use sqpkv.Packet.Parse.{received}
use sqpkv.Packet.ParseReply.{slack_of}
use sqpkv.Protocol.{max_net_packet_size, send_slice, send_packet}
use sqpkv.Sharding.Digits.{decimal_value}
use sqpkv.TablePrefix.Laws.{key_of}
use sqpkv.Protocol.Replies.{HasReply, read_from_server-reply}
use sqpkv.ShardingProxyWorker.{
  ShardingProxyWorker, proxy_for, server_at, choose_server, dispatch_packet, scatter, gather,
  proxy_command,
}
use sqpkv.ShardingProxyWorker.Shards.{choose_server-next}
use sqpkv.ShardingProxyWorker.Gather.{Answered, gather-Answered, proxy_command-get_all}
use sqpkv.Tests.Toy.{key_1, key_2, prefix}
use sqpkv.ShardingProxyWorker.Dispatch.{Exchanges, dispatch_packet-Exchanges}
use sqpkv.Tests.Net.{toy_net, toy_arrived, toy_pipe, three_bytes}

abbrev table : List ℕ
table = b't' ∷ []

abbrev fds : List ℕ
fds = 7 ∷ 8 ∷ 9 ∷ []

choose_server-next_example :
    (2 < length fds)
    × (choose_server (proxy_for 3 fds) (key_of table (b'5' ∷ [])) ≡ server_at fds 1)
unfolding decimal_value
choose_server-next_example =
    choose_server-next 3 fds table b'5' [] (refl, tt) ((omega arith, omega arith), tt) (omega arith)
      (omega arith) 1 refl

-- One server, on descriptor 0, with an answer of one key.
abbrev answer : Reply
answer = Reply.get_all default_status (key_1 ∷ [])

abbrev stream : List ℕ
stream = reply_wire answer ++ (0 ∷ 0 ∷ [])

abbrev response : GetAllResponsePacket
response = record {
  response = record {
    packet = received (reply_payload answer ++ slack_of answer (0 ∷ 0 ∷ []));
    status = default_status;
    extra_header_size = 8;
  };
  keys = key_1 ∷ [];
}

arrives : (w : Sockets.World toy_net) → w.0 ≡ stream → HasReply answer (0 ∷ 0 ∷ []) w.0
unfolding reply_wire reply_payload reply_size
arrives w e = rw e (refl, tt, omega arith, omega arith, omega arith, omega arith, omega arith)

abbrev after : (w : Sockets.World toy_net) → w.0 ≡ stream → Sockets.World toy_net
after w e = (read_from_server-reply toy_net 0 toy_arrived 0 answer (0 ∷ 0 ∷ []) w (arrives w e)).0

abbrev proxy : ShardingProxyWorker
proxy = proxy_for 1 (0 ∷ [])

answered :
    (w : Sockets.World toy_net) (e : w.0 ≡ stream)
    → Answered toy_net proxy 3 (0 ∷ []) (key_1 ∷ []) w (after w e)
unfolding Answered parsed_as
answered w e = (
  response,
  [],
  after w e,
  (read_from_server-reply toy_net 0 toy_arrived 0 answer (0 ∷ 0 ∷ []) w (arrives w e)).1,
  refl,
  (refl, refl),
)

gather-Answered_example :
    gather toy_net proxy 3 (0 ∷ []) (key_2 ∷ []) (stream, [])
    ≡ some (default_status, key_2 ∷ key_1 ∷ [], after (stream, []) refl)
gather-Answered_example =
    gather-Answered toy_net proxy 3 (0 ∷ []) (key_2 ∷ []) (key_1 ∷ []) (stream, [])
      (after (stream, []) refl) (answered (stream, []) refl)

abbrev command : GetAllPacket
command = record {
  packet = record { payload_size = 1; payload = some (1 ∷ 0 ∷ 0 ∷ 0 ∷ 3 ∷ []) };
  prefix = prefix;
}

scattered :
    scatter toy_net proxy 3 (0 ∷ []) (to_binary command.packet) (stream, [])
    ≡ some (default_status, (stream, 1 ∷ 0 ∷ 0 ∷ 0 ∷ 3 ∷ []))
unfolding scatter to_binary load is_ok send_slice
scattered = refl

proxy_command-get_all_example : proxy_command toy_net proxy 3 (get_all command) (stream, []) ≡ none
proxy_command-get_all_example =
    proxy_command-get_all toy_net proxy 3 command (key_1 ∷ []) (stream, [])
      (stream, 1 ∷ 0 ∷ 0 ∷ 0 ∷ 3 ∷ []) (after (stream, 1 ∷ 0 ∷ 0 ∷ 0 ∷ 3 ∷ []) refl) scattered
      (answered (stream, 1 ∷ 0 ∷ 0 ∷ 0 ∷ 3 ∷ []) refl)

-- A proxy of the servers on the descriptors 0 and 9, for the client on the descriptor 1
abbrev two_shards : ShardingProxyWorker
two_shards = proxy_for 1 (0 ∷ 9 ∷ [])

abbrev request : List ℕ
request = 1 ∷ 0 ∷ 0 ∷ 0 ∷ 9 ∷ []

abbrev Short : Option (Status × Sockets.World toy_net) → Type 0
Short none = Unit
Short (some r) = (0 < length r.1.0 % max_net_packet_size) × (length r.1.0 < 4)

request_sent :
    send_packet toy_net
      (three_bytes, [])
      0
      (record { payload_size = 1; payload = some (request ++ []) })
    ≡ some (default_status, (three_bytes, request))
unfolding send_packet to_binary load
request_sent = refl

key_5-server : choose_server two_shards (key_of table (b'5' ∷ [])) ≡ some 0
unfolding decimal_value server_at
key_5-server =
    (choose_server-next 1 (0 ∷ 9 ∷ []) table b'5' [] (refl, tt) ((omega arith, omega arith), tt)
      (omega arith) (omega arith) 0 refl).1

dispatch_packet-Exchanges_example :
    Exchanges toy_net 0 1 toy_pipe two_shards 4 request
      (three_bytes, [])
      (dispatch_packet toy_net two_shards 4
        (key_of table (b'5' ∷ []))
        (to_binary (record { payload_size = 1; payload = some (request ++ []) }))
        (three_bytes, []))
dispatch_packet-Exchanges_example =
    dispatch_packet-Exchanges toy_net 0 1 toy_pipe two_shards 4 (key_of table (b'5' ∷ [])) 1 request
      [] (three_bytes, []) key_5-server refl (omega arith) (omega arith)
      (λ s w1 e. subst Short (sym request_sent ∙ e) (omega arith, omega arith))
