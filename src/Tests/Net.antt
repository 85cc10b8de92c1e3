-- ===== src/Tests/Net.antt =====
-- Runs of src/protocol/protocol.cc, and its theorems at concrete inputs: one connection, whose stream
-- of incoming bytes has arrived and is closed, and that takes every write.
use sqpkv.Prelude.{
  ℕ, zero, suc, ◌*◌, ◌≡◌, refl, sym, ap, List, [], ◌∷◌, ◌++◌, arith, take, drop, length, replicate,
  some,
}
use sqpkv.Sockets.{Sockets, ReadResult, received, WriteResult, wrote}
use sqpkv.Sockets.Laws.{WriteLaws, Arrived, Pipe}
use sqpkv.Protocol.Forward.{Copies, forward_packet-stream}
use sqpkv.Protocol.{
  max_net_packet_size, send_packet, read_whole_packet, forward_packet, read_from_client,
  read_from_server,
}
use sqpkv.Protocol.Parts.{last_text, with_last_text, read_from_client-part}
use sqpkv.Protocol.Requests.{read_from_client-frame}
use sqpkv.Protocol.Replies.{read_from_server-reply}
use sqpkv.Packet.Reply.{Reply, reply_payload, reply_wire, reply_size, parsed_as}
use sqpkv.Packet.ParseReply.{slack_of}
use sqpkv.Packet.Wire.{request_payload, Request, delete, request_payload, request_wire, packet_of}
use sqpkv.Packet.Parse
use sqpkv.Status.{of_obj, default_status}
use sqpkv.Protocol.Frame.{frame}
use sqpkv.Protocol.Rounds.{Reads}
use sqpkv.Protocol.Send.{Delivers, send_packet-frame}
use sqpkv.Protocol.Receive.{Loses, read_whole_packet-frame, read_whole_packet-lost}

-- the bytes that have not been read, and those that were written
abbrev pub ToyNet : Type 0
ToyNet = List ℕ × List ℕ

abbrev pub toy_net : Sockets
toy_net = record {
  World = ToyNet;
  errno_text = λ w. [];
  read = λ w fd n. (received (take n w.0), (drop n w.0, w.1));
  write = λ w fd bs. (wrote (length bs), (w.0, w.1 ++ bs));
  close = λ w fd. w;
}

pub toy_sent-write :
    (w : ToyNet) (fd : ℕ) (bs : List ℕ) (n : ℕ) (w' : ToyNet)
    → Sockets.write toy_net w fd bs ≡ (wrote n, w')
    → w'.1 ≡ w.1 ++ bs
toy_sent-write w fd bs n w' e = ap (λ (r : WriteResult × ToyNet). r.1.1) (sym e)

abbrev pub toy_writes : WriteLaws toy_net
toy_writes = record { sent = λ w fd. w.1; sent-write = toy_sent-write }

abbrev pub toy_arrived : Arrived toy_net 0
toy_arrived = record { pending = λ w. w.0; reads = λ w n. ((drop n w.0, w.1), refl, refl) }

abbrev delete_k : Request
delete_k = delete (b'k' ∷ [])

abbrev pub three_bytes : List ℕ
three_bytes = 1 ∷ 2 ∷ 3 ∷ []

send_packet-frame_example :
    Delivers toy_net toy_writes 0
      (frame (1 ∷ 0 ∷ 0 ∷ 0 ∷ 9 ∷ []))
      ([], [])
      (send_packet toy_net
        ([], [])
        0
        (record { payload_size = 1; payload = some ((1 ∷ 0 ∷ 0 ∷ 0 ∷ 9 ∷ []) ++ []) }))
send_packet-frame_example =
    send_packet-frame toy_net toy_writes 0 ([], []) 1 (1 ∷ 0 ∷ 0 ∷ 0 ∷ 9 ∷ []) [] (omega arith)
      (omega arith)

read_whole_packet-frame_example :
    Reads toy_net 0 toy_arrived three_bytes (read_whole_packet toy_net 3 (three_bytes, []) 0)
read_whole_packet-frame_example =
    read_whole_packet-frame toy_net 0 toy_arrived 0 (three_bytes, []) (omega arith) (omega arith)

length-replicate : (n : ℕ) → length {A = ℕ} (replicate n 0) ≡ n
length-replicate zero = refl
length-replicate (suc n) = omega (arith, length-replicate n)

read_whole_packet-lost_example :
    Loses toy_net 0 toy_arrived
      (read_whole_packet toy_net 4 (replicate (3 * max_net_packet_size) 0, []) 0)
read_whole_packet-lost_example =
    read_whole_packet-lost toy_net 0 toy_arrived 0 (replicate (3 * max_net_packet_size) 0, [])
      (omega (arith, length-replicate (3 * max_net_packet_size)))
      (omega (arith, length-replicate (3 * max_net_packet_size)))

pub toy_pending-write :
    (w : ToyNet) (bs : List ℕ) (r : WriteResult) (w' : ToyNet)
    → Sockets.write toy_net w 1 bs ≡ (r, w')
    → w'.0 ≡ w.0
toy_pending-write w bs r w' e = ap (λ (t : WriteResult × ToyNet). t.1.0) (sym e)

pub toy_sent-read :
    (w : ToyNet) (n : ℕ) (r : ReadResult) (w' : ToyNet)
    → Sockets.read toy_net w 0 n ≡ (r, w')
    → w'.1 ≡ w.1
toy_sent-read w n r w' e = ap (λ (t : ReadResult × ToyNet). t.1.1) (sym e)

abbrev pub toy_pipe : Pipe toy_net 0 1
toy_pipe = record {
  arrived = toy_arrived;
  writes = toy_writes;
  pending-write = toy_pending-write;
  sent-read = toy_sent-read;
}

forward_packet-stream_example :
    Copies toy_net 0 1 toy_pipe three_bytes
      (three_bytes, [])
      (forward_packet toy_net 4 (three_bytes, []) 0 1)
forward_packet-stream_example =
    forward_packet-stream toy_net 0 1 toy_pipe 4 (three_bytes, []) (omega arith) (omega arith)

read_from_client-frame_example :
    (w' : Sockets.World toy_net) × (read_from_client toy_net 3 (frame (request_wire delete_k), []) 0
      ≡ some (of_obj (some (packet_of (Parse.received (request_payload delete_k)) delete_k)), w'))
unfolding request_wire
read_from_client-frame_example =
    read_from_client-frame toy_net 0 toy_arrived 0 delete_k (frame (request_wire delete_k), []) refl
      (omega arith)

-- A DELETE request for the key `kv` of which ten bytes of eleven have arrived
abbrev delete_kv : Request
delete_kv = delete (b'k' ∷ b'v' ∷ [])

abbrev delete_k0 : Request
delete_k0 = delete (b'k' ∷ 0 ∷ [])

read_from_client-part_example :
    read_from_client toy_net 1 (take 10 (request_wire delete_kv), []) 0
    ≡ some
        (of_obj (some (packet_of (Parse.received (request_payload delete_k0)) delete_k0)), ([], []))
unfolding request_wire request_payload last_text with_last_text
read_from_client-part_example =
    read_from_client-part toy_net 0 0 delete_kv 1 10 (take 10 (request_wire delete_kv), []) ([], [])
      (omega arith) (omega arith) (omega arith) refl

-- A reply to a GET for the value `v`
abbrev found : Reply
found = Reply.get default_status (b'v' ∷ [])

read_from_server-reply_example :
    (w' : Sockets.World toy_net) × (read_from_server toy_net 3 (reply_wire found ++ [], []) 0
      ≡ some (
        of_obj (some (parsed_as (Parse.received (reply_payload found ++ slack_of found [])) found)),
        w',
      ))
unfolding reply_wire reply_payload reply_size
read_from_server-reply_example =
    read_from_server-reply toy_net 0 toy_arrived 0 found [] (reply_wire found ++ [], [])
      (refl, tt, omega arith, omega arith, omega arith, omega arith, omega arith)
