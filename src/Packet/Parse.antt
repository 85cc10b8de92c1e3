-- ===== src/Packet/Parse.antt =====
-- CommandPacketFactory of src/protocol/packet.cc on received bytes.
use sqpkv.Prelude.{
  ℕ, suc, ◌+◌, ◌%◌, ◌<◌, ◌≡◌, refl, some, List, [], ◌∷◌, ◌++◌, arith, append_assoc, append-nil,
  length, length-append,
}
use sqpkv.Memory.{u32_mod, u32_bytes}
use sqpkv.Memory.Laws.{load-append}
use sqpkv.Packet.{op_of_byte, Packet, packet_of_buf, read_char}
use sqpkv.Packet.Cursor.{sized, read_u32-at, read_char-at, read_slice-at}
use sqpkv.Packet.Command.{key_of_buf, get_of_buf, put_of_buf, delete_of_buf, get_all_of_buf}
use sqpkv.Packet.Factory.{create_command_packet, make_command}
use sqpkv.Packet.Wire.{Request, get, put, delete, get_all, request_payload, request_wire, packet_of}

abbrev pub received : List ℕ → Packet
received payload = record { payload_size = length payload; payload = some (sized payload) }

-- A packet is copied out of the bytes that begin with it.
pub packet_of_buf-sized :
    (payload rest : List ℕ)
    → 4 + length payload < u32_mod
    → packet_of_buf (sized payload ++ rest) ≡ some (received payload)
unfolding packet_of_buf
packet_of_buf-sized payload rest h =
    rw
      (read_u32-at (sized payload ++ rest) [] 0 refl (length payload) (payload ++ rest) refl
        (omega arith))
      (rw total (rw (load-append [] (sized payload) rest)))
  where
    total : (length payload + 4) % u32_mod ≡ length (sized payload)
    total = omega arith

key_of_buf-sized :
    (op : ℕ) (key rest : List ℕ)
    → 9 + length key < u32_mod
    → key_of_buf (sized (op ∷ sized key) ++ rest) ≡ some (received (op ∷ sized key), key)
unfolding key_of_buf
key_of_buf-sized op key rest h = rw (packet_of_buf-sized (op ∷ sized key) rest (omega arith)) (
    rw (
      read_slice-at (sized (op ∷ sized key)) (front) 5 refl key [] (simp append-nil) (omega arith)))
  where
    front : List ℕ
    front = u32_bytes (length (op ∷ sized key)) ++ (op ∷ [])

put_of_buf-sized :
    (op : ℕ) (key value rest : List ℕ)
    → 13 + length key + length value < u32_mod
    → put_of_buf (sized (op ∷ (sized key ++ sized value)) ++ rest)
      ≡ some
          (record { packet = received (op ∷ (sized key ++ sized value)); key = key; value = value })
unfolding put_of_buf
put_of_buf-sized op key value rest h =
    rw (packet_of_buf-sized payload rest (omega (arith, length-append key (sized value)))) (
      rw (read_slice-at (sized payload) front 5 refl key (sized value) refl (omega arith)) (
        rw (
          read_slice-at (sized payload) (front ++ sized key) (5 + 4 + length key)
            (omega (arith, length-append (sized key) [])) value [] (simp (append-nil, append_assoc))
            (omega arith))))
  where
    payload : List ℕ
    payload = op ∷ (sized key ++ sized value)

    front : List ℕ
    front = u32_bytes (length payload) ++ (op ∷ [])

op_read :
    (payload rest : List ℕ) (op : ℕ) → read_char (sized (op ∷ payload) ++ rest) 4 ≡ some (op, 5)
op_read payload rest op =
    read_char-at _ (u32_bytes (suc (length payload))) 4 refl op (payload ++ rest) refl

-- Bytes that begin with a packet as the constructors write it give the packet object for that request,
-- with the slices of the request, whatever follows. (The packet's size has to fit a uint32_t.)
pub create_command_packet-request_wire :
    (r : Request) (rest : List ℕ)
    → length (request_wire r) < u32_mod
    → create_command_packet (request_wire r ++ rest)
      ≡ some (some (packet_of (received (request_payload r)) r))
unfolding create_command_packet make_command request_wire packet_of op_of_byte get_of_buf
    delete_of_buf get_all_of_buf
create_command_packet-request_wire (get key) rest h =
    rw (op_read (sized key) rest 0) (rw (key_of_buf-sized 0 key rest (omega arith)))
create_command_packet-request_wire (put key value) rest h =
    rw (op_read (sized key ++ sized value) rest 1)
      (rw (put_of_buf-sized 1 key value rest (omega (arith, length-append key (sized value)))))
create_command_packet-request_wire (delete key) rest h =
    rw (op_read (sized key) rest 2) (rw (key_of_buf-sized 2 key rest (omega arith)))
create_command_packet-request_wire (get_all prefix) rest h =
    rw (op_read (sized prefix) rest 3) (rw (key_of_buf-sized 3 prefix rest (omega arith)))
