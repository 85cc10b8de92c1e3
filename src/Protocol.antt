-- ===== src/Protocol.antt =====
-- src/protocol/protocol.h and protocol.cc: packets over sockets. `none` is a fault.
pub mod Frame
pub mod Rounds
pub mod Forward
pub mod Requests
pub mod Replies
pub mod Parts
pub mod Send
pub mod Receive
use sqpkv.Prelude.{
  ℕ, zero, suc, ◌+◌, ◌-◌, ◌*◌, ◌%◌, Bool, true, false, Option, none, some, List, [], ◌∷◌, ◌++◌,
  length, max, replicate, ◌==◌, ltb, leb, if◌then◌else◌, ◌>>=◌,
}
use sqpkv.Memory.{Block, u32_mod, load}
use sqpkv.Sockets.{Sockets, ReadResult, read_failed, received, WriteResult, write_failed, wrote}
use sqpkv.Status.{Status, StatusOr, default_status, err_errno, eof_status, is_ok, of_obj, of_status}
use sqpkv.Packet.{Packet, Binary, to_binary}
use sqpkv.Packet.Command.{CommandPacket}
use sqpkv.Packet.Factory.{AnyResponse, create_command_packet, create_response_packet}

-- kMaxNetPacketSize
abbrev pub max_net_packet_size : ℕ
max_net_packet_size = 131072

-- LogBinary reads all bytes of the slice: a null or short block faults here.
pub log_binary : Binary → Option (List ℕ)
log_binary b = if b.size == 0 then some [] else do blk ← b.bytes; load blk 0 b.size

-- rc <= 0
abbrev pub not_written : WriteResult → Bool
not_written write_failed = true
not_written (wrote n) = n == 0

-- The first lines of the loop of ReadWholePacket: buf.capacity() after buf.reserve(buf.size() * 2),
-- and buf_len.
pub next_capacity : List ℕ → ℕ → ℕ → ℕ
next_capacity buf capacity room =
    if ltb room max_net_packet_size then max capacity (length buf * 2) else capacity

pub next_room : List ℕ → ℕ → ℕ → ℕ
unfolding next_capacity
next_room buf capacity room =
    if ltb room max_net_packet_size then next_capacity buf capacity room - length buf else room

module _ (S : Sockets) where
  abbrev pub write_status : WriteResult → Sockets.World S → Status
  write_status r w = if not_written r then err_errno (S.errno_text w) else default_status

  -- The loop of SendPacket: `size` is data.size_, `written` is size_written. Each full chunk takes
  -- kMaxNetPacketSize off `size`, so as many rounds as bytes, and one, are enough.
  pub send_loop : ℕ → Sockets.World S → ℕ → List ℕ → ℕ → ℕ → Option (Status × Sockets.World S)
  send_loop zero w sock bytes size written = none
  send_loop (suc fuel) w sock bytes size written = elim (size == 0) [
    | true ↦ let (r, w') = S.write w sock (0 ∷ []) in some (write_status r w', w')
    | false ↦ elim (leb max_net_packet_size size) [
      | true ↦ load bytes written max_net_packet_size >>= λ chunk.
          elim (not_written (S.write w sock chunk).0) [
            | true ↦
                some (err_errno (S.errno_text (S.write w sock chunk).1), (S.write w sock chunk).1)
            | false ↦
                send_loop fuel (S.write w sock chunk).1 sock bytes (size - max_net_packet_size)
                  ((written + max_net_packet_size) % u32_mod)
          ]
      | false ↦ load bytes written size >>= λ chunk.
          let (r, w') = S.write w sock chunk in some (write_status r w', w')
    ]
  ]

  -- SendPacket(sock, data)
  unfoldable pub send_slice : Sockets.World S → ℕ → Binary → Option (Status × Sockets.World S)
  unfolding send_loop log_binary
  send_slice w sock b = do bytes ← log_binary b; send_loop (suc b.size) w sock bytes b.size 0

  -- SendPacket(sock, packet)
  unfoldable pub send_packet : Sockets.World S → ℕ → Packet → Option (Status × Sockets.World S)
  unfolding send_slice
  send_packet w sock p = send_slice w sock (to_binary p)

  -- The body of the loop of ForwardPacket behind its read: `later` is the next round.
  abbrev pub forward_chunk :
      ℕ
      → List ℕ
      → Sockets.World S
      → (Sockets.World S → Option (Status × Sockets.World S))
      → Option (Status × Sockets.World S)
  forward_chunk to bs w later =
      let (r, w') = S.write w to bs in
      elim (length bs == 0) [
        | true ↦ some (eof_status, w)
        | false ↦ elim (not_written r) [
          | true ↦ some (eof_status, w')
          | false ↦ elim (ltb (length bs) max_net_packet_size) [
            | true ↦ some (default_status, w')
            | false ↦ later w'
          ]
        ]
      ]

  -- ForwardPacket(from, to), `fuel` rounds of the loop; `none` where they are not enough.
  pub forward_packet : ℕ → Sockets.World S → ℕ → ℕ → Option (Status × Sockets.World S)
  forward_packet zero w from to = none
  forward_packet (suc fuel) w from to = elim (S.read w from max_net_packet_size).0 [
    | read_failed ↦
        let w' = (S.read w from max_net_packet_size).1 in some (err_errno (S.errno_text w'), w')
    | received bs ↦
        forward_chunk to bs (S.read w from max_net_packet_size).1
          (λ w'. forward_packet fuel w' from to)
  ]

  -- What ReadWholePacket returns: the status, and the vector with its bytes and its capacity.
  pub record Whole : Type 0 where
    pub status : Status
    pub buf : List ℕ
    pub capacity : ℕ
    pub world : Sockets.World S

  -- The storage that buf.data() points to. Each round has resized the vector up to its capacity, with
  -- zeros, before it was cut to what has been read, so that behind its bytes there are zeros.
  abbrev pub storage : Whole → Block
  storage whole = whole.buf ++ replicate (whole.capacity - length whole.buf) 0

  -- The loop of ReadWholePacket: `capacity` is buf.capacity(), `room` is buf_len, of which the
  -- next read may use all.
  pub read_loop : ℕ → Sockets.World S → ℕ → List ℕ → ℕ → ℕ → Option Whole
  read_loop zero w sock buf capacity room = none
  read_loop (suc fuel) w sock buf capacity room =
      let capacity' = next_capacity buf capacity room in
      let room' = next_room buf capacity room in
      let w' = (S.read w sock room').1 in
      elim (S.read w sock room').0 [
        | read_failed ↦ some (record {
          status = err_errno (S.errno_text w');
          buf = [];
          capacity = capacity';
          world = w';
        })
        | received bs ↦ elim (length bs == 0) [
          | true ↦ some (record { status = eof_status; buf = []; capacity = capacity'; world = w' })
          | false ↦ elim (ltb (length bs) max_net_packet_size) [
            | true ↦ some (record {
              status = default_status;
              buf = buf ++ bs;
              capacity = capacity';
              world = w';
            })
            | false ↦ read_loop fuel w' sock (buf ++ bs) capacity' (room' - length bs)
          ]
        ]
      ]

  -- ReadWholePacket(sock, buf) on an empty vector.
  pub read_whole_packet : ℕ → Sockets.World S → ℕ → Option Whole
  unfolding read_loop next_room
  read_whole_packet fuel w sock = read_loop fuel w sock [] max_net_packet_size max_net_packet_size

  -- ReadFromClient(sock)
  unfoldable pub read_from_client :
      ℕ → Sockets.World S → ℕ → Option (StatusOr CommandPacket × Sockets.World S)
  unfolding read_whole_packet is_ok
  read_from_client fuel w sock = do
    whole ← read_whole_packet fuel w sock
    elim (is_ok whole.status) [
      | true ↦ do
        pointer ← create_command_packet (storage whole)
        some (of_obj pointer, whole.world)
      | false ↦ some (of_status whole.status, whole.world)
    ]

  -- ReadFromServer(sock)
  unfoldable pub read_from_server :
      ℕ → Sockets.World S → ℕ → Option (StatusOr AnyResponse × Sockets.World S)
  unfolding read_whole_packet is_ok
  read_from_server fuel w sock = do
    whole ← read_whole_packet fuel w sock
    elim (is_ok whole.status) [
      | true ↦ do
        pointer ← create_response_packet (storage whole)
        some (of_obj pointer, whole.world)
      | false ↦ some (of_status whole.status, whole.world)
    ]
