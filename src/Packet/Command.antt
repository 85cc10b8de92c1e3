-- ===== src/Packet/Command.antt =====
-- src/protocol/packet.h and packet.cc: the four command packets, read from a buffer and built in one.
use sqpkv.Prelude.{ℕ, ◌+◌, ◌%◌, Option, some, List, length, ◌>>=◌}
use sqpkv.Memory.{Block, u32_mod}
use sqpkv.Packet.{
  OpCode, k_get, k_put, k_delete, k_get_all, op_byte, Packet, add_char, add_string, read_slice,
  packet_of_buf, packet_at, packet_header_size, payload_start, release_if,
}

pub record GetPacket : Type 0 where
  pub packet : Packet
  pub key : List ℕ

pub record PutPacket : Type 0 where
  pub packet : Packet
  pub key : List ℕ
  pub value : List ℕ

pub record DeletePacket : Type 0 where
  pub packet : Packet
  pub key : List ℕ

pub record GetAllPacket : Type 0 where
  pub packet : Packet
  pub prefix : List ℕ

-- The dynamic class of a `CommandPacket`.
pub data CommandPacket : Type 0 where
  get : GetPacket → CommandPacket
  put : PutPacket → CommandPacket
  delete : DeletePacket → CommandPacket
  get_all : GetAllPacket → CommandPacket

unfoldable pub get_op : CommandPacket → OpCode
get_op (get _) = k_get
get_op (put _) = k_put
get_op (delete _) = k_delete
get_op (get_all _) = k_get_all

-- HeaderSize() of the classes: the op code and the size of each slice.
abbrev key_header_size : ℕ
key_header_size = packet_header_size + 1 + 4

abbrev put_header_size : ℕ
put_header_size = packet_header_size + 1 + 4 + 4

-- The constructors from a buffer skip the op code and read the slices.
unfoldable pub key_of_buf : Block → Option (Packet × List ℕ)
key_of_buf buf = do
  p ← packet_of_buf buf
  blk ← p.payload
  (key, _) ← read_slice blk (payload_start + 1)
  some (p, key)

unfoldable pub get_of_buf : Block → Option GetPacket
unfolding key_of_buf
get_of_buf buf = do (p, key) ← key_of_buf buf; some (record { packet = p; key = key })

unfoldable pub put_of_buf : Block → Option PutPacket
put_of_buf buf = do
  p ← packet_of_buf buf
  blk ← p.payload
  (key, at) ← read_slice blk (payload_start + 1)
  (value, _) ← read_slice blk at
  some (record { packet = p; key = key; value = value })

unfoldable pub delete_of_buf : Block → Option DeletePacket
unfolding key_of_buf
delete_of_buf buf = do (p, key) ← key_of_buf buf; some (record { packet = p; key = key })

unfoldable pub get_all_of_buf : Block → Option GetAllPacket
unfolding key_of_buf
get_all_of_buf buf = do (p, key) ← key_of_buf buf; some (record { packet = p; prefix = key })

-- What the constructors from one slice share: the packet, the slice read back, and the buffer.
unfoldable pub build_key : OpCode → List ℕ → Option Block → Option (Packet × List ℕ × Block)
build_key op text buf = do
  p ← packet_at ((key_header_size + length text) % u32_mod) buf
  blk ← p.payload
  (blk', at) ← add_char blk payload_start (op_byte op)
  (blk'', _) ← add_string blk' at text
  (key, _) ← read_slice blk'' (payload_start + 1)
  some (release_if buf (record p { payload = some blk'' }), key, blk'')

unfoldable pub build_get : List ℕ → Option Block → Option (GetPacket × Block)
unfolding build_key
build_get key buf = do
  (p, k, blk) ← build_key k_get key buf
  some (record { packet = p; key = k }, blk)

unfoldable pub build_put : List ℕ → List ℕ → Option Block → Option (PutPacket × Block)
build_put key value buf = do
  p ← packet_at ((put_header_size + length key + length value) % u32_mod) buf
  blk ← p.payload
  (blk1, at) ← add_char blk payload_start (op_byte k_put)
  (blk2, at') ← add_string blk1 at key
  (blk3, _) ← add_string blk2 at' value
  (k, next) ← read_slice blk3 (payload_start + 1)
  (v, _) ← read_slice blk3 next
  some (
    record { packet = release_if buf (record p { payload = some blk3 }); key = k; value = v },
    blk3,
  )

unfoldable pub build_delete : List ℕ → Option Block → Option (DeletePacket × Block)
unfolding build_key
build_delete key buf = do
  (p, k, blk) ← build_key k_delete key buf
  some (record { packet = p; key = k }, blk)

unfoldable pub build_get_all : List ℕ → Option Block → Option (GetAllPacket × Block)
unfolding build_key
build_get_all prefix buf = do
  (p, k, blk) ← build_key k_get_all prefix buf
  some (record { packet = p; prefix = k }, blk)
