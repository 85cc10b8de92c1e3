-- ===== src/Packet/Response.antt =====
-- src/protocol/packet.h and packet.cc: the response packets, read from a buffer and built in one.
use sqpkv.Prelude.{ℕ, zero, suc, ◌+◌, ◌%◌, Option, some, List, [], ◌∷◌, ◌++◌, length, ◌>>=◌}
use sqpkv.Memory.{Block, u32_mod, load}
use sqpkv.Rocks.{Rocks}
use sqpkv.Status.{Status, code_byte, code_of_byte, default_status, of_rocks}
use sqpkv.Packet.{
  OpCode, k_get, k_put, k_get_all, op_byte, Packet, add_u32, add_char, read_u32, read_char,
  add_string, read_slice, packet_of_buf, packet_at, packet_header_size, payload_start, release_if,
}

pub record ResponsePacket : Type 0 where
  pub packet : Packet
  pub status : Status
  pub extra_header_size : ℕ

-- HeaderSize() of the classes.
abbrev response_header_size : ℕ
response_header_size = packet_header_size + 6

abbrev get_response_header_size : ℕ
get_response_header_size = response_header_size + 4

abbrev get_all_response_header_size : ℕ
get_all_response_header_size = response_header_size + 4

-- ResponsePacket::Payload()
abbrev response_payload : ResponsePacket → ℕ
response_payload r = payload_start + r.extra_header_size

-- ParseStatus
unfoldable pub parse_status : Packet → Option ResponsePacket
parse_status p = do
  blk ← p.payload
  (scode, at) ← read_char blk (payload_start + 1)
  (message_size, at') ← read_u32 blk at
  message ← load blk at' message_size
  some (record {
    packet = p;
    status = record { code = code_of_byte scode; message = message };
    extra_header_size = (6 + message_size) % u32_mod;
  })

unfoldable pub response_of_buf : Block → Option ResponsePacket
unfolding parse_status
response_of_buf buf = do p ← packet_of_buf buf; parse_status p

-- ResponsePacket(payload_size, op, status, buf): `status_` keeps its default.
unfoldable pub response_at : ℕ → OpCode → Status → Option Block → Option ResponsePacket
response_at size op status buf = do
  p ← packet_at size buf
  blk ← p.payload
  (blk1, at) ← add_char blk payload_start (op_byte op)
  (blk2, at') ← add_char blk1 at (code_byte status.code)
  (blk3, _) ← add_string blk2 at' status.message
  some (record {
    packet = record p { payload = some blk3 };
    status = default_status;
    extra_header_size = (6 + length status.message) % u32_mod;
  })

-- The last lines of the constructors: the block as written, and the packet after `Release`.
abbrev finish : Option Block → ResponsePacket → Block → ResponsePacket × Block
finish buf r blk =
    (record r { packet = release_if buf (record r.packet { payload = some blk }) }, blk)

pub record GetResponsePacket : Type 0 where
  pub response : ResponsePacket
  pub value : List ℕ

pub record PutResponsePacket : Type 0 where
  pub response : ResponsePacket

pub record DeleteResponsePacket : Type 0 where
  pub response : ResponsePacket

pub record GetAllResponsePacket : Type 0 where
  pub response : ResponsePacket
  pub keys : List (List ℕ)

-- GetResponsePacket
unfoldable pub get_response_of_buf : Block → Option GetResponsePacket
unfolding response_of_buf
get_response_of_buf buf = do
  r ← response_of_buf buf
  blk ← r.packet.payload
  (value, _) ← read_slice blk (response_payload r)
  some (record { response = r; value = value })

unfoldable pub build_get_response :
    Status → List ℕ → Option Block → Option (GetResponsePacket × Block)
unfolding response_at
build_get_response status value buf = do
  r ←
      response_at ((get_response_header_size + length status.message + length value) % u32_mod)
        k_get status buf
  blk ← r.packet.payload
  (blk', _) ← add_string blk (response_payload r) value
  let (r', out) = finish buf r blk'
  some (record { response = r'; value = [] }, out)

-- PutResponsePacket
unfoldable pub put_response_of_buf : Block → Option PutResponsePacket
unfolding response_of_buf
put_response_of_buf buf = do r ← response_of_buf buf; some (record { response = r })

unfoldable pub build_put_response : Status → Option Block → Option (PutResponsePacket × Block)
unfolding response_at
build_put_response status buf = do
  r ← response_at ((response_header_size + length status.message) % u32_mod) k_put status buf
  blk ← r.packet.payload
  let (r', out) = finish buf r blk
  some (record { response = r' }, out)

-- DeleteResponsePacket: the op code that it writes is kPut.
unfoldable pub delete_response_of_buf : Block → Option DeleteResponsePacket
unfolding response_of_buf
delete_response_of_buf buf = do r ← response_of_buf buf; some (record { response = r })

unfoldable pub build_delete_response : Status → Option Block → Option (DeleteResponsePacket × Block)
unfolding response_at
build_delete_response status buf = do
  r ← response_at ((response_header_size + length status.message) % u32_mod) k_put status buf
  blk ← r.packet.payload
  let (r', out) = finish buf r blk
  some (record { response = r' }, out)

-- SumSizes, in uint32_t
unfoldable pub sum_sizes_from : ℕ → List (List ℕ) → ℕ
sum_sizes_from sum [] = sum
sum_sizes_from sum (key ∷ keys) = sum_sizes_from ((sum + (4 + length key)) % u32_mod) keys

unfoldable pub sum_sizes : List (List ℕ) → ℕ
unfolding sum_sizes_from
sum_sizes keys = sum_sizes_from 0 keys

-- for (auto &key : keys) payload = AddString(payload, key);
unfoldable pub add_strings : Block → ℕ → List (List ℕ) → Option (Block × ℕ)
add_strings blk off [] = some (blk, off)
add_strings blk off (key ∷ keys) = do (blk', at) ← add_string blk off key; add_strings blk' at keys

-- for (i = 0; i < num_keys; i++) { payload = ReadSlice(payload, key); keys_.push_back(key); }
unfoldable pub read_slices : Block → ℕ → ℕ → Option (List (List ℕ))
read_slices blk off zero = some []
read_slices blk off (suc n) = do
  (key, at) ← read_slice blk off
  keys ← read_slices blk at n
  some (key ∷ keys)

-- GetAllResponsePacket
unfoldable pub get_all_response_of_buf : Block → Option GetAllResponsePacket
unfolding response_of_buf read_slices
get_all_response_of_buf buf = do
  r ← response_of_buf buf
  blk ← r.packet.payload
  (num_keys, at) ← read_u32 blk (response_payload r)
  keys ← read_slices blk at num_keys
  some (record { response = r; keys = keys })

unfoldable pub build_get_all_response :
    Status → List (List ℕ) → Option Block → Option (GetAllResponsePacket × Block)
unfolding response_at sum_sizes add_strings read_slices
build_get_all_response status keys buf = do
  r ←
      response_at ((get_all_response_header_size + 4 + sum_sizes keys) % u32_mod) k_get_all status
        buf
  blk ← r.packet.payload
  (blk1, at) ← add_u32 blk (response_payload r) (length keys % u32_mod)
  (blk2, _) ← add_strings blk1 at keys
  (num_keys, from) ← read_u32 blk2 (response_payload r)
  ks ← read_slices blk2 from num_keys
  let (r', out) = finish buf r blk2
  some (record { response = r'; keys = ks }, out)

-- AddKeys(keys): the keys are pushed behind those of the caller.
unfoldable pub add_keys : GetAllResponsePacket → List (List ℕ) → List (List ℕ)
add_keys r keys = keys ++ r.keys

-- The constructors from a rocksdb::Status convert it and go on.
module _ (R : Rocks) where
  unfoldable pub rocks_get_response :
      Rocks.DbStatus R → List ℕ → Option Block → Option (GetResponsePacket × Block)
  unfolding build_get_response of_rocks
  rocks_get_response s value buf = build_get_response (of_rocks R s) value buf

  unfoldable pub rocks_put_response :
      Rocks.DbStatus R → Option Block → Option (PutResponsePacket × Block)
  unfolding build_put_response of_rocks
  rocks_put_response s buf = build_put_response (of_rocks R s) buf

  unfoldable pub rocks_delete_response :
      Rocks.DbStatus R → Option Block → Option (DeleteResponsePacket × Block)
  unfolding build_delete_response of_rocks
  rocks_delete_response s buf = build_delete_response (of_rocks R s) buf

  unfoldable pub rocks_get_all_response :
      Rocks.DbStatus R → List (List ℕ) → Option Block → Option (GetAllResponsePacket × Block)
  unfolding build_get_all_response of_rocks
  rocks_get_all_response s keys buf = build_get_all_response (of_rocks R s) keys buf
