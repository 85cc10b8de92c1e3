-- ===== src/Packet.antt =====
-- src/protocol/packet.h and packet.cc: the class `Packet`, its readers and writers, and the op codes.
-- `payload_` is the block that the unique_ptr owns, `none` where it is null. The constructors take
-- the caller's `buf` as `Option Block`, and those of the subclasses give the buffer back as written.
pub mod Cursor
pub mod Command
pub mod Response
pub mod Factory
pub mod Wire
pub mod Build
pub mod Overflow
pub mod Parse
pub mod Reject
pub mod Truncated
pub mod Reply
pub mod Strings
pub mod BuildReply
pub mod ParseReply
use sqpkv.Prelude.{ℕ, zero, suc, ◌+◌, ◌%◌, Option, none, some, List, [], ◌∷◌, length, ◌>>=◌}
use sqpkv.Memory.{Block, u32_mod, u32_bytes, u32_of, store, load}

pub data OpCode : Type 0 where
  k_get k_put k_delete k_get_all : OpCode

-- (char) op
pub op_byte : OpCode → ℕ
op_byte k_get = 0
op_byte k_put = 1
op_byte k_delete = 2
op_byte k_get_all = 3

-- The switch over static_cast<OpCode>(byte); `none` is its default case.
pub op_of_byte : ℕ → Option OpCode
op_of_byte zero = some k_get
op_of_byte (suc zero) = some k_put
op_of_byte (suc (suc zero)) = some k_delete
op_of_byte (suc (suc (suc zero))) = some k_get_all
op_of_byte _ = none

pub record Packet : Type 0 where
  pub payload_size : ℕ
  pub payload : Option Block

-- rocksdb::Slice{payload_.get(), payload_size_ + 4}
pub record Binary : Type 0 where
  pub bytes : Option Block
  pub size : ℕ

-- AddValue, for a uint32_t and for a char.
pub add_u32 : Block → ℕ → ℕ → Option (Block × ℕ)
add_u32 blk off v = do blk' ← store blk off (u32_bytes v); some (blk', off + 4)

pub add_char : Block → ℕ → ℕ → Option (Block × ℕ)
add_char blk off c = do blk' ← store blk off (c ∷ []); some (blk', off + 1)

-- ReadValue, for a uint32_t and for a char.
pub read_u32 : Block → ℕ → Option (ℕ × ℕ)
read_u32 blk off = do bs ← load blk off 4; some (u32_of bs, off + 4)

abbrev first_byte : List ℕ → ℕ
first_byte [] = 0
first_byte (b ∷ _) = b

pub read_char : Block → ℕ → Option (ℕ × ℕ)
read_char blk off = do bs ← load blk off 1; some (first_byte bs, off + 1)

-- AddString, and AddSlice with the same effect: the length as a uint32_t, then the bytes.
pub add_string : Block → ℕ → List ℕ → Option (Block × ℕ)
add_string blk off text = do
  (blk', at) ← add_u32 blk off (length text % u32_mod)
  blk'' ← store blk' at text
  some (blk'', at + length text)

unfoldable pub add_slice : Block → ℕ → List ℕ → Option (Block × ℕ)
add_slice blk off slice = do
  (blk', at) ← add_u32 blk off (length slice % u32_mod)
  blk'' ← store blk' at slice
  some (blk'', at + length slice)

-- ReadSlice. A slice is read as a whole (the debug log copies it), so it is its bytes.
pub read_slice : Block → ℕ → Option (List ℕ × ℕ)
read_slice blk off = do
  (size, at) ← read_u32 blk off
  bytes ← load blk at size
  some (bytes, at + size)

-- Packet(const char *buf): copy as many bytes as the first four say, plus four, in uint32_t.
pub packet_of_buf : Block → Option Packet
packet_of_buf buf = do
  (size, _) ← read_u32 buf 0
  bytes ← load buf 0 ((size + 4) % u32_mod)
  some (record { payload_size = size; payload = some bytes })

-- Packet(uint32_t payload_size, char *buf): the size is written through `buf`, null or not.
unfoldable pub packet_at : ℕ → Option Block → Option Packet
packet_at size buf = do
  blk ← buf
  (blk', _) ← add_u32 blk 0 size
  some (record { payload_size = size; payload = some blk' })

unfoldable pub to_binary : Packet → Binary
to_binary p = record { bytes = p.payload; size = (p.payload_size + 4) % u32_mod }

-- Packet::HeaderSize()
abbrev pub packet_header_size : ℕ
packet_header_size = 0

-- Packet::Payload(), as an offset from payload_.get()
abbrev pub payload_start : ℕ
payload_start = 4

release : Packet → Packet
release p = record p { payload = none }

-- if (buf != nullptr) { Packet::Release(); }
pub release_if : Option Block → Packet → Packet
unfolding release
release_if none p = p
release_if (some _) p = release p
