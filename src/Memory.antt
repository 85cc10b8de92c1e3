-- ===== src/Memory.antt =====
-- Blocks of bytes behind `char *` pointers (src/protocol/packet.cc works on them throughout).
-- A pointer into a block is an offset. An access outside the block is a fault.
pub mod Laws
use sqpkv.Prelude.{
  ℕ, zero, suc, ◌+◌, ◌*◌, ◌/◌, ◌%◌, ◌^◌, ◌<◌, Option, none, some, List, [], ◌∷◌, drop, ◌>>=◌,
}

abbrev pub Block : Type 0
Block = List ℕ

abbrev pub IsByte : ℕ → Type 0
IsByte b = b < 256

abbrev pub u32_mod : ℕ
u32_mod = 2 ^ 32

-- The four bytes of a uint32_t, lowest first.
abbrev pub u32_bytes : ℕ → List ℕ
u32_bytes n = (n % 256) ∷ (n / 256 % 256) ∷ (n / 65536 % 256) ∷ (n / 16777216 % 256) ∷ []

abbrev pub u32_of : List ℕ → ℕ
u32_of (a ∷ b ∷ c ∷ d ∷ _) = a + b * 256 + c * 65536 + d * 16777216
u32_of _ = 0

-- memcpy of `bs` over the front of a block.
pub overwrite : Block → List ℕ → Option Block
overwrite blk [] = some blk
overwrite [] (b ∷ bs) = none
overwrite (x ∷ blk) (b ∷ bs) = do rest ← overwrite blk bs; some (b ∷ rest)

-- memcpy(p, bs, size) with `p` at an offset of the block.
pub store : Block → ℕ → List ℕ → Option Block
unfolding overwrite
store blk zero bs = overwrite blk bs
store [] (suc off) bs = none
store (x ∷ blk) (suc off) bs = do rest ← store blk off bs; some (x ∷ rest)

-- The first `n` bytes of a block.
unfoldable pub read_bytes : Block → ℕ → Option (List ℕ)
read_bytes blk zero = some []
read_bytes [] (suc n) = none
read_bytes (x ∷ blk) (suc n) = do rest ← read_bytes blk n; some (x ∷ rest)

-- The `n` bytes from an offset on.
unfoldable pub load : Block → ℕ → ℕ → Option (List ℕ)
unfolding read_bytes
load blk off n = read_bytes (drop off blk) n
