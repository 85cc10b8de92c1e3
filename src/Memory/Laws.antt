-- ===== src/Memory/Laws.antt =====
-- What the accesses of `Memory` do on a block that is filled from the front.
use sqpkv.Prelude.{
  ℕ, zero, suc, ◌+◌, ◌≤◌, ◌<◌, ◌≡◌, refl, none, some, List, [], ◌∷◌, ◌++◌, arith, length,
  length-drop, drop, drop-append, Option-cases, inl, inr,
}
use sqpkv.Memory.{Block, u32_mod, u32_bytes, u32_of, overwrite, store, read_bytes, load}

-- The block `blk` with `w` written over its front.
abbrev pub filled : List ℕ → Block → Block
filled w blk = w ++ drop (length w) blk

overwrite_fits :
    (blk : Block) (bs : List ℕ) → length bs ≤ length blk → overwrite blk bs ≡ some (filled bs blk)
unfolding overwrite
overwrite_fits blk [] h = refl
overwrite_fits [] (b ∷ bs) h = absurd (omega arith)
overwrite_fits (x ∷ blk) (b ∷ bs) h = rw (overwrite_fits blk bs (omega arith))

overwrite_past : (blk : Block) (bs : List ℕ) → length blk < length bs → overwrite blk bs ≡ none
unfolding overwrite
overwrite_past blk [] h = absurd (omega arith)
overwrite_past [] (b ∷ bs) h = refl
overwrite_past (x ∷ blk) (b ∷ bs) h = rw (overwrite_past blk bs (omega arith))

-- The next bytes go behind what is filled already.
pub store-filled :
    (w bs : List ℕ) (blk : Block)
    → length w + length bs ≤ length blk
    → store (filled w blk) (length w) bs ≡ some (filled (w ++ bs) blk)
unfolding store
store-filled [] bs blk h = overwrite_fits blk bs (omega arith)
store-filled (x ∷ w) bs [] h = absurd (omega arith)
store-filled (x ∷ w) bs (y ∷ blk) h = rw (store-filled w bs blk (omega arith))

pub store-filled_past :
    (w bs : List ℕ) (blk : Block)
    → length w ≤ length blk
    → length blk < length w + length bs
    → store (filled w blk) (length w) bs ≡ none
unfolding store
store-filled_past [] bs blk g h = overwrite_past blk bs (omega arith)
store-filled_past (x ∷ w) bs [] g h = absurd (omega arith)
store-filled_past (x ∷ w) bs (y ∷ blk) g h =
    rw (store-filled_past w bs blk (omega arith) (omega arith))

read_bytes-append : (bs rest : List ℕ) → read_bytes (bs ++ rest) (length bs) ≡ some bs
unfolding read_bytes
read_bytes-append [] rest = refl
read_bytes-append (x ∷ bs) rest = rw (read_bytes-append bs rest)

pub read_bytes_past : (bs : List ℕ) (n : ℕ) → length bs < n → read_bytes bs n ≡ none
unfolding read_bytes
read_bytes_past bs zero h = elim h [ ]
read_bytes_past [] (suc n) h = refl
read_bytes_past (x ∷ bs) (suc n) h = rw (read_bytes_past bs n (omega arith))

pub load-append : (w bs rest : List ℕ) → load (w ++ (bs ++ rest)) (length w) (length bs) ≡ some bs
unfolding load
load-append w bs rest = rw drop-append (read_bytes-append bs rest)

pub u32_of-bytes : (n : ℕ) (rest : List ℕ) → n < u32_mod → u32_of (u32_bytes n ++ rest) ≡ n
u32_of-bytes n rest h = omega arith

-- Past the end there is nothing to read but the empty string.
pub load_outside :
    (blk : Block) (off n : ℕ) → length blk < off + suc n → load blk off (suc n) ≡ none
unfolding load
load_outside blk off n h =
    read_bytes_past (drop off blk) (suc n) (omega (arith, length-drop off blk))

pub length-read_bytes :
    (blk : Block) (n : ℕ) {bs : List ℕ} → read_bytes blk n ≡ some bs → length bs ≡ n
unfolding read_bytes
length-read_bytes blk zero h = ground arith
length-read_bytes [] (suc n) h = cc
length-read_bytes (x ∷ blk) (suc n) {bs} h = elim (Option-cases (read_bytes blk n)) [
  | inl e ↦ cc (rw e at h)
  | inr (r, e) ↦ ground (arith, e, h, length-read_bytes blk n e)
]
