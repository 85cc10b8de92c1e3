-- ===== src/Packet/Strings.antt =====
-- The loops of GetAllResponsePacket (src/protocol/packet.cc) over its keys.
use sqpkv.Prelude.{
  ℕ, ◌+◌, ◌*◌, ◌%◌, ◌≤◌, ◌<◌, ◌≡◌, refl, sym, ap, ◌∙◌, some, List, [], ◌∷◌, ◌++◌, arith,
  append_assoc, append-nil, length, length-append,
}
use native.Mathlib.Nat.{add-zero}
use sqpkv.Memory.{Block, u32_mod}
use sqpkv.Memory.Laws.{filled}
use sqpkv.Packet.Cursor.{sized, sized_all, add_string-filled, read_slice-at}
use sqpkv.Packet.Response.{sum_sizes_from, sum_sizes, add_strings, read_slices}

sum_sizes_from-eq :
    (sum : ℕ) (keys : List (List ℕ))
    → sum + length (sized_all keys) < u32_mod
    → sum_sizes_from sum keys ≡ sum + length (sized_all keys)
unfolding sum_sizes_from
sum_sizes_from-eq sum [] h = omega arith
sum_sizes_from-eq sum (key ∷ keys) h =
    rw wrap
      (omega (arith, grown, sum_sizes_from-eq (sum + (4 + length key)) keys (omega (arith, grown))))
  where
    grown : length (sized_all (key ∷ keys)) ≡ 4 + length key + length (sized_all keys)
    grown = omega (arith, length-append key (sized_all keys))

    wrap : (sum + (4 + length key)) % u32_mod ≡ sum + (4 + length key)
    wrap = omega (arith, grown)

-- SumSizes is the length of what the loop over the keys writes, unless it wraps.
pub sum_sizes-eq :
    (keys : List (List ℕ))
    → length (sized_all keys) < u32_mod
    → sum_sizes keys ≡ length (sized_all keys)
unfolding sum_sizes
sum_sizes-eq keys h = omega (arith, sum_sizes_from-eq 0 keys (omega arith))

pub add_strings-filled :
    (w : List ℕ) (blk : Block) (off : ℕ) (keys : List (List ℕ))
    → off ≡ length w
    → length w + length (sized_all keys) ≤ length blk
    → add_strings (filled w blk) off keys
      ≡ some (filled (w ++ sized_all keys) blk, off + length (sized_all keys))
unfolding add_strings
add_strings-filled w blk off [] e h = rw (append-nil, add-zero)
add_strings-filled w blk off (key ∷ keys) e h =
    rw (add_string-filled w blk off e key (omega (arith, grown))) (
      add_strings-filled (w ++ sized key) blk (off + 4 + length key) keys
        (omega (arith, length-append w (sized key)))
        (omega (arith, grown, length-append w (sized key)))
      ∙ λ i. some (filled (append_assoc w (sized key) (sized_all keys) i) blk, same i))
  where
    grown : length (sized_all (key ∷ keys)) ≡ 4 + length key + length (sized_all keys)
    grown = omega (arith, length-append key (sized_all keys))

    same : off + 4 + length key + length (sized_all keys) ≡ off + length (sized_all (key ∷ keys))
    same = omega (arith, grown)

pub read_slices-at :
    (blk w rest : List ℕ) (off : ℕ) (keys : List (List ℕ))
    → off ≡ length w
    → blk ≡ w ++ (sized_all keys ++ rest)
    → length (sized_all keys) < u32_mod
    → read_slices blk off (length keys) ≡ some keys
unfolding read_slices
read_slices-at blk w rest off [] e f h = refl
read_slices-at blk w rest off (key ∷ keys) e f h =
    rw (read_slice-at blk w off e key (sized_all keys ++ rest) first (omega (arith, grown))) (
      rw (
        read_slices-at blk (w ++ sized key) rest (off + 4 + length key) keys
          (omega (arith, length-append w (sized key))) second (omega (arith, grown))))
  where
    grown : length (sized_all (key ∷ keys)) ≡ 4 + length key + length (sized_all keys)
    grown = omega (arith, length-append key (sized_all keys))

    first : blk ≡ w ++ (sized key ++ (sized_all keys ++ rest))
    first = f ∙ ap (λ (t : List ℕ). w ++ t) (append_assoc (sized key) (sized_all keys) rest)

    second : blk ≡ (w ++ sized key) ++ (sized_all keys ++ rest)
    second = first ∙ sym (append_assoc w (sized key) (sized_all keys ++ rest))

pub length-le-sized_all : (keys : List (List ℕ)) → 4 * length keys ≤ length (sized_all keys)
length-le-sized_all [] = omega arith
length-le-sized_all (key ∷ keys) =
    omega (arith, length-append key (sized_all keys), length-le-sized_all keys)
