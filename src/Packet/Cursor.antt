-- ===== src/Packet/Cursor.antt =====
-- The readers and writers of src/protocol/packet.cc on a block that is filled from the front, and the
-- byte sequences that they read and write.
use sqpkv.Prelude.{
  ℕ, ◌+◌, ◌%◌, ◌≤◌, ◌<◌, ◌≡◌, refl, ap, some, List, [], ◌∷◌, ◌++◌, arith, length, length-append,
  append_assoc,
}
use sqpkv.Memory.{Block, u32_mod, u32_bytes, store, load}
use sqpkv.Memory.Laws.{filled, store-filled, load-append, u32_of-bytes}
use sqpkv.Packet.{add_u32, add_char, add_string, read_u32, read_char, read_slice}

-- A string on the wire: its length in four bytes, then its bytes.
abbrev pub sized : List ℕ → List ℕ
sized text = u32_bytes (length text) ++ text

abbrev pub sized_all : List (List ℕ) → List ℕ
sized_all [] = []
sized_all (key ∷ keys) = sized key ++ sized_all keys

-- The low 32 bits have the same four bytes.
u32_bytes-mod : (n : ℕ) → u32_bytes (n % u32_mod) ≡ u32_bytes n
u32_bytes-mod n = ground arith

module _ (w : List ℕ) (blk : Block) (off : ℕ) (at_end : off ≡ length w) where
  store-behind :
      (q text : List ℕ)
      → length q ≡ 4
      → length w + (4 + length text) ≤ length blk
      → store (filled (w ++ q) blk) (off + 4) text ≡ some (filled (w ++ (q ++ text)) blk)
  store-behind q text e h = rw (append_end) (
      rw (store-filled (w ++ q) text blk (omega (arith, length-append w q)))
        (ap (λ (t : List ℕ). some (filled t blk)) (append_assoc w q text)))
    where
      append_end : off + 4 ≡ length (w ++ q)
      append_end = omega (arith, length-append w q)

  pub add_u32-filled :
      (v : ℕ)
      → length w + 4 ≤ length blk
      → add_u32 (filled w blk) off v ≡ some (filled (w ++ u32_bytes v) blk, off + 4)
  unfolding add_u32
  add_u32-filled v h = rw at_end (rw (store-filled w (u32_bytes v) blk h))

  pub add_char-filled :
      (c : ℕ)
      → length w + 1 ≤ length blk
      → add_char (filled w blk) off c ≡ some (filled (w ++ (c ∷ [])) blk, off + 1)
  unfolding add_char
  add_char-filled c h = rw at_end (rw (store-filled w (c ∷ []) blk h))

  pub add_string-filled :
      (text : List ℕ)
      → length w + (4 + length text) ≤ length blk
      → add_string (filled w blk) off text
        ≡ some (filled (w ++ sized text) blk, off + 4 + length text)
  unfolding add_string
  add_string-filled text h = rw (add_u32-filled (length text % u32_mod) (omega arith)) (
      rw (store-behind (u32_bytes (length text % u32_mod)) text refl h) (
        ap (λ (q : List ℕ). some (filled (w ++ (q ++ text)) blk, off + 4 + length text))
          (u32_bytes-mod (length text))))

module _ (blk w : List ℕ) (off : ℕ) (at_end : off ≡ length w) where
  load-behind :
      (q text rest : List ℕ)
      → length q ≡ 4
      → load (w ++ ((q ++ text) ++ rest)) (off + 4) (length text) ≡ some text
  load-behind q text rest e = rw (append_end) (rw (regroup) (load-append (w ++ q) text rest))
    where
      append_end : off + 4 ≡ length (w ++ q)
      append_end = omega (arith, length-append w q)

      regroup : w ++ ((q ++ text) ++ rest) ≡ (w ++ q) ++ (text ++ rest)
      regroup = simp append_assoc

  pub read_u32-at :
      (v : ℕ) (rest : List ℕ)
      → blk ≡ w ++ (u32_bytes v ++ rest)
      → v < u32_mod
      → read_u32 blk off ≡ some (v, off + 4)
  unfolding read_u32
  read_u32-at v rest e h =
      rw (e, at_end) (rw (load-append w (u32_bytes v) rest, u32_of-bytes v [] h))

  pub read_char-at :
      (c : ℕ) (rest : List ℕ) → blk ≡ w ++ (c ∷ rest) → read_char blk off ≡ some (c, off + 1)
  unfolding read_char
  read_char-at c rest e = rw (e, at_end) (rw (load-append w (c ∷ []) rest))

  pub read_slice-at :
      (text rest : List ℕ)
      → blk ≡ w ++ (sized text ++ rest)
      → length text < u32_mod
      → read_slice blk off ≡ some (text, off + 4 + length text)
  unfolding read_slice
  read_slice-at text rest e h =
      rw (read_u32-at (length text) (text ++ rest) e h)
        (rw e (rw (load-behind (u32_bytes (length text)) text rest refl)))
