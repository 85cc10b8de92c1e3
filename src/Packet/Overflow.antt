-- ===== src/Packet/Overflow.antt =====
-- The command packet constructors of src/protocol/packet.cc on a buffer without room for the packet.
use sqpkv.Prelude.{
  ℕ, ◌+◌, ◌%◌, ◌≤◌, ◌<◌, ◌≡◌, refl, none, some, List, [], ◌∷◌, ◌++◌, arith, length, length-append,
}
use sqpkv.Memory.{Block, u32_mod, u32_bytes, store}
use sqpkv.Memory.Laws.{filled, store-filled_past}
use native.Mathlib.Decide.{dec_lt}
use sqpkv.Packet.{
  OpCode, op_byte, k_get, k_put, k_delete, k_get_all, packet_at, add_u32, add_char, add_string,
}
use sqpkv.Packet.Cursor.{sized, add_u32-filled, add_char-filled, add_string-filled}
use sqpkv.Packet.Command.{build_key, build_put}
use sqpkv.Packet.Wire.{Request, get, put, delete, get_all, request_wire, build}

module _ (w : List ℕ) (blk : Block) (off : ℕ) (at_end : off ≡ length w)
    (inside : length w ≤ length blk) where
  add_u32-past : (v : ℕ) → length blk < length w + 4 → add_u32 (filled w blk) off v ≡ none
  unfolding add_u32
  add_u32-past v h = rw at_end (rw (store-filled_past w (u32_bytes v) blk inside h))

  add_char-past : (c : ℕ) → length blk < length w + 1 → add_char (filled w blk) off c ≡ none
  unfolding add_char
  add_char-past c h = rw at_end (rw (store-filled_past w (c ∷ []) blk inside h))

  add_string-past :
      (text : List ℕ)
      → length blk < length w + (4 + length text)
      → add_string (filled w blk) off text ≡ none
  unfolding add_string
  add_string-past text h = elim (dec_lt (length blk) (length w + 4)) [
    | yes p ↦ rw (add_u32-past (length text % u32_mod) p)
    | no p ↦
        rw (add_u32-filled w blk off at_end (length text % u32_mod) (omega arith))
          (rw (store_past (u32_bytes (length text % u32_mod)) refl (omega arith)))
  ]
    where
      store_past :
          (q : List ℕ)
          → length q ≡ 4
          → length w + 4 ≤ length blk
          → store (filled (w ++ q) blk) (off + 4) text ≡ none
      store_past q e p =
          let e' : off + 4 ≡ length (w ++ q) = omega (arith, length-append w q) in
          rw e' (
            store-filled_past (w ++ q) text blk (omega (arith, length-append w q))
              (omega (arith, length-append w q)))

-- The size and the op code, which every constructor writes first.
module _ (blk : Block) (size op : ℕ) where
  abbrev head : List ℕ
  head = u32_bytes size ++ (op ∷ [])

  size_filled : 4 ≤ length blk → add_u32 blk 0 size ≡ some (filled (u32_bytes size) blk, 4)
  size_filled h = add_u32-filled [] blk 0 refl size h

  op_filled :
      5 ≤ length blk → add_char (filled (u32_bytes size) blk) 4 op ≡ some (filled head blk, 5)
  op_filled h = add_char-filled (u32_bytes size) blk 4 refl op h

build_key-past :
    (op : OpCode) (text : List ℕ) (blk : Block)
    → length blk < 9 + length text
    → build_key op text (some blk) ≡ none
unfolding build_key packet_at
build_key-past op text blk h = elim (dec_lt (length blk) 4) [
  | yes p ↦ rw (add_u32-past [] blk 0 refl (omega arith) size p)
  | no p ↦ rw (size_filled blk size (op_byte op) (omega arith)) (elim (dec_lt (length blk) 5) [
    | yes q ↦ rw (add_char-past (u32_bytes size) blk 4 refl (omega arith) (op_byte op) q)
    | no q ↦ rw (op_filled blk size (op_byte op) (omega arith)) (
        rw (
          add_string-past (head blk size (op_byte op)) blk 5 refl (omega arith) text (omega arith)))
  ])
]
  where
    size : ℕ
    size = (5 + length text) % u32_mod

build_put-past :
    (key value : List ℕ) (blk : Block)
    → length blk < 13 + length key + length value
    → build_put key value (some blk) ≡ none
unfolding build_put packet_at
build_put-past key value blk h = elim (dec_lt (length blk) 4) [
  | yes p ↦ rw (add_u32-past [] blk 0 refl (omega arith) size p)
  | no p ↦ rw (size_filled blk size op (omega arith)) (elim (dec_lt (length blk) 5) [
    | yes q ↦ rw (add_char-past (u32_bytes size) blk 4 refl (omega arith) op q)
    | no q ↦ rw (op_filled blk size op (omega arith)) (elim (dec_lt (length blk) (9 + length key)) [
      | yes s ↦ rw (add_string-past front blk 5 refl (omega arith) key (omega arith))
      | no s ↦ rw (add_string-filled front blk 5 refl key (omega arith)) (
          rw (
            add_string-past (front ++ sized key) blk (5 + 4 + length key)
              (omega (arith, length-append (sized key) [])) (omega (arith)) value (omega arith)))
    ])
  ])
]
  where
    size : ℕ
    size = (9 + length key + length value) % u32_mod

    op : ℕ
    op = op_byte k_put

    front : List ℕ
    front = head blk size op

-- Where the buffer is shorter than the packet, the constructor writes past its end: a fault.
pub build-request_wire_past :
    (r : Request) (blk : Block) → length blk < length (request_wire r) → build r (some blk) ≡ none
unfolding build request_wire
build-request_wire_past (get key) blk h = rw (build_key-past k_get key blk (omega arith))
build-request_wire_past (put key value) blk h =
    rw (build_put-past key value blk (omega (arith, length-append key (sized value))))
build-request_wire_past (delete key) blk h = rw (build_key-past k_delete key blk (omega arith))
build-request_wire_past (get_all prefix) blk h =
    rw (build_key-past k_get_all prefix blk (omega arith))
