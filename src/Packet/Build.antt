-- ===== src/Packet/Build.antt =====
-- The command packet constructors of src/protocol/packet.cc on a buffer: what they write.
use sqpkv.Prelude.{
  ℕ, suc, ◌+◌, ◌≤◌, ◌<◌, ◌≡◌, refl, none, some, List, [], ◌∷◌, ◌++◌, arith, append_assoc, drop,
  append_assoc, length, length-append,
}
use sqpkv.Memory.{Block, u32_mod, u32_bytes}
use sqpkv.Memory.Laws.{filled}
use native.Mathlib.Nat.{mod-eq_of_lt}
use sqpkv.Packet.{OpCode, k_get, k_put, k_delete, k_get_all, op_byte, Packet, packet_at, release_if}
use sqpkv.Packet.Cursor.{sized, add_u32-filled, add_char-filled, add_string-filled, read_slice-at}
use sqpkv.Packet.Command.{build_key, build_put}
use sqpkv.Packet.Wire.{
  Request, get, put, delete, get_all, request_payload, request_wire, packet_of, build,
}

abbrev pub released : ℕ → Packet
released size = record { payload_size = size; payload = none }

five_more : (text : List ℕ) → 5 + length text ≡ suc (suc (suc (suc (suc (length text)))))
five_more text = omega arith

put_size :
    (key value : List ℕ)
    → 9 + length key + length value ≡ suc (suc (suc (suc (suc (length (key ++ sized value))))))
put_size key value = omega (arith, length-append key (sized value))

build_key-filled :
    (op : OpCode) (text : List ℕ) (blk : Block)
    → 5 + length text < u32_mod
    → 9 + length text ≤ length blk
    → build_key op text (some blk)
      ≡ some (
        released (5 + length text),
        text,
        filled (u32_bytes (5 + length text) ++ (op_byte op ∷ sized text)) blk,
      )
unfolding build_key packet_at release_if
build_key-filled op text blk small fits = rw (mod-eq_of_lt small) (
    rw (add_u32-filled [] blk 0 refl size (omega arith)) (
      rw (add_char-filled (u32_bytes size) blk 4 refl (op_byte op) (omega arith)) (
        rw (add_string-filled (u32_bytes size ++ (op_byte op ∷ [])) blk 5 refl text (omega arith)) (
          rw (
            read_slice-at _ (u32_bytes size ++ (op_byte op ∷ [])) 5 refl text
              (drop (length (u32_bytes size ++ (op_byte op ∷ sized text))) blk) refl
              (omega arith))))))
  where
    size : ℕ
    size = 5 + length text

build_put-filled :
    (key value : List ℕ) (blk : Block)
    → 9 + length key + length value < u32_mod
    → 13 + length key + length value ≤ length blk
    → build_put key value (some blk)
      ≡ some (
        record { packet = released (9 + length key + length value); key = key; value = value },
        filled
            (u32_bytes (9 + length key + length value)
              ++ (op_byte k_put ∷ (sized key ++ sized value)))
            blk,
      )
unfolding build_put packet_at release_if
build_put-filled key value blk small fits = rw (mod-eq_of_lt small) (
    rw (add_u32-filled [] blk 0 refl size (omega arith)) (
      rw (add_char-filled (u32_bytes size) blk 4 refl (op_byte k_put) (omega arith)) (
        rw (add_string-filled front blk 5 refl key (omega arith)) (
          rw
            (add_string-filled (front ++ sized key) blk (5 + 4 + length key)
              (omega (arith, length-append (sized key) [])) value (omega arith))
            (rw
              (read_slice-at out front 5 refl key (sized value ++ rest) (simp append_assoc)
                (omega arith))
              (rw
                (read_slice-at out (front ++ sized key) (5 + 4 + length key)
                  (omega (arith, length-append (sized key) [])) value rest (simp append_assoc)
                  (omega arith))
                refl))))))
  where
    size : ℕ
    size = 9 + length key + length value

    front : List ℕ
    front = u32_bytes size ++ (op_byte k_put ∷ [])

    rest : List ℕ
    rest = drop (length (front ++ (sized key ++ sized value))) blk

    out : Block
    out = filled (front ++ (sized key ++ sized value)) blk

-- Where the buffer has room for the packet, the constructor writes the packet's format over its
-- front, leaves the rest of it, and returns the object with the slices and no block of its own. (The
-- payload's size has to fit a uint32_t.)
pub build-request_wire :
    (r : Request) (blk : Block)
    → length (request_payload r) < u32_mod
    → length (request_wire r) ≤ length blk
    → build r (some blk)
      ≡ some (packet_of (released (length (request_payload r))) r, filled (request_wire r) blk)
unfolding build packet_of request_wire
build-request_wire (get key) blk small fits =
    rw (build_key-filled k_get key blk (omega arith) (omega arith)) (rw (five_more key))
build-request_wire (put key value) blk small fits =
    rw
      (build_put-filled key value blk (omega (arith, put_size key value))
        (omega (arith, put_size key value)))
      (rw (put_size key value))
build-request_wire (delete key) blk small fits =
    rw (build_key-filled k_delete key blk (omega arith) (omega arith)) (rw (five_more key))
build-request_wire (get_all key) blk small fits =
    rw (build_key-filled k_get_all key blk (omega arith) (omega arith)) (rw (five_more key))

-- With a null buffer, the default of the `buf` argument, every constructor faults.
build-null : (r : Request) → build r none ≡ none
unfolding build build_key packet_at
build-null (get key) = refl
build-null (put key value) = refl
build-null (delete key) = refl
build-null (get_all prefix) = refl
