-- ===== src/Packet/BuildReply.antt =====
-- The response packet constructors of src/protocol/packet.cc on a buffer: what they write.
use sqpkv.Prelude.{
  ℕ, ◌+◌, ◌%◌, ◌≤◌, ◌<◌, ◌≡◌, refl, ◌∙◌, none, some, List, [], ◌∷◌, ◌++◌, arith, append_assoc, drop,
  length, length-append,
}
use native.Mathlib.Nat.{mod-eq_of_lt}
use sqpkv.Memory.{Block, u32_mod, u32_bytes}
use sqpkv.Memory.Laws.{filled}
use sqpkv.Status.{Status, code_byte, default_status}
use sqpkv.Packet.{OpCode, op_byte, k_get, k_put, k_get_all, packet_at, release_if}
use sqpkv.Packet.Cursor.{
  sized, sized_all, add_u32-filled, add_char-filled, add_string-filled, read_u32-at,
}
use sqpkv.Packet.Strings.{sum_sizes-eq, add_strings-filled, read_slices-at, length-le-sized_all}
use sqpkv.Packet.Response.{
  ResponsePacket, GetAllResponsePacket, response_at, build_get_response, build_put_response,
  build_delete_response, build_get_all_response,
}
use sqpkv.Packet.Reply.{
  Reply, get, put, delete, get_all, status_part, reply_size, reply_wire, built_as, build_reply,
}
use sqpkv.Packet.Build.{released}

abbrev front : ℕ → OpCode → Status → List ℕ
front size op s = u32_bytes size ++ (op_byte op ∷ status_part s)

abbrev headed : ℕ → OpCode → Status → Block → ResponsePacket
headed size op s blk = record {
  packet = record { payload_size = size; payload = some (filled (front size op s) blk) };
  status = default_status;
  extra_header_size = 6 + length s.message;
}

response_at-filled :
    (size : ℕ) (op : OpCode) (s : Status) (blk : Block)
    → 6 + length s.message < u32_mod
    → 10 + length s.message ≤ length blk
    → response_at size op s (some blk) ≡ some (headed size op s blk)
unfolding response_at packet_at
response_at-filled size op s blk small fits = rw (mod-eq_of_lt small) (
    rw (add_u32-filled [] blk 0 refl size (omega arith)) (
      rw (add_char-filled (u32_bytes size) blk 4 refl (op_byte op) (omega arith)) (
        rw
          (add_char-filled (u32_bytes size ++ (op_byte op ∷ [])) blk 5 refl (code_byte s.code)
            (omega arith))
          (rw (
            add_string-filled (u32_bytes size ++ (op_byte op ∷ code_byte s.code ∷ [])) blk 6 refl
              s.message (omega arith))))))

get_size :
    (s : Status) (value : List ℕ)
    → 10 + length s.message + length value ≡ length (op_byte k_get ∷ (status_part s ++ sized value))
get_size s value = omega (arith, length-append s.message (sized value))

six_more : (s : Status) → 6 + length s.message ≡ length (op_byte k_put ∷ status_part s)
six_more s = omega arith

get_all_size :
    (s : Status) (keys : List (List ℕ))
    → 10 + length s.message + length (sized_all keys)
      ≡ length (op_byte k_get_all ∷ (status_part s ++ (u32_bytes (length keys) ++ sized_all keys)))
get_all_size s keys =
    omega (arith, length-append s.message (u32_bytes (length keys) ++ sized_all keys))

build_get_response-filled :
    (s : Status) (value : List ℕ) (blk : Block)
    → 10 + length s.message + length value < u32_mod
    → 14 + length s.message + length value ≤ length blk
    → build_get_response s value (some blk)
      ≡ some (
        record {
          response = record {
            packet = released (10 + length s.message + length value);
            status = default_status;
            extra_header_size = 6 + length s.message;
          };
          value = [];
        },
        filled (front (10 + length s.message + length value) k_get s ++ sized value) blk,
      )
unfolding build_get_response release_if
build_get_response-filled s value blk small fits = rw (mod-eq_of_lt small) (
    rw (response_at-filled size k_get s blk (omega arith) (omega arith)) (
      rw (
        add_string-filled (front size k_get s) blk (4 + (6 + length s.message)) (omega arith) value
          (omega arith))))
  where
    size : ℕ
    size = 10 + length s.message + length value

build_put_response-filled :
    (s : Status) (blk : Block)
    → 6 + length s.message < u32_mod
    → 10 + length s.message ≤ length blk
    → build_put_response s (some blk)
      ≡ some (
        record {
          response = record {
            packet = released (6 + length s.message);
            status = default_status;
            extra_header_size = 6 + length s.message;
          };
        },
        filled (front (6 + length s.message) k_put s) blk,
      )
unfolding build_put_response release_if
build_put_response-filled s blk small fits =
    rw (response_at-filled ((6 + length s.message) % u32_mod) k_put s blk small fits)
      (rw (mod-eq_of_lt small))

build_delete_response-filled :
    (s : Status) (blk : Block)
    → 6 + length s.message < u32_mod
    → 10 + length s.message ≤ length blk
    → build_delete_response s (some blk)
      ≡ some (
        record {
          response = record {
            packet = released (6 + length s.message);
            status = default_status;
            extra_header_size = 6 + length s.message;
          };
        },
        filled (front (6 + length s.message) k_put s) blk,
      )
unfolding build_delete_response release_if
build_delete_response-filled s blk small fits =
    rw (response_at-filled ((6 + length s.message) % u32_mod) k_put s blk small fits)
      (rw (mod-eq_of_lt small))

build_get_all_response-filled :
    (s : Status) (keys : List (List ℕ)) (blk : Block)
    → 14 + length (sized_all keys) < u32_mod
    → 6 + length s.message < u32_mod
    → 14 + length s.message + length (sized_all keys) ≤ length blk
    → build_get_all_response s keys (some blk)
      ≡ some (
        record {
          response = record {
            packet = released (14 + length (sized_all keys));
            status = default_status;
            extra_header_size = 6 + length s.message;
          };
          keys = keys;
        },
        filled
            (front (14 + length (sized_all keys)) k_get_all s
              ++ (u32_bytes (length keys) ++ sized_all keys))
            blk,
      )
unfolding build_get_all_response release_if
build_get_all_response-filled s keys blk small short fits = rw (sum_sizes-eq keys (omega arith)) (
    rw (mod-eq_of_lt small) (
      rw (response_at-filled size k_get_all s blk (omega arith) (omega arith)) (
        rw count (
          rw (add_u32-filled head blk at head_end (length keys) (omega arith)) (
            rw
              (add_strings-filled (head ++ u32_bytes (length keys)) blk (at + 4) keys
                (omega (arith, length-append head (u32_bytes (length keys))))
                (omega (arith, length-append head (u32_bytes (length keys)))))
              (rw
                (read_u32-at out head at head_end (length keys) (sized_all keys ++ rest) first
                  (omega (arith, length-le-sized_all keys)))
                (rw
                  (read_slices-at out (head ++ u32_bytes (length keys)) rest (at + 4) keys
                    (omega (arith, length-append head (u32_bytes (length keys)))) second
                    (omega arith))
                  (λ i. some (
                    result,
                    filled (append_assoc head (u32_bytes (length keys)) (sized_all keys) i) blk,
                  )))))))))
  where
    size : ℕ
    size = 14 + length (sized_all keys)

    head : List ℕ
    head = front size k_get_all s

    at : ℕ
    at = 4 + (6 + length s.message)

    head_end : at ≡ length head
    head_end = omega arith

    count : length keys % u32_mod ≡ length keys
    count = omega (arith, length-le-sized_all keys)

    out : Block
    out = filled ((head ++ u32_bytes (length keys)) ++ sized_all keys) blk

    rest : List ℕ
    rest = drop (length ((head ++ u32_bytes (length keys)) ++ sized_all keys)) blk

    second : out ≡ (head ++ u32_bytes (length keys)) ++ (sized_all keys ++ rest)
    second = append_assoc (head ++ u32_bytes (length keys)) (sized_all keys) rest

    first : out ≡ head ++ (u32_bytes (length keys) ++ (sized_all keys ++ rest))
    first = second ∙ append_assoc head (u32_bytes (length keys)) (sized_all keys ++ rest)

    result : GetAllResponsePacket
    result = record {
      response = record {
        packet = released size;
        status = default_status;
        extra_header_size = 6 + length s.message;
      };
      keys = keys;
    }

-- Where the buffer has room for what a response constructor writes, and the sizes fit a uint32_t, the
-- constructor writes the reply's format over the front of the buffer and leaves the rest of it.
pub build_reply-reply_wire :
    (r : Reply) (blk : Block)
    → reply_size r < u32_mod
    → length (reply_wire r) < u32_mod
    → length (reply_wire r) ≤ length blk
    → build_reply r (some blk)
      ≡ some (built_as (released (reply_size r)) r, filled (reply_wire r) blk)
unfolding build_reply built_as reply_wire
build_reply-reply_wire (get s value) blk small short fits =
    rw
      (build_get_response-filled s value blk (omega (arith, get_size s value))
        (omega (arith, get_size s value)))
      (rw (get_size s value))
build_reply-reply_wire (put s) blk small short fits =
    rw (build_put_response-filled s blk (omega arith) (omega arith)) (rw (six_more s))
build_reply-reply_wire (delete s) blk small short fits =
    rw (build_delete_response-filled s blk (omega arith) (omega arith)) (rw (six_more s))
build_reply-reply_wire (get_all s keys) blk small short fits = rw (
    build_get_all_response-filled s keys blk small (omega (arith, get_all_size s keys))
      (omega (arith, get_all_size s keys)))

-- With a null buffer, the default of the `buf` argument, every response constructor faults.
build_reply-null : (r : Reply) → build_reply r none ≡ none
unfolding build_reply build_get_response build_put_response build_delete_response
    build_get_all_response packet_at
build_reply-null (get s value) = refl
build_reply-null (put s) = refl
build_reply-null (delete s) = refl
build_reply-null (get_all s keys) = refl
