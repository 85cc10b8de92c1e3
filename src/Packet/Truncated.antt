-- ===== src/Packet/Truncated.antt =====
-- CommandPacketFactory of src/protocol/packet.cc on a front part of a packet.
use sqpkv.Prelude.{
  ℕ, zero, suc, ◌+◌, ◌≤◌, ◌<◌, ◌≡◌, refl, inl, none, some, List, ◌∷◌, ◌++◌, arith, length, take,
  length-take,
}
use sqpkv.Memory.{Block, u32_mod, u32_bytes}
use sqpkv.Memory.Laws.{load_outside, u32_of-bytes}
use sqpkv.Packet.{OpCode, op_of_byte, op_byte, k_get, k_put, k_delete, k_get_all, read_char}
use sqpkv.Packet.Cursor.{sized}
use sqpkv.Packet.Wire.{Request, get, put, delete, get_all, request_payload, request_wire}
use sqpkv.Packet.Factory.{create_command_packet}
use sqpkv.Packet.Reject.{create_command_packet-unchecked}

no_op_code : (blk : Block) → length blk ≤ 4 → create_command_packet blk ≡ none
unfolding create_command_packet read_char
no_op_code blk h = rw (load_outside blk 4 0 (omega arith)) refl

-- A part of a packet with a header, of five bytes or more
cut_behind_op :
    (op : ℕ) (code : OpCode) (rest : List ℕ) (m : ℕ)
    → op_of_byte op ≡ some code
    → suc (length rest) + 4 < u32_mod
    → m < length rest
    → create_command_packet
        (take (suc (suc (suc (suc (suc m))))) (u32_bytes (suc (length rest)) ++ (op ∷ rest)))
      ≡ none
cut_behind_op op code rest m e small short =
    create_command_packet-unchecked _ _ _ _ op (take m rest) code e
      (omega arith, (omega arith, (omega arith, (omega arith, tt))))
      (inl (
        let known = u32_of-bytes (suc (length rest)) (op ∷ take m rest) (omega arith) in
        omega (arith, known, length-take m rest)))

cut_packet :
    (op : ℕ) (code : OpCode) (rest : List ℕ) (n : ℕ)
    → op_of_byte op ≡ some code
    → suc (length rest) + 4 < u32_mod
    → n < 5 + length rest
    → create_command_packet (take n (sized (op ∷ rest))) ≡ none
cut_packet op code rest zero e small short =
    no_op_code _ (omega (arith, length-take zero (sized (op ∷ rest))))
cut_packet op code rest (suc zero) e small short =
    no_op_code _ (omega (arith, length-take 1 (sized (op ∷ rest))))
cut_packet op code rest (suc (suc zero)) e small short =
    no_op_code _ (omega (arith, length-take 2 (sized (op ∷ rest))))
cut_packet op code rest (suc (suc (suc zero))) e small short =
    no_op_code _ (omega (arith, length-take 3 (sized (op ∷ rest))))
cut_packet op code rest (suc (suc (suc (suc zero)))) e small short =
    no_op_code _ (omega (arith, length-take 4 (sized (op ∷ rest))))
cut_packet op code rest (suc (suc (suc (suc (suc m))))) e small short =
    cut_behind_op op code rest m e small (omega arith)

-- No front part of a request in the packet format that lacks a byte is a packet for the factory: it faults.
-- (The payload and four bytes fit a uint32_t.)
pub create_command_packet-truncated :
    (r : Request) (n : ℕ)
    → n < length (request_wire r)
    → length (request_payload r) + 4 < u32_mod
    → create_command_packet (take n (request_wire r)) ≡ none
unfolding request_wire request_payload op_byte op_of_byte
create_command_packet-truncated (get key) n h small =
    cut_packet _ k_get (sized key) n refl (omega (arith, small)) (omega (arith, h))
create_command_packet-truncated (put key value) n h small =
    cut_packet _ k_put (sized key ++ sized value) n refl (omega (arith, small)) (omega (arith, h))
create_command_packet-truncated (delete key) n h small =
    cut_packet _ k_delete (sized key) n refl (omega (arith, small)) (omega (arith, h))
create_command_packet-truncated (get_all prefix) n h small =
    cut_packet _ k_get_all (sized prefix) n refl (omega (arith, small)) (omega (arith, h))
