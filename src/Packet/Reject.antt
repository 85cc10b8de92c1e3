-- ===== src/Packet/Reject.antt =====
-- CommandPacketFactory of src/protocol/packet.cc on bytes that are no packet: the declared size is
-- not checked against what was received, and an unknown op code gives a null pointer.
use sqpkv.Prelude.{
  ℕ, zero, suc, All, ◌+◌, ◌%◌, ◌≤◌, ◌<◌, ◌≡◌, ◌⊎◌, inl, inr, refl, none, some, List, [], ◌∷◌, arith,
  length, Option-cases,
}
use sqpkv.Memory.{Block, IsByte, u32_mod, u32_of, load, read_bytes}
use sqpkv.Memory.Laws.{read_bytes_past, load_outside, length-read_bytes}
use sqpkv.Packet.{
  OpCode, op_of_byte, k_get, k_put, k_delete, k_get_all, packet_of_buf, read_u32, read_char,
  read_slice,
}
use sqpkv.Packet.Command.{key_of_buf, get_of_buf, put_of_buf, delete_of_buf, get_all_of_buf}
use sqpkv.Packet.Factory.{create_command_packet, make_command}

-- The size that the first four bytes declare.
abbrev declared : Block → ℕ
declared buf = u32_of buf

-- A header of five bytes, the last of them the op code, before the rest.
module _ (a b c d op : ℕ) (rest : List ℕ) where
  abbrev pub headed : Block
  headed = a ∷ b ∷ c ∷ d ∷ op ∷ rest

  declared_read : read_u32 headed 0 ≡ some (declared headed, 4)
  unfolding read_u32 load
  declared_read = refl

  copied : ℕ
  copied = (declared headed + 4) % u32_mod

  -- The copy reads past the received bytes, or it wraps around to less than four bytes.
  copy-cases :
      (length headed < declared headed + 4) ⊎ (u32_mod ≤ declared headed + 4)
      → declared headed < u32_mod
      → (length headed < copied) ⊎ (copied < 4)
  unfolding copied
  copy-cases h g = omega arith

  packet_of_buf-cases :
      (length headed < declared headed + 4) ⊎ (u32_mod ≤ declared headed + 4)
      → declared headed < u32_mod
      → (packet_of_buf headed ≡ none)
        ⊎ ((bs : List ℕ) × (packet_of_buf headed
              ≡ some (record { payload_size = declared headed; payload = some bs }))
            × (length bs < 4))
  unfolding packet_of_buf copied
  packet_of_buf-cases h g = elim (copy-cases h g) [
    | inl past ↦ inl (rw declared_read (rw (load_none past)))
    | inr few ↦ elim (Option-cases (load headed 0 copied)) [
      | inl e ↦ inl (rw declared_read (rw e))
      | inr (bs, e) ↦ inr (bs, rw declared_read (rw e), fewer few bs e)
    ]
  ]
    where
      load_none : length headed < copied → load headed 0 copied ≡ none
      load_none past = unfold load in read_bytes_past headed copied past

      fewer : copied < 4 → (bs : List ℕ) → load headed 0 copied ≡ some bs → length bs < 4
      fewer few bs e = unfold load in omega (arith, length-read_bytes headed copied e)

  op_at_four : read_char headed 4 ≡ some (op, 5)
  unfolding read_char load read_bytes
  op_at_four = refl

slice_outside : (bs : List ℕ) → length bs < 4 → read_slice bs 5 ≡ none
unfolding read_slice read_u32
slice_outside bs h = rw (load_outside bs 5 3 (omega arith))

module _ (buf : Block) where
  NoBase : Type 0
  NoBase =
      (packet_of_buf buf ≡ none)
      ⊎ ((size : ℕ) × (bs : List ℕ) × (packet_of_buf buf
            ≡ some (record { payload_size = size; payload = some bs }))
          × (length bs < 4))

  key_of_buf-none : NoBase → key_of_buf buf ≡ none
  unfolding key_of_buf NoBase
  key_of_buf-none (inl e) = rw e
  key_of_buf-none (inr (size, bs, e, few)) = rw e (rw (slice_outside bs few))

  put_of_buf-none : NoBase → put_of_buf buf ≡ none
  unfolding put_of_buf NoBase
  put_of_buf-none (inl e) = rw e
  put_of_buf-none (inr (size, bs, e, few)) = rw e (rw (slice_outside bs few))

  make_command-none : (op : OpCode) → NoBase → make_command (some op) buf ≡ none
  unfolding make_command get_of_buf delete_of_buf get_all_of_buf
  make_command-none k_get h = rw (key_of_buf-none h)
  make_command-none k_put h = rw (put_of_buf-none h)
  make_command-none k_delete h = rw (key_of_buf-none h)
  make_command-none k_get_all h = rw (key_of_buf-none h)

-- A command of a known op code whose declared size does not fit what was received, or wraps around in uint32_t with the
-- four bytes of the header added, is not refused: the factory faults.
pub create_command_packet-unchecked :
    (a b c d op : ℕ) (rest : List ℕ) (code : OpCode)
    → op_of_byte op ≡ some code
    → All IsByte (a ∷ b ∷ c ∷ d ∷ [])
    → (length (headed a b c d op rest) < declared (headed a b c d op rest) + 4)
      ⊎ (u32_mod ≤ declared (headed a b c d op rest) + 4)
    → create_command_packet (headed a b c d op rest) ≡ none
unfolding create_command_packet
create_command_packet-unchecked a b c d op rest code e g h =
    rw (op_at_four a b c d op rest) (rw e (make_command-none (headed a b c d op rest) code base))
  where
    base : NoBase (headed a b c d op rest)
    base =
        unfold NoBase in
        elim (packet_of_buf-cases a b c d op rest h (omega arith)) [
          | inl none_read ↦ inl none_read
          | inr (bs, read, few) ↦ inr (declared (headed a b c d op rest), bs, read, few)
        ]

op_of_byte-none : (op : ℕ) → 3 < op → op_of_byte op ≡ none
unfolding op_of_byte
op_of_byte-none zero h = absurd (omega arith)
op_of_byte-none (suc zero) h = absurd (omega arith)
op_of_byte-none (suc (suc zero)) h = absurd (omega arith)
op_of_byte-none (suc (suc (suc zero))) h = absurd (omega arith)
op_of_byte-none (suc (suc (suc (suc n)))) h = refl

-- A byte that names no op code gives the null pointer, whatever the rest of the packet is.
create_command_packet-unknown :
    (a b c d op : ℕ) (rest : List ℕ)
    → 3 < op
    → create_command_packet (headed a b c d op rest) ≡ some none
unfolding create_command_packet make_command op_of_byte
create_command_packet-unknown a b c d op rest h =
    rw (op_at_four a b c d op rest) (rw (op_of_byte-none op h))
