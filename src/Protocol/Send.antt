-- ===== src/Protocol/Send.antt =====
-- SendPacket of src/protocol/protocol.cc: what it puts on the wire.
use sqpkv.Prelude.{
  ℕ, zero, suc, ◌+◌, ◌-◌, ◌%◌, ◌≤◌, ◌<◌, ◌≡◌, ◌⊎◌, inl, inr, refl, sym, ap, ◌∙◌, true, false,
  Option, some, List, [], ◌∷◌, ◌++◌, arith, append_assoc, append-nil, length, take, drop,
  length-append, length-take, length-drop, take-append-drop, lt→leb, le→leb, ◌>>=◌,
}
use native.Mathlib.Decide.{dec_lt}
use sqpkv.Memory.{u32_mod, load}
use sqpkv.Sockets.{Sockets, WriteResult, write_failed, wrote}
use sqpkv.Sockets.Laws.{WriteLaws}
use sqpkv.Status.{Status, err_errno, is_ok, is_err}
use sqpkv.Packet.{to_binary}
use sqpkv.Protocol.{
  max_net_packet_size, log_binary, not_written, write_status, send_loop, send_slice, send_packet,
}
use sqpkv.Protocol.Frame.{
  frame, frame-append, frame_short, load_exact, load_chunk, not_zero, nil_of_length,
}

module _ (S : Sockets) (L : WriteLaws S) (sock : ℕ) where
  -- What a call left: it returned, and the bytes are on the wire or the status is an error.
  abbrev pub Delivers : List ℕ → Sockets.World S → Option (Status × Sockets.World S) → Type 0
  Delivers bytes w r =
      (s : Status) × (w' : Sockets.World S) × (r ≡ some (s, w'))
      × (((is_ok s ≡ true) × (L.sent w' sock ≡ L.sent w sock ++ bytes)) ⊎ (is_err s ≡ true))

  pub write-cases :
      (w : Sockets.World S) (bs : List ℕ)
      → (not_written (S.write w sock bs).0 ≡ true)
        ⊎ ((not_written (S.write w sock bs).0 ≡ false)
            × (L.sent (S.write w sock bs).1 sock ≡ L.sent w sock ++ bs))
  write-cases w bs = go (S.write w sock bs).0 (S.write w sock bs).1 refl
    where
      go :
          (r : WriteResult) (w' : Sockets.World S)
          → S.write w sock bs ≡ (r, w')
          → (not_written r ≡ true)
            ⊎ ((not_written r ≡ false) × (L.sent w' sock ≡ L.sent w sock ++ bs))
      go write_failed w' e = inl refl
      go (wrote zero) w' e = inl refl
      go (wrote (suc n)) w' e = inr (ground arith, L.sent-write w sock bs (suc n) w' e)

  -- The last write of the loop.
  last_write :
      (w : Sockets.World S) (bs : List ℕ)
      → Delivers bs w
          (some (write_status S (S.write w sock bs).0 (S.write w sock bs).1, (S.write w sock bs).1))
  unfolding is_ok is_err
  last_write w bs = elim (write-cases w bs) [
    | inl e ↦ (
      write_status S (S.write w sock bs).0 (S.write w sock bs).1,
      (S.write w sock bs).1,
      refl,
      inr (rw e),
    )
    | inr p ↦ (
      write_status S (S.write w sock bs).0 (S.write w sock bs).1,
      (S.write w sock bs).1,
      refl,
      inl (rw p.0, p.1),
    )
  ]

  -- The three ways that a round goes.
  module _ (fuel : ℕ) (w : Sockets.World S) (bytes : List ℕ) (size written : ℕ) where
    round_end :
        size ≡ 0
        → send_loop S (suc fuel) w sock bytes size written
          ≡ some (
            write_status S (S.write w sock (0 ∷ [])).0 (S.write w sock (0 ∷ [])).1,
            (S.write w sock (0 ∷ [])).1,
          )
    unfolding send_loop
    round_end e = rw e refl

    round_last :
        (chunk : List ℕ)
        → 0 < size
        → size < max_net_packet_size
        → load bytes written size ≡ some chunk
        → send_loop S (suc fuel) w sock bytes size written
          ≡ some (
            write_status S (S.write w sock chunk).0 (S.write w sock chunk).1,
            (S.write w sock chunk).1,
          )
    unfolding send_loop
    round_last chunk nonzero short e =
        rw (not_zero size nonzero, send_loop, lt→leb max_net_packet_size size short, send_loop, e)
          refl

    round_failed :
        (chunk : List ℕ)
        → 0 < size
        → max_net_packet_size ≤ size
        → load bytes written max_net_packet_size ≡ some chunk
        → not_written (S.write w sock chunk).0 ≡ true
        → send_loop S (suc fuel) w sock bytes size written
          ≡ some (err_errno (S.errno_text (S.write w sock chunk).1), (S.write w sock chunk).1)
    unfolding send_loop
    round_failed chunk nonzero long e r =
        rw
          (
            not_zero size nonzero,
            send_loop,
            le→leb max_net_packet_size size long,
            send_loop,
            e,
            ◌>>=◌,
            r,
          )
          refl

    round_more :
        (chunk : List ℕ)
        → 0 < size
        → max_net_packet_size ≤ size
        → load bytes written max_net_packet_size ≡ some chunk
        → not_written (S.write w sock chunk).0 ≡ false
        → send_loop S (suc fuel) w sock bytes size written
          ≡ send_loop S fuel
              (S.write w sock chunk).1
              sock
              bytes
              (size - max_net_packet_size)
              ((written + max_net_packet_size) % u32_mod)
    unfolding send_loop
    round_more chunk nonzero long e r =
        rw
          (
            not_zero size nonzero,
            send_loop,
            le→leb max_net_packet_size size long,
            send_loop,
            e,
            ◌>>=◌,
            r,
          )
          refl

  Delivers-at :
      (bytes : List ℕ) (w : Sockets.World S) (r r' : Option (Status × Sockets.World S))
      → r ≡ r'
      → Delivers bytes w r'
      → Delivers bytes w r
  Delivers-at bytes w r r' e (s, w', returned, outcome) = (s, w', e ∙ returned, outcome)

  -- What one round put on the wire comes before what the later rounds do.
  Delivers-behind :
      (chunk later : List ℕ) (w w1 : Sockets.World S) (r : Option (Status × Sockets.World S))
      → L.sent w1 sock ≡ L.sent w sock ++ chunk
      → Delivers later w1 r
      → Delivers (chunk ++ later) w r
  Delivers-behind chunk later w w1 r e (s, w', returned, inl (good, d)) =
      (s, w', returned, inl (good, d ∙ (rw e (append_assoc (L.sent w sock) chunk later))))
  Delivers-behind chunk later w w1 r e (s, w', returned, inr bad) = (s, w', returned, inr bad)

  send_loop-frame :
      (fuel : ℕ) (w : Sockets.World S) (bytes pre rest : List ℕ) (size written : ℕ)
      → bytes ≡ pre ++ rest
      → written ≡ length pre
      → size ≡ length rest
      → size < fuel
      → length bytes < u32_mod
      → Delivers (frame rest) w (send_loop S fuel w sock bytes size written)
  send_loop-frame zero w bytes pre rest size written e f g h small = elim h [ ]
  send_loop-frame (suc fuel) w bytes pre rest size written e f g h small = elim (dec_lt 0 size) [
    | no empty ↦
        Delivers-at (frame rest) w _ _ (round_end fuel w bytes size written (omega arith))
          (rw (nil_of_length rest (omega arith)) (last_write w (0 ∷ [])))
    | yes nonzero ↦ elim (dec_lt size max_net_packet_size) [
      | yes short ↦
          Delivers-at (frame rest) w _ _
            (round_last fuel w bytes size written rest nonzero short
              (load_exact bytes pre rest [] written size (e ∙ rw append-nil) f g))
            (rw (frame_short rest (omega arith) (omega arith)) (last_write w rest))
      | no long ↦ elim (write-cases w chunk) [
        | inl bad ↦ (
          _,
          _,
          round_failed fuel w bytes size written chunk nonzero (omega arith) (loaded (omega arith))
              bad,
          inr (unfold is_err in refl),
        )
        | inr good ↦
            Delivers-at (frame rest) w _ _
              (round_more fuel w bytes size written chunk nonzero (omega arith)
                (loaded (omega arith)) good.0)
              (rw (framed (omega arith)) (
                Delivers-behind chunk (frame tail) w _ _ good.1 (
                  send_loop-frame fuel (S.write w sock chunk).1 bytes (pre ++ chunk) tail
                    (size - max_net_packet_size) ((written + max_net_packet_size) % u32_mod)
                    rebracketed (moved (omega arith))
                    (omega (arith, length-drop max_net_packet_size rest)) (omega arith) small)))
      ]
    ]
  ]
    where
      chunk : List ℕ
      chunk = take max_net_packet_size rest

      tail : List ℕ
      tail = drop max_net_packet_size rest

      loaded : max_net_packet_size ≤ size → load bytes written max_net_packet_size ≡ some chunk
      loaded long = load_chunk bytes pre rest written max_net_packet_size e f (omega arith)

      framed : max_net_packet_size ≤ size → frame rest ≡ chunk ++ frame tail
      framed long =
          ap frame (sym (take-append-drop max_net_packet_size rest))
          ∙ frame-append chunk tail (omega (arith, length-take max_net_packet_size rest))

      rebracketed : bytes ≡ (pre ++ chunk) ++ tail
      rebracketed =
          e
          ∙ ap (λ (t : List ℕ). pre ++ t) (sym (take-append-drop max_net_packet_size rest))
          ∙ sym (append_assoc pre chunk tail)

      total : length bytes ≡ length pre + length rest
      total = ap length e ∙ length-append pre rest

      taken : max_net_packet_size ≤ size → length chunk ≡ max_net_packet_size
      taken long = omega (arith, length-take max_net_packet_size rest)

      moved :
          max_net_packet_size ≤ size
          → (written + max_net_packet_size) % u32_mod ≡ length (pre ++ chunk)
      moved long = omega (arith, total, taken long, length-append pre chunk)

  -- On sockets that take every write whole: SendPacket on a packet that still holds its block returns,
  -- and either it returns an error, or OK and all bytes of the packet are on the wire, in order, with
  -- one zero byte behind them if their number is a multiple of the largest chunk. (The block begins
  -- with payload_size + 4 bytes, a number below 2 ^ 32.)
  pub send_packet-frame :
      (w : Sockets.World S) (size : ℕ) (bytes rest : List ℕ)
      → size + 4 ≡ length bytes
      → size + 4 < u32_mod
      → Delivers
          (frame bytes)
          w
          (send_packet S w sock (record { payload_size = size; payload = some (bytes ++ rest) }))
  unfolding send_packet send_slice to_binary log_binary
  send_packet-frame w size bytes rest e small =
      rw (total, not_zero (size + 4) (omega arith))
        (rw (load_exact (bytes ++ rest) [] bytes rest 0 (size + 4) refl refl e) (
          send_loop-frame (suc (size + 4)) w bytes [] bytes (size + 4) 0 refl refl e (omega arith)
            (omega arith)))
    where
      total : (size + 4) % u32_mod ≡ size + 4
      total = omega arith
