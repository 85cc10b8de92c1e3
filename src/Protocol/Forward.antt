-- ===== src/Protocol/Forward.antt =====
-- ForwardPacket of src/protocol/protocol.cc: what it copies.
use sqpkv.Prelude.{
  ℕ, zero, suc, ◌%◌, ◌≤◌, ◌<◌, ◌≡◌, ◌⊎◌, inl, inr, refl, ◌∙◌, ap, true, false, Option, some, List,
  ◌++◌, arith, append_assoc, length, take, drop, length-take, length-drop, take-append-drop, lt→ltb,
}
use Prim.Native.Nat.{min}
use native.Mathlib.Decide.{dec_lt}
use sqpkv.Sockets.{Sockets, received}
use sqpkv.Sockets.Laws.{Pipe}
use sqpkv.Status.{Status, default_status, eof_status}
use sqpkv.Protocol.{max_net_packet_size, not_written, forward_chunk, forward_packet}
use sqpkv.Protocol.Frame.{not_zero}
use sqpkv.Protocol.Rounds.{not_short, take_all}
use sqpkv.Protocol.Send.{write-cases}

module _ (S : Sockets) (from to : ℕ) (P : Pipe S from to) where
  abbrev pending : Sockets.World S → List ℕ
  pending w = P.arrived.pending w

  abbrev sent : Sockets.World S → List ℕ
  sent w = P.writes.sent w to

  -- The world behind a write of some bytes to `to` that has failed or has taken none.
  abbrev pub Refuses : Sockets.World S → Type 0
  Refuses w' =
      (v : Sockets.World S) × (bs : List ℕ) × (0 < length bs)
      × (not_written (S.write v to bs).0 ≡ true)
      × (w' ≡ (S.write v to bs).1)

  -- It returns: with OK and these bytes copied, or with EOF behind a write that was refused.
  abbrev pub Copies : List ℕ → Sockets.World S → Option (Status × Sockets.World S) → Type 0
  Copies bytes w r =
      (s : Status) × (w' : Sockets.World S) × (r ≡ some (s, w'))
      × (((s ≡ default_status) × (P.writes.sent w' to ≡ P.writes.sent w to ++ bytes))
          ⊎ ((s ≡ eof_status) × Refuses w'))

  module _ (bs : List ℕ) (w1 : Sockets.World S)
      (later : Sockets.World S → Option (Status × Sockets.World S)) (nonzero : 0 < length bs) where
    chunk_failed :
        not_written (S.write w1 to bs).0 ≡ true
        → forward_chunk S to bs w1 later ≡ some (eof_status, (S.write w1 to bs).1)
    chunk_failed e = rw (forward_chunk, not_zero (length bs) nonzero, e) refl

    chunk_last :
        not_written (S.write w1 to bs).0 ≡ false
        → length bs < max_net_packet_size
        → forward_chunk S to bs w1 later ≡ some (default_status, (S.write w1 to bs).1)
    chunk_last e short =
        rw
          (
            forward_chunk,
            not_zero (length bs) nonzero,
            e,
            lt→ltb (length bs) max_net_packet_size short,
          )
          refl

    chunk_more :
        not_written (S.write w1 to bs).0 ≡ false
        → max_net_packet_size ≤ length bs
        → forward_chunk S to bs w1 later ≡ later (S.write w1 to bs).1
    chunk_more e long =
        rw (forward_chunk, not_zero (length bs) nonzero, e, not_short (length bs) long) refl

  forward_round :
      (fuel : ℕ) (w : Sockets.World S) (bs : List ℕ) (w1 : Sockets.World S)
      → S.read w from max_net_packet_size ≡ (received bs, w1)
      → forward_packet S (suc fuel) w from to
        ≡ forward_chunk S to bs w1 (λ w'. forward_packet S fuel w' from to)
  unfolding forward_packet
  forward_round fuel w bs w1 e = rw (forward_packet, e) (rw e refl)

  Copies-behind :
      (chunk rest : List ℕ) (w w2 : Sockets.World S) (r : Option (Status × Sockets.World S))
      → sent w2 ≡ sent w ++ chunk
      → Copies rest w2 r
      → Copies (chunk ++ rest) w r
  Copies-behind chunk rest w w2 r e (s, w', returned, inl (good, d)) =
      (s, w', returned, inl (good, d ∙ rw e (append_assoc (sent w) chunk rest)))
  Copies-behind chunk rest w w2 r e (s, w', returned, inr bad) = (s, w', returned, inr bad)

  forward_stream :
      (fuel : ℕ) (w : Sockets.World S) (stream : List ℕ)
      → pending w ≡ stream
      → 0 < length stream % max_net_packet_size
      → length stream < fuel
      → Copies stream w (forward_packet S fuel w from to)
  forward_stream zero w stream e odd enough = elim enough [ ]
  forward_stream (suc fuel) w stream e odd enough = elim (write-cases S P.writes to w1 chunk) [
    | inl bad ↦ (
      eof_status,
      (S.write w1 to chunk).1,
      round ∙ chunk_failed chunk w1 later some_bytes bad,
      inr (refl, (w1, chunk, some_bytes, bad, refl)),
    )
    | inr good ↦ elim (dec_lt (length stream) max_net_packet_size) [
      | yes short ↦ (
        default_status,
        (S.write w1 to chunk).1,
        round ∙ chunk_last chunk w1 later some_bytes good.0 (omega (arith, size)),
        inl (
          refl,
          good.1
              ∙ rw (P.sent-read w max_net_packet_size _ w1 read) (
                  ap (λ (t : List ℕ). sent w ++ t)
                    (take_all max_net_packet_size stream (omega arith))),
        ),
      )
      | no long ↦
          let (s, w', returned, outcome) =
            Copies-behind chunk (drop max_net_packet_size stream) w (S.write w1 to chunk).1 _
              (good.1 ∙ rw (P.sent-read w max_net_packet_size _ w1 read) refl)
              (forward_stream fuel (S.write w1 to chunk).1 (drop max_net_packet_size stream)
                (P.pending-write w1 chunk _ _ refl ∙ rest)
                (omega (arith, length-drop max_net_packet_size stream))
                (omega (arith, length-drop max_net_packet_size stream))) in
          (
            s,
            w',
            round ∙ chunk_more chunk w1 later some_bytes good.0 (omega (arith, size)) ∙ returned,
            whole s w' outcome,
          )
    ]
  ]
    where
      chunk : List ℕ
      chunk = take max_net_packet_size stream

      w1 : Sockets.World S
      w1 = (P.arrived.reads w max_net_packet_size).0

      read : S.read w from max_net_packet_size ≡ (received chunk, w1)
      read =
          (P.arrived.reads w max_net_packet_size).1
          ∙ ap (λ (t : List ℕ). (received (take max_net_packet_size t), w1)) e

      rest : pending w1 ≡ drop max_net_packet_size stream
      rest = (P.arrived.reads w max_net_packet_size).2 ∙ ap (drop max_net_packet_size) e

      later : Sockets.World S → Option (Status × Sockets.World S)
      later w' = forward_packet S fuel w' from to

      round : forward_packet S (suc fuel) w from to ≡ forward_chunk S to chunk w1 later
      round = forward_round fuel w chunk w1 read

      size : length chunk ≡ min max_net_packet_size (length stream)
      size = length-take max_net_packet_size stream

      some_bytes : 0 < length chunk
      some_bytes = omega (arith, size)

      whole :
          (s : Status) (w' : Sockets.World S)
          → ((s ≡ default_status)
              × (sent w' ≡ sent w ++ (chunk ++ drop max_net_packet_size stream)))
            ⊎ ((s ≡ eof_status) × Refuses w')
          → ((s ≡ default_status) × (sent w' ≡ sent w ++ stream)) ⊎ ((s ≡ eof_status) × Refuses w')
      whole s w' (inl (good, d)) =
          inl (
            good,
            d ∙ ap (λ (t : List ℕ). sent w ++ t) (take-append-drop max_net_packet_size stream),
          )
      whole s w' (inr bad) = inr bad

  -- All that has arrived on `from`, behind which its peer has closed, when its length is no multiple of a
  -- chunk: ForwardPacket returns, and either it returns OK and exactly these bytes have been written to
  -- `to`, in order, or a write to `to` has failed or taken nothing, and it returns EOF right behind it.
  -- One round more than there are bytes is enough. (The two sockets do not affect each other, and a
  -- write to `to` that takes something takes all of its bytes.)
  pub forward_packet-stream :
      (fuel : ℕ) (w : Sockets.World S)
      → 0 < length (P.arrived.pending w) % max_net_packet_size
      → length (P.arrived.pending w) < fuel
      → Copies (P.arrived.pending w) w (forward_packet S fuel w from to)
  forward_packet-stream fuel w = forward_stream fuel w (pending w) refl
