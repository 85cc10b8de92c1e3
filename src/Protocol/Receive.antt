-- ===== src/Protocol/Receive.antt =====
-- ReadWholePacket of src/protocol/protocol.cc: which packets it reads whole, and which it loses.
use sqpkv.Prelude.{
  ℕ, suc, ◌-◌, ◌*◌, ◌%◌, ◌≤◌, ◌<◌, ◌≡◌, refl, sym, ap, ◌∙◌, Option, some, List, [], ◌++◌, arith,
  length, take, drop, length-take, length-drop,
}
use mathlib.Core.Path.{subst}
use native.Mathlib.Decide.{dec_lt}
use sqpkv.Sockets.{Sockets}
use sqpkv.Sockets.Laws.{Arrived}
use sqpkv.Status.{eof_status}
use sqpkv.Protocol.Frame.{nil_of_length}
use sqpkv.Protocol.{
  max_net_packet_size, Whole, next_capacity, next_room, read_loop, read_whole_packet,
}
use sqpkv.Protocol.Rounds.{
  Reads, FromThere, finish, finish_full, two_reads, go_on_second, length-two, length-behind,
  doubled, first_room, take_twice, round_eof, round_more,
}

module _ (S : Sockets) (sock : ℕ) (A : Arrived S sock) where
  three_reads :
      (fuel : ℕ) (stream : List ℕ)
      → 2 * max_net_packet_size < length stream
      → length stream < 3 * max_net_packet_size
      → FromThere S sock A
          (Reads S sock A stream)
          (suc (suc (suc fuel)))
          []
          stream
          max_net_packet_size
          max_net_packet_size
  three_reads fuel stream long short =
      go_on_second S sock A (Reads S sock A stream) (suc fuel) stream (omega arith) (λ w e.
        subst
          (λ t. Reads S sock A t (
            read_loop S (suc fuel) w sock
              (take max_net_packet_size stream
                ++ take max_net_packet_size (drop max_net_packet_size stream))
              (2 * max_net_packet_size) 0))
          (take_twice max_net_packet_size stream)
          (finish_full S sock A fuel _ (drop max_net_packet_size (drop max_net_packet_size stream))
            (2 * max_net_packet_size) 0 refl
            (sym (length-two S sock A max_net_packet_size stream (omega arith)))
            (omega (arith, length-two S sock A max_net_packet_size stream (omega arith)))
            (omega (arith, length-behind S sock A max_net_packet_size stream))
            (omega (arith, length-behind S sock A max_net_packet_size stream)) w e))

  -- All that has arrived on the socket, behind which its peer has closed, when it is less than three chunks of
  -- max_net_packet_size bytes and no multiple of a chunk, is read as one packet: read_whole_packet
  -- ends with OK and exactly these bytes, and leaves nothing unread. Three rounds are enough.
  pub read_whole_packet-frame :
      (fuel : ℕ) (w : Sockets.World S)
      → 0 < length (A.pending w) % max_net_packet_size
      → length (A.pending w) < 3 * max_net_packet_size
      → Reads S sock A (A.pending w) (read_whole_packet S (suc (suc (suc fuel))) w sock)
  unfolding read_whole_packet
  read_whole_packet-frame fuel w odd short =
      elim (dec_lt (length (A.pending w)) max_net_packet_size) [
        | yes one ↦
            finish S sock A (suc (suc fuel)) [] (A.pending w) max_net_packet_size
              max_net_packet_size (omega (arith, first_room)) (omega arith) one w refl
        | no more ↦ elim (dec_lt (length (A.pending w)) (2 * max_net_packet_size)) [
          | yes two ↦ two_reads S sock A (suc fuel) (A.pending w) (omega arith) two w refl
          | no most ↦ three_reads fuel (A.pending w) (omega arith) short w refl
        ]
      ]

  -- The loop ends with EOF and without the bytes.
  abbrev pub Loses : Option (Whole S) → Type 0
  Loses r =
      (w' : Sockets.World S) × (capacity : ℕ) × (r
        ≡ some (record { status = eof_status; buf = []; capacity = capacity; world = w' }))

  take-nil_of : (n : ℕ) (xs : List ℕ) → xs ≡ [] → length (take n xs) ≡ 0
  take-nil_of n xs e = omega (arith, length-take n xs, ap length e)

  drain :
      (fuel : ℕ) (buf : List ℕ) (capacity room : ℕ)
      → FromThere S sock A Loses (suc fuel) buf [] capacity room
  drain fuel buf capacity room w e =
      let (w', read, left) = A.reads w (next_room buf capacity room) in
      (
        w',
        next_capacity buf capacity room,
        round_eof S fuel w sock buf capacity room _ w' read (take-nil_of _ _ e),
      )

  pub read_whole_packet-end :
      (fuel : ℕ) (w : Sockets.World S)
      → A.pending w ≡ []
      → Loses (read_whole_packet S (suc fuel) w sock)
  unfolding read_whole_packet
  read_whole_packet-end fuel w e = drain fuel [] max_net_packet_size max_net_packet_size w e

  lose :
      (fuel : ℕ) (buf stream : List ℕ) (capacity room : ℕ)
      → length stream ≤ next_room buf capacity room
      → max_net_packet_size ≤ length stream
      → FromThere S sock A Loses (suc (suc fuel)) buf stream capacity room
  lose fuel buf stream capacity room enough big w e =
      let (w', read, left) = A.reads w n in
      let (w'', last, ends) =
        drain fuel (buf ++ take n (A.pending w)) (next_capacity buf capacity room)
          (n - length (take n (A.pending w))) w'
          (left ∙ ap (drop n) e ∙ nil_of_length _ (omega (arith, length-drop n stream))) in
      (
        w'',
        last,
        round_more S (suc fuel) w sock buf capacity room (take n (A.pending w)) w' read
              (omega (arith, length-take n (A.pending w), ap length e))
            ∙ ends,
      )
    where
      n : ℕ
      n = next_room buf capacity room

  -- A packet of at least three and less than four chunks that arrives at once, and behind which the
  -- peer closes, is lost: read_whole_packet takes the last read for an intermediate one and ends
  -- with EOF and an empty buffer.
  pub read_whole_packet-lost :
      (fuel : ℕ) (w : Sockets.World S)
      → 3 * max_net_packet_size ≤ length (A.pending w)
      → length (A.pending w) < 4 * max_net_packet_size
      → Loses (read_whole_packet S (suc (suc (suc (suc fuel)))) w sock)
  unfolding read_whole_packet
  read_whole_packet-lost fuel w long short =
      go_on_second S sock A Loses (suc (suc fuel)) (A.pending w) (omega arith)
        (lose fuel _ (drop max_net_packet_size (drop max_net_packet_size (A.pending w)))
          (2 * max_net_packet_size) 0
          (omega (
            arith,
            length-behind S sock A max_net_packet_size (A.pending w),
            length-two S sock A max_net_packet_size (A.pending w) (omega arith),
            (doubled
                (take max_net_packet_size (A.pending w)
                  ++ take max_net_packet_size (drop max_net_packet_size (A.pending w)))
                (2 * max_net_packet_size) 0 refl
                (sym (length-two S sock A max_net_packet_size (A.pending w) (omega arith)))).1,
          ))
          (omega (arith, length-behind S sock A max_net_packet_size (A.pending w))))
        w refl
