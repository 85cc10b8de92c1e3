-- ===== src/Protocol/Rounds.antt =====
-- The rounds of the loop of ReadWholePacket of src/protocol/protocol.cc, on a stream that has arrived.
use sqpkv.Prelude.{
  ℕ, zero, suc, ◌-◌, ◌*◌, ◌≤◌, ◌<◌, ◌≡◌, refl, sym, ap, ◌∙◌, false, Option, some, List, [], ◌∷◌,
  ◌++◌, arith, append_assoc, length, take, drop, length-append, length-take, length-drop,
  take-append-drop, ltb, lt→ltb,
}
use mathlib.Core.Path.{subst}
use sqpkv.Sockets.{Sockets, received}
use sqpkv.Sockets.Laws.{Arrived}
use sqpkv.Status.{default_status, eof_status}
use sqpkv.Protocol.Frame.{not_zero, nil_of_length}
use sqpkv.Protocol.{max_net_packet_size, Whole, next_capacity, next_room, read_loop}

pub not_short : (n : ℕ) → max_net_packet_size ≤ n → ltb n max_net_packet_size ≡ false
not_short n h = ground arith

-- One round that reads `bs` into the room that there is.
module _ (S : Sockets) (fuel : ℕ) (w : Sockets.World S) (sock : ℕ) (buf : List ℕ)
    (capacity room : ℕ) where
  module _ (bs : List ℕ) (w' : Sockets.World S)
      (e : S.read w sock (next_room buf capacity room) ≡ (received bs, w')) where
    pub round_done :
        0 < length bs
        → length bs < max_net_packet_size
        → read_loop S (suc fuel) w sock buf capacity room
          ≡ some (record {
            status = default_status;
            buf = buf ++ bs;
            capacity = next_capacity buf capacity room;
            world = w';
          })
    unfolding read_loop
    round_done nonzero short =
        rw
          (
            read_loop,
            e,
            not_zero (length bs) nonzero,
            read_loop,
            lt→ltb (length bs) max_net_packet_size short,
          )
          (rw e refl)

    pub round_eof :
        length bs ≡ 0
        → read_loop S (suc fuel) w sock buf capacity room
          ≡ some (record {
            status = eof_status;
            buf = [];
            capacity = next_capacity buf capacity room;
            world = w';
          })
    unfolding read_loop
    round_eof empty = rw (read_loop, e, empty) (rw e refl)

    pub round_more :
        max_net_packet_size ≤ length bs
        → read_loop S (suc fuel) w sock buf capacity room
          ≡ read_loop S fuel w' sock
              (buf ++ bs)
              (next_capacity buf capacity room)
              (next_room buf capacity room - length bs)
    unfolding read_loop
    round_more long =
        rw (read_loop, e, not_zero (length bs) (omega arith), read_loop, not_short (length bs) long)
          (rw e refl)

-- With the buffer full, its capacity is doubled and the next read has as much room as there are bytes.
pub doubled :
    (buf : List ℕ) (capacity room : ℕ)
    → room ≡ 0
    → capacity ≡ length buf
    → (next_capacity buf capacity room ≡ 2 * length buf)
      × (next_room buf capacity room ≡ length buf)
unfolding next_room
doubled buf capacity room e f = ground arith

pub first_room : next_room [] max_net_packet_size max_net_packet_size ≡ max_net_packet_size
unfolding next_room
first_room = refl

first_capacity : next_capacity [] max_net_packet_size max_net_packet_size ≡ max_net_packet_size
unfolding next_capacity
first_capacity = refl

self_sub : (n : ℕ) → n - n ≡ 0
self_sub n = omega arith

length-take_long : (n : ℕ) (xs : List ℕ) → n ≤ length xs → length (take n xs) ≡ n
length-take_long n xs h = omega (arith, length-take n xs)

pub take_twice :
    (n : ℕ) (xs : List ℕ) → (take n xs ++ take n (drop n xs)) ++ drop n (drop n xs) ≡ xs
take_twice n xs =
    append_assoc (take n xs) (take n (drop n xs)) (drop n (drop n xs))
    ∙ ap (λ t. take n xs ++ t) (take-append-drop n (drop n xs))
    ∙ take-append-drop n xs

pub take_all : (n : ℕ) (xs : List ℕ) → length xs ≤ n → take n xs ≡ xs
take_all zero [] h = refl
take_all zero (x ∷ xs) h = absurd (omega arith)
take_all (suc n) [] h = refl
take_all (suc n) (x ∷ xs) h = ap (λ t. x ∷ t) (take_all n xs (omega arith))

module _ (S : Sockets) (sock : ℕ) (A : Arrived S sock) where
  -- The loop ends with OK and these bytes, and has read the whole stream.
  abbrev pub Reads : List ℕ → Option (Whole S) → Type 0
  Reads bytes r =
      (w' : Sockets.World S) × (capacity : ℕ) × (r
        ≡ some (record { status = default_status; buf = bytes; capacity = capacity; world = w' }))
      × (A.pending w' ≡ [])

  -- What the rest of the stream does from a state of the loop on, whatever world it is in.
  abbrev pub FromThere : (Option (Whole S) → Type 0) → ℕ → List ℕ → List ℕ → ℕ → ℕ → Type 0
  FromThere P fuel buf stream capacity room =
      (w : Sockets.World S) → A.pending w ≡ stream → P (read_loop S fuel w sock buf capacity room)

  pub finish :
      (fuel : ℕ) (buf stream : List ℕ) (capacity room : ℕ)
      → max_net_packet_size ≤ next_room buf capacity room
      → 0 < length stream
      → length stream < max_net_packet_size
      → FromThere (Reads (buf ++ stream)) (suc fuel) buf stream capacity room
  finish fuel buf stream capacity room enough nonzero short w e =
      let (w', read, left) = A.reads w n in
      (
        w',
        next_capacity buf capacity room,
        round_done S fuel w sock buf capacity room stream w'
            (read ∙ ap (λ (t : List ℕ). (received t, w')) whole) nonzero short,
        left ∙ nil_of_length _ none_left,
      )
    where
      n : ℕ
      n = next_room buf capacity room

      whole : take n (A.pending w) ≡ stream
      whole = ap (take n) e ∙ take_all n stream (omega arith)

      none_left : length (drop n (A.pending w)) ≡ 0
      none_left = omega (arith, length-drop n (A.pending w), ap length e)

  go_on :
      (P : Option (Whole S) → Type 0) (fuel : ℕ) (buf stream : List ℕ)
      (capacity room n capacity' : ℕ)
      → next_room buf capacity room ≡ n
      → next_capacity buf capacity room ≡ capacity'
      → max_net_packet_size ≤ n
      → n ≤ length stream
      → FromThere P fuel (buf ++ take n stream) (drop n stream) capacity' 0
      → FromThere P (suc fuel) buf stream capacity room
  go_on P fuel buf stream capacity room n capacity' has_room has_capacity big long later w e =
      let (w', read, left) = A.reads w n in
      subst P
        (sym (
          round_more S fuel w sock buf capacity room (take n stream) w'
            (ap (S.read w sock) has_room ∙ read ∙ ap (λ (t : List ℕ). (received (take n t), w')) e)
            (omega (arith, length-take_long n stream long))))
        (rw (has_room, has_capacity, length-take_long n stream long, self_sub n)
          (later w' (left ∙ ap (drop n) e)))

  -- A full buffer and less than a chunk in the stream.
  pub finish_full :
      (fuel : ℕ) (buf stream : List ℕ) (capacity room : ℕ)
      → room ≡ 0
      → capacity ≡ length buf
      → max_net_packet_size ≤ length buf
      → 0 < length stream
      → length stream < max_net_packet_size
      → FromThere (Reads (buf ++ stream)) (suc fuel) buf stream capacity room
  finish_full fuel buf stream capacity room e f big =
      finish fuel buf stream capacity room (omega (arith, (doubled buf capacity room e f).1))

  -- A full buffer of `n` bytes and at least as many in the stream.
  go_on_full :
      (P : Option (Whole S) → Type 0) (fuel : ℕ) (buf stream : List ℕ) (capacity room n : ℕ)
      → room ≡ 0
      → capacity ≡ length buf
      → length buf ≡ n
      → max_net_packet_size ≤ n
      → n ≤ length stream
      → FromThere P fuel (buf ++ take n stream) (drop n stream) (2 * n) 0
      → FromThere P (suc fuel) buf stream capacity room
  go_on_full P fuel buf stream capacity room n e f g big long later =
      let (c, r) = doubled buf capacity room e f in
      go_on P fuel buf stream capacity room n (2 * n) (r ∙ g) (c ∙ ap (λ m. 2 * m) g) big long later

  -- The first read takes a whole chunk.
  go_on_first :
      (P : Option (Whole S) → Type 0) (fuel : ℕ) (stream : List ℕ)
      → max_net_packet_size ≤ length stream
      → FromThere P fuel
          (take max_net_packet_size stream)
          (drop max_net_packet_size stream)
          max_net_packet_size
          0
      → FromThere P (suc fuel) [] stream max_net_packet_size max_net_packet_size
  go_on_first P fuel stream long later =
      go_on P fuel [] stream max_net_packet_size max_net_packet_size max_net_packet_size
        max_net_packet_size first_room first_capacity (omega arith) long later

  pub two_reads :
      (fuel : ℕ) (stream : List ℕ)
      → max_net_packet_size < length stream
      → length stream < 2 * max_net_packet_size
      → FromThere (Reads stream) (suc (suc fuel)) [] stream max_net_packet_size max_net_packet_size
  two_reads fuel stream long short =
      go_on_first (Reads stream) (suc fuel) stream (omega arith) (λ w e.
        subst
          (λ t.
            Reads t (
              read_loop S (suc fuel) w sock (take max_net_packet_size stream) max_net_packet_size
                0))
          (take-append-drop max_net_packet_size stream)
          (finish_full fuel (take max_net_packet_size stream) (drop max_net_packet_size stream)
            max_net_packet_size 0 refl
            (sym (length-take_long max_net_packet_size stream (omega arith)))
            (omega (arith, length-take_long max_net_packet_size stream (omega arith)))
            (omega (arith, length-drop max_net_packet_size stream))
            (omega (arith, length-drop max_net_packet_size stream)) w e))

  -- Two chunks have been read, which fill the buffer.
  pub go_on_second :
      (P : Option (Whole S) → Type 0) (fuel : ℕ) (stream : List ℕ)
      → 2 * max_net_packet_size ≤ length stream
      → FromThere P fuel
          (take max_net_packet_size stream
            ++ take max_net_packet_size (drop max_net_packet_size stream))
          (drop max_net_packet_size (drop max_net_packet_size stream))
          (2 * max_net_packet_size)
          0
      → FromThere P (suc (suc fuel)) [] stream max_net_packet_size max_net_packet_size
  go_on_second P fuel stream long later = go_on_first P (suc fuel) stream (omega arith) (
      go_on_full P fuel (take max_net_packet_size stream) (drop max_net_packet_size stream)
        max_net_packet_size 0 max_net_packet_size refl
        (sym (length-take_long max_net_packet_size stream (omega arith)))
        (length-take_long max_net_packet_size stream (omega arith)) (omega arith)
        (omega (arith, length-drop max_net_packet_size stream)) later)

  pub length-two :
      (n : ℕ) (stream : List ℕ)
      → 2 * n ≤ length stream
      → length (take n stream ++ take n (drop n stream)) ≡ 2 * n
  length-two n stream long = omega (
    arith,
    length-append (take n stream) (take n (drop n stream)),
    length-take_long n stream (omega arith),
    length-take_long n (drop n stream) (omega (arith, length-drop n stream)),
  )

  pub length-behind :
      (n : ℕ) (stream : List ℕ) → length (drop n (drop n stream)) ≡ length stream - 2 * n
  length-behind n stream = omega (arith, length-drop n (drop n stream), length-drop n stream)
