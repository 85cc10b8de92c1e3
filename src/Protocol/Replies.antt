-- ===== src/Protocol/Replies.antt =====
-- ReadFromServer of src/protocol/protocol.cc on a reply that has arrived.
use sqpkv.Prelude.{
  ℕ, zero, suc, ◌+◌, ◌-◌, ◌*◌, ◌%◌, ◌≤◌, ◌<◌, ◌≡◌, refl, ◌∙◌, ap, some, List, [], ◌∷◌, ◌++◌, arith,
  append_assoc, length, length-append, replicate, take,
}
use sqpkv.Memory.{u32_mod}
use sqpkv.Sockets.{Sockets}
use sqpkv.Sockets.Laws.{Arrived}
use sqpkv.Status.{of_obj, is_ok}
use sqpkv.Packet.Factory.{create_response_packet}
use sqpkv.Packet.Reply.{Reply, reply_payload, reply_size, reply_wire, parsed_as}
use sqpkv.Packet.Parse.{received}
use sqpkv.Packet.ParseReply.{WellCoded, slack_of, create_response_packet-reply_wire}
use sqpkv.Protocol.{max_net_packet_size, read_from_server}
use sqpkv.Protocol.Receive.{read_whole_packet-frame}

-- A reply of which the response constructor has written at least the declared size has arrived.
abbrev pub HasReply : Reply → List ℕ → List ℕ → Type 0
HasReply r more stream =
    (stream ≡ reply_wire r ++ more)
    × WellCoded r
    × (length (reply_payload r) ≤ reply_size r)
    × (reply_size r ≤ length (reply_payload r) + length more)
    × (4 + reply_size r < u32_mod)
    × (0 < length stream % max_net_packet_size)
    × (length stream < 3 * max_net_packet_size)

take_front : (n : ℕ) (xs ys : List ℕ) → n ≤ length xs → take n (xs ++ ys) ≡ take n xs
take_front zero xs ys h = refl
take_front (suc n) [] ys h = absurd (omega arith)
take_front (suc n) (x ∷ xs) ys h = ap (λ (t : List ℕ). x ∷ t) (take_front n xs ys (omega arith))

module _ (S : Sockets) (sockfd : ℕ) (A : Arrived S sockfd) where
  -- A reply in the packet format, with bytes behind it that its declared size may count too, has arrived
  -- whole, and the peer has closed behind it; the stream is of less than three chunks and no multiple of
  -- a chunk: ReadFromServer returns OK and the object of this reply. (The reply's status has a code of the
  -- format, the declared size covers the payload and is there, and fits a uint32_t. Three reads are
  -- enough.)
  pub read_from_server-reply :
      (fuel : ℕ) (r : Reply) (more : List ℕ) (w : Sockets.World S)
      → HasReply r more (A.pending w)
      → (w' : Sockets.World S) × (read_from_server S (suc (suc (suc fuel))) w sockfd
          ≡ some (of_obj (some (parsed_as (received (reply_payload r ++ slack_of r more)) r)), w'))
  unfolding read_from_server is_ok
  read_from_server-reply fuel r more w (e, coded, covers, there, small, odd, short) =
      let (w', capacity, read, rest) = read_whole_packet-frame S sockfd A fuel w odd short in
      let unused : List ℕ = replicate (capacity - length (A.pending w)) 0 in
      (
        w',
        rw read (
            rw
              (ap create_response_packet
                  (ap (λ (t : List ℕ). t ++ unused) e ∙ append_assoc (reply_wire r) more unused)
                ∙ create_response_packet-reply_wire r (more ++ unused) coded small covers
                    (omega (arith, length-append more unused)))
              (rw (take_front (reply_size r - length (reply_payload r)) more unused (omega arith))
                refl)),
      )
