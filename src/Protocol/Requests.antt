-- ===== src/Protocol/Requests.antt =====
-- ReadFromClient of src/protocol/protocol.cc on what SendPacket puts on the wire for a request.
use sqpkv.Prelude.{
  ℕ, suc, ◌+◌, ◌*◌, ◌%◌, ◌≤◌, ◌<◌, ◌≡◌, inl, inr, refl, sym, ◌∙◌, ap, some, List, [], ◌∷◌, ◌++◌,
  arith, append-nil, append_assoc, replicate, ◌-◌, length, length-append, ◌==◌, ==_iff, Bool-cases,
}
use sqpkv.Sockets.{Sockets}
use sqpkv.Sockets.Laws.{Arrived}
use sqpkv.Status.{of_obj, is_ok}
use sqpkv.Packet.Wire.{Request, request_payload, request_wire, packet_of}
use sqpkv.Packet.Factory.{create_command_packet}
use sqpkv.Packet.Parse.{received, create_command_packet-request_wire}
use sqpkv.Protocol.{max_net_packet_size, read_from_client}
use sqpkv.Protocol.Frame.{frame}
use sqpkv.Protocol.Receive.{read_whole_packet-frame}

-- A frame is the bytes and at most one more, and never a multiple of the largest chunk.
frame-cases :
    (bytes : List ℕ)
    → (rest : List ℕ) × (frame bytes ≡ bytes ++ rest)
      × (0 < length (frame bytes) % max_net_packet_size)
      × (length (frame bytes) ≤ length bytes + 1)
frame-cases bytes = elim (Bool-cases (length bytes % max_net_packet_size == 0)) [
  | inl z ↦ (
    0 ∷ [],
    rw z refl,
    rw z (
        omega (
          arith,
          length-append bytes (0 ∷ []),
          (==_iff (length bytes % max_net_packet_size) 0).0 z,
        )),
    rw z (omega (arith, length-append bytes (0 ∷ []))),
  )
  | inr z ↦ ([], rw z (sym (append-nil bytes)), rw z (ground (arith, z)), rw z (omega arith))
]

module _ (S : Sockets) (fd : ℕ) (A : Arrived S fd) where
  -- What SendPacket puts on the wire for a request in the packet format, of less than three chunks less
  -- one byte, once it has arrived and the peer has closed behind it, is read by ReadFromClient as the
  -- packet object for that request, with OK. Three reads are enough.
  pub read_from_client-frame :
      (fuel : ℕ) (r : Request) (w : Sockets.World S)
      → A.pending w ≡ frame (request_wire r)
      → length (request_wire r) + 1 < 3 * max_net_packet_size
      → (w' : Sockets.World S) × (read_from_client S (suc (suc (suc fuel))) w fd
          ≡ some (of_obj (some (packet_of (received (request_payload r)) r)), w'))
  unfolding read_from_client is_ok
  read_from_client-frame fuel r w e short =
      let (rest, split, odd, bound) = frame-cases (request_wire r) in
      let (w', capacity, read, drained) =
        read_whole_packet-frame S fd A fuel w (omega (arith, odd, ap length e))
          (omega (arith, bound, ap length e)) in
      let unused : List ℕ = replicate (capacity - length (A.pending w)) 0 in
      (
        w',
        rw read (
            rw
              (ap create_command_packet (
                  ap (λ (t : List ℕ). t ++ unused) (e ∙ split)
                  ∙ append_assoc (request_wire r) rest unused)
                ∙ create_command_packet-request_wire r (rest ++ unused) (omega arith))
              refl),
      )
