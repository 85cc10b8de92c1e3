-- ===== src/Protocol/Parts.antt =====
-- ReadFromClient of src/protocol/protocol.cc on a packet of which only a part has arrived.
use sqpkv.Prelude.{
  ℕ, zero, suc, ◌+◌, ◌-◌, ◌≤◌, ◌<◌, ◌≡◌, refl, ap, sym, ◌∙◌, some, List, [], ◌∷◌, ◌++◌, arith,
  append_assoc, length, take, length-take, length-append, replicate,
}
use sqpkv.Sockets.{Sockets, received}
use sqpkv.Status.{is_ok, of_obj}
use sqpkv.Memory.{u32_bytes, u32_mod}
use sqpkv.Packet.{op_byte, k_get, k_put, k_delete, k_get_all}
use sqpkv.Packet.Cursor.{sized}
use sqpkv.Packet.Wire.{Request, get, put, delete, get_all, request_payload, request_wire, packet_of}
use sqpkv.Packet.Parse
use sqpkv.Packet.Parse.{create_command_packet-request_wire}
use sqpkv.Packet.Factory.{create_command_packet}
use sqpkv.Protocol.{max_net_packet_size, read_whole_packet, read_from_client}
use sqpkv.Protocol.Rounds.{round_done, first_room}

-- A text with zeros in place of what is behind its first `m` bytes
abbrev pub zero_tail : ℕ → List ℕ → List ℕ
zero_tail m text = take m text ++ replicate (length text - m) 0

-- The last text of a request, which its packet ends with
unfoldable pub last_text : Request → List ℕ
last_text (get key) = key
last_text (put key value) = value
last_text (delete key) = key
last_text (get_all prefix) = prefix

unfoldable pub with_last_text : Request → List ℕ → Request
with_last_text (get key) text = get text
with_last_text (put key value) text = put key text
with_last_text (delete key) text = delete text
with_last_text (get_all prefix) text = get_all text

abbrev zeros : ℕ → List ℕ
zeros n = replicate n 0

take_past : (h t : List ℕ) (m n : ℕ) → n ≡ length h + m → take n (h ++ t) ≡ h ++ take m t
take_past [] t m n e = let same : n ≡ m = omega arith in ap (λ (k : ℕ). take k t) same
take_past (x ∷ h) t m zero e = absurd (omega arith)
take_past (x ∷ h) t m (suc n) e = ap (λ (u : List ℕ). x ∷ u) (take_past h t m n (omega arith))

zeros_split : (a b n : ℕ) → n ≡ a + b → zeros n ≡ zeros a ++ zeros b
zeros_split zero b n e = let same : n ≡ b = omega arith in ap zeros same
zeros_split (suc a) b zero e = absurd (omega arith)
zeros_split (suc a) b (suc n) e = ap (λ (u : List ℕ). 0 ∷ u) (zeros_split a b n (omega arith))

length-zeros : (n : ℕ) → length (zeros n) ≡ n
length-zeros zero = refl
length-zeros (suc n) = let rest = length-zeros n in omega arith

length-zero_tail :
    (m : ℕ) (text : List ℕ) → m ≤ length text → length (zero_tail m text) ≡ length text
length-zero_tail m text short = omega (
  arith,
  length-append (take m text) (zeros (length text - m)),
  length-take m text,
  length-zeros (length text - m),
)

-- The storage of a buffer with the front part of a packet
storage_of_part :
    (h t : List ℕ) (m n capacity : ℕ)
    → n ≡ length h + m
    → m ≤ length t
    → length h + length t ≤ capacity
    → take n (h ++ t) ++ zeros (capacity - length (take n (h ++ t)))
      ≡ (h ++ zero_tail m t) ++ zeros (capacity - (length h + length t))
storage_of_part h t m n capacity e short fits = rw (take_past h t m n e) (
    append_assoc h (take m t) _
    ∙ ap (λ (u : List ℕ). h ++ u)
        (ap (λ (u : List ℕ). take m t ++ u)
            (zeros_split (length t - m) (capacity - (length h + length t))
              (capacity - length (h ++ take m t))
              (omega (arith, length-append h (take m t), length-take m t)))
          ∙ sym (append_assoc (take m t) (zeros (length t - m)) _))
    ∙ sym (append_assoc h (zero_tail m t) _))

-- What stands before the last text in a request's packet
unfoldable header : Request → List ℕ
unfolding last_text request_payload
header (get key) =
    u32_bytes (length (request_payload (get key))) ++ (op_byte k_get ∷ u32_bytes (length key))
header (put key value) =
    u32_bytes (length (request_payload (put key value)))
    ++ (op_byte k_put ∷ (sized key ++ u32_bytes (length value)))
header (delete key) =
    u32_bytes (length (request_payload (delete key))) ++ (op_byte k_delete ∷ u32_bytes (length key))
header (get_all prefix) =
    u32_bytes (length (request_payload (get_all prefix)))
    ++ (op_byte k_get_all ∷ u32_bytes (length prefix))

request_wire-header : (r : Request) → request_wire r ≡ header r ++ last_text r
unfolding request_wire request_payload header last_text
request_wire-header (get key) = refl
request_wire-header (put key value) =
    ap
      (λ (u : List ℕ).
        u32_bytes (length (request_payload (put key value)))
        ++ (op_byte k_put ∷ (u32_bytes (length key) ++ u)))
      (sym (append_assoc key (u32_bytes (length value)) value))
request_wire-header (delete key) = refl
request_wire-header (get_all prefix) = refl

last_text-with_last_text : (r : Request) (text : List ℕ) → last_text (with_last_text r text) ≡ text
unfolding last_text with_last_text
last_text-with_last_text (get key) text = refl
last_text-with_last_text (put key value) text = refl
last_text-with_last_text (delete key) text = refl
last_text-with_last_text (get_all prefix) text = refl

-- The header depends on how long the last text is only.
header-with_last_text :
    (r : Request) (text : List ℕ)
    → length text ≡ length (last_text r)
    → header (with_last_text r text) ≡ header r
unfolding header last_text with_last_text request_payload
header-with_last_text (get key) text e = rw e refl
header-with_last_text (put key value) text e =
    rw (length-append key (sized text)) (rw (length-append key (sized value)) (rw e refl))
header-with_last_text (delete key) text e = rw e refl
header-with_last_text (get_all prefix) text e = rw e refl

-- The request whose last text has zeros behind its first `m` bytes
abbrev pub zeroed : ℕ → Request → Request
zeroed m r = with_last_text r (zero_tail m (last_text r))

request_wire-zeroed :
    (m : ℕ) (r : Request)
    → m ≤ length (last_text r)
    → request_wire (zeroed m r) ≡ header r ++ zero_tail m (last_text r)
request_wire-zeroed m r short =
    request_wire-header (zeroed m r)
    ∙ rw (last_text-with_last_text r (zero_tail m (last_text r))) (
        ap (λ (h : List ℕ). h ++ zero_tail m (last_text r))
          (header-with_last_text r (zero_tail m (last_text r))
            (length-zero_tail m (last_text r) short)))

length-header : (r : Request) → length (request_wire r) ≡ length (header r) + length (last_text r)
length-header r = ap length (request_wire-header r) ∙ length-append (header r) (last_text r)

header-some : (r : Request) → 0 < length (header r)
unfolding header
header-some (get key) = omega arith
header-some (put key value) = omega arith
header-some (delete key) = omega arith
header-some (get_all prefix) = omega arith

-- The storage of a buffer with a request's packet that ends in its last text holds the packet of the
-- request with zeros in place of the bytes that are missing.
storage-zeroed :
    (m n capacity : ℕ) (r : Request)
    → n ≡ (length (request_wire r) - length (last_text r)) + m
    → m ≤ length (last_text r)
    → length (request_wire r) ≤ capacity
    → take n (request_wire r) ++ zeros (capacity - length (take n (request_wire r)))
      ≡ request_wire (zeroed m r) ++ zeros (capacity - length (request_wire r))
storage-zeroed m n capacity r e short fits = rw (length-header r) (
    rw (request_wire-zeroed m r short) (
      rw (request_wire-header r) (
        storage_of_part (header r) (last_text r) m n capacity (omega (arith, length-header r)) short
          (omega (arith, length-header r)))))

parsed-zeroed :
    (m n capacity : ℕ) (r : Request)
    → n + length (last_text r) ≡ length (request_wire r) + m
    → m ≤ length (last_text r)
    → length (request_wire r) ≤ capacity
    → capacity < u32_mod
    → create_command_packet
        (take n (request_wire r) ++ zeros (capacity - length (take n (request_wire r))))
      ≡ some (some (packet_of (Parse.received (request_payload (zeroed m r))) (zeroed m r)))
parsed-zeroed m n capacity r split short fits bound =
    ap create_command_packet
      (storage-zeroed m n capacity r (omega (arith, length-header r)) short fits)
    ∙ create_command_packet-request_wire (zeroed m r) (zeros (capacity - length (request_wire r)))
        (omega (arith, small))
  where
    small : length (request_wire (zeroed m r)) ≡ length (request_wire r)
    small =
        ap length (request_wire-zeroed m r short)
        ∙ length-append (header r) (zero_tail m (last_text r))
        ∙ omega (arith, length-zero_tail m (last_text r) short, length-header r)

module _ (S : Sockets) (fd : ℕ) where
  -- Of a request in the packet format, of a chunk at most, the first read gives all that stands before
  -- its last text (the value of a PUT, the key of a GET or a DELETE, the prefix of a GET_ALL) and the first
  -- `m` bytes of that, fewer than it has: ReadFromClient does not wait for the rest. It returns OK and the
  -- packet object of another request, in whose last text the missing bytes are zeros.
  pub read_from_client-part :
      (fuel : ℕ) (r : Request) (m n : ℕ) (w w' : Sockets.World S)
      → n + length (last_text r) ≡ length (request_wire r) + m
      → m < length (last_text r)
      → length (request_wire r) ≤ max_net_packet_size
      → S.read w fd max_net_packet_size ≡ (received (take n (request_wire r)), w')
      → read_from_client S (suc fuel) w fd
        ≡ some (
          of_obj (some (packet_of (Parse.received (request_payload (zeroed m r))) (zeroed m r))),
          w',
        )
  unfolding read_from_client read_whole_packet is_ok
  read_from_client-part fuel r m n w w' split cut small e =
      rw
        (round_done S fuel w fd [] max_net_packet_size max_net_packet_size (take n (request_wire r))
          w' (ap (S.read w fd) first_room ∙ e)
          (omega (arith, length-take n (request_wire r), length-header r, header-some r))
          (omega (arith, length-take n (request_wire r))))
        (rw (parsed-zeroed m n max_net_packet_size r split (omega arith) small (omega arith)) refl)
