-- ===== src/Packet/ParseReply.antt =====
-- ResponsePacketFactory of src/protocol/packet.cc on received bytes.
use sqpkv.Prelude.{
  ℕ, suc, ◌+◌, ◌-◌, ◌%◌, ◌≤◌, ◌<◌, ◌≡◌, refl, ap, sym, ◌∙◌, some, List, [], ◌∷◌, ◌++◌, arith,
  append_assoc, drop, take, length, length-append, length-take, take-append-drop,
}
use sqpkv.Memory.{u32_mod, u32_bytes}
use sqpkv.Memory.Laws.{load-append}
use sqpkv.Status.{Status, code_byte}
use sqpkv.Status.Laws.{IsCode, code_of_byte-code_byte}
use sqpkv.Packet.{op_of_byte, read_char}
use sqpkv.Packet.Cursor.{sized, sized_all, read_u32-at, read_char-at, read_slice-at}
use sqpkv.Packet.Strings.{read_slices-at, length-le-sized_all}
use sqpkv.Packet.Parse.{received, packet_of_buf-sized}
use sqpkv.Packet.Response.{
  ResponsePacket, response_of_buf, parse_status, get_response_of_buf, put_response_of_buf,
  get_all_response_of_buf,
}
use sqpkv.Packet.Factory.{create_response_packet, make_response}
use sqpkv.Packet.Reply.{
  Reply, get, put, delete, get_all, status_part, status_of_reply, reply_payload, reply_size,
  reply_wire, parsed_as,
}

-- A payload that begins with an op code and a status.
module _ (op : ℕ) (s : Status) (body rest : List ℕ) (coded : IsCode s.code) where
  abbrev payload : List ℕ
  payload = op ∷ (status_part s ++ body)

  abbrev head : List ℕ
  head = u32_bytes (length payload) ++ (op ∷ status_part s)

  abbrev response : ResponsePacket
  response = record {
    packet = received payload;
    status = s;
    extra_header_size = 6 + length s.message;
  }

  response_of_buf-sized :
      4 + length payload < u32_mod → response_of_buf (sized payload ++ rest) ≡ some response
  unfolding response_of_buf parse_status
  response_of_buf-sized small = rw (packet_of_buf-sized payload rest small) (
      rw
        (read_char-at (sized payload) (u32_bytes (length payload) ++ (op ∷ [])) 5 refl
          (code_byte s.code) (sized s.message ++ body) refl)
        (rw
          (read_u32-at (sized payload) (u32_bytes (length payload) ++ (op ∷ code_byte s.code ∷ []))
            6 refl (length s.message) (s.message ++ body) refl (omega (arith, grown)))
          (rw
            (load-append
              (u32_bytes (length payload) ++ (op ∷ code_byte s.code ∷ u32_bytes (length s.message)))
              s.message body)
            (rw (code_of_byte-code_byte s.code coded) (rw extra)))))
    where
      grown : length payload ≡ 6 + length s.message + length body
      grown = omega (arith, length-append s.message body)

      extra : (6 + length s.message) % u32_mod ≡ 6 + length s.message
      extra = omega (arith, grown)

op_read :
    (payload rest : List ℕ) (op : ℕ) → read_char (sized (op ∷ payload) ++ rest) 4 ≡ some (op, 5)
op_read payload rest op =
    read_char-at _ (u32_bytes (suc (length payload))) 4 refl op (payload ++ rest) refl

abbrev pub WellCoded : Reply → Type 0
WellCoded r = IsCode (status_of_reply r).code

-- Bytes that begin with a reply's payload behind a size that covers it, with some slack.
parse_slack :
    (r : Reply) (slack rest : List ℕ)
    → WellCoded r
    → 4 + length (reply_payload r ++ slack) < u32_mod
    → create_response_packet (sized (reply_payload r ++ slack) ++ rest)
      ≡ some (some (parsed_as (received (reply_payload r ++ slack)) r))
unfolding create_response_packet make_response op_of_byte parsed_as reply_payload
    get_response_of_buf put_response_of_buf get_all_response_of_buf
parse_slack (get s value) slack rest coded small =
    rw (op_read (status_part s ++ sized value ++ slack) rest 0) (
      rw regroup (
        rw (response_of_buf-sized 0 s (sized value ++ slack) rest coded (rw regroup at small)) (
          rw (
            read_slice-at (sized (payload 0 s (sized value ++ slack) rest coded))
              (head 0 s (sized value ++ slack) rest coded) (4 + (6 + length s.message))
              (omega arith) value slack refl
              (omega (
                arith,
                small,
                length-append s.message (sized value),
                length-append (s.message ++ sized value) slack,
              ))))))
  where
    regroup : (s.message ++ sized value) ++ slack ≡ s.message ++ (sized value ++ slack)
    regroup = append_assoc s.message (sized value) slack
parse_slack (put s) slack rest coded small =
    rw (op_read (status_part s ++ slack) rest 1)
      (rw (response_of_buf-sized 1 s slack rest coded small))
parse_slack (delete s) slack rest coded small =
    rw (op_read (status_part s ++ slack) rest 1)
      (rw (response_of_buf-sized 1 s slack rest coded small))
parse_slack (get_all s keys) slack rest coded small =
    rw (op_read (status_part s ++ counted ++ slack) rest 3) (
      rw regroup (
        rw (response_of_buf-sized 3 s body rest coded (rw regroup at small)) (
          rw
            (read_u32-at whole front (4 + (6 + length s.message)) (omega arith) (length keys)
              (sized_all keys ++ slack) refl (omega (arith, fits, length-le-sized_all keys)))
            (rw (
              read_slices-at whole (front ++ u32_bytes (length keys)) slack
                (4 + (6 + length s.message) + 4) keys
                (omega (arith, length-append front (u32_bytes (length keys))))
                (sym (append_assoc front (u32_bytes (length keys)) (sized_all keys ++ slack)))
                (omega (arith, fits)))))))
  where
    counted : List ℕ
    counted = u32_bytes (length keys) ++ sized_all keys

    body : List ℕ
    body = counted ++ slack

    regroup : (s.message ++ counted) ++ slack ≡ s.message ++ body
    regroup = append_assoc s.message counted slack

    whole : List ℕ
    whole = sized (payload 3 s body rest coded)

    front : List ℕ
    front = head 3 s body rest coded

    fits : 4 + length (sized_all keys) < u32_mod
    fits =
        omega (
          arith,
          small,
          length-append s.message counted,
          length-append (s.message ++ counted) slack,
        )

-- The bytes behind the payload that the declared size counts too.
abbrev pub slack_of : Reply → List ℕ → List ℕ
slack_of r more = take (reply_size r - length (reply_payload r)) more

-- Bytes that begin with what a response constructor writes are parsed into the reply's object, with
-- the reply's status, and its value or keys, if the declared size covers the payload and that many
-- bytes are there. A delete response comes back as a put response.
pub create_response_packet-reply_wire :
    (r : Reply) (more : List ℕ)
    → WellCoded r
    → 4 + reply_size r < u32_mod
    → length (reply_payload r) ≤ reply_size r
    → reply_size r ≤ length (reply_payload r) + length more
    → create_response_packet (reply_wire r ++ more)
      ≡ some (some (parsed_as (received (reply_payload r ++ slack_of r more)) r))
unfolding reply_wire
create_response_packet-reply_wire r more coded small covers there =
    rw same (parse_slack r slack (drop k more) coded (omega (arith, total)))
  where
    k : ℕ
    k = reply_size r - length (reply_payload r)

    slack : List ℕ
    slack = slack_of r more

    total : length (reply_payload r ++ slack) ≡ reply_size r
    total = omega (arith, length-append (reply_payload r) slack, length-take k more)

    same : reply_wire r ++ more ≡ sized (reply_payload r ++ slack) ++ drop k more
    same = rw total (
        ap (λ (t : List ℕ). u32_bytes (reply_size r) ++ t)
          (ap (λ (t : List ℕ). reply_payload r ++ t) (sym (take-append-drop k more))
            ∙ sym (append_assoc (reply_payload r) slack (drop k more))))
