-- ===== src/KvRequestHandler/Refine.antt =====
-- The handler of src/server/kv_request_handler.cc answers every request in the packet format with the
-- reply of its specification.
use sqpkv.Prelude.{
  ℕ, ◌+◌, ◌≤◌, ◌<◌, ◌≡◌, refl, sym, ◌∙◌, Option, some, ◌++◌, arith, length, length-drop, drop,
  ◌>>=◌, bind_assoc,
}
use sqpkv.Memory.{Block, u32_mod}
use sqpkv.Memory.Laws.{filled}
use sqpkv.Rocks.{Rocks}
use sqpkv.Rocks.Keys.{matching}
use sqpkv.Rocks.Laws.{IterLaws}
use sqpkv.Status.{default_status, of_obj, of_rocks}
use sqpkv.Packet.{Packet, to_binary}
use sqpkv.Packet.Response.{
  ResponsePacket, rocks_get_response, rocks_put_response, rocks_delete_response, build_get_response,
  build_put_response, build_delete_response, build_get_all_response,
}
use sqpkv.Packet.Factory.{
  AnyResponse, get_response, put_response, delete_response, get_all_response,
  create_response_packet,
}
use sqpkv.Packet.Wire.{Request, get, put, delete, get_all, request_payload, request_wire, packet_of}
use sqpkv.Packet.Parse.{received, create_command_packet-request_wire}
use sqpkv.Packet.Build.{released}
use sqpkv.Packet.Reply.{
  Reply, reply_size, reply_wire, reply_payload, built_as, build_reply, parsed_as,
}
use sqpkv.Packet.ParseReply.{WellCoded, slack_of, create_response_packet-reply_wire}
use sqpkv.Status.Laws.{of_rocks-cases}
use sqpkv.Packet.BuildReply.{build_reply-reply_wire}
use sqpkv.KvRequestHandler.{Handled, dispatch, handle_read_completion}
use sqpkv.KvRequestHandler.Scan.{collect_keys-matching}
use sqpkv.KvRequestHandler.Serve.{serve}

-- The base object of a response.
abbrev base_of : AnyResponse → ResponsePacket
base_of (get_response r) = r.response
base_of (put_response r) = r.response
base_of (delete_response r) = r.response
base_of (get_all_response r) = r.response

base-built_as : (p : Packet) (r : Reply) → (base_of (built_as p r)).packet ≡ p
unfolding built_as
base-built_as p (Reply.get s value) = refl
base-built_as p (Reply.put s) = refl
base-built_as p (Reply.delete s) = refl
base-built_as p (Reply.get_all s keys) = refl

length-reply_wire : (r : Reply) → length (reply_wire r) ≡ 4 + length (reply_payload r)
unfolding reply_wire
length-reply_wire r = omega arith

size_released : (n : ℕ) → n + 4 < u32_mod → (to_binary (released n)).size ≡ n + 4
unfolding to_binary
size_released n h = omega arith

module _ (R : Rocks) (L : IterLaws R) where
  abbrev answer : Rocks.Db R → AnyResponse × Block → Option (Handled R)
  answer db built = some (record {
    size = of_obj (some (to_binary (base_of built.0).packet).size);
    out = built.1;
    db = db;
  })

  -- Each case of the switch builds the response for the reply of the specification.
  dispatch-build_reply :
      (fuel : ℕ) (p : Packet) (r : Request) (out : Block) (db : Rocks.Db R)
      → length (L.listing db) < fuel
      → dispatch R fuel (packet_of p r) out db
        ≡ (build_reply (serve R L r db).0 (some out) >>= answer (serve R L r db).1)
  unfolding dispatch packet_of serve build_reply rocks_get_response rocks_put_response
      rocks_delete_response
  dispatch-build_reply fuel p (get key) out db h = sym (
      bind_assoc (build_get_response (of_rocks R (R.get db key).0) (R.get db key).1 (some out)) _ _)
  dispatch-build_reply fuel p (put key value) out db h =
      sym (bind_assoc (build_put_response (of_rocks R (R.put db key value).0) (some out)) _ _)
  dispatch-build_reply fuel p (delete key) out db h =
      sym (bind_assoc (build_delete_response (of_rocks R (R.delete db key).0) (some out)) _ _)
  dispatch-build_reply fuel p (get_all prefix) out db h =
      rw (collect_keys-matching R L fuel db prefix h) (
        sym (
          bind_assoc
            (build_get_all_response default_status (matching prefix (L.listing db)) (some out)) _
            _))

  -- The room that the handler needs for a reply: sizes in uint32_t, and the output buffer.
  abbrev pub Fits : Reply → Block → Type 0
  Fits r out =
      (reply_size r + 4 < u32_mod)
      × (length (reply_wire r) < u32_mod)
      × (length (reply_wire r) ≤ length out)

  -- On an input buffer that begins with a request in the packet format, the handler gives the
  -- database of the specification, writes the reply of the specification in the packet format over the
  -- front of the output buffer, and returns the declared size plus four. (The fuel has to cover the
  -- keys of the database, the request and the reply have to fit a uint32_t, and the output buffer needs
  -- room for the reply.)
  pub handle_read_completion-serve :
      (fuel : ℕ) (r : Request) (rest out : Block) (db : Rocks.Db R)
      → length (L.listing db) < fuel
      → length (request_wire r) < u32_mod
      → Fits (serve R L r db).0 out
      → handle_read_completion R fuel (request_wire r ++ rest) out db
        ≡ some (record {
          size = of_obj (some (reply_size (serve R L r db).0 + 4));
          out = filled (reply_wire (serve R L r db).0) out;
          db = (serve R L r db).1;
        })
  unfolding handle_read_completion
  handle_read_completion-serve fuel r rest out db enough small (size_fits, wire_fits, room) =
      rw (create_command_packet-request_wire r rest small) (
        dispatch-build_reply fuel (received (request_payload r)) r out db enough
        ∙ rw (build_reply-reply_wire (serve R L r db).0 out (omega arith) wire_fits room) (
            rw (base-built_as (released (reply_size (serve R L r db).0)) (serve R L r db).0)
              (rw (size_released (reply_size (serve R L r db).0) size_fits))))

  -- For every reply of the handler the declared size covers the payload: the message of a get-all
  -- reply is that of Status::Ok().
  covers-serve :
      (r : Request) (db : Rocks.Db R)
      → length (reply_payload (serve R L r db).0) ≤ reply_size (serve R L r db).0
  unfolding serve reply_payload reply_size
  covers-serve (get key) db = omega arith
  covers-serve (put key value) db = omega arith
  covers-serve (delete key) db = omega arith
  covers-serve (get_all prefix) db = omega arith

  coded-serve : (r : Request) (db : Rocks.Db R) → WellCoded (serve R L r db).0
  unfolding serve
  coded-serve (get key) db = (of_rocks-cases R (R.get db key).0).3
  coded-serve (put key value) db = (of_rocks-cases R (R.put db key value).0).3
  coded-serve (delete key) db = (of_rocks-cases R (R.delete db key).0).3
  coded-serve (get_all prefix) db = tt

  -- What the handler leaves in the output buffer, read as a response packet, is the object of the
  -- specification's reply, with its status and its value or keys. (The fuel has to cover the keys of
  -- the database, the request and the reply have to fit a uint32_t, and the output buffer needs room
  -- for the reply and for the size that it declares.)
  pub create_response_packet-handle :
      (fuel : ℕ) (r : Request) (rest out : Block) (db : Rocks.Db R)
      → length (L.listing db) < fuel
      → length (request_wire r) < u32_mod
      → Fits (serve R L r db).0 out
      → 4 + reply_size (serve R L r db).0 ≤ length out
      → (handle_read_completion R fuel (request_wire r ++ rest) out db >>= λ handled.
          create_response_packet handled.out)
        ≡ some (
            some (
              parsed_as
                (received (
                  reply_payload (serve R L r db).0
                  ++ slack_of
                      (serve R L r db).0
                      (drop (length (reply_wire (serve R L r db).0)) out)))
                (serve R L r db).0))
  create_response_packet-handle fuel r rest out db enough small (size_fits, wire_fits, room)
        covered =
      rw (handle_read_completion-serve fuel r rest out db enough small (size_fits, wire_fits, room))
        (create_response_packet-reply_wire (serve R L r db).0
          (drop (length (reply_wire (serve R L r db).0)) out) (coded-serve r db) (omega arith)
          (covers-serve r db)
          (omega (
            arith,
            length-reply_wire (serve R L r db).0,
            covers-serve r db,
            length-drop (length (reply_wire (serve R L r db).0)) out,
          )))
