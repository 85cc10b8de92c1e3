-- ===== src/Packet/Reply.antt =====
-- The response formats of the comments in src/protocol/packet.h, as byte sequences, and the objects
-- that the constructors of src/protocol/packet.cc make for a reply. The op code of a delete response
-- is the one that its constructor writes, kPut.
use sqpkv.Prelude.{ℕ, ◌+◌, Option, some, List, [], ◌∷◌, ◌++◌, length, ◌>>=◌}
use sqpkv.Memory.{Block, u32_bytes}
use sqpkv.Status.{Status, code_byte, default_status}
use sqpkv.Packet.{k_get, k_put, k_get_all, op_byte, Packet}
use sqpkv.Packet.Cursor.{sized, sized_all}
use sqpkv.Packet.Response.{
  ResponsePacket, build_get_response, build_put_response, build_delete_response,
  build_get_all_response,
}
use sqpkv.Packet.Factory.{
  AnyResponse, get_response, put_response, delete_response, get_all_response,
}

-- What a server answers.
pub data Reply : Type 0 where
  get : Status → List ℕ → Reply
  put : Status → Reply
  delete : Status → Reply
  get_all : Status → List (List ℕ) → Reply

abbrev pub status_part : Status → List ℕ
status_part s = code_byte s.code ∷ sized s.message

unfoldable pub reply_payload : Reply → List ℕ
unfolding op_byte
reply_payload (get s value) = op_byte k_get ∷ (status_part s ++ sized value)
reply_payload (put s) = op_byte k_put ∷ status_part s
reply_payload (delete s) = op_byte k_put ∷ status_part s
reply_payload (get_all s keys) =
    op_byte k_get_all ∷ (status_part s ++ (u32_bytes (length keys) ++ sized_all keys))

-- The payload size that the constructor declares. That of a get-all response counts the fixed header
-- and the keys, four bytes more, and no status message.
unfoldable pub reply_size : Reply → ℕ
reply_size (get_all s keys) = 14 + length (sized_all keys)
reply_size r = length (reply_payload r)

-- What the constructor writes.
unfoldable pub reply_wire : Reply → List ℕ
unfolding reply_payload reply_size
reply_wire r = u32_bytes (reply_size r) ++ reply_payload r

abbrev pub status_of_reply : Reply → Status
status_of_reply (get s _) = s
status_of_reply (put s) = s
status_of_reply (delete s) = s
status_of_reply (get_all s _) = s

abbrev base : Packet → Status → Status → ResponsePacket
base p s shown = record { packet = p; status = shown; extra_header_size = 6 + length s.message }

-- The object that a received reply is parsed into; a delete response becomes a put response.
unfoldable pub parsed_as : Packet → Reply → AnyResponse
parsed_as p (get s value) = get_response (record { response = base p s s; value = value })
parsed_as p (put s) = put_response (record { response = base p s s })
parsed_as p (delete s) = put_response (record { response = base p s s })
parsed_as p (get_all s keys) = get_all_response (record { response = base p s s; keys = keys })

-- The object that the constructor for a reply leaves: its status is the default one.
unfoldable pub built_as : Packet → Reply → AnyResponse
built_as p (get s value) = get_response (record { response = base p s default_status; value = [] })
built_as p (put s) = put_response (record { response = base p s default_status })
built_as p (delete s) = delete_response (record { response = base p s default_status })
built_as p (get_all s keys) =
    get_all_response (record { response = base p s default_status; keys = keys })

-- The constructor that a reply is built by.
unfoldable pub build_reply : Reply → Option Block → Option (AnyResponse × Block)
build_reply (get s value) buf = do
  (p, blk) ← build_get_response s value buf
  some (get_response p, blk)
build_reply (put s) buf = do (p, blk) ← build_put_response s buf; some (put_response p, blk)
build_reply (delete s) buf = do
  (p, blk) ← build_delete_response s buf
  some (delete_response p, blk)
build_reply (get_all s keys) buf = do
  (p, blk) ← build_get_all_response s keys buf
  some (get_all_response p, blk)
