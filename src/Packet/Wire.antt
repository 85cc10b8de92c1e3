-- ===== src/Packet/Wire.antt =====
-- The packet formats of the comments in src/protocol/packet.h, as byte sequences.
use sqpkv.Prelude.{ℕ, Option, List, ◌∷◌, ◌++◌, ◌>>=◌, some}
use sqpkv.Memory.{Block}
use sqpkv.Packet.{k_get, k_put, k_delete, k_get_all, op_byte, Packet}
use sqpkv.Packet.Cursor.{sized}
use sqpkv.Packet.Command.{CommandPacket, build_get, build_put, build_delete, build_get_all}
use sqpkv.Packet.Command

-- What a client asks for.
pub data Request : Type 0 where
  get : List ℕ → Request
  put : List ℕ → List ℕ → Request
  delete : List ℕ → Request
  get_all : List ℕ → Request

unfoldable pub request_payload : Request → List ℕ
unfolding op_byte
request_payload (get key) = op_byte k_get ∷ sized key
request_payload (put key value) = op_byte k_put ∷ (sized key ++ sized value)
request_payload (delete key) = op_byte k_delete ∷ sized key
request_payload (get_all prefix) = op_byte k_get_all ∷ sized prefix

-- The whole packet: the payload behind its size.
unfoldable pub request_wire : Request → List ℕ
unfolding request_payload
request_wire r = sized (request_payload r)

-- The packet object for a request, around its base object.
unfoldable pub packet_of : Packet → Request → CommandPacket
packet_of p (get key) = Command.get (record { packet = p; key = key })
packet_of p (put key value) = Command.put (record { packet = p; key = key; value = value })
packet_of p (delete key) = Command.delete (record { packet = p; key = key })
packet_of p (get_all prefix) = Command.get_all (record { packet = p; prefix = prefix })

-- The constructor that a request is built by.
unfoldable pub build : Request → Option Block → Option (CommandPacket × Block)
unfolding build_get build_put build_delete build_get_all
build (get key) buf = do (p, blk) ← build_get key buf; some (Command.get p, blk)
build (put key value) buf = do (p, blk) ← build_put key value buf; some (Command.put p, blk)
build (delete key) buf = do (p, blk) ← build_delete key buf; some (Command.delete p, blk)
build (get_all prefix) buf = do (p, blk) ← build_get_all prefix buf; some (Command.get_all p, blk)
