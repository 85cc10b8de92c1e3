-- ===== src/Packet/Factory.antt =====
-- src/protocol/packet.cc: CommandPacketFactory and ResponsePacketFactory. The outer `none` is a
-- fault, `some none` is the null pointer that the factories give for an unknown op code.
use sqpkv.Prelude.{Option, none, some, ◌>>=◌}
use sqpkv.Memory.{Block}
use sqpkv.Packet.{OpCode, k_get, k_put, k_delete, k_get_all, op_of_byte, read_char}
use sqpkv.Packet.Command.{
  CommandPacket, get, put, delete, get_all, get_of_buf, put_of_buf, delete_of_buf, get_all_of_buf,
}
use sqpkv.Status.{Status}
use sqpkv.Packet.Response.{
  GetResponsePacket, PutResponsePacket, DeleteResponsePacket, GetAllResponsePacket,
  get_response_of_buf, put_response_of_buf, delete_response_of_buf, get_all_response_of_buf,
}

-- The dynamic class of a `ResponsePacket`.
pub data AnyResponse : Type 0 where
  get_response : GetResponsePacket → AnyResponse
  put_response : PutResponsePacket → AnyResponse
  delete_response : DeleteResponsePacket → AnyResponse
  get_all_response : GetAllResponsePacket → AnyResponse

-- ResponsePacket::status(), whatever the class
unfoldable pub status_of : AnyResponse → Status
status_of (get_response r) = r.response.status
status_of (put_response r) = r.response.status
status_of (delete_response r) = r.response.status
status_of (get_all_response r) = r.response.status

unfoldable pub make_command : Option OpCode → Block → Option (Option CommandPacket)
make_command (some k_get) buf = do p ← get_of_buf buf; some (some (get p))
make_command (some k_put) buf = do p ← put_of_buf buf; some (some (put p))
make_command (some k_delete) buf = do p ← delete_of_buf buf; some (some (delete p))
make_command (some k_get_all) buf = do p ← get_all_of_buf buf; some (some (get_all p))
make_command none buf = some none

unfoldable pub create_command_packet : Block → Option (Option CommandPacket)
unfolding make_command op_of_byte read_char
create_command_packet buf = do (b, _) ← read_char buf 4; make_command (op_of_byte b) buf

unfoldable pub make_response : Option OpCode → Block → Option (Option AnyResponse)
make_response (some k_get) buf = do p ← get_response_of_buf buf; some (some (get_response p))
make_response (some k_put) buf = do p ← put_response_of_buf buf; some (some (put_response p))
make_response (some k_delete) buf = do
  p ← delete_response_of_buf buf
  some (some (delete_response p))
make_response (some k_get_all) buf = do
  p ← get_all_response_of_buf buf
  some (some (get_all_response p))
make_response none buf = some none

unfoldable pub create_response_packet : Block → Option (Option AnyResponse)
unfolding make_response op_of_byte read_char
create_response_packet buf = do (b, _) ← read_char buf 4; make_response (op_of_byte b) buf
