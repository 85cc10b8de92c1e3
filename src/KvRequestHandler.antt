-- ===== src/KvRequestHandler.antt =====
-- src/server/kv_request_handler.h and kv_request_handler.cc: the handler that serves one command from
-- an input buffer and writes the response into an output buffer. The database is an argument and a
-- result. `none` is a fault, or a key loop that has not ended within the fuel.
pub mod Scan
pub mod Serve
pub mod Refine
pub mod Store
use sqpkv.Prelude.{
  ℕ, zero, suc, Option, none, some, List, [], ◌∷◌, ◌++◌, ◌&&◌, ◌>>=◌, if◌then◌else◌,
}
use sqpkv.Memory.{Block}
use sqpkv.Rocks.{Rocks}
use sqpkv.Status.{Status, StatusOr, default_status, of_obj}
use sqpkv.Packet.{Packet, to_binary}
use sqpkv.Packet.Command.{CommandPacket, get, put, delete, get_all}
use sqpkv.Packet.Response.{
  ResponsePacket, rocks_get_response, rocks_put_response, rocks_delete_response,
  build_get_all_response,
}
use sqpkv.Packet.Factory.{create_command_packet}

module _ (R : Rocks) where
  -- for (...; iter->Valid() && iter->key().starts_with(prefix); iter->Next()) keys.push_back(...)
  pub collect_keys : ℕ → Rocks.Iter R → List ℕ → List (List ℕ) → Option (List (List ℕ))
  collect_keys zero iter prefix keys = none
  collect_keys (suc fuel) iter prefix keys =
      let rest = collect_keys fuel (R.next iter) prefix (keys ++ (R.key iter ∷ [])) in
      if R.valid iter && R.starts_with (R.key iter) prefix then rest else some keys

  -- The size that HandleReadCompletion returns, the output buffer, and the database.
  pub record Handled : Type 0 where
    pub size : StatusOr ℕ
    pub out : Block
    pub db : Rocks.Db R

  -- *size = response.ToBinary().size_
  handled : ResponsePacket → Block → Rocks.Db R → Handled
  handled r out db = record { size = of_obj (some (to_binary r.packet).size); out = out; db = db }

  -- The switch over packet->GetOp(), each case with its cast.
  pub dispatch : ℕ → CommandPacket → Block → Rocks.Db R → Option Handled
  unfolding handled
  dispatch fuel (get p) out db = do
    let (s, value) = R.get db p.key
    (resp, out') ← rocks_get_response R s value (some out)
    some (handled resp.response out' db)
  dispatch fuel (put p) out db = do
    let (s, db') = R.put db p.key p.value
    (resp, out') ← rocks_put_response R s (some out)
    some (handled resp.response out' db')
  dispatch fuel (delete p) out db = do
    let (s, db') = R.delete db p.key
    (resp, out') ← rocks_delete_response R s (some out)
    some (handled resp.response out' db')
  dispatch fuel (get_all p) out db = do
    keys ← collect_keys fuel (R.seek (R.new_iterator db) p.prefix) p.prefix []
    (resp, out') ← build_get_all_response default_status keys (some out)
    some (handled resp.response out' db)

  -- HandleReadCompletion: GetOp() is called on the factory's pointer, which may be null.
  pub handle_read_completion : ℕ → Block → Block → Rocks.Db R → Option Handled
  unfolding dispatch
  handle_read_completion fuel in_buffer out_buffer db = do
    pointer ← create_command_packet in_buffer
    packet ← pointer
    dispatch fuel packet out_buffer db
