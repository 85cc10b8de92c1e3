-- ===== src/KvWorker/Faults.antt =====
-- What src/server/kv_worker.cc does with a request that has arrived.
use sqpkv.Prelude.{
  ℕ, suc, ◌*◌, ◌%◌, ◌<◌, ◌≡◌, refl, none, some, [], arith, replicate, ◌-◌, length, Option-cases,
  inl, inr,
}
use sqpkv.Rocks.{Rocks}
use sqpkv.Rocks.Laws.{IterLaws}
use sqpkv.Sockets.{Sockets}
use sqpkv.Sockets.Laws.{Arrived}
use sqpkv.Status.{default_status, is_ok, is_err, is_eof}
use sqpkv.Packet.{Packet, packet_at}
use sqpkv.Packet.Wire.{Request, get, put, delete, get_all, request_payload, request_wire, packet_of}
use sqpkv.Packet.Parse.{received, create_command_packet-request_wire}
use sqpkv.Packet.Response.{
  response_at, build_get_response, build_put_response, build_delete_response,
  build_get_all_response, rocks_get_response, rocks_put_response, rocks_delete_response,
}
use sqpkv.Protocol.{max_net_packet_size, read_from_client}
use sqpkv.Protocol.Receive.{read_whole_packet-frame, read_whole_packet-end}
use sqpkv.KvRequestHandler.{collect_keys}
use sqpkv.KvRequestHandler.Serve.{serve}
use sqpkv.KvWorker.{left, crashed, serve_command, after_send, after_read, handle_client}

module _ (R : Rocks) (L : IterLaws R) (S : Sockets) (fd : ℕ) (A : Arrived S fd) where
  -- The database is changed, and then the response constructor writes through its null buffer.
  serve_command-packet_of :
      (keys_fuel : ℕ) (p : Packet) (r : Request) (w : Sockets.World S) (db : Rocks.Db R)
      → serve_command R S keys_fuel (packet_of p r) w fd db ≡ (none, (serve R L r db).1)
  unfolding serve_command packet_of serve rocks_get_response rocks_put_response
      rocks_delete_response build_get_response build_put_response build_delete_response
      build_get_all_response response_at packet_at
  serve_command-packet_of keys_fuel p (get key) w db = refl
  serve_command-packet_of keys_fuel p (put key value) w db = refl
  serve_command-packet_of keys_fuel p (delete key) w db = refl
  serve_command-packet_of keys_fuel p (get_all prefix) w db =
      elim (Option-cases (collect_keys R keys_fuel (R.seek (R.new_iterator db) prefix) prefix [])) [
        | inl e ↦ rw e refl
        | inr (keys, e) ↦ rw e refl
      ]

  read_request :
      (fuel : ℕ) (r : Request) (w : Sockets.World S)
      → A.pending w ≡ request_wire r
      → 0 < length (request_wire r) % max_net_packet_size
      → length (request_wire r) < 3 * max_net_packet_size
      → (w' : Sockets.World S) × (read_from_client S (suc (suc (suc fuel))) w fd
          ≡ some (
            record {
              status = default_status;
              obj = some (packet_of (received (request_payload r)) r);
            },
            w',
          ))
  unfolding read_from_client is_ok
  read_request fuel r w e odd short =
      let (w', capacity, read, rest) =
        read_whole_packet-frame S fd A fuel w (rw e odd) (rw e short) in
      (
        w',
        rw read (
            rw e (
              rw
                (create_command_packet-request_wire r
                  (replicate (capacity - length (request_wire r)) 0) (omega arith))
                refl)),
      )

  -- A request that has arrived on a connection that its client has closed behind it, of less than
  -- three chunks and no multiple of a chunk, is done on the database as the specification says, and
  -- then the worker faults before it answers, whatever the request is. Three reads are enough,
  -- whatever the fuel for the keys.
  pub handle_client-crashed :
      (rounds reads keys_fuel : ℕ) (r : Request) (w : Sockets.World S) (db : Rocks.Db R)
      → A.pending w ≡ request_wire r
      → 0 < length (request_wire r) % max_net_packet_size
      → length (request_wire r) < 3 * max_net_packet_size
      → handle_client R S (suc rounds) (suc (suc (suc reads))) keys_fuel w fd db
        ≡ crashed (serve R L r db).1
  unfolding handle_client after_read after_send is_err is_eof
  handle_client-crashed rounds reads keys_fuel r w db e odd short =
      let (w', read) = read_request reads r w e odd short in
      rw read (rw (serve_command-packet_of keys_fuel (received (request_payload r)) r w' db) refl)

  -- When the client has closed its stream, the worker leaves its loop and the database is as it was.
  pub handle_client-left :
      (rounds reads keys_fuel : ℕ) (w : Sockets.World S) (db : Rocks.Db R)
      → A.pending w ≡ []
      → (w' : Sockets.World S) × (handle_client R S (suc rounds) (suc reads) keys_fuel w fd db
          ≡ left w' db)
  unfolding handle_client after_read is_err is_eof read_from_client is_ok
  handle_client-left rounds reads keys_fuel w db e =
      let (w', capacity, ends) = read_whole_packet-end S fd A reads w e in (w', rw ends refl)
