-- ===== src/KvWorker.antt =====
-- src/server/kv_worker.cc: the worker that serves the commands of one client until it leaves. Its
-- thread is the run of `handle_client`; Stop closes the client's socket and waits for the run.
pub mod Faults
use sqpkv.Prelude.{ℕ, zero, suc, Bool, true, false, Option, none, some, List, [], ◌>>=◌}
use sqpkv.Rocks.{Rocks}
use sqpkv.Sockets.{Sockets}
use sqpkv.Status.{Status, default_status, is_err, is_eof}
use sqpkv.Packet.Command.{CommandPacket, get, put, delete, get_all}
use sqpkv.Packet.Response.{
  rocks_get_response, rocks_put_response, rocks_delete_response, build_get_all_response,
}
use sqpkv.Protocol.{send_packet, read_from_client}
use sqpkv.KvRequestHandler.{collect_keys}

-- The fields of the worker: clientfd_, of which -1 is `none`, and whether thread_ can be joined.
pub record KvWorker : Type 0 where
  pub clientfd : Option ℕ
  pub joinable : Bool

-- KvWorker(db, clientfd): the thread has been started.
abbrev pub new_worker : ℕ → KvWorker
new_worker clientfd = record { clientfd = some clientfd; joinable = true }

-- Stop(): thread_.join() waits for the run to end, and throws where the thread has been joined before.
unfoldable pub stop :
    (S : Sockets) → Sockets.World S → KvWorker → Option (KvWorker × Sockets.World S)
stop S w worker = elim worker.joinable [
  | false ↦ none
  | true ↦ some (
    record { clientfd = none; joinable = false },
    elim worker.clientfd [ some fd ↦ S.close w fd | none ↦ w ],
  )
]

module _ (R : Rocks) (S : Sockets) where
  -- How a run of the loop of HandleClient ends: it leaves the loop, it faults and takes the process
  -- with it (what has been done to the database stays), or the rounds given are not enough.
  pub data Run : Type 0 where
    left : Sockets.World S → Rocks.Db R → Run
    crashed : Rocks.Db R → Run
    running : Sockets.World S → Rocks.Db R → Run

  -- The switch over packet->GetOp(): the database afterwards, and net_status with the sockets, or
  -- `none` for a fault. The response packets take the default `buf`, a null pointer. `keys_fuel` is for
  -- the loop over the keys; where it is not enough the result is `none` too.
  pub serve_command :
      ℕ
      → CommandPacket
      → Sockets.World S
      → ℕ
      → Rocks.Db R
      → Option (Status × Sockets.World S) × Rocks.Db R
  serve_command keys_fuel (get p) w fd db =
      let (s, value) = R.get db p.key in
      (
        do (resp, _) ← rocks_get_response R s value none; send_packet S w fd resp.response.packet,
        db,
      )
  serve_command keys_fuel (put p) w fd db =
      let (s, db') = R.put db p.key p.value in
      (do (resp, _) ← rocks_put_response R s none; send_packet S w fd resp.response.packet, db')
  serve_command keys_fuel (delete p) w fd db =
      let (s, db') = R.delete db p.key in
      (do (resp, _) ← rocks_delete_response R s none; send_packet S w fd resp.response.packet, db')
  serve_command keys_fuel (get_all p) w fd db = (
    do
      keys ← collect_keys R keys_fuel (R.seek (R.new_iterator db) p.prefix) p.prefix []
      (resp, _) ← build_get_all_response default_status keys none
      send_packet S w fd resp.response.packet,
    db,
  )

  -- Behind the switch: the loop is left if the response was not sent.
  pub after_send :
      (Sockets.World S → Rocks.Db R → Run) → Option (Status × Sockets.World S) × Rocks.Db R → Run
  after_send later (none, db) = crashed db
  after_send later (some (net_status, w), db) = elim (is_err net_status) [
    | true ↦ left w db
    | false ↦ later w db
  ]

  -- Behind ReadFromClient: an error or the end of the stream leaves the loop, GetOp() on a null
  -- pointer faults.
  pub after_read :
      ℕ
      → (Sockets.World S → Rocks.Db R → Run)
      → Option (Status × Option CommandPacket × Sockets.World S)
      → ℕ
      → Rocks.Db R
      → Run
  unfolding after_send serve_command
  after_read keys_fuel later none fd db = crashed db
  after_read keys_fuel later (some (status, pointer, w)) fd db = elim (is_err status) [
    | true ↦ left w db
    | false ↦ elim (is_eof status) [
      | true ↦ left w db
      | false ↦ elim pointer [
        | none ↦ crashed db
        | some packet ↦ after_send later (serve_command keys_fuel packet w fd db)
      ]
    ]
  ]

  -- HandleClient(db, clientfd): `fuel` rounds of the loop, and `read_fuel` reads for each packet.
  pub handle_client : ℕ → ℕ → ℕ → Sockets.World S → ℕ → Rocks.Db R → Run
  unfolding after_read read_from_client
  handle_client zero read_fuel keys_fuel w fd db = running w db
  handle_client (suc fuel) read_fuel keys_fuel w fd db =
      after_read keys_fuel (λ w' db'. handle_client fuel read_fuel keys_fuel w' fd db')
        (do (packet, w') ← read_from_client S read_fuel w fd; some (packet.status, packet.obj, w'))
        fd db
