-- ===== src/ShardingProxyWorker.antt =====
-- src/server/sharding_proxy_worker.cc: the worker that passes the commands of one client on to the
-- servers of the shards and their answers back. `none` is a fault, or a loop that has not ended within
-- its fuel.
pub mod Shards
pub mod Gather
pub mod Create
pub mod Dispatch
use sqpkv.Prelude.{
  ◌>>=◌, length, ℕ, zero, suc, Bool, true, false, Option, none, some, List, [], ◌∷◌, ◌++◌, ◌>>=◌,
}
use sqpkv.Prelude.Int.{ℤ, pos, negsuc}
use sqpkv.Sockets.{Sockets}
use sqpkv.Network.{Network, sock_connect_to}
use sqpkv.Status.{
  Status, StatusOr, of_obj, of_status, err_errno, default_status, is_ok, is_err, is_eof,
}
use sqpkv.Packet.{Binary, to_binary}
use sqpkv.Packet.Command.{CommandPacket, get, put, delete, get_all}
use sqpkv.Packet.Response.{GetAllResponsePacket, build_get_all_response, add_keys}
use sqpkv.Packet.Factory.{AnyResponse, get_all_response}
use sqpkv.Protocol.{send_slice, send_packet, forward_packet, read_from_client, read_from_server}
use sqpkv.Sharding.{RoundRobinShardingPolicy, get_shard_id}

-- The fields of the worker but its thread.
pub record ShardingProxyWorker : Type 0 where
  pub clientfd : ℕ
  pub shard_servers : List ℕ
  pub sharding_policy : RoundRobinShardingPolicy

-- The constructor: the policy is for as many nodes as there are servers.
abbrev pub proxy_for : ℕ → List ℕ → ShardingProxyWorker
proxy_for clientfd server_fds = record {
  clientfd = clientfd;
  shard_servers = server_fds;
  sharding_policy = record { num_nodes = length server_fds };
}

-- shard_servers_[i]
unfoldable pub server_at : List ℕ → ℕ → Option ℕ
server_at [] i = none
server_at (fd ∷ fds) zero = some fd
server_at (fd ∷ fds) (suc i) = server_at fds i

-- shard_servers_[shard_id - 1]: a negative index reads before the vector.
pub server_of : List ℕ → ℤ → Option ℕ
server_of fds (pos zero) = none
server_of fds (pos (suc i)) = server_at fds i
server_of fds (negsuc n) = none

pub choose_server : ShardingProxyWorker → List ℕ → Option ℕ
unfolding server_of
choose_server proxy key = do
  shard_id ← get_shard_id proxy.sharding_policy key
  server_of proxy.shard_servers shard_id

module _ (S : Sockets) (proxy : ShardingProxyWorker) (fuel : ℕ) where
  -- DispatchPacket(key, data, protocol)
  pub dispatch_packet : List ℕ → Binary → Sockets.World S → Option (Status × Sockets.World S)
  unfolding choose_server
  dispatch_packet key binary w = do
    serverfd ← choose_server proxy key
    (status, w1) ← send_slice S w serverfd binary
    elim (is_err status) [
      | true ↦ some (status, w1)
      | false ↦ forward_packet S fuel w1 serverfd proxy.clientfd
    ]

  -- The first loop over the servers for GET_ALL.
  unfoldable pub scatter : List ℕ → Binary → Sockets.World S → Option (Status × Sockets.World S)
  scatter [] binary w = some (default_status, w)
  scatter (serverfd ∷ fds) binary w = do
    (status, w1) ← send_slice S w serverfd binary
    elim (is_ok status) [ true ↦ scatter fds binary w1 | false ↦ some (status, w1) ]

  -- get_all_resp->AddKeys(keys) behind the cast: a null pointer, or an object of another class, faults.
  abbrev add_keys_of : Option AnyResponse → List (List ℕ) → Option (List (List ℕ))
  add_keys_of (some (get_all_response r)) keys = some (add_keys r keys)
  add_keys_of _ keys = none

  -- The second loop: the keys of each answer behind those of the answers before.
  pub gather :
      List ℕ → List (List ℕ) → Sockets.World S → Option (Status × List (List ℕ) × Sockets.World S)
  unfolding add_keys
  gather [] keys w = some (default_status, keys, w)
  gather (serverfd ∷ fds) keys w = do
    (resp, w1) ← read_from_server S fuel w serverfd
    elim (is_ok resp.status) [
      | true ↦ do keys' ← add_keys_of resp.obj keys; gather fds keys' w1
      | false ↦ some (resp.status, keys, w1)
    ]

  -- The switch over packet->GetOp(), with the status that it leaves.
  pub proxy_command : CommandPacket → Sockets.World S → Option (Status × Sockets.World S)
  unfolding dispatch_packet scatter gather
  proxy_command (get p) w = dispatch_packet p.key (to_binary p.packet) w
  proxy_command (put p) w = dispatch_packet p.key (to_binary p.packet) w
  proxy_command (delete p) w = dispatch_packet p.key (to_binary p.packet) w
  proxy_command (get_all p) w = do
    (sent, w1) ← scatter proxy.shard_servers (to_binary p.packet) w
    elim (is_ok sent) [
      | false ↦ some (sent, w1)
      | true ↦ do
        (read, keys, w2) ← gather proxy.shard_servers [] w1
        elim (is_ok read) [
          | false ↦ some (read, w2)
          | true ↦ do
            (resp, _) ← build_get_all_response default_status keys none
            send_packet S w2 proxy.clientfd resp.response.packet
        ]
    ]

  -- HandleClient(proxy): `rounds` rounds of the loop, which ends where the status is not OK.
  unfoldable pub proxy_client : ℕ → Sockets.World S → Option (Sockets.World S)
  unfolding proxy_command
  proxy_client zero w = none
  proxy_client (suc rounds) w = do
    (packet, w1) ← read_from_client S fuel w proxy.clientfd
    elim (is_err packet.status) [
      | true ↦ some w1
      | false ↦ elim (is_eof packet.status) [
        | true ↦ some w1
        | false ↦ do
          command ← packet.obj
          (status, w2) ← proxy_command command w1
          elim (is_ok status) [ true ↦ proxy_client rounds w2 | false ↦ some w2 ]
      ]
    ]

-- close(fd) for each of the descriptors
pub close_all : (S : Sockets) → Sockets.World S → List ℕ → Sockets.World S
close_all S w [] = w
close_all S w (fd ∷ fds) = close_all S (S.close w fd) fds

-- What Stop works on: clientfd_, of which -1 is `none`, shard_servers_, and whether thread_ can be joined.
abbrev pub Stoppable : Type 0
Stoppable = Option ℕ × List ℕ × Bool

-- Stop(): thread_.join() waits for the run to end, and throws where the thread has been joined before.
pub stop_proxy : (S : Sockets) → Sockets.World S → Stoppable → Option (Stoppable × Sockets.World S)
unfolding close_all
stop_proxy S w (clientfd, shard_servers, false) = none
stop_proxy S w (clientfd, shard_servers, true) =
    let w1 : Sockets.World S = elim clientfd [ none ↦ w | some fd ↦ S.close w fd ] in
    some ((none, [], false), close_all S w1 shard_servers)

-- ~ShardingProxyWorker(): what Stop throws leaves a destructor, which ends the program.
unfoldable pub destroy_proxy :
    (S : Sockets) → Sockets.World S → Stoppable → Option (Sockets.World S)
unfolding stop_proxy
destroy_proxy S w proxy = do (_, w') ← stop_proxy S w proxy; some w'

module _ (S : Sockets) (N : Network S) where
  -- `server_fd << 0` is not zero for every descriptor but 0, and for -1.
  -- The loop of CreateProxy over the hostnames: `s` and `server_fds` behind it.
  pub connect_all : List (List ℕ) → ℕ → List ℕ → Sockets.World S → Status × List ℕ × Sockets.World S
  unfolding sock_connect_to
  connect_all [] port server_fds w = (default_status, server_fds, w)
  connect_all (hostname ∷ hostnames) port server_fds w =
      let w1 = (sock_connect_to S N w hostname port).1 in
      elim (sock_connect_to S N w hostname port).0 [
        | none ↦ (err_errno (S.errno_text w1), server_fds, w1)
        | some zero ↦ connect_all hostnames port (server_fds ++ (zero ∷ [])) w1
        | some (suc fd) ↦ (err_errno (S.errno_text w1), server_fds, w1)
      ]

  -- CreateProxy(hostnames, port, clientfd)
  unfoldable pub create_proxy :
      List (List ℕ) → ℕ → ℕ → Sockets.World S → StatusOr ShardingProxyWorker × Sockets.World S
  unfolding connect_all is_ok close_all
  create_proxy hostnames port clientfd w =
      let (s, server_fds, w1) = connect_all hostnames port [] w in
      elim (is_ok s) [
        | false ↦ (of_status s, close_all S w1 server_fds)
        | true ↦ (of_obj (some (proxy_for clientfd server_fds)), w1)
      ]
