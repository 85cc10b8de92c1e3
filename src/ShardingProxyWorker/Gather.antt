-- ===== src/ShardingProxyWorker/Gather.antt =====
-- The keys that src/server/sharding_proxy_worker.cc gathers from the servers for GET_ALL.
use sqpkv.Prelude.{ℕ, ◌≡◌, refl, ap, none, some, List, [], ◌∷◌, ◌++◌, append_assoc, append-nil}
use sqpkv.Sockets.{Sockets}
use sqpkv.Status.{default_status, of_obj, is_ok}
use sqpkv.Packet.{packet_at, to_binary}
use sqpkv.Packet.Command.{GetAllPacket, get_all}
use sqpkv.Packet.Response.{GetAllResponsePacket, add_keys, build_get_all_response, response_at}
use sqpkv.Packet.Factory.{get_all_response}
use sqpkv.Protocol.{read_from_server}
use sqpkv.ShardingProxyWorker.{ShardingProxyWorker, scatter, gather, proxy_command}

module _ (S : Sockets) (proxy : ShardingProxyWorker) (fuel : ℕ) where
  -- The servers answer one after the other, each with a GET_ALL response, and these are all keys of
  -- the responses, server by server.
  unfoldable pub Answered : List ℕ → List (List ℕ) → Sockets.World S → Sockets.World S → Type 0
  Answered [] keys w w' = (keys ≡ []) × (w ≡ w')
  Answered (fd ∷ fds) keys w w' =
      (r : GetAllResponsePacket) × (rest : List (List ℕ)) × (w1 : Sockets.World S)
      × (read_from_server S fuel w fd ≡ some (of_obj (some (get_all_response r)), w1))
      × (keys ≡ r.keys ++ rest)
      × Answered fds rest w1 w'

  -- Where every server answers with a GET_ALL response, the loop over the servers ends with OK, and its
  -- keys are those that were there before, and behind them those of the servers, in their order.
  pub gather-Answered :
      (fds : List ℕ) (before keys : List (List ℕ)) (w w' : Sockets.World S)
      → Answered fds keys w w'
      → gather S proxy fuel fds before w ≡ some (default_status, before ++ keys, w')
  unfolding gather is_ok add_keys Answered
  gather-Answered [] before keys w w' (none_left, same) =
      rw none_left
        (rw append-nil (ap (λ (v : Sockets.World S). some (default_status, before, v)) same))
  gather-Answered (fd ∷ fds) before keys w w' (r, rest, w1, read, split, later) = rw read (
      rw (gather-Answered fds (before ++ r.keys) rest w1 w' later)
        (rw split (rw append_assoc refl)))

  -- A GET_ALL that was sent to all servers, and that all of them have answered, is never answered to
  -- the client: the proxy's response is constructed with a null buffer, a fault.
  pub proxy_command-get_all :
      (p : GetAllPacket) (keys : List (List ℕ)) (w w1 w2 : Sockets.World S)
      → scatter S proxy fuel proxy.shard_servers (to_binary p.packet) w ≡ some (default_status, w1)
      → Answered proxy.shard_servers keys w1 w2
      → proxy_command S proxy fuel (get_all p) w ≡ none
  unfolding proxy_command is_ok build_get_all_response response_at packet_at
  proxy_command-get_all p keys w w1 w2 sent answered =
      rw sent (rw (gather-Answered proxy.shard_servers [] keys w1 w2 answered) refl)
