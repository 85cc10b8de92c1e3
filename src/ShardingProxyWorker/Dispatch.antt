-- ===== src/ShardingProxyWorker/Dispatch.antt =====
-- DispatchPacket of src/server/sharding_proxy_worker.cc: what it carries between the client and a server.
use sqpkv.Prelude.{
  ℕ, ◌+◌, ◌%◌, ◌<◌, ◌≡◌, ◌⊎◌, inl, inr, refl, true, false, Option, some, List, ◌++◌, length, ◌>>=◌,
  arith,
}
use sqpkv.Memory.{u32_mod}
use sqpkv.Sockets.{Sockets}
use sqpkv.Sockets.Laws.{Pipe}
use sqpkv.Status.{Code, k_ok, k_err, k_eof, unnamed, Status, is_ok, is_err}
use sqpkv.Packet.{to_binary}
use sqpkv.Protocol.{max_net_packet_size, send_packet}
use sqpkv.Protocol.Frame.{frame}
use sqpkv.Protocol.Send.{send_packet-frame}
use sqpkv.Protocol.Forward.{Copies, forward_packet-stream}
use sqpkv.ShardingProxyWorker.{ShardingProxyWorker, choose_server, dispatch_packet}

ok_no_err : (s : Status) → is_ok s ≡ true → is_err s ≡ false
unfolding is_ok is_err
ok_no_err s good = go s.code good
  where
    go :
        (c : Code)
        → elim c [ k_ok ↦ true | _ ↦ false ] ≡ true
        → elim c [ k_err ↦ true | _ ↦ false ] ≡ false
    go k_ok e = refl
    go k_err e = ground arith
    go k_eof e = refl
    go (unnamed b) e = refl

module _ (S : Sockets) (from to : ℕ) (P : Pipe S from to) (proxy : ShardingProxyWorker)
    (fuel : ℕ) where
  -- The request is on the wire to the server, and then its answer is copied to the client; or sending it
  -- has ended in an error.
  pub Exchanges : List ℕ → Sockets.World S → Option (Status × Sockets.World S) → Type 0
  Exchanges request w r =
      (w1 : Sockets.World S) × (((P.writes.sent w1 from ≡ P.writes.sent w from ++ frame request)
          × Copies S from to P (P.arrived.pending w1) w1 r)
        ⊎ ((s : Status) × (is_err s ≡ true) × (r ≡ some (s, w1))))

  pub dispatch_packet-Exchanges :
      (key : List ℕ) (size : ℕ) (bytes rest : List ℕ) (w : Sockets.World S)
      → choose_server proxy key ≡ some from
      → proxy.clientfd ≡ to
      → size + 4 ≡ length bytes
      → size + 4 < u32_mod
      → ((s : Status) (w1 : Sockets.World S)
          → send_packet S w from (record { payload_size = size; payload = some (bytes ++ rest) })
            ≡ some (s, w1)
          → (0 < length (P.arrived.pending w1) % max_net_packet_size)
            × (length (P.arrived.pending w1) < fuel))
      → Exchanges bytes w (
          dispatch_packet S proxy fuel key
            (to_binary (record { payload_size = size; payload = some (bytes ++ rest) }))
            w)
  unfolding dispatch_packet send_packet Exchanges
  dispatch_packet-Exchanges key size bytes rest w chosen client e small answered =
      let (s, w1, returned, outcome) =
        send_packet-frame S P.writes from w size bytes rest e small in
      (
        w1,
        elim outcome [
          | inl (good, d) ↦ inl (
            d,
            rw (dispatch_packet, chosen)
                (rw returned (
                  rw (◌>>=◌, ok_no_err s good, client)
                    (forward_packet-stream S from to P fuel w1 (answered s w1 returned).0
                      (answered s w1 returned).1))),
          )
          | inr bad ↦
              inr (s, bad, rw (dispatch_packet, chosen) (rw returned (rw (◌>>=◌, bad) refl)))
        ],
      )
