-- ===== src/ShardingProxyRequestHandler.antt =====
-- src/server/sharding_proxy_request_handler.cc: the handler that passes a server's answer on to the
-- client. `none` is a fault.
use sqpkv.Prelude.{
  ℕ, zero, suc, ◌+◌, ◌<◌, ◌≡◌, refl, Option, some, List, [], ◌++◌, arith, length, ◌>>=◌,
}
use sqpkv.Memory.{Block, u32_mod, load}
use sqpkv.Memory.Laws.{load-append}
use sqpkv.Packet.{read_u32}
use sqpkv.Packet.Cursor.{sized, read_u32-at}
use sqpkv.Sockets.{Sockets, WriteResult, write_failed, wrote}
use sqpkv.Status.{StatusOr, err_errno, of_obj, of_status}

module _ (S : Sockets) (client_fd : ℕ) where
  -- Behind write: a result that is not positive is an error, else it is the size that is returned.
  write_result : WriteResult × Sockets.World S → StatusOr ℕ × Sockets.World S
  write_result (write_failed, w) = (of_status (err_errno (S.errno_text w)), w)
  write_result (wrote zero, w) = (of_status (err_errno (S.errno_text w)), w)
  write_result (wrote (suc n), w) = (of_obj (some (suc n)), w)

  -- HandleReadCompletion(in_buffer, out_buffer): the size in front of the packet is trusted. What write
  -- gives fits an int.
  forward_completion : Block → Sockets.World S → Option (StatusOr ℕ × Sockets.World S)
  unfolding write_result
  forward_completion in_buffer w = do
    (payload_size, _) ← read_u32 in_buffer 0
    bytes ← load in_buffer 0 (payload_size + 4)
    some (write_result (S.write w client_fd bytes))

  -- A packet at the front of the input buffer, of less than 2 ^ 32 bytes, is written to the client in one
  -- call, its size in front of it, and nothing of what follows it in the buffer.
  forward_completion-sized :
      (payload rest : List ℕ) (w : Sockets.World S)
      → length payload < u32_mod
      → forward_completion (sized payload ++ rest) w
        ≡ some (write_result (S.write w client_fd (sized payload)))
  unfolding forward_completion
  forward_completion-sized payload rest w small =
      rw
        (read_u32-at (sized payload ++ rest) [] 0 refl (length payload) (payload ++ rest) refl
          small)
        (rw total (rw (load-append [] (sized payload) rest) refl))
    where
      total : length payload + 4 ≡ length (sized payload)
      total = omega arith
