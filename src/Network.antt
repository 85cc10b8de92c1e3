-- ===== src/Network.antt =====
-- The operating system's calls that open connections, which are not part of the repository, as a record
-- of functions on the state of the sockets; and src/protocol/net_utils.cc, which calls them.
use sqpkv.Prelude.{ℕ, Bool, true, false, Option, none, some, List}
use sqpkv.Sockets.{Sockets}

pub record Network (S : Sockets) : Type 1 where
  -- struct sockaddr_in
  pub Address : Type 0
  -- socket(AF_INET, SOCK_STREAM, 0): the descriptor, or `none` for a negative result
  pub open_socket : Sockets.World S → Option ℕ × Sockets.World S
  -- gethostbyname, and the address with the port
  pub resolve : Sockets.World S → List ℕ → ℕ → Option Address
  -- connect and bind: whether the result is not negative
  pub connect : Sockets.World S → ℕ → Address → Bool × Sockets.World S
  pub bind_port : Sockets.World S → ℕ → ℕ → Bool × Sockets.World S
  -- listen(fd, 5)
  pub listen : Sockets.World S → ℕ → Sockets.World S
  -- accept: the client's descriptor, or `none` for a negative result
  pub accept : Sockets.World S → ℕ → Option ℕ × Sockets.World S

module _ (S : Sockets) (N : Network S) where
  -- SockConnectTo(hostname, port): `none` is -1.
  unfoldable pub sock_connect_to : Sockets.World S → List ℕ → ℕ → Option ℕ × Sockets.World S
  sock_connect_to w hostname port =
      let w1 = (N.open_socket w).1 in
      elim (N.open_socket w).0 [
        | none ↦ (none, w1)
        | some sockfd ↦ elim (N.resolve w1 hostname port) [
          | none ↦ (none, w1)
          | some server ↦
              let w2 = (N.connect w1 sockfd server).1 in
              elim (N.connect w1 sockfd server).0 [ false ↦ (none, w2) | true ↦ (some sockfd, w2) ]
        ]
      ]
