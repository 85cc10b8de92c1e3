-- ===== src/Connection.antt =====
-- src/client/connection.cc: the client's calls, each of which sends one command packet and reads the
-- response. The calls give the status that they return, what the argument passed by reference holds
-- afterwards, and the sockets; `none` is a fault.
pub mod Answers
use sqpkv.Prelude.{ℕ, Bool, true, false, Option, none, some, List, ◌++◌, ◌>>=◌}
use sqpkv.Sockets.{Sockets}
use sqpkv.Network.{Network, sock_connect_to}
use sqpkv.Status.{of_obj, of_status, err_errno, Status, StatusOr, is_ok}
use sqpkv.Packet.{Packet}
use sqpkv.Packet.Command.{build_get, build_put, build_delete, build_get_all}
use sqpkv.Packet.Factory.{
  AnyResponse, get_response, put_response, delete_response, get_all_response, status_of,
}
use sqpkv.Protocol.{send_packet, read_from_server}

-- get_all_resp->value() and ->keys() behind the cast of Get and GetAll: an object of another class
-- has no such member, which is a fault.
abbrev pub value_of : AnyResponse → Option (List ℕ)
value_of (get_response r) = some r.value
value_of _ = none

abbrev keys_of : AnyResponse → Option (List (List ℕ))
keys_of (get_all_response r) = some r.keys
keys_of _ = none

-- What Get and GetAll do with the response: `store` is the assignment to the argument `old`.
pub take_answer {ℓ} :
    {A : Type ℓ}
    → (AnyResponse → Option A)
    → Status
    → StatusOr AnyResponse
    → A
    → Option (Status × A)
unfolding is_ok status_of
take_answer store net_status resp old = elim (is_ok resp.status) [
  | true ↦ do
    packet ← resp.obj
    elim (is_ok (status_of packet)) [
      | true ↦ do new ← store packet; some (net_status, new)
      | false ↦ some (status_of packet, old)
    ]
  | false ↦ some (resp.status, old)
]

-- What Put and Delete do with the response: they return its status.
pub status_answer : Status → StatusOr AnyResponse → Option Status
unfolding is_ok status_of
status_answer net_status resp = elim (is_ok resp.status) [
  | true ↦ do packet ← resp.obj; some (status_of packet)
  | false ↦ some resp.status
]

module _ (S : Sockets) (fuel : ℕ) (w : Sockets.World S) (sockfd : ℕ) where
  -- The body of Get and GetAll behind the constructor of the packet.
  pub take_exchange {ℓ} :
      {A : Type ℓ} → (AnyResponse → Option A) → Packet → A → Option (Status × A × Sockets.World S)
  unfolding take_answer
  take_exchange store packet old = do
    (net_status, w1) ← send_packet S w sockfd packet
    elim (is_ok net_status) [
      | true ↦ do
        (resp, w2) ← read_from_server S fuel w1 sockfd
        (status, new) ← take_answer store net_status resp old
        some (status, new, w2)
      | false ↦ some (net_status, old, w1)
    ]

  -- The body of Put and Delete behind the constructor of the packet.
  pub status_exchange : Packet → Option (Status × Sockets.World S)
  unfolding status_answer
  status_exchange packet = do
    (net_status, w1) ← send_packet S w sockfd packet
    elim (is_ok net_status) [
      | true ↦ do
        (resp, w2) ← read_from_server S fuel w1 sockfd
        status ← status_answer net_status resp
        some (status, w2)
      | false ↦ some (net_status, w1)
    ]

  -- Get(key, value): the packet takes the default `buf`, a null pointer, as in the other calls.
  pub get : List ℕ → List ℕ → Option (Status × List ℕ × Sockets.World S)
  unfolding take_exchange
  get key value = do (packet, _) ← build_get key none; take_exchange value_of packet.packet value

  -- Put(key, value)
  pub put : List ℕ → List ℕ → Option (Status × Sockets.World S)
  unfolding status_exchange
  put key value = do (packet, _) ← build_put key value none; status_exchange packet.packet

  -- Delete(key)
  pub delete : List ℕ → Option (Status × Sockets.World S)
  unfolding status_exchange
  delete key = do (packet, _) ← build_delete key none; status_exchange packet.packet

  -- GetAll(prefix, keys): the keys are pushed behind those of the caller.
  pub get_all : List ℕ → List (List ℕ) → Option (Status × List (List ℕ) × Sockets.World S)
  unfolding take_exchange
  get_all prefix keys = do
    (packet, _) ← build_get_all prefix none
    take_exchange (λ r. do found ← keys_of r; some (keys ++ found)) packet.packet keys

  -- Close()
  abbrev pub close : Sockets.World S
  close = S.close w sockfd

-- ConnectTo(hostname, port): the descriptor of the connection.
unfoldable pub connect_to :
    (S : Sockets) → Network S → Sockets.World S → List ℕ → ℕ → StatusOr ℕ × Sockets.World S
unfolding sock_connect_to
connect_to S N w hostname port =
    let (sockfd, w1) = sock_connect_to S N w hostname port in
    elim sockfd [
      | none ↦ (of_status (err_errno (S.errno_text w1)), w1)
      | some fd ↦ (of_obj (some fd), w1)
    ]
