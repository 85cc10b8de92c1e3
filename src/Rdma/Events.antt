-- ===== src/Rdma/Events.antt =====
-- The events of a connection in src/rdma/rdma_connection.cc, with what src/rdma/rdma_client.cc and
-- rdma_server.cc do at them.
use sqpkv.Prelude.{ℕ, zero, suc, Bool, true, false, Option, none, some, List, ◌>>=◌}
use sqpkv.Status.{Status, StatusOr, default_status, err_errno, is_ok}
use sqpkv.Rdma.{
  conn_param, Verbs, CmEvent, addr_resolved, route_resolved, connect_request, established,
  disconnected, other_event, Context, build_context, send_mr, error_unless,
}

-- RDMAClient and RDMAServer override the three handlers of the connection's start.
pub data Role : Type 0 where
  client server : Role

-- The fields of RDMAConnection that the events change; `context` is the one that id->context points to.
pub record Endpoint : Type 0 where
  pub context : Option Context
  pub terminate : Bool

abbrev pub new_endpoint : Endpoint
new_endpoint = record { context = none; terminate = false }

abbrev pub is_established : CmEvent → Bool
is_established established = true
is_established _ = false

module _ (V : Verbs) where
  abbrev pub Handled : Type 0
  Handled = Option (Status × Endpoint × Verbs.World V)

  abbrev pub failed : Endpoint → Status → Verbs.World V → Handled
  failed e s w = some (s, e, w)

  abbrev done : Endpoint → Verbs.World V → Handled
  done e w = some (default_status, e, w)

  -- What OnAddressResolved of the client and OnConnectRequest of the server do behind BuildContext:
  -- `call` is the call that they end with.
  unfoldable pub with_context :
      (Verbs.World V → Bool × Verbs.World V) → Endpoint → StatusOr Context × Verbs.World V → Handled
  unfolding is_ok
  with_context call e (status_or, w) = elim (is_ok status_or.status) [
    | false ↦ some (status_or.status, e, w)
    | true ↦
        let e' : Endpoint = record e { context = status_or.obj } in
        error_unless V (failed e') (call w) (done e')
  ]

  unfoldable pub on_address_resolved : Role → Endpoint → Verbs.World V → Handled
  unfolding with_context build_context
  on_address_resolved client e w = build_context V w >>= with_context V.resolve_route e
  on_address_resolved server e w = done e w

  unfoldable pub on_route_resolved : Role → Endpoint → Verbs.World V → Handled
  on_route_resolved client e w = error_unless V (failed e) (V.rdma_connect w conn_param) (done e)
  on_route_resolved server e w = done e w

  unfoldable pub on_connect_request : Role → Endpoint → Verbs.World V → Handled
  unfolding with_context build_context
  on_connect_request client e w = done e w
  on_connect_request server e w =
      build_context V w >>= with_context (λ v. V.rdma_accept v conn_param) e

  -- OnConnection(id): id->context is null where no context was built.
  unfoldable pub on_connection : Endpoint → Verbs.World V → Handled
  unfolding send_mr
  on_connection e w = do
    context ← e.context
    (s, context', w') ← send_mr V (record context { connected = true }) w
    some (s, record e { context = some context' }, w')

  -- DestroyConnection(context): deleting the context destroys its thread, which std::thread answers by
  -- std::terminate where it has not been joined, and no code joins it.
  pub destroy_connection : Context → Verbs.World V → Option (Verbs.World V)
  destroy_connection context w = elim context.polled [ true ↦ none | false ↦ some (V.destroy w) ]

  -- OnDisconnect(id)
  unfoldable pub on_disconnect : Endpoint → Verbs.World V → Handled
  unfolding destroy_connection
  on_disconnect e w = do
    context ← e.context
    w' ← destroy_connection context w
    some (default_status, record { context = none; terminate = true }, w')

  -- OnEvent(event)
  unfoldable pub on_event : Role → CmEvent → Endpoint → Verbs.World V → Handled
  unfolding on_address_resolved on_route_resolved on_connect_request on_connection on_disconnect
  on_event role addr_resolved e w = on_address_resolved role e w
  on_event role route_resolved e w = on_route_resolved role e w
  on_event role connect_request e w = on_connect_request role e w
  on_event role established e w = on_connection e w
  on_event role disconnected e w = on_disconnect e w
  on_event role other_event e w = some (err_errno (V.errno_text w), e, w)

  -- Behind OnEvent in the loop of Connect: RETURN_IF_ERROR, and the end of the loop.
  unfoldable pub connect_handled :
      Bool → (Endpoint → Verbs.World V → Handled) → Status × Endpoint × Verbs.World V → Handled
  unfolding is_ok
  connect_handled up later (s, e, w) = elim (is_ok s) [
    | false ↦ some (s, e, w)
    | true ↦ elim up [ true ↦ done e w | false ↦ later e w ]
  ]

  -- The loop of RDMAClient::Connect, `fuel` events of it; it falls off the end of the function where no
  -- event can be had.
  unfoldable pub connect_loop : ℕ → Endpoint → Verbs.World V → Handled
  unfolding on_event connect_handled
  connect_loop zero e w = none
  connect_loop (suc fuel) e w = elim (V.get_cm_event w).0 [
    | none ↦ none
    | some event ↦
        on_event client event e (V.get_cm_event w).1
        >>= connect_handled (is_established event) (λ e' w'. connect_loop fuel e' w')
  ]

  -- RDMAClient::Connect()
  unfoldable pub connect : ℕ → List ℕ → ℕ → Verbs.World V → Handled
  unfolding connect_loop
  connect fuel hostname port w =
      let e = new_endpoint in
      error_unless V (failed e) (V.get_addr_info w hostname port) (λ w1.
        error_unless V (failed e) (V.create_event_channel w1) (λ w2.
          error_unless V (failed e) (V.create_id w2)
            (λ w3. error_unless V (failed e) (V.resolve_addr w3) (λ w4. connect_loop fuel e w4))))

  -- RDMAClient::Disconnect(): the events on the client's own id, as OnDisconnect gets it.
  unfoldable pub disconnect_client : Endpoint → Verbs.World V → Option (Endpoint × Verbs.World V)
  unfolding on_disconnect
  disconnect_client e w =
      let w1 = V.disconnect w in
      elim (V.get_cm_event w1).0 [
        | none ↦ some (e, (V.get_cm_event w1).1)
        | some event ↦ do (_, e', w2) ← on_disconnect e (V.get_cm_event w1).1; some (e', w2)
      ]

  abbrev no_port : Status → Verbs.World V → Status × Option ℕ × Verbs.World V
  no_port s w = (s, none, w)

  -- RDMAServer::Initialize(): the status and port_.
  unfoldable pub initialize : Verbs.World V → Status × Option ℕ × Verbs.World V
  initialize w = error_unless V no_port (V.create_event_channel w) (λ w1.
      error_unless V no_port (V.create_id w1) (λ w2. error_unless V no_port (V.bind_addr w2) (λ w3.
        error_unless V no_port (V.listen w3) (λ w4. (default_status, some (V.src_port w4), w4)))))

  -- RDMAServer::Run(), `fuel` events of it: the status of an event is only logged.
  unfoldable pub run : ℕ → Endpoint → Verbs.World V → Option (Endpoint × Verbs.World V)
  unfolding on_event
  run zero e w = none
  run (suc fuel) e w = elim e.terminate [
    | true ↦ some (e, w)
    | false ↦ elim (V.get_cm_event w).0 [
      | none ↦ some (e, (V.get_cm_event w).1)
      | some event ↦
          on_event server event e (V.get_cm_event w).1 >>= λ handled. run fuel handled.1 handled.2
    ]
  ]
