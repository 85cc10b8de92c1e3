-- ===== src/Rdma/Listening.antt =====
-- What the run of an RDMA server, src/rdma/rdma_server.cc, keeps.
use sqpkv.Prelude.{ℕ, zero, suc, ◌≡◌, inl, inr, refl, Bool, false, Option, none, some, Option-cases}
use mathlib.Core.Path.{subst}
use sqpkv.Status.{StatusOr, is_ok}
use sqpkv.Rdma.{
  conn_param, Verbs, CmEvent, addr_resolved, route_resolved, connect_request, established,
  disconnected, other_event, Context, build_context,
}
use sqpkv.Rdma.Events.{
  server, Endpoint, new_endpoint, Handled, with_context, on_address_resolved, on_route_resolved,
  on_connect_request, on_connection, on_disconnect, on_event, run,
}
use sqpkv.Rdma.Refused.{NoContext, build_context-NoContext}

module _ (V : Verbs) where
  -- The server's endpoint is as it was.
  abbrev Keeps : Handled V → Type 0
  Keeps none = Unit
  Keeps (some r) = r.1 ≡ new_endpoint

  with_context-Keeps :
      (call : Verbs.World V → Bool × Verbs.World V) (r : StatusOr Context × Verbs.World V)
      → is_ok r.0.status ≡ false
      → Keeps (with_context V call new_endpoint r)
  unfolding with_context
  with_context-Keeps call (status_or, w) bad = rw (with_context, bad) refl

  on_event-Keeps :
      (event : CmEvent) (w : Verbs.World V) → Keeps (on_event V server event new_endpoint w)
  unfolding on_event on_address_resolved on_route_resolved on_connect_request on_connection
      on_disconnect
  on_event-Keeps addr_resolved w = refl
  on_event-Keeps route_resolved w = refl
  on_event-Keeps connect_request w = elim (Option-cases (build_context V w)) [
    | inl e ↦ rw e tt
    | inr (r, e) ↦ rw e (
        with_context-Keeps (λ v. V.rdma_accept v conn_param) r
          (subst (NoContext V) e (build_context-NoContext V w)))
  ]
  on_event-Keeps established w = tt
  on_event-Keeps disconnected w = tt
  on_event-Keeps other_event w = refl

  abbrev RunKeeps : Option (Endpoint × Verbs.World V) → Type 0
  RunKeeps none = Unit
  RunKeeps (some r) = r.0 ≡ new_endpoint

  run-RunKeeps : (fuel : ℕ) (w : Verbs.World V) → RunKeeps (run V fuel new_endpoint w)
  unfolding run
  run-RunKeeps zero w = tt
  run-RunKeeps (suc fuel) w = elim (Option-cases (V.get_cm_event w).0) [
    | inl g ↦ rw (run, g) refl
    | inr (event, g) ↦
        elim (Option-cases (on_event V server event new_endpoint (V.get_cm_event w).1)) [
          | inl h ↦ rw (run, g) (rw h tt)
          | inr (r, h) ↦
              let same : r.1 ≡ new_endpoint =
                subst Keeps h (on_event-Keeps event (V.get_cm_event w).1) in
              rw (run, g) (rw h (rw same (run-RunKeeps fuel r.2)))
        ]
  ]

  -- Whatever ibverbs and rdmacm answer, and whatever events there are: when Run of a new RDMA server
  -- returns, the server has no context of a connection and has not been told to terminate.
  pub run-new_endpoint :
      (fuel : ℕ) (w w' : Verbs.World V) (e : Endpoint)
      → run V fuel new_endpoint w ≡ some (e, w')
      → e ≡ new_endpoint
  run-new_endpoint fuel w w' e f = subst RunKeeps f (run-RunKeeps fuel w)
