-- ===== src/Rdma/Refused.antt =====
-- Which connections src/rdma never makes: RegisterMemoryRegion of src/rdma/rdma_connection.cc takes
-- every registered region for an error.
use sqpkv.Prelude.{
  ℕ, zero, suc, ◌≡◌, inl, inr, refl, Bool, true, false, Option, none, some, List, ◌>>=◌, ◌++◌, drop,
  length, Option-cases, Bool-cases,
}
use mathlib.Core.Path.{subst}
use sqpkv.Status.{Status, StatusOr, is_ok}
use sqpkv.Rdma.{
  queue_pair_attr, Verbs, CmEvent, addr_resolved, route_resolved, connect_request, established,
  disconnected, other_event, Context, Registered, register_memory_region, after_local, after_remote,
  thread_started, build_context, no_context, post_send, send_mr, error_unless, returned,
  local_region, remote_region,
}
use sqpkv.Rdma.Events.{
  client, Endpoint, new_endpoint, Handled, failed, on_connection, on_event, is_established,
  connect_handled, connect_loop, connect,
}

module _ (V : Verbs) where
  -- It faults, or its status is not OK.
  abbrev Refused : Option (Registered V) → Type 0
  Refused none = Unit
  Refused (some r) = is_ok r.0 ≡ false

  abbrev pub NoContext : Option (StatusOr Context × Verbs.World V) → Type 0
  NoContext none = Unit
  NoContext (some r) = is_ok r.0.status ≡ false

  abbrev NotOk : Handled V → Type 0
  NotOk none = Unit
  NotOk (some r) = is_ok r.0 ≡ false

  after_remote-Refused :
      (l : Option (List ℕ)) (r : Option (List ℕ) × Verbs.World V) → Refused (after_remote V l r)
  unfolding after_remote is_ok
  after_remote-Refused l (some mr, w) = refl
  after_remote-Refused l (none, w) = tt

  after_local-Refused : (r : Option (List ℕ) × Verbs.World V) → Refused (after_local V r)
  unfolding after_local is_ok
  after_local-Refused (some mr, w) = refl
  after_local-Refused (none, w) = after_remote-Refused none (V.reg_mr w remote_region)

  thread_started-NoContext : (w : Verbs.World V) → NoContext (thread_started V w)
  unfolding thread_started register_memory_region
  thread_started-NoContext w = elim (Option-cases (after_local V (V.reg_mr w local_region))) [
    | inl e ↦ rw (thread_started, e) tt
    | inr (r, e) ↦
        let bad : is_ok r.0 ≡ false =
          subst Refused e (after_local-Refused (V.reg_mr w local_region)) in
        rw (thread_started, e, ◌>>=◌, bad) tt
  ]

  error_unless-NoContext :
      (r : Bool × Verbs.World V) (later : Verbs.World V → Option (StatusOr Context × Verbs.World V))
      → ((w : Verbs.World V) → NoContext (later w))
      → NoContext (error_unless V (no_context V) r later)
  unfolding is_ok
  error_unless-NoContext (false, w) later h = refl
  error_unless-NoContext (true, w) later h = h w

  pub build_context-NoContext : (w : Verbs.World V) → NoContext (build_context V w)
  unfolding build_context
  build_context-NoContext w = error_unless-NoContext (V.alloc_pd w) _ (λ w1.
      error_unless-NoContext (V.create_comp_channel w1) _ (λ w2.
        error_unless-NoContext (V.create_cq w2) _ (λ w3.
          error_unless-NoContext (V.req_notify_cq w3) _ (λ w4.
            error_unless-NoContext (V.create_qp w4 queue_pair_attr) _
              (λ w5. thread_started-NoContext w5)))))

  -- Whatever ibverbs answers, BuildContext never returns OK.
  build_context-not_ok :
      (r : StatusOr Context) (w w' : Verbs.World V)
      → build_context V w ≡ some (r, w')
      → is_ok r.status ≡ false
  build_context-not_ok r w w' e = subst NoContext e (build_context-NoContext w)

  abbrev NotSent : Option (Status × Verbs.World V) → Type 0
  NotSent none = Unit
  NotSent (some r) = is_ok r.0 ≡ false

  error_unless-NotSent :
      (r : Bool × Verbs.World V) → NotSent (error_unless V (returned V) r (λ w. none))
  unfolding is_ok
  error_unless-NotSent (false, w) = refl
  error_unless-NotSent (true, w) = tt

  post_send-NotSent : (c : Context) (size : ℕ) (w : Verbs.World V) → NotSent (post_send V c size w)
  unfolding post_send
  post_send-NotSent c size w = elim (Option-cases c.remote_mr) [
    | inl no_mr ↦ rw (post_send, no_mr) tt
    | inr (mr, there) ↦ elim (Bool-cases c.connected) [
      | inl e ↦ rw (post_send, there, e) (error_unless-NotSent (V.post_send w _))
      | inr e ↦ rw (post_send, there, e) tt
    ]
  ]

  abbrev MrNotSent : Option (Status × Context × Verbs.World V) → Type 0
  MrNotSent none = Unit
  MrNotSent (some r) = is_ok r.0 ≡ false

  bind-MrNotSent :
      (m : Option (List ℕ)) (f : List ℕ → Option (Status × Context × Verbs.World V))
      → ((mr : List ℕ) → MrNotSent (f mr))
      → MrNotSent (m >>= f)
  bind-MrNotSent none f h = tt
  bind-MrNotSent (some mr) f h = h mr

  with_context-MrNotSent :
      (c : Context) (r : Option (Status × Verbs.World V))
      → NotSent r
      → MrNotSent (r >>= λ sent. some (sent.0, c, sent.1))
  with_context-MrNotSent c none h = tt
  with_context-MrNotSent c (some r) h = h

  send_mr-MrNotSent : (c : Context) (w : Verbs.World V) → MrNotSent (send_mr V c w)
  unfolding send_mr
  send_mr-MrNotSent c w = bind-MrNotSent c.remote_mr _ (λ mr.
      let c' : Context = record c { remote_buffer = mr ++ drop (length mr) c.remote_buffer } in
      with_context-MrNotSent c' (post_send V c' (length mr) w) (post_send-NotSent c' (length mr) w))

  -- The event that a connection is established never ends with OK.
  on_connection-NotOk : (e : Endpoint) (w : Verbs.World V) → NotOk (on_connection V e w)
  unfolding on_connection
  on_connection-NotOk e w = elim (Option-cases e.context) [
    | inl f ↦ rw (on_connection, f) tt
    | inr (c, f) ↦
        let c' : Context = record c { connected = true } in
        elim (Option-cases (send_mr V c' w)) [
          | inl g ↦ rw (on_connection, f, ◌>>=◌, g) tt
          | inr (r, g) ↦
              rw (on_connection, f, ◌>>=◌, g) (subst MrNotSent g (send_mr-MrNotSent c' w))
        ]
  ]

  connect_handled-NotOk :
      (up : Bool) (later : Endpoint → Verbs.World V → Handled V)
      (r : Status × Endpoint × Verbs.World V)
      → ((e : Endpoint) (w : Verbs.World V) → NotOk (later e w))
      → (up ≡ true → is_ok r.0 ≡ false)
      → NotOk (connect_handled V up later r)
  unfolding connect_handled
  connect_handled-NotOk up later (s, e, w) h g = elim (Bool-cases (is_ok s)) [
    | inr bad ↦ rw (connect_handled, bad) bad
    | inl good ↦ elim (Bool-cases up) [
      | inl u ↦ cc (g u)
      | inr u ↦ rw (connect_handled, good, u) (h e w)
    ]
  ]

  established-NotOk :
      (event : CmEvent) (e : Endpoint) (w : Verbs.World V)
      → is_established event ≡ true
      → NotOk (on_event V client event e w)
  unfolding on_event
  established-NotOk established e w h = on_connection-NotOk e w
  established-NotOk addr_resolved e w h = cc
  established-NotOk route_resolved e w h = cc
  established-NotOk connect_request e w h = cc
  established-NotOk disconnected e w h = cc
  established-NotOk other_event e w h = cc

  connect_loop-NotOk :
      (fuel : ℕ) (e : Endpoint) (w : Verbs.World V) → NotOk (connect_loop V fuel e w)
  unfolding connect_loop
  connect_loop-NotOk zero e w = tt
  connect_loop-NotOk (suc fuel) e w = elim (Option-cases (V.get_cm_event w).0) [
    | inl f ↦ rw (connect_loop, f) tt
    | inr (event, f) ↦ elim (Option-cases (on_event V client event e (V.get_cm_event w).1)) [
      | inl g ↦ rw (connect_loop, f) (rw g tt)
      | inr (r, g) ↦
          rw (connect_loop, f)
            (rw g (
              connect_handled-NotOk (is_established event) _ r (connect_loop-NotOk fuel)
                (λ up. subst NotOk g (established-NotOk event e (V.get_cm_event w).1 up))))
    ]
  ]

  error_unless-NotOk :
      (e : Endpoint) (r : Bool × Verbs.World V) (later : Verbs.World V → Handled V)
      → ((w : Verbs.World V) → NotOk (later w))
      → NotOk (error_unless V (failed V e) r later)
  unfolding is_ok
  error_unless-NotOk e (false, w) later h = refl
  error_unless-NotOk e (true, w) later h = h w

  connect-NotOk :
      (fuel port : ℕ) (hostname : List ℕ) (w : Verbs.World V)
      → NotOk (connect V fuel hostname port w)
  unfolding connect
  connect-NotOk fuel port hostname w =
      error_unless-NotOk new_endpoint (V.get_addr_info w hostname port) _ (λ w1.
        error_unless-NotOk new_endpoint (V.create_event_channel w1) _ (λ w2.
          error_unless-NotOk new_endpoint (V.create_id w2) _ (λ w3.
            error_unless-NotOk new_endpoint (V.resolve_addr w3) _
              (λ w4. connect_loop-NotOk fuel new_endpoint w4))))

  -- Whatever ibverbs and rdmacm answer, and whatever events there are, Connect of an RDMA client never
  -- returns OK.
  pub connect-not_ok :
      (fuel port : ℕ) (hostname : List ℕ) (w w' : Verbs.World V) (s : Status) (e : Endpoint)
      → connect V fuel hostname port w ≡ some (s, e, w')
      → is_ok s ≡ false
  connect-not_ok fuel port hostname w w' s e f = subst NotOk f (connect-NotOk fuel port hostname w)
