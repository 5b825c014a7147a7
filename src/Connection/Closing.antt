-- ===== src/Connection/Closing.antt =====
-- When a connection context is closed and released.
use quicer.Prelude.{
  ℕ, ◌+◌, ◌≡◌, refl, Bool, true, false, none, some, List, [], ◌∷◌, ◌++◌, arith, tally, tally-append,
  ◌==◌, ltb, subst,
}
use quicer.Nif.{Status}
use quicer.Queue.{Acceptor, AcceptorQueue, acceptor_dequeue}
use quicer.Connection.State.{
  ConnCtx, Effect, close_connection, demonitor, release_c_ctx, keep_c_ctx, Run, fault, done,
  StreamCallback, destroy_c_ctx, free_trusted, free_store,
}
use quicer.Connection.Handlers.{dismiss, report_closed, handle_connection_event_shutdown_complete}
use quicer.Connection.Incoming.{handle_connection_event_peer_stream_started, adopt}
use quicer.Connection.Events.{
  ConnEvent, connected, shutdown_complete, peer_stream_started, resumed, Hosts, if_matching,
  dump_secrets, handle_shared, client_switch, server_switch, client_connection_callback,
  server_connection_callback,
}

-- The releases of the context, the ends of the monitor, the handles that are closed, and the further
-- references.
abbrev pub release_weight : Effect → ℕ
release_weight release_c_ctx = 1
release_weight _ = 0

abbrev pub demonitor_weight : Effect → ℕ
demonitor_weight demonitor = 1
demonitor_weight _ = 0

abbrev pub close_weight : Effect → ℕ
close_weight (close_connection _) = 1
close_weight _ = 0

abbrev pub keep_weight : Effect → ℕ
keep_weight keep_c_ctx = 1
keep_weight _ = 0

-- A connected context with an owner, and memory at hand.
pub record IsReady (h : Hosts) (connection : ℕ) (c : ConnCtx) (owner : Acceptor) : Type 0 where
  pub matches : c.connection ≡ connection
  pub has_handle : (connection == 0) ≡ false
  pub owned : c.owner ≡ some owner
  pub s_ctx_memory : h.answers.s_ctx_allocated ≡ true
  pub acceptor_memory : h.answers.acceptor_allocated ≡ true

abbrev pub expected_closed : ConnEvent → Bool → Bool
expected_closed (shutdown_complete _ _ _) was = true
expected_closed _ was = was

abbrev pub expected_releases : ConnEvent → ℕ
expected_releases (shutdown_complete _ _ _) = 1
expected_releases _ = 0

abbrev pub expected_keeps : ConnEvent → ℕ
expected_keeps (peer_stream_started _ _) = 1
expected_keeps _ = 0

pub record Outcome (c : ConnCtx) (e : ConnEvent) (t : ConnCtx) (fx : List Effect) : Type 0 where
  pub is_closed : t.is_closed ≡ expected_closed e c.is_closed
  pub released : tally release_weight fx ≡ expected_releases e
  pub demonitored : tally demonitor_weight fx ≡ expected_releases e
  pub kept : tally keep_weight fx ≡ expected_keeps e
  pub not_closed : tally close_weight fx ≡ 0
  pub same_connection : t.connection ≡ c.connection
  pub same_owner : t.owner ≡ c.owner

abbrev pub EndsIn : (ConnCtx → List Effect → Type 0) → Run Status → Type 0
EndsIn P fault = ⊥
EndsIn P (done t fx st) = P t fx

-- The resumption that the server copies from NULL.
abbrev pub copies_null : ConnEvent → Bool
copies_null (resumed len none) = ltb 0 len
copies_null _ = false

abbrev pub FaultsOr : Bool → (ConnCtx → List Effect → Type 0) → Run Status → Type 0
FaultsOr true P r = r ≡ fault
FaultsOr false P r = EndsIn P r

abbrev pub ServerEnds : ConnCtx → ConnEvent → Run Status → Type 0
ServerEnds c e = FaultsOr (copies_null e) (Outcome c e)

-- The farewell to the acceptors neither releases nor keeps anything.
dismiss-light :
    (q : AcceptorQueue)
    → (tally release_weight (dismiss q) ≡ 0)
      × (tally demonitor_weight (dismiss q) ≡ 0)
      × (tally keep_weight (dismiss q) ≡ 0)
      × (tally close_weight (dismiss q) ≡ 0)
unfolding dismiss
dismiss-light [] = (refl, refl, refl, refl)
dismiss-light (a ∷ q) = ground (arith, dismiss-light q)

-- What is done at the end besides: the three weights of the effects of a shutdown.
shutdown_tally :
    (weight : Effect → ℕ) (q : AcceptorQueue) (store : ℕ)
    → tally weight (dismiss q) ≡ 0
    → ((n : ℕ) → weight (free_store n) ≡ 0)
    → tally weight (dismiss q ++ (free_trusted store ++ (demonitor ∷ release_c_ctx ∷ [])))
      ≡ weight demonitor + weight release_c_ctx
shutdown_tally weight q store light free = ground (
  arith,
  tally-append weight (dismiss q) (free_trusted store ++ (demonitor ∷ release_c_ctx ∷ [])),
  free store,
)

shutdown_complete-Outcome :
    (h : Hosts) (cb : StreamCallback) (c : ConnCtx) (owner : Acceptor) (b1 b2 b3 : Bool)
    → (c.connection == 0) ≡ false
    → c.owner ≡ some owner
    → EndsIn
        (Outcome c (shutdown_complete b1 b2 b3))
        (handle_shared h cb c (shutdown_complete b1 b2 b3))
unfolding handle_shared handle_connection_event_shutdown_complete report_closed destroy_c_ctx
shutdown_complete-Outcome h cb c owner b1 b2 b3 e o =
    rw (e, o)
      (record {
        is_closed = refl;
        released = ground (
          arith,
          shutdown_tally release_weight c.acceptor_queue c.trusted
              (dismiss-light c.acceptor_queue).0 (λ n. refl),
        );
        demonitored = ground (
          arith,
          shutdown_tally demonitor_weight c.acceptor_queue c.trusted
              (dismiss-light c.acceptor_queue).1 (λ n. refl),
        );
        kept = ground (
          arith,
          shutdown_tally keep_weight c.acceptor_queue c.trusted (dismiss-light c.acceptor_queue).2
              (λ n. refl),
        );
        not_closed = ground (
          arith,
          shutdown_tally close_weight c.acceptor_queue c.trusted (dismiss-light c.acceptor_queue).3
              (λ n. refl),
        );
        same_connection = refl;
        same_owner = refl;
      })

started-Outcome :
    (h : Hosts) (cb : StreamCallback) (c : ConnCtx) (owner : Acceptor) (q : AcceptorQueue)
    (stream flags : ℕ)
    → c.owner ≡ some owner
    → h.answers.acceptor_allocated ≡ true
    → EndsIn
        (Outcome c (peer_stream_started stream flags))
        (adopt h.answers cb c stream flags (acceptor_dequeue q))
unfolding adopt acceptor_dequeue
started-Outcome h cb c owner [] stream flags o m = ground arith
started-Outcome h cb c owner (a ∷ q) stream flags o m = ground arith

module _ (h : Hosts) (connection : ℕ) (c : ConnCtx) (owner : Acceptor) where
  shared-Outcome :
      (cb : StreamCallback) (e : ConnEvent)
      → IsReady h connection c owner
      → EndsIn (Outcome c e) (handle_shared h cb c e)
  unfolding handle_shared handle_connection_event_peer_stream_started
  shared-Outcome cb (shutdown_complete b1 b2 b3) v =
      shutdown_complete-Outcome h cb c owner b1 b2 b3 (ground (arith, v.matches, v.has_handle))
        v.owned
  shared-Outcome cb (peer_stream_started stream flags) v = ground (
    arith,
    v.matches,
    v.has_handle,
    v.s_ctx_memory,
    started-Outcome h cb c owner c.acceptor_queue stream flags v.owned v.acceptor_memory,
  )
  shared-Outcome cb _ v = ground (arith, v.matches, v.has_handle, v.owned)

  -- Behind the checks of a callback.
  pub matching :
      (P : Run Status → Type 0) (r : Run Status)
      → IsReady h connection c owner
      → P r
      → P (if_matching c connection r)
  matching P r v ends = subst P passes ends
    where
      passes : r ≡ if_matching c connection r
      passes = ground (arith, v.matches, v.has_handle)

  client_switch-Outcome :
      (e : ConnEvent) → IsReady h connection c owner → EndsIn (Outcome c e) (client_switch h c e)
  unfolding client_switch dump_secrets
  client_switch-Outcome (connected r alpn) v = ground (arith, v.matches, v.has_handle, v.owned)
  client_switch-Outcome (shutdown_complete b1 b2 b3) v =
      shared-Outcome StreamCallback.client_stream (shutdown_complete b1 b2 b3) v
  client_switch-Outcome (peer_stream_started stream flags) v =
      shared-Outcome StreamCallback.client_stream (peer_stream_started stream flags) v
  client_switch-Outcome _ v = ground (arith, v.matches, v.has_handle, v.owned)

  -- Each event at a connection that was opened locally, with an owner, MsQuic's own handle and memory
  -- at hand, ends without a fault: `shutdown_complete` alone releases the context and ends the
  -- monitor, once, and marks it closed; a stream of the peer alone takes a further reference, once;
  -- the handle and the owner stay; and no handle is closed.
  pub client_connection_callback-Outcome :
      (e : ConnEvent)
      → IsReady h connection c owner
      → EndsIn (Outcome c e) (client_connection_callback h connection c e)
  unfolding client_connection_callback
  client_connection_callback-Outcome e v =
      matching (EndsIn (Outcome c e)) _ v (client_switch-Outcome e v)

  server_switch-Outcome :
      (e : ConnEvent) → IsReady h connection c owner → ServerEnds c e (server_switch h c e)
  unfolding server_switch
  server_switch-Outcome (resumed len none) v = ground (arith, v.owned)
  server_switch-Outcome (resumed len (some state)) v = ground (arith, v.owned)
  server_switch-Outcome (shutdown_complete b1 b2 b3) v =
      shared-Outcome StreamCallback.server_stream (shutdown_complete b1 b2 b3) v
  server_switch-Outcome (peer_stream_started stream flags) v =
      shared-Outcome StreamCallback.server_stream (peer_stream_started stream flags) v
  server_switch-Outcome _ v = ground (arith, v.matches, v.has_handle, v.owned)

  -- Each event at a connection of a listener, with an owner, MsQuic's own handle and memory at hand:
  -- as at a local one, `shutdown_complete` alone releases the context and ends the monitor, once, and
  -- marks it closed; a stream of the peer alone takes a further reference, once; the handle and the
  -- owner stay; no handle is closed; and the one fault is a resumption with a length and no state, which
  -- is read.
  pub server_connection_callback-Outcome :
      (e : ConnEvent)
      → IsReady h connection c owner
      → ServerEnds c e (server_connection_callback h connection c e)
  unfolding server_connection_callback
  server_connection_callback-Outcome e v = matching (ServerEnds c e) _ v (server_switch-Outcome e v)
