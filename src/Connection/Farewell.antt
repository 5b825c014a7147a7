-- ===== src/Connection/Farewell.antt =====
-- The end of a connection is told to everyone who waits for something from it.
use quicer.Prelude.{ℕ, ◌≡◌, refl, ap, Bool, true, false, List, [], ◌∷◌, ◌++◌, map, arith, ◌==◌}
use quicer.Queue.{Acceptor, AcceptorQueue}
use quicer.Connection.State.{
  ConnCtx, StreamCallback, client_stream, server_stream, Effect, send_message, destroy_acceptor,
  free_trusted, destroy_c_ctx, demonitor, release_c_ctx,
}
use quicer.Connection.Handlers.{dismiss, report_closed, handle_connection_event_shutdown_complete}
use quicer.Connection.Events.{
  ConnEvent, shutdown_complete, Hosts, handle_shared, client_connection_callback,
  server_connection_callback,
}
use quicer.Connection.Closing.{IsReady, EndsIn, matching}

-- The processes that are told something, in order, and the acceptors that are freed.
abbrev pub recipients : List Effect → List ℕ
recipients [] = []
recipients (send_message pid m ∷ fx) = pid ∷ recipients fx
recipients (_ ∷ fx) = recipients fx

abbrev pub freed : List Effect → List Acceptor
freed [] = []
freed (destroy_acceptor a ∷ fx) = a ∷ freed fx
freed (_ ∷ fx) = freed fx

pub record Farewell (c : ConnCtx) (owner : Acceptor) (t : ConnCtx) (fx : List Effect) : Type 0 where
  pub told : recipients fx ≡ owner.pid ∷ map (λ a. a.pid) c.acceptor_queue
  pub all_freed : freed fx ≡ c.acceptor_queue
  pub emptied : t.acceptor_queue ≡ []
  pub closed : t.is_closed ≡ true

dismiss_told :
    (q : AcceptorQueue) (store : ℕ)
    → (recipients (dismiss q ++ (free_trusted store ++ (demonitor ∷ release_c_ctx ∷ [])))
        ≡ map (λ a. a.pid) q)
      × (freed (dismiss q ++ (free_trusted store ++ (demonitor ∷ release_c_ctx ∷ []))) ≡ q)
unfolding dismiss
dismiss_told [] store = ground arith
dismiss_told (a ∷ q) store =
    (ap (◌∷◌ a.pid) (dismiss_told q store).0, ap (◌∷◌ a) (dismiss_told q store).1)

module _ (h : Hosts) (connection : ℕ) (c : ConnCtx) (owner : Acceptor)
    (handshake_completed acked app_close : Bool) where
  abbrev ending : ConnEvent
  ending = shutdown_complete handshake_completed acked app_close

  shared-Farewell :
      (cb : StreamCallback)
      → IsReady h connection c owner
      → EndsIn (Farewell c owner) (handle_shared h cb c ending)
  unfolding handle_shared handle_connection_event_shutdown_complete report_closed destroy_c_ctx
  shared-Farewell cb v =
      let connected : (c.connection == 0) ≡ false = ground (arith, v.matches, v.has_handle) in
      rw (connected, v.owned)
        (record {
          told = ap (◌∷◌ owner.pid) (dismiss_told c.acceptor_queue c.trusted).0;
          all_freed = (dismiss_told c.acceptor_queue c.trusted).1;
          emptied = refl;
          closed = refl;
        })

  -- When a connection with an owner and MsQuic's own handle has shut down, at either end, first the
  -- owner and then each waiting stream acceptor is told, once and in the order of the queue; the
  -- acceptors are freed, once each; the queue is empty and the context closed.
  pub shutdown_complete-Farewell :
      IsReady h connection c owner
      → EndsIn (Farewell c owner) (client_connection_callback h connection c ending)
        × EndsIn (Farewell c owner) (server_connection_callback h connection c ending)
  unfolding client_connection_callback server_connection_callback
  shutdown_complete-Farewell v = (
    matching h connection c owner (EndsIn (Farewell c owner)) _ v (shared-Farewell client_stream v),
    matching h connection c owner (EndsIn (Farewell c owner)) _ v (shared-Farewell server_stream v),
  )
