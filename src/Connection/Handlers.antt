-- ===== src/Connection/Handlers.antt =====
-- The handlers of MsQuic's events at a connection, in c_src/quicer_connection.c. Those of an incoming
-- stream, of a certificate and of datagrams are in modules of their own.
use quicer.Prelude.{
  ℕ, ◌%◌, Bool, Option, none, some, List, [], ◌∷◌, ◌++◌, length, ltb, ◌==◌, if◌then◌else◌,
}
use quicer.Nif.{
  Status, event, event_undefined, event_with_props, atom, uint, boolean, binary, string, status,
}
use quicer.Nif.Atoms.{Atom}
use quicer.Queue.{AcceptorQueue}
use quicer.Connection.State.{
  ConnCtx, Effect, send_message, monitor, send_resumption_ticket, destroy_acceptor, free_ticket,
  Run, fault, done, notify_owner,
}

-- `assert(c_ctx->Connection)`, with which most handlers begin.
abbrev pub if_connected : ConnCtx → Run Status → Run Status
if_connected c run = if c.connection == 0 then fault else run

-- The owner is monitored and told; MsQuic is asked for a ticket only if the owner is alive.
unfoldable pub handle_connection_event_connected :
    (sent : Bool) → ConnCtx → (session_resumed : Bool) → (alpn : List ℕ) → Run Status
handle_connection_event_connected sent c session_resumed alpn = if_connected c (elim c.owner [
  | none ↦ fault
  | some owner ↦
      let alpns = if ltb 0 (length alpn) then binary alpn else atom Atom.undefined in
      done c
        (monitor owner.pid
          ∷ send_message owner.pid (
              event_with_props (atom Atom.connected) c.handle
                ((Atom.is_resumed, boolean session_resumed) ∷ (Atom.alpns, alpns) ∷ []))
          ∷ (if sent then send_resumption_ticket c.connection ∷ [] else []))
        (if sent then Status.success else Status.unreachable)
])

unfoldable pub handle_connection_event_shutdown_initiated_by_transport :
    ConnCtx → Status → (code : ℕ) → Run Status
unfolding notify_owner
handle_connection_event_shutdown_initiated_by_transport c st code = if_connected c (
    notify_owner c (
      event_with_props (atom Atom.transport_shutdown) c.handle
        ((Atom.status, status st) ∷ (Atom.error, uint code) ∷ [])))

unfoldable pub handle_connection_event_shutdown_initiated_by_peer :
    ConnCtx → (code : Status) → Run Status
unfolding notify_owner
handle_connection_event_shutdown_initiated_by_peer c code =
    if_connected c (notify_owner c (event (atom Atom.shutdown) c.handle (status code)))

-- The loop over the stream acceptors: each is told, and freed.
unfoldable pub dismiss : AcceptorQueue → List Effect
dismiss [] = []
dismiss (acc ∷ queue) =
    send_message acc.pid (event_undefined (atom Atom.closed) (atom Atom.undefined))
    ∷ destroy_acceptor acc
    ∷ dismiss queue

-- The report that the connection is closed; here the owner may be missing.
unfoldable pub report_closed : ConnCtx → (handshake_completed acked app_close : Bool) → List Effect
report_closed c handshake_completed acked app_close = elim c.owner [
  | none ↦ []
  | some owner ↦
      send_message owner.pid (
        event_with_props (atom Atom.closed) c.handle (
          (Atom.is_handshake_completed, boolean handshake_completed)
          ∷ (Atom.is_peer_acked, boolean acked)
          ∷ (Atom.is_app_closing, boolean app_close)
          ∷ []))
      ∷ []
]

unfoldable pub handle_connection_event_shutdown_complete :
    ConnCtx → (handshake_completed acked app_close : Bool) → Run Status
unfolding report_closed dismiss
handle_connection_event_shutdown_complete c handshake_completed acked app_close = if_connected c (
    done (record c { acceptor_queue = [] })
      (report_closed c handshake_completed acked app_close ++ dismiss c.acceptor_queue)
      Status.success)

unfoldable pub handle_connection_event_address_changed :
    Atom → ConnCtx → (address : List ℕ) → Run Status
unfolding notify_owner
handle_connection_event_address_changed name c address =
    if_connected c (notify_owner c (event (atom name) c.handle (string address)))

unfoldable pub handle_connection_event_streams_available :
    ConnCtx → (bidirectional unidirectional : ℕ) → Run Status
unfolding notify_owner
handle_connection_event_streams_available c bidirectional unidirectional = if_connected c (
    notify_owner c (
      event_with_props (atom Atom.streams_available) c.handle
        ((Atom.bidi_streams, uint bidirectional) ∷ (Atom.unidi_streams, uint unidirectional) ∷ [])))

unfoldable pub handle_connection_event_peer_needs_streams : ConnCtx → Run Status
unfolding notify_owner
handle_connection_event_peer_needs_streams c =
    if_connected c
      (notify_owner c (event (atom Atom.peer_needs_streams) c.handle (atom Atom.undefined)))

-- The branch that copies a state is taken where there is none to copy from.
unfoldable pub handle_connection_event_resumed :
    ConnCtx → (len : ℕ) → (state : Option (List ℕ)) → Run Status
unfolding notify_owner
handle_connection_event_resumed c len none =
    if ltb 0 len
    then fault
    else notify_owner c (event (atom Atom.connection_resumed) c.handle (atom Atom.false))
handle_connection_event_resumed c len (some state) =
    notify_owner c (event (atom Atom.connection_resumed) c.handle (atom Atom.false))

-- `event_mask & QUICER_CONNECTION_EVENT_MASK_NST`, the lowest bit.
abbrev pub masks_nst : ℕ → Bool
masks_nst mask = mask % 2 == 1

abbrev pub free_old_ticket : Option (List ℕ) → List Effect
free_old_ticket none = []
free_old_ticket (some ticket) = free_ticket ∷ []

-- The ticket goes to the owner, or replaces the one in the context; `allocated` tells whether there
-- is memory for the copy.
unfoldable pub handle_connection_event_resumption_ticket_received :
    (allocated : Bool) → ConnCtx → (ticket : List ℕ) → Run Status
unfolding notify_owner
handle_connection_event_resumption_ticket_received allocated c ticket =
    if masks_nst c.event_mask
    then (if allocated
        then notify_owner c (event (atom Atom.nst_received) c.handle (binary ticket))
        else done c [] Status.success)
    else done (record c { resumption_ticket = if allocated then some ticket else none })
        (free_old_ticket c.resumption_ticket) Status.success
