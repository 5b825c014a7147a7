-- ===== src/Connection/Events.antt =====
-- The connection callbacks of c_src/quicer_connection.c: the events of MsQuic, and the two callbacks,
-- which call the handlers under the lock of the context.
use quicer.Prelude.{
  ℕ, Bool, true, not, ◌&&◌, ◌||◌, Option, List, [], ◌∷◌, ◌++◌, ◌==◌, if◌then◌else◌,
}
use quicer.Nif.{Status}
use quicer.Nif.Atoms.{Atom}
use quicer.Connection.State.{
  ConnCtx, StreamCallback, client_stream, server_stream, dump_sslkeylogfile, Run, fault, done,
  destroy_c_ctx,
}
use quicer.Connection.Incoming.{Answers, handle_connection_event_peer_stream_started}
use quicer.Connection.Security.{OpenSsl, handle_connection_event_peer_certificate_received}
use quicer.Dgram.{
  DgramSendCtx, SendState, handle_dgram_state_changed_event, handle_dgram_send_state_event,
  handle_dgram_recv_event,
}
use quicer.Connection.Handlers.{
  handle_connection_event_connected, handle_connection_event_shutdown_initiated_by_transport,
  handle_connection_event_shutdown_initiated_by_peer, handle_connection_event_shutdown_complete,
  handle_connection_event_address_changed, handle_connection_event_streams_available,
  handle_connection_event_peer_needs_streams, handle_connection_event_resumed,
  handle_connection_event_resumption_ticket_received,
}

-- `QUIC_CONNECTION_EVENT`. The error code of a peer's shutdown is read as a status code; addresses are
-- in MsQuic's text form; a resumption state is `none` where the pointer is NULL.
pub data ConnEvent : Type 0 where
  connected : (session_resumed : Bool) → (alpn : List ℕ) → ConnEvent
  shutdown_by_transport : Status → (code : ℕ) → ConnEvent
  shutdown_by_peer : (code : Status) → ConnEvent
  shutdown_complete : (handshake_completed peer_acknowledged app_close : Bool) → ConnEvent
  local_address_changed peer_address_changed : (address : List ℕ) → ConnEvent
  peer_stream_started : (stream flags : ℕ) → ConnEvent
  streams_available : (bidirectional unidirectional : ℕ) → ConnEvent
  peer_needs_streams ideal_processor_changed other_event : ConnEvent
  dgram_state_changed : (max_len : ℕ) → (enabled : Bool) → ConnEvent
  dgram_received : (bytes : List ℕ) → (flags : ℕ) → ConnEvent
  dgram_send_state_changed : DgramSendCtx → SendState → ConnEvent
  resumed : (len : ℕ) → (state : Option (List ℕ)) → ConnEvent
  ticket_received : (ticket : List ℕ) → ConnEvent
  certificate_received : (cert chain : ℕ) → ConnEvent

-- What the allocators and the runtime answer, and OpenSSL.
pub record Hosts : Type 0 where
  pub answers : Answers
  pub allocated : Bool
  pub ssl : OpenSsl

-- `c_ctx->is_closed = TRUE` under the lock, and `destroy_c_ctx` behind it.
unfoldable pub close_and_destroy : Run Status → Run Status
unfolding destroy_c_ctx
close_and_destroy fault = fault
close_and_destroy (done c fx st) =
    let ended = destroy_c_ctx (record c { is_closed = true }) in done ended.0 (fx ++ ended.1) st

-- A client with the TLS secrets and a file name writes them out, whatever the handler answered.
unfoldable pub dump_secrets : Run Status → Run Status
dump_secrets fault = fault
dump_secrets (done c fx st) =
    done c (if c.tls_secrets && c.ssl_keylogfile then fx ++ (dump_sslkeylogfile ∷ []) else fx) st

-- The events that both callbacks handle alike.
unfoldable pub handle_shared : Hosts → StreamCallback → ConnCtx → ConnEvent → Run Status
unfolding handle_connection_event_connected handle_connection_event_shutdown_initiated_by_transport
    handle_connection_event_shutdown_initiated_by_peer handle_connection_event_shutdown_complete
    handle_connection_event_address_changed handle_connection_event_streams_available
    handle_connection_event_peer_needs_streams close_and_destroy
    handle_connection_event_peer_stream_started handle_connection_event_peer_certificate_received
    handle_dgram_state_changed_event handle_dgram_send_state_event handle_dgram_recv_event
handle_shared h callback c (connected session_resumed alpn) =
    handle_connection_event_connected h.answers.sent c session_resumed alpn
handle_shared h callback c (shutdown_by_transport st code) =
    handle_connection_event_shutdown_initiated_by_transport c st code
handle_shared h callback c (shutdown_by_peer code) =
    handle_connection_event_shutdown_initiated_by_peer c code
handle_shared h callback c (shutdown_complete handshake_completed acked app_close) =
    close_and_destroy
      (handle_connection_event_shutdown_complete c handshake_completed acked app_close)
handle_shared h callback c (local_address_changed address) =
    handle_connection_event_address_changed Atom.local_address_changed c address
handle_shared h callback c (peer_address_changed address) =
    handle_connection_event_address_changed Atom.peer_address_changed c address
handle_shared h callback c (peer_stream_started stream flags) =
    handle_connection_event_peer_stream_started h.answers callback c stream flags
handle_shared h callback c (streams_available bidirectional unidirectional) =
    handle_connection_event_streams_available c bidirectional unidirectional
handle_shared h callback c peer_needs_streams = handle_connection_event_peer_needs_streams c
handle_shared h callback c (dgram_state_changed max_len enabled) =
    handle_dgram_state_changed_event c max_len enabled
handle_shared h callback c (dgram_received bytes flags) =
    handle_dgram_recv_event h.allocated c bytes flags
handle_shared h callback c (dgram_send_state_changed d state) =
    handle_dgram_send_state_event c d state
handle_shared h callback c (certificate_received cert chain) =
    handle_connection_event_peer_certificate_received h.ssl c cert chain
handle_shared h callback c _ = done c [] Status.success

-- The switch of the client: it takes tickets, and not `resumed`.
unfoldable pub client_switch : Hosts → ConnCtx → ConnEvent → Run Status
unfolding handle_shared dump_secrets handle_connection_event_resumption_ticket_received
client_switch h c (connected session_resumed alpn) =
    dump_secrets (handle_shared h client_stream c (connected session_resumed alpn))
client_switch h c (ticket_received ticket) =
    handle_connection_event_resumption_ticket_received h.allocated c ticket
client_switch h c e = handle_shared h client_stream c e

-- The switch of the server: it takes `resumed`, and no tickets.
unfoldable pub server_switch : Hosts → ConnCtx → ConnEvent → Run Status
unfolding handle_shared handle_connection_event_resumed
server_switch h c (resumed len state) = handle_connection_event_resumed c len state
server_switch h c e = handle_shared h server_stream c e

-- What both callbacks check before the switch: the handle must be the context's, unless that is NULL.
abbrev pub if_matching : ConnCtx → (connection : ℕ) → Run Status → Run Status
if_matching c connection run =
    if not (connection == c.connection || c.connection == 0)
    then fault
    else if connection == 0
    then done c [] Status.success
    else run

unfoldable pub client_connection_callback :
    Hosts → (connection : ℕ) → ConnCtx → ConnEvent → Run Status
unfolding client_switch
client_connection_callback h connection c e = if_matching c connection (client_switch h c e)

unfoldable pub server_connection_callback :
    Hosts → (connection : ℕ) → ConnCtx → ConnEvent → Run Status
unfolding server_switch
server_connection_callback h connection c e = if_matching c connection (server_switch h c e)
