-- ===== src/Stream/Events.antt =====
-- The stream callbacks of c_src/quicer_stream.c: one handler for each event of MsQuic, and the two
-- callbacks that call them under the lock of the context. Trace points are left out.
use quicer.Prelude.{
  ℕ, ◌%◌, Bool, true, false, Option, none, some, List, [], ◌∷◌, ◌++◌, ◌==◌, if◌then◌else◌,
}
use quicer.Nif.{Nif, Status, Value, event, event_with_props, atom, uint, boolean, status}
use quicer.Nif.Atoms.{Atom}
use quicer.Stream.State.{
  StreamCtx, SendCtx, Effect, send_message, destroy_send_ctx, destroy_s_ctx, Run, refused, fault,
  done,
}
use quicer.Stream.Receive.{RecvEvent, handle_stream_event_recv}

pub data StreamEvent : Type 0 where
  start_complete : Status → (id : ℕ) → (peer_accepted : Bool) → StreamEvent
  send_complete : Option SendCtx → (canceled : Bool) → StreamEvent
  receive : RecvEvent → StreamEvent
  peer_send_shutdown peer_accepted : StreamEvent
  peer_send_aborted peer_receive_aborted : (code : ℕ) → StreamEvent
  send_shutdown_complete : (is_graceful : Bool) → StreamEvent
  shutdown_complete :
      (connection_shutdown app_close_in_progress by_app remotely : Bool)
      → (code : ℕ) → Status
      → StreamEvent
  ideal_send_buffer_size : ℕ → StreamEvent
  other_event : StreamEvent

-- `make_event` with the stream's handle, sent to the owner.
unfoldable pub notify : StreamCtx → Atom → Value → Effect
notify s name prop = send_message s.owner.pid (event (atom name) s.handle prop)

unfoldable pub notify_props : StreamCtx → Atom → List (Atom × Value) → Effect
notify_props s name props = send_message s.owner.pid (event_with_props (atom name) s.handle props)

-- `event_mask & QUICER_STREAM_EVENT_MASK_START_COMPLETE`, the lowest bit.
abbrev pub masks_start_complete : ℕ → Bool
masks_start_complete mask = mask % 2 == 1

unfoldable pub handle_stream_event_start_complete : StreamCtx → Status → ℕ → Bool → Run Status
unfolding notify_props
handle_stream_event_start_complete s st id accepted =
    done (record s { is_closed = false })
      (if masks_start_complete s.event_mask
        then notify_props s Atom.start_completed (
            (Atom.status, status st)
            ∷ (Atom.stream_id, uint id)
            ∷ (Atom.is_peer_accepted, boolean accepted)
            ∷ [])
          ∷ []
        else [])
      Status.success

unfoldable pub handle_stream_event_peer_send_shutdown : StreamCtx → Run Status
unfolding notify
handle_stream_event_peer_send_shutdown s =
    done s (notify s Atom.peer_send_shutdown (atom Atom.undefined) ∷ []) Status.success

unfoldable pub handle_stream_event_peer_send_aborted : StreamCtx → ℕ → Run Status
unfolding notify
handle_stream_event_peer_send_aborted s code =
    done s (notify s Atom.peer_send_aborted (uint code) ∷ []) Status.success

unfoldable pub handle_stream_event_peer_receive_aborted : StreamCtx → ℕ → Run Status
unfolding notify
handle_stream_event_peer_receive_aborted s code =
    done s (notify s Atom.peer_receive_aborted (uint code) ∷ []) Status.success

unfoldable pub handle_stream_event_shutdown_complete :
    StreamCtx → (connection_shutdown app_close by_app remotely : Bool) → ℕ → Status → Run Status
unfolding notify_props
handle_stream_event_shutdown_complete s connection_shutdown app_close by_app remotely code st =
    done s
      (notify_props s Atom.stream_closed (
          (Atom.is_conn_shutdown, boolean connection_shutdown)
          ∷ (Atom.is_app_closing, boolean app_close)
          ∷ (Atom.is_shutdown_by_app, boolean by_app)
          ∷ (Atom.is_closed_remotely, boolean remotely)
          ∷ (Atom.error, uint code)
          ∷ (Atom.status, status st)
          ∷ [])
        ∷ [])
      Status.success

unfoldable pub handle_stream_event_peer_accepted : StreamCtx → Run Status
unfolding notify
handle_stream_event_peer_accepted s =
    done s (notify s Atom.peer_accepted (atom Atom.undefined) ∷ []) Status.success

-- The report of a completed send goes to its caller, not to the owner of the stream.
unfoldable pub handle_stream_event_send_complete : StreamCtx → Option SendCtx → Bool → Run Status
handle_stream_event_send_complete s none canceled = done s [] Status.invalid_state
handle_stream_event_send_complete s (some c) canceled =
    done s
      ((if c.is_sync
          then send_message c.caller (event (atom Atom.send_complete) s.handle (boolean canceled))
            ∷ []
          else [])
        ++ (destroy_send_ctx ∷ []))
      Status.success

unfoldable pub handle_stream_event_send_shutdown_complete : StreamCtx → Bool → Run Status
unfolding notify
handle_stream_event_send_shutdown_complete s is_graceful =
    done s (notify s Atom.send_shutdown_complete (boolean is_graceful) ∷ []) Status.success

-- `is_destroy`: the context is marked closed under the lock, and destroyed behind it.
unfoldable pub destroy_after : Run Status → Run Status
destroy_after (refused a) = refused a
destroy_after fault = fault
destroy_after (done s fx st) = done (record s { is_closed = true }) (fx ++ (destroy_s_ctx ∷ [])) st

-- `sent` is what `enif_send` answers for the notice that data waits.
unfoldable pub server_stream_callback : Nif → (sent : Bool) → StreamCtx → StreamEvent → Run Status
unfolding handle_stream_event_send_complete handle_stream_event_peer_send_shutdown
    handle_stream_event_peer_send_aborted handle_stream_event_peer_receive_aborted
    handle_stream_event_shutdown_complete handle_stream_event_send_shutdown_complete destroy_after
server_stream_callback nif sent s (send_complete c canceled) =
    handle_stream_event_send_complete s c canceled
server_stream_callback nif sent s (receive e) = handle_stream_event_recv nif sent s e
server_stream_callback nif sent s peer_send_shutdown = handle_stream_event_peer_send_shutdown s
server_stream_callback nif sent s (peer_send_aborted code) =
    handle_stream_event_peer_send_aborted s code
server_stream_callback nif sent s (peer_receive_aborted code) =
    handle_stream_event_peer_receive_aborted s code
server_stream_callback nif sent s (shutdown_complete c a b r code st) =
    destroy_after (handle_stream_event_shutdown_complete s c a b r code st)
server_stream_callback nif sent s (send_shutdown_complete g) =
    handle_stream_event_send_shutdown_complete s g
server_stream_callback nif sent s _ = done s [] Status.success

unfoldable pub client_stream_callback : Nif → (sent : Bool) → StreamCtx → StreamEvent → Run Status
unfolding handle_stream_event_start_complete handle_stream_event_send_complete
    handle_stream_event_peer_send_shutdown handle_stream_event_peer_send_aborted
    handle_stream_event_peer_receive_aborted handle_stream_event_shutdown_complete
    handle_stream_event_peer_accepted handle_stream_event_send_shutdown_complete destroy_after
client_stream_callback nif sent s (start_complete st id accepted) =
    handle_stream_event_start_complete s st id accepted
client_stream_callback nif sent s (send_complete c canceled) =
    handle_stream_event_send_complete s c canceled
client_stream_callback nif sent s (receive e) = handle_stream_event_recv nif sent s e
client_stream_callback nif sent s (peer_send_aborted code) =
    handle_stream_event_peer_send_aborted s code
client_stream_callback nif sent s (peer_receive_aborted code) =
    handle_stream_event_peer_receive_aborted s code
client_stream_callback nif sent s peer_send_shutdown = handle_stream_event_peer_send_shutdown s
client_stream_callback nif sent s (shutdown_complete c a b r code st) =
    destroy_after (handle_stream_event_shutdown_complete s c a b r code st)
client_stream_callback nif sent s peer_accepted = handle_stream_event_peer_accepted s
client_stream_callback nif sent s (ideal_send_buffer_size n) = done s [] Status.success
client_stream_callback nif sent s (send_shutdown_complete g) =
    handle_stream_event_send_shutdown_complete s g
client_stream_callback nif sent s other_event = done s [] Status.success
