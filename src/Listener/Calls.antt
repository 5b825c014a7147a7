-- ===== src/Listener/Calls.antt =====
-- The calls on an open listener: close_listener1, stop_listener1 and start_listener3 of
-- c_src/quicer_listener.c, its `QUIC_LISTENER_EVENT_STOP_COMPLETE`, and the end of the owner and of
-- the resource in c_src/quicer_nif.c.
use quicer.Prelude.{
  Bool, true, false, not, ◌&&◌, Option, none, some, List, [], ◌∷◌, ◌==◌, if◌then◌else◌,
}
use quicer.Nif.{Nif, Status, Reply, ok, error, error3, atom, status}
use quicer.Nif.Atoms.{Atom}
use quicer.Listener.State.{
  ListenerCtx, Effect, listener_start, listener_stop, listener_close, destroy_l_ctx, report_stopped,
}

-- The handle is taken out under the lock, and closed behind it.
unfoldable pub close_listener1 : ListenerCtx → ListenerCtx × List Effect × Reply
close_listener1 l = if l.is_closed then (l, [], error (atom Atom.closed)) else (
  record l { listener = 0; is_closed = true },
  listener_close l.listener ∷ (if l.is_stopped then destroy_l_ctx ∷ [] else []),
  ok,
)

unfoldable pub stop_listener1 : ListenerCtx → ListenerCtx × List Effect × Reply
stop_listener1 l =
    if l.listener == 0
    then (l, [], error (atom Atom.closed))
    else if not l.is_stopped
    then (record l { is_stopped = true }, listener_stop l.listener ∷ [], ok)
    else (l, [], ok)

-- `address` and `alpn` tell whether the two arguments could be read, `started` is what MsQuic
-- answers.
unfoldable pub start_listener3 :
    Nif
    → (address alpn : Bool) → (started : Status) → ListenerCtx
    → ListenerCtx × List Effect × Reply
start_listener3 nif address alpn started l =
    if not address
    then (l, [], error (atom Atom.badarg))
    else if not alpn
    then (l, [], error (atom Atom.alpn))
    else if l.listener == 0
    then (l, [], error (atom Atom.closed))
    else if nif.failed started
    then (
      l,
      listener_start l.listener started ∷ [],
      error3 Atom.listener_start_error (status started),
    )
    else (record l { is_stopped = false }, listener_start l.listener started ∷ [], ok)

-- The owner is gone: the listener is stopped, and may still be started or closed by others.
unfoldable pub resource_listener_down_callback : ListenerCtx → ListenerCtx × List Effect
resource_listener_down_callback l =
    if not l.is_closed && not l.is_stopped && not (l.listener == 0)
    then (record l { is_stopped = true }, listener_stop l.listener ∷ [])
    else (l, [])

-- The last reference is gone: the handle is closed if nobody did.
unfoldable pub resource_listener_dealloc_callback : ListenerCtx → ListenerCtx × List Effect
resource_listener_dealloc_callback l = (
  record l { cacertfile = false },
  if not l.is_closed && not (l.listener == 0) then listener_close l.listener ∷ [] else [],
)

-- Within a stop the owner is told; within a close the context is destroyed as well. `none` is the
-- failed assertion `!l_ctx->is_stopped`.
unfoldable pub stop_complete : ListenerCtx → Option (List Effect)
stop_complete l =
    if l.listener == 0
    then (if l.is_stopped then none else some (report_stopped l.listener_pid ∷ destroy_l_ctx ∷ []))
    else some (report_stopped l.listener_pid ∷ [])
