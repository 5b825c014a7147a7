-- ===== src/Connection/Incoming.antt =====
-- A stream that the peer opens: handle_connection_event_peer_stream_started of
-- c_src/quicer_connection.c. It goes to the first stream acceptor of the connection, or else, as an
-- orphan, to the owner of the connection.
use quicer.Prelude.{ℕ, Bool, true, false, Option, none, some, [], ◌∷◌, if◌then◌else◌, ◌==◌}
use quicer.Nif.{Status, atom, uint, boolean, event_with_props}
use quicer.Nif.Atoms.{Atom}
use quicer.Queue.{Acceptor, AcceptorQueue, passive, acceptor_dequeue}
use quicer.Stream.State.{StreamCtx, init_s_ctx}
use quicer.Connection.State.{
  ConnCtx, StreamCallback, alloc_s_ctx, keep_c_ctx, send_message, set_callback_handler, Run, fault,
  done,
}

-- What the allocators and the runtime answer during one event; `sent` is the answer of `enif_send`.
pub record Answers : Type 0 where
  pub s_ctx_allocated : Bool
  pub acceptor_allocated : Bool
  pub new_handle : ℕ
  pub sent : Bool

-- The copy of the connection's owner that owns an orphan: passive, and otherwise the same.
unfoldable pub orphan_owner : Acceptor → Acceptor
orphan_owner owner = record owner { active = passive }

-- The context of the stream, with its reference to the connection.
unfoldable pub incoming : ConnCtx → (new_handle stream : ℕ) → Acceptor → StreamCtx
unfolding init_s_ctx
incoming c new_handle stream acc = record (init_s_ctx acc new_handle) {
  connection = c.handle;
  stream = stream;
  is_closed = false;
}

-- Behind the choice of the owner.
unfoldable pub announce :
    Answers
    → StreamCallback
    → ConnCtx
    → (stream flags : ℕ) → (is_orphan : Bool) → Acceptor
    → Run Status
unfolding incoming
announce a callback c stream flags is_orphan acc =
    let s = incoming c a.new_handle stream acc in
    let fx =
      alloc_s_ctx
      ∷ keep_c_ctx
      ∷ send_message acc.pid (
          event_with_props (atom Atom.new_stream) s.handle
            ((Atom.flags, uint flags) ∷ (Atom.is_orphan, boolean is_orphan) ∷ []))
      ∷ (if a.sent then set_callback_handler callback s ∷ [] else []) in
    done c fx (if a.sent then Status.success else Status.unreachable)

-- Without an acceptor the owner of the connection is copied.
unfoldable pub adopt :
    Answers
    → StreamCallback
    → ConnCtx
    → (stream flags : ℕ) → Option Acceptor × AcceptorQueue
    → Run Status
unfolding announce orphan_owner
adopt a callback c stream flags (some acc, queue) =
    announce a callback (record c { acceptor_queue = queue }) stream flags false acc
adopt a callback c stream flags (none, queue) =
    if a.acceptor_allocated
    then elim c.owner [
      | none ↦ fault
      | some owner ↦
          announce a callback (record c { acceptor_queue = queue }) stream flags true
            (orphan_owner owner)
    ]
    else fault

-- A failed allocation of the context is a fault: it is written to before anybody checks.
unfoldable pub handle_connection_event_peer_stream_started :
    Answers → StreamCallback → ConnCtx → (stream flags : ℕ) → Run Status
unfolding adopt acceptor_dequeue
handle_connection_event_peer_stream_started a callback c stream flags =
    if c.connection == 0
    then fault
    else if a.s_ctx_allocated
    then adopt a callback c stream flags (acceptor_dequeue c.acceptor_queue)
    else fault
