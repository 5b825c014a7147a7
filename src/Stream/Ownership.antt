-- ===== src/Stream/Ownership.antt =====
-- The owner of a stream: stream_controlling_process and the callbacks of the stream's resource in
-- c_src/quicer_nif.c.
use quicer.Prelude.{ℕ, Bool, not, Option, none, some, List, [], ◌∷◌, ◌==◌, if◌then◌else◌}
use quicer.Nif.{Status, Reply, ok, error, atom}
use quicer.Nif.Atoms.{Atom}
use quicer.Stream.State.{
  StreamCtx, Effect, monitor, demonitor, shutdown_stream, immediate, abort_receive, abort_send,
  close_stream, release_connection, destroy_acceptor, Run, done,
}

-- As for a connection; the owner of a stream is always there.
unfoldable pub stream_controlling_process :
    (caller : ℕ) → (new_owner : Option ℕ) → (alive : Bool) → StreamCtx → Run Reply
stream_controlling_process caller new_owner alive s =
    if not (s.owner.pid == caller)
    then done s [] (error (atom Atom.not_owner))
    else elim new_owner [
      | none ↦ done s [] (error (atom Atom.badarg))
      | some pid ↦
          if alive
          then done (record s { owner = record s.owner { pid = pid } })
              (demonitor ∷ monitor pid ∷ []) ok
          else done (record s { owner = record s.owner { pid = caller } })
              (demonitor ∷ monitor caller ∷ []) (error (atom Atom.owner_dead))
    ]

-- A process that was monitored has died: the stream is aborted if it is the owner.
unfoldable pub resource_stream_down_callback : (dead : ℕ) → StreamCtx → List Effect
resource_stream_down_callback dead s =
    if s.owner.pid == dead
    then shutdown_stream s.stream (immediate ∷ abort_receive ∷ abort_send ∷ []) Status.success ∷ []
    else []

-- The last reference is gone: the reference to the connection goes behind the handle. `none` is the
-- failed assertion that the stream is closed.
unfoldable pub resource_stream_dealloc_callback : StreamCtx → Option (List Effect)
resource_stream_dealloc_callback s =
    if s.is_closed
    then some (
        if s.stream == 0
        then release_connection s.connection ∷ destroy_acceptor s.owner ∷ []
        else close_stream s.stream
          ∷ release_connection s.connection
          ∷ destroy_acceptor s.owner
          ∷ [])
    else none
