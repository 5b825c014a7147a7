-- ===== src/Stream/Holding.antt =====
-- The owner of a stream through handovers and deaths.
use quicer.Prelude.{ℕ, ◌≡◌, refl, Option, none, some, List, [], ◌∷◌, arith, ◌==◌, if◌then◌else◌}
use quicer.Nif.{Reply, Status}
use quicer.Queue.Ownership.{Handover, holder, receiver}
use quicer.Stream.State.{
  StreamCtx, Effect, monitor, demonitor, shutdown_stream, immediate, abort_receive, abort_send, Run,
  done,
}
use quicer.Stream.Ownership.{stream_controlling_process, resource_stream_down_callback}

-- The process that is monitored behind the effects.
abbrev pub watched : Option ℕ → List Effect → Option ℕ
watched w [] = w
watched w (monitor pid ∷ fx) = watched (some pid) fx
watched w (demonitor ∷ fx) = watched none fx
watched w (_ ∷ fx) = watched w fx

-- Behind one call, and behind a list of them: the context, and who is monitored. `none` is a fault.
abbrev pub behind : Option ℕ → Run Reply → Option (StreamCtx × Option ℕ)
behind w (done c fx r) = some (c, watched w fx)
behind w _ = none

unfoldable pub pass_on : StreamCtx × Option ℕ → List Handover → Option (StreamCtx × Option ℕ)
unfolding stream_controlling_process
pass_on s [] = some s
pass_on (c, w) (h ∷ rest) =
    elim (behind w (stream_controlling_process h.caller h.new_owner h.alive c)) [
      | none ↦ none
      | some s ↦ pass_on s rest
    ]

abbrev pub held_by : StreamCtx → ℕ → StreamCtx
held_by s pid = record s { owner = record s.owner { pid = pid } }

one_handover :
    (c : StreamCtx) (pid : ℕ) (h : Handover)
    → behind (some pid) (stream_controlling_process h.caller h.new_owner h.alive (held_by c pid))
      ≡ (let next = if pid == h.caller then receiver h pid else pid in
          some (held_by c next, some next))
unfolding stream_controlling_process
one_handover c pid h = ground arith

handed_over :
    (c : StreamCtx) (pid : ℕ) (history : List Handover)
    → pass_on (held_by c pid, some pid) history
      ≡ some (held_by c (holder pid history), some (holder pid history))
unfolding pass_on
handed_over c pid [] = refl
handed_over c pid (h ∷ rest) =
    rw (pass_on, one_handover c pid h)
      (handed_over c (if pid == h.caller then receiver h pid else pid) rest)

-- Take a stream whose owner is monitored, and any calls of `stream_controlling_process`, from
-- whichever process and to whichever term. None faults. Behind them the holder owns the stream: the
-- process to which a holder has last handed it over while that was alive, or the first owner. It
-- keeps the receive mode and its counter, and is the one process that is monitored; nothing else in
-- the context has changed; and the death of a process aborts both directions of the stream, once and
-- at once, if it is the holder, and otherwise does nothing.
pub pass_on-stream_holder :
    (s : StreamCtx) (history : List Handover) (dead : ℕ)
    → let last = holder s.owner.pid history in
      (pass_on (s, some s.owner.pid) history ≡ some (held_by s last, some last))
      × (resource_stream_down_callback dead (held_by s last) ≡ (
          if last == dead
          then shutdown_stream s.stream (immediate ∷ abort_receive ∷ abort_send ∷ []) Status.success
            ∷ []
          else []))
unfolding resource_stream_down_callback
pass_on-stream_holder s history dead = (handed_over s s.owner.pid history, refl)
