-- ===== src/Stream/Closing.antt =====
-- When a stream context is closed and destroyed.
use quicer.Prelude.{ℕ, suc, ◌≡◌, Bool, true, false, none, some, List, [], ◌∷◌, arith}
use quicer.Nif.{Nif, Status}
use quicer.Stream.State.{
  StreamCtx, Effect, destroy_s_ctx, destroy_send_ctx, Run, refused, fault, done,
}
use quicer.Stream.Receive.{RecvEvent, handle_stream_event_recv}
use quicer.Stream.Events.{
  StreamEvent, start_complete, send_complete, receive, shutdown_complete, server_stream_callback,
  client_stream_callback,
}

-- How often the effects destroy the stream context, and send contexts.
abbrev pub stream_destroys : List Effect → ℕ
stream_destroys [] = 0
stream_destroys (destroy_s_ctx ∷ fx) = suc (stream_destroys fx)
stream_destroys (_ ∷ fx) = stream_destroys fx

abbrev pub send_destroys : List Effect → ℕ
send_destroys [] = 0
send_destroys (destroy_send_ctx ∷ fx) = suc (send_destroys fx)
send_destroys (_ ∷ fx) = send_destroys fx

-- The outcome that an event must have: the context is destroyed, once, by `shutdown_complete` alone,
-- and then marked closed; only `start_complete` marks it open; a send context is destroyed, once, by
-- the completion of its send alone; and owner's identity, stream and handle stay.
abbrev pub expected_closed : StreamEvent → Bool → Bool
expected_closed (shutdown_complete _ _ _ _ _ _) was = true
expected_closed _ was = was

abbrev pub expected_destroys : StreamEvent → ℕ
expected_destroys (shutdown_complete _ _ _ _ _ _) = 1
expected_destroys _ = 0

abbrev pub expected_send_destroys : StreamEvent → ℕ
expected_send_destroys (send_complete (some _) _) = 1
expected_send_destroys _ = 0

pub record Outcome (s : StreamCtx) (closed : Bool) (n m : ℕ) (t : StreamCtx) (fx : List Effect)
    : Type 0 where
  pub is_closed : t.is_closed ≡ closed
  pub destroyed : stream_destroys fx ≡ n
  pub sends_destroyed : send_destroys fx ≡ m
  pub same_stream : t.stream ≡ s.stream
  pub same_owner : t.owner.pid ≡ s.owner.pid

-- Only the event `receive` may end in a fault, and no event is refused.
abbrev pub MayFault : StreamEvent → Type 0
MayFault (receive _) = Unit {0}
MayFault _ = ⊥

abbrev pub EndsOr : Type 0 → (StreamCtx → List Effect → Type 0) → Run Status → Type 0
EndsOr F P (refused a) = ⊥
EndsOr F P fault = F
EndsOr F P (done t fx st) = P t fx

recv_Outcome :
    (nif : Nif) (sent : Bool) (s : StreamCtx) (e : RecvEvent)
    → EndsOr (Unit {0}) (Outcome s s.is_closed 0 0) (handle_stream_event_recv nif sent s e)
unfolding handle_stream_event_recv
recv_Outcome nif sent s e = ground arith

abbrev pub ServerOutcome : StreamCtx → StreamEvent → Run Status → Type 0
ServerOutcome s e =
    EndsOr (MayFault e)
      (Outcome s (expected_closed e s.is_closed) (expected_destroys e) (expected_send_destroys e))

-- Each event at a stream that the peer opened: `shutdown_complete` alone destroys the context,
-- once, and marks it closed; the completion of a send alone destroys that send's context, once;
-- the stream's handle and its owner's identity stay; and no event but `receive` can fault.
pub server_stream_callback-Outcome :
    (nif : Nif) (sent : Bool) (s : StreamCtx) (e : StreamEvent)
    → ServerOutcome s e (server_stream_callback nif sent s e)
unfolding server_stream_callback
server_stream_callback-Outcome nif sent s (receive e) = recv_Outcome nif sent s e
server_stream_callback-Outcome nif sent s (send_complete none b) = ground arith
server_stream_callback-Outcome nif sent s (send_complete (some c) b) = ground arith
server_stream_callback-Outcome nif sent s _ = ground arith

-- The local stream also marks itself open at `start_complete`.
abbrev pub client_closed : StreamEvent → Bool → Bool
client_closed (start_complete _ _ _) was = false
client_closed e was = expected_closed e was

abbrev pub ClientOutcome : StreamCtx → StreamEvent → Run Status → Type 0
ClientOutcome s e =
    EndsOr (MayFault e)
      (Outcome s (client_closed e s.is_closed) (expected_destroys e) (expected_send_destroys e))

-- Each event at a stream that was opened locally: `shutdown_complete` alone destroys the context,
-- once, and marks it closed; `start_complete` alone marks it open; the completion of a send alone
-- destroys that send's context, once; the stream's handle and its owner's identity stay; and no
-- event but `receive` can fault.
pub client_stream_callback-Outcome :
    (nif : Nif) (sent : Bool) (s : StreamCtx) (e : StreamEvent)
    → ClientOutcome s e (client_stream_callback nif sent s e)
unfolding client_stream_callback
client_stream_callback-Outcome nif sent s (receive e) = recv_Outcome nif sent s e
client_stream_callback-Outcome nif sent s (send_complete none b) = ground arith
client_stream_callback-Outcome nif sent s (send_complete (some c) b) = ground arith
client_stream_callback-Outcome nif sent s _ = ground arith
