-- ===== src/Examples/Events.antt =====
-- Events at the concrete stream.
use quicer.Prelude.{true, false, some, [], ◌∷◌}
use quicer.Nif.{Status}
use quicer.Nif.Sample.{sample}
use quicer.Queue.{passive}
use quicer.Stream.Events.{
  StreamEvent, shutdown_complete, send_complete, server_stream_callback, client_stream_callback,
}
use quicer.Stream.Closing.{
  ServerOutcome, ClientOutcome, server_stream_callback-Outcome, client_stream_callback-Outcome,
}
use quicer.Examples.Data.{owner_in, ctx_of}

abbrev shut_down : StreamEvent
shut_down = shutdown_complete true false false true 42 Status.success

abbrev sent : StreamEvent
sent =
    send_complete (some (record { owner_ctx = 1; caller = 9; is_sync = true; buffer = 5 ∷ [] }))
      false

server_stream_callback-Outcome_example :
    ServerOutcome
      (ctx_of (owner_in passive 0))
      shut_down
      (server_stream_callback sample true (ctx_of (owner_in passive 0)) shut_down)
server_stream_callback-Outcome_example =
    server_stream_callback-Outcome sample true (ctx_of (owner_in passive 0)) shut_down

client_stream_callback-Outcome_example :
    ClientOutcome
      (ctx_of (owner_in passive 0))
      sent
      (client_stream_callback sample true (ctx_of (owner_in passive 0)) sent)
client_stream_callback-Outcome_example =
    client_stream_callback-Outcome sample true (ctx_of (owner_in passive 0)) sent
