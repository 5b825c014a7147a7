-- ===== src/Examples/Connections.antt =====
-- Events at a concrete connection, and the processes that own or await its streams.
use quicer.Prelude.{refl, true, false, none, some, List, [], ◌∷◌, arith}
use quicer.Prelude.Int.{pos}
use quicer.Queue.{Acceptor, active, multi}
use quicer.Connection.State.{ConnCtx, client_stream, server_stream}
use quicer.Connection.Incoming.{handle_connection_event_peer_stream_started}
use quicer.Connection.Events.{
  peer_stream_started, shutdown_complete, resumed, Hosts, client_connection_callback,
  server_connection_callback,
}
use quicer.Connection.Closing.{
  IsReady, EndsIn, Outcome, ServerEnds, client_connection_callback-Outcome,
  server_connection_callback-Outcome,
}
use quicer.Connection.Farewell.{Farewell, shutdown_complete-Farewell}
use quicer.Connection.Serving.{
  Action, wait, start, answers, run, assigned, Follows, run-assigned, Announced,
  peer_stream_started-Announced,
}
use quicer.Examples.Data.{owner_in}

abbrev pub owner : Acceptor
owner = owner_in multi 5

-- A process that waits for a stream.
abbrev waiting : Acceptor
waiting = record { pid = 8; active = active; active_count = 0; settings = 0 }

-- A connection with a handle, on which one process waits.
abbrev pub connection : ConnCtx
connection = record {
  handle = 4;
  config_resource = some 12;
  r_ctx = 0;
  connection = 6;
  acceptor_queue = waiting ∷ [];
  owner = some owner;
  trusted = 9;
  tls_secrets = false;
  resumption_ticket = none;
  is_closed = false;
  event_mask = 0;
  ssl_keylogfile = false;
  peer_cert = 0;
}

abbrev pub hosts : Hosts
hosts = record {
  answers = answers 3 true;
  allocated = true;
  ssl = record { dup = λ cert. cert; verify_cert = λ store cert chain. pos 1; der = λ cert. none };
}

connection-IsReady : IsReady hosts 6 connection owner
connection-IsReady = record {
  matches = refl;
  has_handle = ground arith;
  owned = refl;
  s_ctx_memory = refl;
  acceptor_memory = refl;
}

client_connection_callback-Outcome_example :
    EndsIn
      (Outcome connection (peer_stream_started 21 1))
      (client_connection_callback hosts 6 connection (peer_stream_started 21 1))
client_connection_callback-Outcome_example =
    client_connection_callback-Outcome hosts 6 connection owner (peer_stream_started 21 1)
      connection-IsReady

server_connection_callback-Outcome_example :
    ServerEnds connection
      (resumed 3 (some (1 ∷ [])))
      (server_connection_callback hosts 6 connection (resumed 3 (some (1 ∷ []))))
server_connection_callback-Outcome_example =
    server_connection_callback-Outcome hosts 6 connection owner (resumed 3 (some (1 ∷ [])))
      connection-IsReady

shutdown_complete-Farewell_example :
    EndsIn
      (Farewell connection owner)
      (client_connection_callback hosts 6 connection (shutdown_complete true true false))
    × EndsIn
        (Farewell connection owner)
        (server_connection_callback hosts 6 connection (shutdown_complete true true false))
shutdown_complete-Farewell_example =
    shutdown_complete-Farewell hosts 6 connection owner true true false connection-IsReady

-- Two streams, of which the first goes to the process that waits and the second to the owner; then a
-- process that waits for the third, and dies.
abbrev history : List Action
history = start 30 31 0 true ∷ start 32 33 1 true ∷ wait waiting ∷ start 34 35 0 false ∷ []

run-assigned_example :
    Follows connection
      (assigned owner (waiting ∷ []) history)
      (run server_stream connection history)
run-assigned_example = run-assigned server_stream owner connection history refl (ground arith)

peer_stream_started-Announced_example :
    Announced connection 21 waiting false
      (handle_connection_event_peer_stream_started (answers 3 false) client_stream connection 21 1)
peer_stream_started-Announced_example =
    peer_stream_started-Announced client_stream connection owner 3 21 1 false refl (ground arith)
