-- ===== src/Examples/Connecting.antt =====
-- Opening a connection and connecting.
use quicer.Prelude.{◌≡◌, refl, true, false, none, some, [], ◌∷◌, arith, inl, List, Option}
use quicer.Prelude.Int.{pos}
use quicer.Nif.{Nif, Status, ok, ok_with, error, atom, handle}
use quicer.Nif.Atoms.{Atom}
use quicer.Nif.Sample.{sample, sample_int, sample_map, empty, pair, int}
use quicer.Queue.{Acceptor, acceptor_alloc}
use quicer.Connection.State.{
  ConnCtx, monitor, alloc_c_ctx, open_connection, set_option, start_connection, destroy_acceptor,
}
use quicer.Connection.Events.{connected, peer_stream_started, shutdown_complete}
use quicer.Connection.Open.{Answers, Opened}
use quicer.Connection.Lifecycle.{World, Action, report, collect, free_stream, world, run, IsSound}
use quicer.Connection.Counting.{run-async_connect3-IsSound}
use quicer.Connection.Connect.{Setup, async_connect3}
use quicer.Connection.Opening.{Sets}
use quicer.Connection.Ending.{Connects}
use quicer.Connection.Connecting.{async_connect3-Connects}
use quicer.Examples.Connections.{hosts}

-- `#{quic_event_mask => 1}`
abbrev options : Nif.Term sample
options = sample_map (pair Atom.quic_event_mask (int (pos 1)) empty)

-- Every call succeeds.
abbrev answers : Answers sample
answers = record {
  registration = λ t. none;
  handle_of = λ r. 0;
  global = 2;
  c_ctx_allocated = true;
  acceptor_allocated = true;
  self = some 7;
  new_handle = 4;
  opened = Status.success;
  opened_connection = 6;
  set_connection_opt = λ o t. ok;
  close_reports = false;
}

-- Every call succeeds but the start.
abbrev setup : Setup sample
setup = record {
  host = some (104 ∷ []);
  resource = λ t. none;
  config_allocated = true;
  cacertfile = some true;
  trusted_store = some 9;
  loaded = none;
  configuration = 12;
  keylogfile = true;
  secrets_allocated = true;
  secrets_set = Status.success;
  started = Status.aborted;
}

answers-Sets : Sets sample answers
answers-Sets o v = inl refl

async_connect3-Connects_example :
    Connects false (async_connect3 sample answers setup (sample_int (pos 443)) options)
unfolding sample sample_map
async_connect3-Connects_example =
    async_connect3-Connects sample answers setup options answers-Sets (sample_int (pos 443)) refl
      refl (ground arith) tt

-- What the failed start leaves.
abbrev left : ConnCtx
left = record {
  handle = 4;
  config_resource = some 12;
  r_ctx = 0;
  connection = 0;
  acceptor_queue = [];
  owner = none;
  trusted = 9;
  tls_secrets = true;
  resumption_ticket = none;
  is_closed = false;
  event_mask = 1;
  ssl_keylogfile = true;
  peer_cert = 0;
}

abbrev opened : Opened
opened = record {
  ctx = some left;
  effects =
      alloc_c_ctx
      ∷ open_connection 2
      ∷ set_option 6
      ∷ start_connection 6 12 (104 ∷ []) (pos 443)
      ∷ destroy_acceptor (record acceptor_alloc { pid = 7 })
      ∷ [];
  reply = error (atom Atom.conn_start_error);
}

start_fails : async_connect3 sample answers setup (sample_int (pos 443)) options ≡ some opened
unfolding async_connect3 sample sample_map sample_int
start_fails = refl

abbrev value_of : Option World → World
value_of none = world none 0 0 0 true []
value_of (some w) = w

-- What a start that succeeds gives.
abbrev started : ConnCtx
started = record left { connection = 6; owner = some (record acceptor_alloc { pid = 7 }) }

abbrev connected_to : Opened
connected_to = record {
  ctx = some started;
  effects =
      alloc_c_ctx
      ∷ open_connection 2
      ∷ set_option 6
      ∷ start_connection 6 12 (104 ∷ []) (pos 443)
      ∷ monitor 7
      ∷ [];
  reply = ok_with (handle 4);
}

abbrev good_setup : Setup sample
good_setup = record setup { started = Status.success }

start_succeeds :
    async_connect3 sample answers good_setup (sample_int (pos 443)) options ≡ some connected_to
unfolding async_connect3 sample sample_map sample_int
start_succeeds = refl

-- It connects, its term is collected, the peer opens a stream, it shuts down, and the stream is freed.
abbrev history : List Action
history =
    report hosts (connected false [])
    ∷ collect
    ∷ report hosts (peer_stream_started 21 1)
    ∷ report hosts (shutdown_complete true true false)
    ∷ free_stream
    ∷ []

run-async_connect3-IsSound_example :
    (owner : Acceptor) × (started.owner ≡ some owner)
    × IsSound 6 owner (run 6 (world (some started) 2 1 0 false connected_to.effects) history)
unfolding sample sample_map
run-async_connect3-IsSound_example =
    run-async_connect3-IsSound sample answers good_setup (sample_int (pos 443)) options connected_to
      started (handle 4) 1 history answers-Sets refl refl (ground arith) tt start_succeeds refl refl

-- The peer's stream is there, and so is the term of another process.
abbrev early : List Action
early = report hosts (connected false []) ∷ report hosts (peer_stream_started 21 1) ∷ []

abbrev early_world : World
early_world = value_of (run 6 (world (some started) 2 1 0 false connected_to.effects) early)
