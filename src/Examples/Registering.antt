-- ===== src/Examples/Registering.antt =====
-- A registration, and handovers of a connection and a stream.
use quicer.Prelude.{◌≡◌, refl, true, false, none, some, List, [], ◌∷◌, arith}
use quicer.Nif.{Status, ok_with, handle}
use quicer.Nif.Atoms.{Atom}
use quicer.Nif.Sample.{sample, sample_atom}
use quicer.Queue.{passive}
use quicer.Queue.Ownership.{Handover}
use quicer.Stream.Ownership.{resource_stream_down_callback}
use quicer.Stream.Holding.{pass_on-stream_holder}
use quicer.Connection.State.{shutdown_connection}
use quicer.Connection.Holding.{pass_on, held_by, calls_back, watching, pass_on-connection_holder}
use quicer.Registration.{
  Answers, Memory, live, Effect, alloc_env, open_registration, done, new_registration2,
}
use quicer.Registration.Lifecycle.{
  Action, shutdown, collect, use_it, give_back, world, run, IsSound, run-new_registration2-IsSound,
}
use quicer.Library.{loaded}
use quicer.Library.Balance.{
  Call, opens, closes, deregisters, unloads, registers, EndsSafely, run-EndsSafely,
}
use quicer.Examples.Data.{owner_in, ctx_of}
use quicer.Examples.Connections.{connection, owner}

abbrev answers : Answers
answers = record {
  allocated = true;
  name = some (114 ∷ []);
  opened = Status.success;
  opened_registration = 5;
  new_handle = 11;
}

abbrev registered : Memory
registered = live (record {
  has_env = true;
  registration = 5;
  is_released = false;
  name = 114 ∷ [];
  references = 2;
})

abbrev effects : List Effect
effects = alloc_env ∷ open_registration Atom.low_latency ∷ []

registers_it : new_registration2 sample answers none ≡ done registered effects (ok_with (handle 11))
unfolding new_registration2 sample
registers_it = refl

-- A connection is opened, the registration shut down twice, and both references given back.
abbrev history : List (Action sample)
history = use_it ∷ shutdown none ∷ shutdown none ∷ collect ∷ give_back ∷ []

run-new_registration2-IsSound_example : IsSound (run sample (world registered 1 0 effects) history)
run-new_registration2-IsSound_example =
    run-new_registration2-IsSound sample answers none registered effects (handle 11) history
      (ground arith) registers_it

-- The process 7 hands over to 8, tries again, and 8 tries to hand over to a dead process.
abbrev handovers : List Handover
handovers =
    record { caller = 7; new_owner = some 8; alive = true }
    ∷ record { caller = 7; new_owner = some 9; alive = true }
    ∷ record { caller = 8; new_owner = some 10; alive = false }
    ∷ []

-- The process 7 is monitored twice, as behind the event `connected` of a client.
pass_on-connection_holder_example :
    (pass_on (connection, watching 7 (7 ∷ [])) handovers
      ≡ some (held_by connection owner 8, watching 8 (7 ∷ [])))
    × (calls_back 8 (held_by connection owner 8) (8 ∷ 7 ∷ []) ≡ shutdown_connection 6 0 0 ∷ [])
pass_on-connection_holder_example =
    pass_on-connection_holder connection owner (7 ∷ []) handovers 8 refl

pass_on-stream_holder_example :
    (quicer.Stream.Holding.pass_on (ctx_of (owner_in passive 0), some 7) handovers
      ≡ some (quicer.Stream.Holding.held_by (ctx_of (owner_in passive 0)) 8, some 8))
    × (resource_stream_down_callback 7
          (quicer.Stream.Holding.held_by (ctx_of (owner_in passive 0)) 8)
        ≡ [])
pass_on-stream_holder_example = pass_on-stream_holder (ctx_of (owner_in passive 0)) handovers 7

-- The library is opened, a registration made and dropped, the library closed, opened and unloaded.
abbrev calls : List (Call sample)
calls =
    opens Status.success false
    ∷ registers Status.aborted 0 none
    ∷ registers Status.success 9 (some (sample_atom Atom.real_time))
    ∷ deregisters
    ∷ closes
    ∷ opens Status.success true
    ∷ unloads
    ∷ []

run-EndsSafely_example : EndsSafely sample loaded (quicer.Library.Balance.run sample loaded calls)
unfolding sample sample_atom quicer.Library.Balance.are_orderly
run-EndsSafely_example = run-EndsSafely sample calls refl
