-- ===== src/Examples/Options.antt =====
-- The receive mode and the queue of acceptors.
use quicer.Prelude.{◌≡◌, refl, true, false, some, List, [], ◌∷◌, ◌++◌}
use quicer.Prelude.Int.{negsuc}
use quicer.Nif.{Nif, Status, ok}
use quicer.Nif.Atoms.{Atom}
use quicer.Nif.Sample.{sample, sample_atom, sample_int}
use quicer.Queue.{passive, multi, active, set_owner_recv_mode}
use quicer.Queue.Mode.{Counted, set_owner_recv_mode-Counted}
use quicer.Queue.Order.{Call, enqueue, dequeue, run, run_fifo}
use quicer.Stream.State.{done}
use quicer.Stream.Receive.{set_active}
use quicer.Stream.Options.{Levels, Param, get_stream_opt, set_stream_opt}
use quicer.Stream.RoundTrip.{Shows, get_stream_opt-set_stream_opt}
use quicer.Examples.Data.{owner_in, ctx_of}

abbrev minus_two : Nif.Term sample
minus_two = sample_int (negsuc 1)

no_atom : (a : Atom) → sample.is_same minus_two a ≡ false
unfolding sample sample_int
no_atom a = refl

its_value : sample.get_int minus_two ≡ some (negsuc 1)
unfolding sample sample_int
its_value = refl

set_owner_recv_mode-Counted_example :
    Counted (owner_in multi 3) (negsuc 1) (set_owner_recv_mode sample (owner_in multi 3) minus_two)
set_owner_recv_mode-Counted_example =
    set_owner_recv_mode-Counted sample (owner_in multi 3) minus_two (negsuc 1) (no_atom Atom.false)
      (no_atom Atom.true) (no_atom Atom.once) its_value

abbrev calls : List Call
calls = enqueue (owner_in active 0) ∷ dequeue ∷ dequeue ∷ dequeue ∷ enqueue (owner_in multi 2) ∷ []

run_fifo_example :
    (run (owner_in passive 0 ∷ []) calls).0 ++ (run (owner_in passive 0 ∷ []) calls).1
    ≡ owner_in passive 0 ∷ owner_in active 0 ∷ owner_in multi 2 ∷ []
run_fifo_example = run_fifo (owner_in passive 0 ∷ []) calls

abbrev levels : Levels
levels = record { configuration = ok; tls = ok }

abbrev param : Param
param = record { answer = Status.success; buffer_length = 8; buffer = 4 }

abbrev name : Nif.Term sample
name = sample_atom Atom.active

abbrev no_level : Nif.Term sample
no_level = sample_atom Atom.false

is_name : sample.is_same name Atom.active ≡ true
unfolding sample sample_atom
is_name = refl

is_no_level : sample.is_same no_level Atom.false ≡ true
unfolding sample sample_atom
is_no_level = refl

two_set :
    set_stream_opt sample levels Status.success (ctx_of (owner_in multi 3)) name minus_two no_level
    ≡ done (ctx_of (owner_in multi 1)) [] ok
unfolding sample sample_atom sample_int set_stream_opt set_active set_owner_recv_mode
two_set = refl

get_stream_opt-set_stream_opt_example :
    Shows sample
      (owner_in multi 3)
      minus_two
      (get_stream_opt sample levels param param param (ctx_of (owner_in multi 1)) name no_level)
get_stream_opt-set_stream_opt_example =
    get_stream_opt-set_stream_opt sample levels levels Status.success param param param
      (ctx_of (owner_in multi 3)) (ctx_of (owner_in multi 1)) [] name minus_two no_level is_name
      is_no_level two_set
