-- ===== src/Examples/Listening.antt =====
-- A listener that is opened, used and closed.
use quicer.Prelude.{◌+◌, ◌≡◌, refl, true, false, none, some, [], ◌∷◌, ◌==◌}
use quicer.Nif.{Nif, Status}
use quicer.Nif.Atoms.{Atom}
use quicer.Nif.Sample.{sample, sample_map, empty, pair, atom}
use quicer.Queue.{active, passive}
use quicer.Listener.State.{ListenerCtx}
use quicer.Listener.Open.{Answers, listen2}
use quicer.Listener.Accept.{new_connection}
use quicer.Listener.System.{System, close, owner_down, act}
use quicer.Listener.Lifecycle.{IsOpen, here, next, Reach-released}
use quicer.Listener.Settling.{
  allocs, destroys, certificates_freed, successes, Settled, listen2-destroys,
  new_connection-Settled,
}
use quicer.Examples.Data.{owner_in}

abbrev listening_ctx : ListenerCtx
listening_ctx = record {
  config_resource = some 4;
  r_ctx = 0;
  listener = 5;
  acceptor_queue = [];
  listener_pid = 7;
  cacertfile = false;
  trusted_store = 0;
  is_closed = false;
  is_stopped = false;
  allow_insecure = true;
}

abbrev listening : System
listening = record { ctx = listening_ctx; listening = true; released = 0 }

listening-IsOpen : IsOpen listening
listening-IsOpen = record {
  not_closed = refl;
  has_handle = refl;
  has_config = λ e. cc;
  in_step = refl;
  not_released = refl;
}

-- Stopped by the death of its owner, and closed by another process.
abbrev stopped : System
stopped = record {
  ctx = record listening_ctx { is_stopped = true };
  listening = false;
  released = 0;
}

abbrev closed : System
closed = record {
  ctx = record listening_ctx {
    config_resource = none;
    listener = 0;
    is_closed = true;
    is_stopped = true;
  };
  listening = false;
  released = 1;
}

down_run : act sample listening owner_down ≡ some stopped
unfolding act
down_run = refl

close_run : act sample stopped close ≡ some closed
unfolding act
close_run = refl

Reach-released_example : (closed.released ≡ 1) × ((closed.ctx.listener == 0) ≡ true)
Reach-released_example =
    Reach-released (next close (next owner_down here tt down_run) tt close_run) listening-IsOpen

abbrev options : Nif.Term sample
options = sample_map (pair Atom.allow_insecure (atom Atom.true) empty)

-- All is well up to the start, which MsQuic answers with the argument.
abbrev answers : Status → Answers
answers started_as = record {
  address = true;
  certificate = true;
  verify = true;
  cacertfile = some false;
  allocated = true;
  trusted_store = none;
  self = some 7;
  registration = some 0;
  loaded = none;
  configuration = 4;
  monitored = true;
  opened = Status.success;
  opened_listener = 5;
  alpn = true;
  started = started_as;
  new_handle = 6;
}

listen2-destroys_example :
    (allocs (listen2 sample (answers Status.address_in_use) options).effects
      ≡ destroys (listen2 sample (answers Status.address_in_use) options).effects
        + successes (listen2 sample (answers Status.address_in_use) options).reply)
    × (certificates_freed (listen2 sample (answers Status.address_in_use) options).effects
        ≡ allocs (listen2 sample (answers Status.address_in_use) options).effects)
listen2-destroys_example = listen2-destroys sample (answers Status.address_in_use) options

abbrev with_acceptor : ListenerCtx
with_acceptor = record listening_ctx {
  acceptor_queue = owner_in active 0 ∷ owner_in passive 0 ∷ [];
}

new_connection-Settled_example :
    Settled true with_acceptor.acceptor_queue 8 (new_connection true true with_acceptor 8)
new_connection-Settled_example = new_connection-Settled true with_acceptor 8 4 refl
