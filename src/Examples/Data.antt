-- ===== src/Examples/Data.antt =====
-- The concrete stream, flows and events that the examples share.
use quicer.Prelude.{ℕ, refl, true, false, [], ◌∷◌, arith}
use quicer.Queue.{Acceptor, RecvMode, passive}
use quicer.Stream.State.{StreamCtx}
use quicer.Stream.Receive.{RecvEvent}
use quicer.Stream.Flow.{Flow, Indicates, IsFaithful}

abbrev pub owner_in : RecvMode → ℕ → Acceptor
owner_in mode count = record { pid = 7; active = mode; active_count = count; settings = 0 }

-- An open stream with nothing received.
abbrev pub ctx_of : Acceptor → StreamCtx
ctx_of owner = record {
  connection = 1;
  stream = 2;
  owner = owner;
  handle = 3;
  buffer0 = [];
  buffer1 = [];
  buffer_count = 0;
  total_buffer_length = 0;
  is_wait_for_data = false;
  is_recv_pending = false;
  is_closed = false;
  event_mask = 1;
}

-- Its peer sends the bytes 10 to 15.
abbrev pub flow_of : Acceptor → Flow
flow_of owner = record {
  ctx = ctx_of owner;
  peer = 10 ∷ 11 ∷ 12 ∷ 13 ∷ 14 ∷ 15 ∷ [];
  consumed = 0;
  outstanding = false;
  received = [];
}

-- The first four of them, in two buffers.
abbrev pub four_bytes : RecvEvent
four_bytes = record {
  first = 10 ∷ 11 ∷ 12 ∷ [];
  second = 13 ∷ [];
  count = 2;
  total = 4;
  absolute_offset = 0;
  flags = 0;
}

pub flow_of-IsFaithful : (owner : Acceptor) → IsFaithful (flow_of owner)
flow_of-IsFaithful owner = record {
  received_eq = refl;
  in_sync = refl;
  some_bytes = λ e. cc;
  held = λ e. cc;
  next = λ e. cc;
}

pub four_bytes-Indicates : (owner : Acceptor) → Indicates (flow_of owner) four_bytes
four_bytes-Indicates owner = record {
  buffers = omega arith;
  held = omega arith;
  sent = omega arith;
  next = refl;
}

-- The same stream with the four bytes held back for a passive owner.
abbrev pub parked_ctx : StreamCtx
parked_ctx = record (ctx_of (owner_in passive 0)) {
  buffer0 = 10 ∷ 11 ∷ 12 ∷ [];
  buffer1 = 13 ∷ [];
  buffer_count = 2;
  total_buffer_length = 4;
  is_recv_pending = true;
}

abbrev pub parked_flow : Flow
parked_flow = record (flow_of (owner_in passive 0)) { ctx = parked_ctx; outstanding = true }

pub parked_flow-IsFaithful : IsFaithful parked_flow
parked_flow-IsFaithful = record {
  received_eq = refl;
  in_sync = refl;
  some_bytes = λ e. omega arith;
  held = λ e. omega arith;
  next = λ e. refl;
}

pub parked_flow-Indicates : Indicates parked_flow four_bytes
parked_flow-Indicates = record {
  buffers = omega arith;
  held = omega arith;
  sent = omega arith;
  next = refl;
}
