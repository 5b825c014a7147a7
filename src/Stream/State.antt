-- ===== src/Stream/State.antt =====
-- `QuicerStreamCTX` of c_src/quicer_ctx.h, what its operations do to the hosts, and how they end.
use quicer.Prelude.{ℕ, Bool, true, false, List, []}
use quicer.Nif.{Status, Message}
use quicer.Queue.{Acceptor}

-- A pointer or a handle is a number, NULL is 0. A `QUIC_BUFFER` is the bytes that it points at.
-- `connection` is `c_ctx`, which the stream keeps alive.
pub record StreamCtx : Type 0 where
  pub connection : ℕ
  pub stream : ℕ
  pub owner : Acceptor
  pub handle : ℕ  -- eHandle
  pub buffer0 : List ℕ
  pub buffer1 : List ℕ
  pub buffer_count : ℕ
  pub total_buffer_length : ℕ
  pub is_wait_for_data : Bool
  pub is_recv_pending : Bool
  pub is_closed : Bool
  pub event_mask : ℕ

-- `init_s_ctx`, with the owner and the handle that its callers fill in.
unfoldable pub init_s_ctx : Acceptor → ℕ → StreamCtx
init_s_ctx owner handle = record {
  connection = 0;
  stream = 0;
  owner = owner;
  handle = handle;
  buffer0 = [];
  buffer1 = [];
  buffer_count = 0;
  total_buffer_length = 0;
  is_wait_for_data = false;
  is_recv_pending = false;
  is_closed = true;
  event_mask = 0;
}

pub data ShutdownFlag : Type 0 where
  graceful immediate abort_receive abort_send : ShutdownFlag

-- The calls of MsQuic and of the Erlang runtime that change something there, in order.
pub data Effect : Type 0 where
  receive_complete : (stream consumed : ℕ) → Effect
  receive_set_enabled : (stream : ℕ) → Bool → Effect
  shutdown_stream : (stream : ℕ) → List ShutdownFlag → Status → Effect
  shutdown_stream_raw : (stream flags code : ℕ) → Effect
  set_param_priority : (stream value : ℕ) → Effect
  open_stream : (connection flags : ℕ) → Effect
  start_stream : (stream flags : ℕ) → Effect
  send_stream : (stream : ℕ) → List ℕ → (flags : ℕ) → Effect
  send_message : (pid : ℕ) → Message → Effect
  keep_connection : ℕ → Effect
  alloc_send_ctx destroy_send_ctx alloc_s_ctx destroy_s_ctx : Effect
  enqueue_acceptor destroy_acceptor : Acceptor → Effect
  monitor : (pid : ℕ) → Effect
  demonitor : Effect
  close_stream : (stream : ℕ) → Effect
  release_connection : (connection : ℕ) → Effect

-- `refused`: an argument was refused before any context was touched. `fault`: an assertion fails or
-- memory outside the buffers is read. Otherwise the context afterwards, the effects and the result.
pub data Run (A : Type 0) : Type 0 where
  refused : A → Run A
  fault : Run A
  done : StreamCtx → List Effect → A → Run A

-- `QuicerStreamSendCTX`: who sent, whether it waits for the completion, and the bytes. `owner_ctx`
-- is `s_ctx`.
pub record SendCtx : Type 0 where
  pub owner_ctx : ℕ
  pub caller : ℕ
  pub is_sync : Bool
  pub buffer : List ℕ
