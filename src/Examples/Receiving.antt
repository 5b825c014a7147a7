-- ===== src/Examples/Receiving.antt =====
-- Receiving on the concrete stream.
use quicer.Prelude.{◌≡◌, refl, true, some, [], ◌∷◌, arith, take}
use quicer.Nif.{Status}
use quicer.Nif.Sample.{sample}
use quicer.Queue.{passive, multi}
use quicer.Stream.Receive.{recvbuffer_flush, recv_locked, handle_stream_event_recv}
use quicer.Stream.Buffers.{recvbuffer_flush-take}
use quicer.Stream.Flow.{
  Flow, IsFaithful, Ends, after_recv, after_indication, after_reply, after_status, apply_effects,
}
use quicer.Stream.Delivery.{handle_stream_event_recv-IsFaithful, recv_locked-IsFaithful}
use quicer.Stream.History.{Step, here, next, indicate, recv, Reach-received}
use quicer.Examples.Data.{
  owner_in, ctx_of, flow_of, four_bytes, flow_of-IsFaithful, four_bytes-Indicates, parked_ctx,
  parked_flow, parked_flow-IsFaithful,
}

abbrev start : Flow
start = flow_of (owner_in passive 0)

-- The owner asks for three of the four bytes that are held back.
abbrev three_read : Flow
three_read = record start {
  ctx = record (ctx_of (owner_in passive 0)) { buffer_count = 2 };
  consumed = 3;
  received = 10 ∷ 11 ∷ 12 ∷ [];
}

held_back : Step sample start parked_flow
unfolding sample handle_stream_event_recv after_status apply_effects
held_back = indicate true four_bytes refl (four_bytes-Indicates (owner_in passive 0)) (λ e. cc) refl

taken : Step sample parked_flow three_read
unfolding sample recv_locked after_reply apply_effects
taken = recv Status.success 3 refl

Reach-received_example : three_read.received ≡ take three_read.consumed start.peer
Reach-received_example =
    Reach-received (next (next here held_back) taken) (flow_of-IsFaithful (owner_in passive 0))

handle_stream_event_recv-IsFaithful_example :
    Ends
      (λ t fx st. IsFaithful (after_indication (flow_of (owner_in multi 1)) 4 t fx st))
      (handle_stream_event_recv sample true (ctx_of (owner_in multi 1)) four_bytes)
handle_stream_event_recv-IsFaithful_example =
    handle_stream_event_recv-IsFaithful sample true (flow_of (owner_in multi 1)) four_bytes
      (flow_of-IsFaithful (owner_in multi 1)) refl (four_bytes-Indicates (owner_in multi 1))
      (λ e. omega arith)

recv_locked-IsFaithful_example :
    Ends
      (λ t fx r. IsFaithful (after_recv parked_flow t fx r))
      (recv_locked sample Status.success parked_ctx 3)
recv_locked-IsFaithful_example =
    recv_locked-IsFaithful sample Status.success 3 parked_flow parked_flow-IsFaithful

recvbuffer_flush-take_example : recvbuffer_flush parked_ctx 3 ≡ some (10 ∷ 11 ∷ 12 ∷ [])
recvbuffer_flush-take_example =
    recvbuffer_flush-take parked_ctx 3 (omega arith) (omega arith) (omega arith)
