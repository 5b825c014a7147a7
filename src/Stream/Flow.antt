-- ===== src/Stream/Flow.antt =====
-- A stream between MsQuic and its owner: what MsQuic has handed over, what it takes as consumed, and
-- what the owner has received. MsQuic indicates data from the first byte not yet consumed, and not
-- again while an indication is outstanding: while the callback has answered `pending` and
-- `StreamReceiveComplete` has not been called. Any other answer consumes the whole indication.
use quicer.Prelude.{
  ℕ, ◌+◌, ◌≤◌, ◌<◌, ◌≡◌, Bool, true, false, List, [], ◌∷◌, ◌++◌, length, take, drop,
}
use quicer.Nif.{Status, Reply, ok_with, event_with_props, binary}
use quicer.Stream.State.{
  StreamCtx, Effect, receive_complete, send_message, Run, refused, fault, done,
}
use quicer.Stream.Receive.{RecvEvent}
use quicer.Stream.Buffers.{contents}

-- `peer` is all that the peer sends on the stream.
pub record Flow : Type 0 where
  pub ctx : StreamCtx
  pub peer : List ℕ
  pub consumed : ℕ
  pub outstanding : Bool
  pub received : List ℕ

-- What a call of MsQuic and a message to the owner mean.
unfoldable pub apply_effect : Flow → Effect → Flow
apply_effect f (receive_complete _ n) = record f { consumed = f.consumed + n; outstanding = false }
apply_effect f (send_message _ (event_with_props (binary b) _ _)) = record f {
  received = f.received ++ b;
}
apply_effect f _ = f

unfoldable pub apply_effects : Flow → List Effect → Flow
unfolding apply_effect
apply_effects f [] = f
apply_effects f (e ∷ es) = apply_effects (apply_effect f e) es

-- The answer of the callback to an indication of `total` bytes.
unfoldable pub after_status : Flow → ℕ → Status → Flow
after_status f total Status.pending = record f { outstanding = true }
after_status f total _ = record f { consumed = f.consumed + total }

-- The result of a NIF that the owner called.
unfoldable pub after_reply : Flow → Reply → Flow
after_reply f (ok_with (binary b)) = record f { received = f.received ++ b }
after_reply f _ = f

-- The event shows the bytes from the first one not consumed, in the two buffers.
pub record Indicates (f : Flow) (e : RecvEvent) : Type 0 where
  pub buffers : 0 < e.count
  pub held : e.total ≤ length (e.first ++ e.second)
  pub sent : e.total ≤ length (drop f.consumed f.peer)
  pub next : take e.total (e.first ++ e.second) ≡ take e.total (drop f.consumed f.peer)

-- Every byte received so far, in order and once; and a pending indication is one that MsQuic holds
-- open, of bytes that are still in the buffers.
pub record IsFaithful (f : Flow) : Type 0 where
  pub received_eq : f.received ≡ take f.consumed f.peer
  pub in_sync : f.ctx.is_recv_pending ≡ f.outstanding
  pub some_bytes : f.outstanding ≡ true → 0 < f.ctx.total_buffer_length
  pub held : f.outstanding ≡ true → f.ctx.total_buffer_length ≤ length (contents f.ctx)
  pub next :
      f.outstanding ≡ true
      → take f.ctx.total_buffer_length (contents f.ctx)
        ≡ take f.ctx.total_buffer_length (drop f.consumed f.peer)

-- A run that ends, without a fault, in a state that satisfies the predicate.
abbrev pub Ends : {A : Type 0} → (StreamCtx → List Effect → A → Type 0) → Run A → Type 0
Ends P (refused a) = ⊥
Ends P fault = ⊥
Ends P (done t fx a) = P t fx a

abbrev pub after_recv : Flow → StreamCtx → List Effect → Reply → Flow
after_recv f t fx r = after_reply (apply_effects (record f { ctx = t }) fx) r

abbrev pub after_indication : Flow → ℕ → StreamCtx → List Effect → Status → Flow
after_indication f total t fx st = after_status (apply_effects (record f { ctx = t }) fx) total st
