-- ===== src/Stream/Contexts.antt =====
-- Who owns the contexts that a NIF allocates: MsQuic, which hands them back to a callback, or nobody,
-- when they have been destroyed.
use quicer.Prelude.{ℕ, suc, ◌+◌, ◌≡◌, ◌≤◌, Bool, true, Option, List, [], ◌∷◌, arith}
use quicer.Nif.{Nif, Status, Reply, ok_with}
use quicer.Stream.State.{
  StreamCtx, Effect, alloc_send_ctx, alloc_s_ctx, send_stream, start_stream, Run, refused, fault,
  done,
}
use quicer.Stream.Closing.{stream_destroys, send_destroys}
use quicer.Stream.Send.{send3}
use quicer.Stream.Open.{Answers, async_start_stream2}
use quicer.Stream.Csend.{csend4}

abbrev pub stream_allocs : List Effect → ℕ
stream_allocs [] = 0
stream_allocs (alloc_s_ctx ∷ fx) = suc (stream_allocs fx)
stream_allocs (_ ∷ fx) = stream_allocs fx

abbrev pub send_allocs : List Effect → ℕ
send_allocs [] = 0
send_allocs (alloc_send_ctx ∷ fx) = suc (send_allocs fx)
send_allocs (_ ∷ fx) = send_allocs fx

abbrev pub sends : List Effect → ℕ
sends [] = 0
sends (send_stream _ _ _ ∷ fx) = suc (sends fx)
sends (_ ∷ fx) = sends fx

abbrev pub starts : List Effect → ℕ
starts [] = 0
starts (start_stream _ _ ∷ fx) = suc (starts fx)
starts (_ ∷ fx) = starts fx

-- One for the reply `{ok, _}`.
abbrev pub successes : Reply → ℕ
successes (ok_with _) = 1
successes _ = 0

-- A run without a fault; nothing is asked where an argument was refused before any allocation.
abbrev pub Settles : (List Effect → Reply → Type 0) → Run Reply → Type 0
Settles P (refused r) = successes r ≡ 0
Settles P fault = ⊥
Settles P (done t fx r) = P fx r

-- `send3` never faults. It answers `{ok, Length}` exactly when `StreamSend` has taken the context
-- over; on every other branch the context that it allocated is destroyed once.
pub send3-send_destroys :
    (nif : Nif) (allocated : Bool) (sent : Status) (s : Option StreamCtx)
    (ebin eflags : Nif.Term nif)
    → Settles
        (λ fx r. send_allocs fx ≡ send_destroys fx + successes r)
        (send3 nif allocated sent s ebin eflags)
unfolding send3
send3-send_destroys nif allocated sent s ebin eflags = ground arith

-- With memory at hand `csend4` never faults. It answers `{ok, Stream}` exactly when `StreamSend` has
-- taken both contexts over; on every other branch each that it allocated is destroyed once.
pub csend4-destroys :
    (nif : Nif) (a : Answers) (c_ctx : Option ℕ) (ebin eoptions eflags : Nif.Term nif)
    → a.send_ctx_allocated ≡ true
    → a.acceptor_allocated ≡ true
    → Settles
        (λ fx r.
          (send_allocs fx ≡ send_destroys fx + successes r)
          × (stream_allocs fx ≡ stream_destroys fx + successes r))
        (csend4 nif a c_ctx ebin eoptions eflags)
unfolding csend4
csend4-destroys nif a c_ctx ebin eoptions eflags p q = ground arith

-- With memory at hand `async_start_stream2` never faults. The context that it allocates is either
-- handed over by `StreamStart`, whose failure the callback answers for, or destroyed once; and the
-- reply is `{ok, Stream}` only behind a call of `StreamStart`.
pub async_start_stream2-destroys :
    (nif : Nif) (a : Answers) (c_ctx : Option ℕ) (eoptions : Nif.Term nif)
    → a.acceptor_allocated ≡ true
    → Settles
        (λ fx r. (stream_allocs fx ≡ stream_destroys fx + starts fx) × (successes r ≤ starts fx))
        (async_start_stream2 nif a c_ctx eoptions)
unfolding async_start_stream2
async_start_stream2-destroys nif a c_ctx eoptions p = ground arith
