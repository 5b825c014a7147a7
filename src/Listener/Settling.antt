-- ===== src/Listener/Settling.antt =====
-- What becomes of the contexts that opening a listener and accepting a connection allocate.
use quicer.Prelude.{
  ℕ, suc, ◌+◌, ◌≡◌, Bool, true, false, Option, none, some, List, [], ◌∷◌, arith, ◌==◌,
}
use quicer.Nif.{Nif, Status, Value, Reply, ok_with}
use quicer.Queue.{Acceptor, AcceptorQueue, acceptor_dequeue}
use quicer.Listener.State.{
  ListenerCtx, Effect, alloc_l_ctx, destroy_l_ctx, free_certificate, release_c_ctx,
  set_callback_handler,
}
use quicer.Listener.Open.{Answers, listen2}
use quicer.Listener.Accept.{Accepted, new_connection, with_config}
use quicer.Listener.Lifecycle.{IsOpen}

abbrev pub allocs : List Effect → ℕ
allocs [] = 0
allocs (alloc_l_ctx ∷ fx) = suc (allocs fx)
allocs (_ ∷ fx) = allocs fx

abbrev pub destroys : List Effect → ℕ
destroys [] = 0
destroys (destroy_l_ctx ∷ fx) = suc (destroys fx)
destroys (_ ∷ fx) = destroys fx

abbrev pub certificates_freed : List Effect → ℕ
certificates_freed [] = 0
certificates_freed (free_certificate ∷ fx) = suc (certificates_freed fx)
certificates_freed (_ ∷ fx) = certificates_freed fx

abbrev pub successes : Reply → ℕ
successes (ok_with _) = 1
successes _ = 0

-- Whatever the options and the answers are, `listen2` answers `{ok, Listener}` with a context that
-- stays, or an error behind which a context that it allocated has been destroyed once; and the
-- certificate is freed, once, exactly where a context was allocated.
pub listen2-destroys :
    (nif : Nif) (a : Answers) (options : Nif.Term nif)
    → (allocs (listen2 nif a options).effects
        ≡ destroys (listen2 nif a options).effects + successes (listen2 nif a options).reply)
      × (certificates_freed (listen2 nif a options).effects
          ≡ allocs (listen2 nif a options).effects)
unfolding listen2
listen2-destroys nif a options = ground arith

-- A listener for which `listen2` answers `{ok, Listener}` is open in the sense of its life cycle,
-- if MsQuic's handle is not NULL.
pub listen2-IsOpen :
    (nif : Nif) (a : Answers) (options : Nif.Term nif) (l : ListenerCtx) (v : Value)
    → (a.opened_listener == 0) ≡ false
    → (listen2 nif a options).ctx ≡ some l
    → (listen2 nif a options).reply ≡ ok_with v
    → IsOpen (record { ctx = l; listening = true; released = 0 })
unfolding listen2
listen2-IsOpen nif a options l v handle made answered = ground arith

abbrev pub c_ctx_releases : List Effect → ℕ
c_ctx_releases [] = 0
c_ctx_releases (release_c_ctx ∷ fx) = suc (c_ctx_releases fx)
c_ctx_releases (_ ∷ fx) = c_ctx_releases fx

abbrev pub handlers_set : List Effect → ℕ
handlers_set [] = 0
handlers_set (set_callback_handler _ ∷ fx) = suc (handlers_set fx)
handlers_set (_ ∷ fx) = handlers_set fx

-- The two ways a connection can go. Accepted: the first acceptor owns it, the context is open,
-- keeps the handle, and has the callback handler. Rejected: MsQuic is told, the context is released
-- once, and its handle and its handler are not there.
pub record IsAccepted (owner : Acceptor) (connection : ℕ) (r : Accepted) : Type 0 where
  pub result : r.result ≡ Status.success
  pub owned : r.c_ctx.owner ≡ some owner
  pub connected : r.c_ctx.connection ≡ connection
  pub open_ : r.c_ctx.is_closed ≡ false
  pub handler : handlers_set r.effects ≡ 1
  pub kept : c_ctx_releases r.effects ≡ 0

pub record IsRejected (st : Status) (r : Accepted) : Type 0 where
  pub result : r.result ≡ st
  pub disconnected : r.c_ctx.connection ≡ 0
  pub closed : r.c_ctx.is_closed ≡ true
  pub handler : handlers_set r.effects ≡ 0
  pub released : c_ctx_releases r.effects ≡ 1

abbrev pub Settled :
    (sent : Bool) → (queue : List Acceptor) → (connection : ℕ) → Option Accepted → Type 0
Settled sent queue connection none = ⊥
Settled sent [] connection (some r) =
    IsRejected Status.unreachable r × (r.listener.acceptor_queue ≡ [])
Settled true (a ∷ queue) connection (some r) =
    IsAccepted a connection r × (r.listener.acceptor_queue ≡ queue)
Settled false (a ∷ queue) connection (some r) =
    IsRejected Status.internal_error r × (r.listener.acceptor_queue ≡ queue)

dequeued-Settled :
    (sent : Bool) (l : ListenerCtx) (queue : AcceptorQueue) (connection config : ℕ) (o : Option ℕ)
    → o ≡ some config
    → Settled sent queue connection (with_config sent l connection o (acceptor_dequeue queue))
unfolding with_config acceptor_dequeue
dequeued-Settled sent l queue connection config none e = cc
dequeued-Settled sent l [] connection config (some c) e = ground arith
dequeued-Settled true l (a ∷ queue) connection config (some c) e = ground arith
dequeued-Settled false l (a ∷ queue) connection config (some c) e = ground arith

-- With memory at hand and a config resource in the listener, a new connection is settled without a
-- fault: with no acceptor queued, or where the first one is dead, it is rejected and its context
-- released once; otherwise that first acceptor, which leaves the queue, owns the connection and
-- the callback handler is set.
pub new_connection-Settled :
    (sent : Bool) (l : ListenerCtx) (connection config : ℕ)
    → l.config_resource ≡ some config
    → Settled sent l.acceptor_queue connection (new_connection true sent l connection)
unfolding new_connection
new_connection-Settled sent l connection config e =
    dequeued-Settled sent l l.acceptor_queue connection config l.config_resource e
