-- ===== src/Listener/Accept.antt =====
-- `QUIC_LISTENER_EVENT_NEW_CONNECTION` of ServerListenerCallback in c_src/quicer_listener.c, and the
-- callback's switch.
use quicer.Prelude.{
  ℕ, Bool, true, false, Option, none, some, List, [], ◌∷◌, ◌++◌, ◌==◌, if◌then◌else◌,
}
use quicer.Nif.{Status}
use quicer.Queue.{Acceptor, AcceptorQueue, acceptor_dequeue}
use quicer.Listener.State.{
  ListenerCtx, Effect, alloc_c_ctx, release_c_ctx, keep_config, up_ref_store, disable_encryption,
  report_connection, set_callback_handler,
}

-- The fields of a new `QuicerConnCTX` that the callback sets.
pub record NewConnection : Type 0 where
  pub connection : ℕ
  pub trusted : ℕ
  pub config_resource : ℕ
  pub owner : Option Acceptor
  pub is_closed : Bool

-- The listener and the new context afterwards, the effects, and the status that MsQuic is told.
pub record Accepted : Type 0 where
  pub listener : ListenerCtx
  pub c_ctx : NewConnection
  pub effects : List Effect
  pub result : Status

-- The connection is rejected: MsQuic closes its handle, the code releases the context.
unfoldable pub reject : ListenerCtx → NewConnection → List Effect → Status → Accepted
reject l c fx st = record {
  listener = l;
  c_ctx = record c { connection = 0 };
  effects = fx ++ (release_c_ctx ∷ []);
  result = st;
}

-- Behind the search for an acceptor; `sent` is what `enif_send` answers.
unfoldable pub hand_over :
    Bool → ListenerCtx → NewConnection → List Effect → Option Acceptor → Accepted
unfolding reject
hand_over sent l c fx none = reject l c fx Status.unreachable
hand_over sent l c fx (some owner) =
    let fx' =
      fx
      ++ ((if l.allow_insecure then disable_encryption c.connection ∷ [] else [])
          ++ (report_connection owner.pid c.connection ∷ [])) in
    let owned = record c { owner = some owner } in
    if sent
    then record {
      listener = l;
      c_ctx = record owned { is_closed = false };
      effects = fx' ++ (set_callback_handler c.connection ∷ []);
      result = Status.success;
    }
    else reject l owned fx' Status.internal_error

unfoldable pub with_config :
    Bool
    → ListenerCtx
    → (connection : ℕ) → Option ℕ
    → Option Acceptor × AcceptorQueue
    → Option Accepted
unfolding hand_over
with_config sent l connection none (owner, queue) = none
with_config sent l connection (some config) (owner, queue) = some (
    hand_over sent (record l { acceptor_queue = queue })
      (record {
        connection = connection;
        trusted = l.trusted_store;
        config_resource = config;
        owner = none;
        is_closed = true;
      })
      (alloc_c_ctx
        ∷ ((if l.trusted_store == 0 then [] else up_ref_store l.trusted_store ∷ [])
            ++ (keep_config ∷ [])))
      owner)

-- `none` is a fault: without memory for the context the code reads through NULL before it checks,
-- and it asserts that the listener has its config resource.
unfoldable pub new_connection :
    (allocated sent : Bool) → ListenerCtx → (connection : ℕ) → Option Accepted
unfolding with_config acceptor_dequeue
new_connection allocated sent l connection =
    if allocated
    then with_config sent l connection l.config_resource (acceptor_dequeue l.acceptor_queue)
    else none
