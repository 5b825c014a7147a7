-- ===== src/Listener/State.antt =====
-- `QuicerListenerCTX` of c_src/quicer_ctx.h, what the operations on it do to the hosts, and its
-- creation and destruction in c_src/quicer_ctx.c.
use quicer.Prelude.{
  ℕ, Bool, true, false, Option, none, some, List, [], ◌∷◌, ◌++◌, ◌==◌, if◌then◌else◌,
}
use quicer.Nif.{Status}
use quicer.Queue.{AcceptorQueue, acceptor_queue_new}

-- A pointer or a handle is a number, NULL is 0. `config_resource` is `none` where it is NULL, and
-- otherwise carries its `Configuration`. The lock makes each operation one step.
pub record ListenerCtx : Type 0 where
  pub config_resource : Option ℕ
  pub r_ctx : ℕ
  pub listener : ℕ
  pub acceptor_queue : AcceptorQueue
  pub listener_pid : ℕ
  pub cacertfile : Bool
  pub trusted_store : ℕ
  pub is_closed : Bool
  pub is_stopped : Bool
  pub allow_insecure : Bool

-- What the operations ask of MsQuic and of the runtime, in order. `listener_start` carries the
-- status that MsQuic answers; `destroy_l_ctx` is a call of the function below.
pub data Effect : Type 0 where
  listener_open : Effect
  listener_start : (listener : ℕ) → Status → Effect
  listener_stop listener_close : (listener : ℕ) → Effect
  load_certificate free_certificate alloc_l_ctx destroy_l_ctx : Effect
  open_configuration close_configuration : ℕ → Effect
  keep_registration release_registration : ℕ → Effect
  monitor demonitor release_l_ctx : Effect
  report_stopped : (pid : ℕ) → Effect
  alloc_c_ctx release_c_ctx keep_config : Effect
  up_ref_store : ℕ → Effect
  disable_encryption : (connection : ℕ) → Effect
  report_connection : (pid connection : ℕ) → Effect
  set_callback_handler : (connection : ℕ) → Effect

-- `init_l_ctx`: cleared memory, a config resource without a configuration, and an empty queue.
unfoldable pub init_l_ctx : ListenerCtx
unfolding acceptor_queue_new
init_l_ctx = record {
  config_resource = some 0;
  r_ctx = 0;
  listener = 0;
  acceptor_queue = acceptor_queue_new;
  listener_pid = 0;
  cacertfile = false;
  trusted_store = 0;
  is_closed = true;
  is_stopped = false;
  allow_insecure = false;
}

-- `destroy_config_ctx` with the last reference: the configuration is closed, if there is one.
unfoldable pub close_config : ℕ → List Effect
close_config configuration =
    if configuration == 0 then [] else close_configuration configuration ∷ []

unfoldable pub release_reg : ℕ → List Effect
release_reg r_ctx = if r_ctx == 0 then [] else release_registration r_ctx ∷ []

-- `destroy_l_ctx`; `none` is the release of a config resource that is NULL.
unfoldable pub destroy : ListenerCtx → Option (ListenerCtx × List Effect)
unfolding close_config release_reg
destroy l = elim l.config_resource [
  | none ↦ none
  | some configuration ↦ some (
    record l { config_resource = none; r_ctx = 0 },
    close_config configuration ++ release_reg l.r_ctx ++ (demonitor ∷ release_l_ctx ∷ []),
  )
]
