-- ===== src/Connection/State.antt =====
-- `QuicerConnCTX` of c_src/quicer_ctx.h, what its operations ask of the hosts, and its creation and
-- release in c_src/quicer_ctx.c.
use quicer.Prelude.{
  ℕ, Bool, true, false, Option, none, some, List, [], ◌∷◌, ◌++◌, ◌==◌, if◌then◌else◌,
}
use quicer.Prelude.Int.{ℤ}
use quicer.Nif.{Status, success, Message}
use quicer.Queue.{Acceptor, AcceptorQueue, acceptor_queue_new, acceptor_queue_destroy}
use quicer.Stream.State.{StreamCtx}

-- A pointer or a handle is a number, NULL is 0. `config_resource` is `none` where it is NULL, and
-- otherwise carries its `Configuration`; `handle` is the term that `enif_make_resource` makes of the
-- context. `peer_cert` is the certificate, and a ticket is its bytes.
pub record ConnCtx : Type 0 where
  pub handle : ℕ
  pub config_resource : Option ℕ
  pub r_ctx : ℕ
  pub connection : ℕ
  pub acceptor_queue : AcceptorQueue
  pub owner : Option Acceptor
  pub trusted : ℕ
  pub tls_secrets : Bool
  pub resumption_ticket : Option (List ℕ)
  pub is_closed : Bool
  pub event_mask : ℕ
  pub ssl_keylogfile : Bool
  pub peer_cert : ℕ

-- The two callbacks that a stream can be given.
pub data StreamCallback : Type 0 where
  client_stream server_stream : StreamCallback

-- What the operations ask of MsQuic, OpenSSL and the runtime, in order. `release_c_ctx` is the
-- release of the reference that the allocation gave, and `keep_c_ctx` a further one. The port of a
-- start is the `int` that was read, of which the call passes the low 16 bits on.
pub data Effect : Type 0 where
  send_message : (pid : ℕ) → Message → Effect
  monitor : (pid : ℕ) → Effect
  demonitor alloc_c_ctx release_c_ctx keep_c_ctx : Effect
  keep_registration release_registration : (r_ctx : ℕ) → Effect
  release_config : (configuration : ℕ) → Effect
  free_store free_cert : ℕ → Effect
  free_tls_secrets free_ticket free_keylogfile dump_sslkeylogfile : Effect
  destroy_acceptor : Acceptor → Effect
  alloc_s_ctx : Effect
  set_callback_handler : StreamCallback → StreamCtx → Effect
  send_resumption_ticket : (connection : ℕ) → Effect
  open_connection : (registration : ℕ) → Effect
  start_connection : (connection configuration : ℕ) → (host : List ℕ) → (port : ℤ) → Effect
  close_connection : (connection : ℕ) → Effect
  shutdown_connection : (connection flags code : ℕ) → Effect
  set_configuration : (connection configuration : ℕ) → Effect
  set_settings : (connection settings : ℕ) → Effect
  set_option : (connection : ℕ) → Effect
  send_datagram : (connection : ℕ) → List ℕ → Effect
  alloc_dgram_ctx destroy_dgram_ctx : Effect

-- `fault`: an assertion fails, or memory is reached through NULL. Otherwise the context afterwards,
-- the effects and the result.
pub data Run (A : Type 0) : Type 0 where
  fault : Run A
  done : ConnCtx → List Effect → A → Run A

-- `init_c_ctx`: cleared memory and an empty queue.
unfoldable pub init_c_ctx : ℕ → ConnCtx
unfolding acceptor_queue_new
init_c_ctx handle = record {
  handle = handle;
  config_resource = none;
  r_ctx = 0;
  connection = 0;
  acceptor_queue = acceptor_queue_new;
  owner = none;
  trusted = 0;
  tls_secrets = false;
  resumption_ticket = none;
  is_closed = true;
  event_mask = 0;
  ssl_keylogfile = false;
  peer_cert = 0;
}

abbrev pub free_trusted : ℕ → List Effect
free_trusted store = if store == 0 then [] else free_store store ∷ []

-- `destroy_c_ctx`: the trusted store goes at once, the rest with the last reference.
unfoldable pub destroy_c_ctx : ConnCtx → ConnCtx × List Effect
destroy_c_ctx c =
    (record c { trusted = 0 }, free_trusted c.trusted ++ (demonitor ∷ release_c_ctx ∷ []))

abbrev pub destroy_acceptors : List Acceptor → List Effect
destroy_acceptors [] = []
destroy_acceptors (a ∷ acceptors) = destroy_acceptor a ∷ destroy_acceptors acceptors

-- `deinit_c_ctx`, with the last reference gone.
unfoldable pub deinit_c_ctx : ConnCtx → List Effect
unfolding acceptor_queue_destroy
deinit_c_ctx c =
    free_trusted c.trusted
    ++ elim c.config_resource [ none ↦ [] | some configuration ↦ release_config configuration ∷ [] ]
    ++ destroy_acceptors (acceptor_queue_destroy c.acceptor_queue)
    ++ (if c.peer_cert == 0 then [] else free_cert c.peer_cert ∷ [])

-- A report to the owner: without one, its pid is read through NULL.
unfoldable pub notify_owner : ConnCtx → Message → Run Status
notify_owner c m = elim c.owner [
  | none ↦ fault
  | some owner ↦ done c (send_message owner.pid m ∷ []) success
]
