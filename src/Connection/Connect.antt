-- ===== src/Connection/Connect.antt =====
-- async_connect3 of c_src/quicer_connection.c, and parse_sslkeylogfile_option of c_src/quicer_tls.c.
use quicer.Prelude.{
  ℕ, Bool, true, false, not, ◌&&◌, ◌||◌, Option, none, some, List, [], ◌∷◌, ◌++◌, ltb, ◌==◌,
  if◌then◌else◌,
}
use quicer.Prelude.Int.{ℤ, pos, negsuc}
use quicer.Nif.{Nif, Status, Value, ok_with, error, atom, handle}
use quicer.Nif.Atoms.{Atom}
use quicer.Queue.{Acceptor}
use quicer.Connection.State.{
  ConnCtx, init_c_ctx, Effect, monitor, alloc_c_ctx, keep_registration, destroy_acceptor,
  start_connection, close_connection, set_option,
}
use quicer.Connection.Open.{
  Answers, Progress, Stage, fault, goto_error, go, ◌>>=◌, also, with_ctx, parse_registration,
  parse_conn_option, own, open_handle, Opened,
}

-- Further answers. `host` is what `enif_get_string` reads; `resource` the connection behind a term;
-- `cacertfile` is `none` if the option is wrong and `some false` if it is absent, `trusted_store` the
-- store built from the file; `loaded` the error of `ClientLoadConfiguration`, if any, with the
-- `configuration` it has opened; `keylogfile` tells whether the option is there, `secrets_allocated`
-- and `secrets_set` what becomes of the TLS secrets.
pub record Setup (nif : Nif) : Type 0 where
  pub host : Option (List ℕ)
  pub resource : Nif.Term nif → Option ConnCtx
  pub config_allocated : Bool
  pub cacertfile : Option Bool
  pub trusted_store : Option ℕ
  pub loaded : Option Value
  pub configuration : ℕ
  pub keylogfile : Bool
  pub secrets_allocated : Bool
  pub secrets_set : Status
  pub started : Status

-- `!enif_get_int(env, eport, &port) && port > 0`, with `port` 0 at first.
unfoldable pub port_of : Option ℤ → ℤ
port_of none = pos 0
port_of (some port) = port

unfoldable pub is_positive : ℤ → Bool
is_positive (pos n) = ltb 0 n
is_positive (negsuc n) = false

unfoldable pub refuses_port : Option ℤ → Bool
unfolding port_of is_positive
refuses_port none = true && is_positive (port_of none)
refuses_port (some port) = false && is_positive port

-- The registration of a context: its own, or the global one.
unfoldable pub registration_of : (nif : Nif) → Answers nif → (r_ctx : ℕ) → ℕ
registration_of nif a r_ctx =
    if r_ctx == 0 || a.handle_of r_ctx == 0 then a.global else a.handle_of r_ctx

-- A new context, with a reference to its registration.
unfoldable pub create : (nif : Nif) → Answers nif → (options : Nif.Term nif) → Stage
unfolding parse_registration own init_c_ctx
create nif a options =
    let start : Progress = record { ctx = init_c_ctx a.new_handle; effects = alloc_c_ctx ∷ [] } in
    if a.c_ctx_allocated
    then elim (parse_registration nif a options) [
      | none ↦ goto_error start (error (atom Atom.quic_registration))
      | some r_ctx ↦
          let kept = with_ctx start (record start.ctx { r_ctx = r_ctx }) in
          own a.acceptor_allocated a.self (
            if r_ctx == 0 || a.handle_of r_ctx == 0
            then kept
            else also kept (keep_registration r_ctx))
    ]
    else fault

-- The config resource, the trusted store and the configuration.
unfoldable pub trust : (cacertfile : Option Bool) → (store : Option ℕ) → Progress → Stage
trust none store p = goto_error p (error (atom Atom.cacertfile))
trust (some false) store p = go p
trust (some true) none p = goto_error p (error (atom Atom.cert_error))
trust (some true) (some store) p = go (with_ctx p (record p.ctx { trusted = store }))

unfoldable pub load : (loaded : Option Value) → (configuration : ℕ) → Progress → Stage
load loaded configuration p =
    let opened = with_ctx p (record p.ctx { config_resource = some configuration }) in
    elim loaded [ none ↦ go opened | some why ↦ goto_error opened (error why) ]

unfoldable pub configure : (nif : Nif) → Setup nif → Progress → Stage
unfolding trust load
configure nif t p =
    if t.config_allocated
    then (do
      trusted ←
          trust t.cacertfile t.trusted_store
            (with_ctx p (record p.ctx { config_resource = some 0 }))
      load t.loaded t.configuration trusted)
    else goto_error (with_ctx p (record p.ctx { config_resource = none }))
        (error (atom Atom.not_enough_memory))

-- The handle of a new context.
unfoldable pub open_new :
    (nif : Nif)
    → Answers nif
    → (is_reuse_handle : Bool) → (options : Nif.Term nif) → Progress
    → Stage
unfolding open_handle parse_conn_option registration_of
open_new nif a true options p = go p
open_new nif a false options p = do
  opened ←
      open_handle nif a (registration_of nif a p.ctx.r_ctx) (error (atom Atom.conn_open_error)) p
  parse_conn_option nif a Atom.nst Atom.param_conn_resumption_ticket options opened

-- `assert(c_ctx->is_closed); c_ctx->is_closed = FALSE;`
unfoldable pub mark_open : Progress → Stage
mark_open p =
    if p.ctx.is_closed then go (with_ctx p (record p.ctx { is_closed = false })) else fault

-- Where MsQuic refuses the secrets both are dropped.
unfoldable pub parse_sslkeylogfile_option : (nif : Nif) → Setup nif → Progress → Progress
parse_sslkeylogfile_option nif t p =
    if t.keylogfile && t.secrets_allocated
    then also
        (with_ctx p (record p.ctx {
          tls_secrets = not (nif.failed t.secrets_set);
          ssl_keylogfile = not (nif.failed t.secrets_set);
        }))
        (set_option p.ctx.connection)
    else p

unfoldable pub parse_conn_event_mask : (nif : Nif) → (options : Nif.Term nif) → Progress → Stage
parse_conn_event_mask nif options p = elim (nif.get_map_value options Atom.quic_event_mask) [
  | none ↦ go p
  | some t ↦ elim (nif.get_uint t) [
    | none ↦ goto_error p (error (atom Atom.quic_event_mask))
    | some mask ↦ go (with_ctx p (record p.ctx { event_mask = mask }))
  ]
]

unfoldable pub destroy_owner : Option Acceptor → List Effect
destroy_owner none = []
destroy_owner (some owner) = destroy_acceptor owner ∷ []

-- `ConnectionStart`; on failure the owner is freed and the handle dropped.
unfoldable pub start : (nif : Nif) → Setup nif → (host : List ℕ) → (port : ℤ) → Progress → Stage
unfolding destroy_owner
start nif t host port p =
    if p.ctx.is_closed || p.ctx.connection == 0 then fault else elim p.ctx.config_resource [
      | none ↦ fault
      | some configuration ↦
          let tried = also p (start_connection p.ctx.connection configuration host port) in
          if nif.failed t.started
          then goto_error
              (record {
                ctx = record p.ctx { owner = none; connection = 0 };
                effects = tried.effects ++ destroy_owner p.ctx.owner;
              })
              (error (atom Atom.conn_start_error))
          else elim p.ctx.owner [ none ↦ fault | some owner ↦ go (also tried (monitor owner.pid)) ]
    ]

-- From the point where new and reused contexts meet.
unfoldable pub connect_owned :
    (nif : Nif)
    → Answers nif
    → Setup nif
    → (is_reuse_handle : Bool) → (options : Nif.Term nif) → (host : List ℕ) → (port : ℤ) → Progress
    → Stage
unfolding configure open_new mark_open parse_sslkeylogfile_option parse_conn_event_mask start
connect_owned nif a t is_reuse_handle options host port p = do
  configured ← configure nif t p
  opened ← open_new nif a is_reuse_handle options configured
  marked ← mark_open opened
  local ←
      parse_conn_option nif a Atom.param_conn_local_address Atom.param_conn_local_address options
        (parse_sslkeylogfile_option nif t marked)
  plain ←
      parse_conn_option nif a Atom.param_conn_disable_1rtt_encryption
        Atom.param_conn_disable_1rtt_encryption options local
  masked ← parse_conn_event_mask nif options plain
  start nif t host port masked

-- The label `Error`, and the success; `none` is a fault. An open handle is closed, and then the
-- context is written. Where `ConnectionClose` reports the end before it returns that is a fault: the
-- callback has given back the one reference of a new context, or waits for the lock of a reused
-- one, which this thread holds.
unfoldable pub connect_end : (close_reports : Bool) → Stage → Option Opened
connect_end close_reports fault = none
connect_end close_reports (goto_error p r) =
    if p.ctx.connection == 0
    then some (record { ctx = some p.ctx; effects = p.effects; reply = r })
    else if close_reports
    then none
    else some (record {
      ctx = some (record p.ctx { connection = 0; is_closed = true });
      effects = p.effects ++ (close_connection p.ctx.connection ∷ []);
      reply = r;
    })
connect_end close_reports (go p) =
    some (record { ctx = some p.ctx; effects = p.effects; reply = ok_with (handle p.ctx.handle) })

-- A handle to reuse must be closed and owned, or an assertion fails.
unfoldable pub reuse : ConnCtx → Stage
reuse c = elim c.owner [
  | none ↦ fault
  | some owner ↦ if c.is_closed then go (record { ctx = c; effects = [] }) else fault
]

abbrev pub refused : Atom → Option Opened
refused why = some (record { ctx = none; effects = []; reply = error (atom why) })

-- With the host: a new context, or the one whose handle the options name.
unfoldable pub connect_to :
    (nif : Nif)
    → Answers nif
    → Setup nif
    → (options : Nif.Term nif) → (host : List ℕ) → (port : ℤ) → Option Opened
unfolding connect_end connect_owned reuse create
connect_to nif a t options host port = elim (nif.get_map_value options Atom.handle) [
  | none ↦
      connect_end a.close_reports
        (do created ← create nif a options; connect_owned nif a t false options host port created)
  | some term ↦ elim (t.resource term) [
    | none ↦ refused Atom.param_error
    | some c ↦
        connect_end a.close_reports
          (do reused ← reuse c; connect_owned nif a t true options host port reused)
  ]
]

unfoldable pub async_connect3 :
    (nif : Nif) → Answers nif → Setup nif → (eport options : Nif.Term nif) → Option Opened
unfolding connect_to refuses_port
async_connect3 nif a t eport options =
    if refuses_port (nif.get_int eport) then refused Atom.badarg else elim t.host [
      | none ↦ refused Atom.badarg
      | some host ↦ connect_to nif a t options host (port_of (nif.get_int eport))
    ]
