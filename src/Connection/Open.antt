-- ===== src/Connection/Open.antt =====
-- The first stages of async_connect3 of c_src/quicer_connection.c, and parse_registration of
-- c_src/quicer_config.c. The options of a connection are set by an argument,
-- `set_connection_opt`.
use quicer.Prelude.{ℕ, Bool, true, false, Option, none, some, List, [], ◌∷◌, ◌++◌, if◌then◌else◌}
use quicer.Nif.{Nif, Status, Reply, ok, error, atom}
use quicer.Nif.Atoms.{Atom}
use quicer.Queue.{acceptor_alloc}
use quicer.Connection.State.{ConnCtx, Effect, open_connection, set_option}

-- What the allocators, the runtime and MsQuic answer. `registration` is the context behind a term, 0
-- never; `handle_of` its `Registration`; `global` is `GRegistration`. A failed `ConnectionOpen`
-- leaves the handle NULL. `close_reports` tells whether `ConnectionClose`, called on a handle that
-- was not started, first calls `ClientConnectionCallback` with `SHUTDOWN_COMPLETE`, as the comment
-- at the label `Error` of async_connect3 says it does.
pub record Answers (nif : Nif) : Type 0 where
  pub registration : Nif.Term nif → Option ℕ
  pub handle_of : ℕ → ℕ
  pub global : ℕ
  pub c_ctx_allocated : Bool
  pub acceptor_allocated : Bool
  pub self : Option ℕ
  pub new_handle : ℕ
  pub opened : Status
  pub opened_connection : ℕ
  pub close_reports : Bool
  pub set_connection_opt : Atom → Nif.Term nif → Reply

-- How far an operation has come.
pub record Progress : Type 0 where
  pub ctx : ConnCtx
  pub effects : List Effect

-- A stage goes on, jumps to the error label with a reply, or faults.
pub data Stage : Type 0 where
  fault : Stage
  goto_error : Progress → Reply → Stage
  go : Progress → Stage

infixl 5 ◌>>=◌
abbrev pub ◌>>=◌ : Stage → (Progress → Stage) → Stage
fault >>= k = fault
goto_error p r >>= k = goto_error p r
go p >>= k = k p

abbrev pub also : Progress → Effect → Progress
also p x = record p { effects = p.effects ++ (x ∷ []) }

abbrev pub with_ctx : Progress → ConnCtx → Progress
with_ctx p c = record p { ctx = c }

-- `none` is `FALSE`, and `some 0` an option that is absent.
unfoldable pub parse_registration : (nif : Nif) → Answers nif → Nif.Term nif → Option ℕ
parse_registration nif a options = elim (nif.get_map_value options Atom.quic_registration) [
  | none ↦ some 0
  | some t ↦ a.registration t
]

abbrev pub is_ok : Reply → Bool
is_ok ok = true
is_ok _ = false

-- An option that `set_connection_opt` sets where the map has it: `parse_conn_local_address`,
-- `parse_conn_disable_1rtt_encryption` and `parse_conn_resume_ticket`.
unfoldable pub parse_conn_option :
    (nif : Nif) → Answers nif → (entry option : Atom) → (options : Nif.Term nif) → Progress → Stage
parse_conn_option nif a entry option options p = elim (nif.get_map_value options entry) [
  | none ↦ go p
  | some t ↦
      let r = a.set_connection_opt option t in
      let tried = also p (set_option p.ctx.connection) in
      if is_ok r then go tried else goto_error tried r
]

-- The owner of a new context is the caller.
unfoldable pub own : (acceptor_allocated : Bool) → (self : Option ℕ) → Progress → Stage
unfolding acceptor_alloc
own false self p = fault
own true none p =
    goto_error (with_ctx p (record p.ctx { owner = some acceptor_alloc }))
      (error (atom Atom.bad_pid))
own true (some pid) p =
    go (with_ctx p (record p.ctx { owner = some (record acceptor_alloc { pid = pid }) }))

-- `ConnectionOpen`, with the reply of a failure.
unfoldable pub open_handle :
    (nif : Nif) → Answers nif → (registration : ℕ) → (failure : Reply) → Progress → Stage
open_handle nif a registration failure p =
    let tried = also p (open_connection registration) in
    if nif.failed a.opened
    then goto_error tried failure
    else go (with_ctx tried (record p.ctx { connection = a.opened_connection }))

-- The context, where there is one, the effects and the reply.
pub record Opened : Type 0 where
  pub ctx : Option ConnCtx
  pub effects : List Effect
  pub reply : Reply
