-- ===== src/Connection/Calls.antt =====
-- The calls on an open connection: async_accept2, shutdown_connection3, async_handshake_1
-- and get_conn_rid1 of c_src/quicer_connection.c; connection_controlling_process and the
-- callbacks of the resource in c_src/quicer_nif.c.
use quicer.Prelude.{
  ℕ, Bool, true, false, not, Option, none, some, List, [], ◌∷◌, ◌++◌, ◌==◌, if◌then◌else◌,
}
use quicer.Nif.{Nif, Status, Reply, ok, ok_with, error, atom, uint, status, handle}
use quicer.Nif.Atoms.{Atom}
use quicer.Queue.{Acceptor, acceptor_alloc, acceptor_enqueue, set_owner_recv_mode}
use quicer.Listener.State.{ListenerCtx}
use quicer.Connection.State.{
  ConnCtx, Effect, monitor, demonitor, set_configuration, set_settings, shutdown_connection,
  close_connection, free_tls_secrets, free_ticket, free_keylogfile, Run, fault, done, deinit_c_ctx,
}
use quicer.Connection.Connect.{destroy_owner}

-- What `async_accept2` does to the listener; `settings` is what `create_settings` makes of the
-- options, if they are right. The receive mode is `true` unless the options say otherwise.
unfoldable pub accept_settings :
    ListenerCtx → (l_handle : ℕ) → Acceptor → (settings : Option ℕ) → ListenerCtx × Reply
unfolding acceptor_enqueue
accept_settings l l_handle acceptor none = (l, error (atom Atom.param_error))
accept_settings l l_handle acceptor (some settings) = (
  record l {
    acceptor_queue = acceptor_enqueue l.acceptor_queue (record acceptor { settings = settings });
  },
  ok_with (handle l_handle),
)

unfoldable pub accept_in_mode :
    ListenerCtx
    → (l_handle : ℕ) → (acceptor : Option Acceptor) → (settings : Option ℕ) → ListenerCtx × Reply
unfolding accept_settings
accept_in_mode l l_handle none settings = (l, error (atom Atom.badarg))
accept_in_mode l l_handle (some acceptor) settings = accept_settings l l_handle acceptor settings

-- `set_owner_recv_mode` with `ATOM_TRUE` where the options have no `active`.
unfoldable pub recv_mode_of :
    (nif : Nif) → Acceptor → (active_val : Option (Nif.Term nif)) → Option Acceptor
unfolding set_owner_recv_mode
recv_mode_of nif acceptor none =
    some (record acceptor { active_count = 0; active = quicer.Queue.active })
recv_mode_of nif acceptor (some t) = set_owner_recv_mode nif acceptor t

-- `l_ctx` is the listener that `enif_get_resource` finds, with its term. `none` is the fault of
-- `AcceptorAlloc` without memory.
unfoldable pub async_accept2 :
    (nif : Nif)
    → (allocated : Bool) → (self : Option ℕ) → (settings : Option ℕ) → ListenerCtx
    → (l_handle : ℕ) → (conn_opts : Nif.Term nif) → Option (ListenerCtx × Reply)
unfolding accept_in_mode recv_mode_of acceptor_alloc
async_accept2 nif false self settings l l_handle conn_opts = none
async_accept2 nif true none settings l l_handle conn_opts = some (l, error (atom Atom.bad_pid))
async_accept2 nif true (some pid) settings l l_handle conn_opts = some (
    accept_in_mode l l_handle
      (recv_mode_of nif (record acceptor_alloc { pid = pid })
        (nif.get_map_value conn_opts Atom.active))
      settings)

unfoldable pub shutdown_connection3 :
    (nif : Nif) → Option ConnCtx → (eflags ecode : Nif.Term nif) → List Effect × Reply
shutdown_connection3 nif none eflags ecode = ([], error (atom Atom.badarg))
shutdown_connection3 nif (some c) eflags ecode =
    if c.connection == 0 then ([], error (atom Atom.closed)) else elim (nif.get_uint eflags) [
      | none ↦ ([], error (atom Atom.badarg))
      | some flags ↦ elim (nif.get_uint ecode) [
        | none ↦ ([], error (atom Atom.badarg))
        | some code ↦ (shutdown_connection c.connection flags code ∷ [], ok)
      ]
    ]

-- The configuration of the listener, and then the settings of the owner.
unfoldable pub continue_connection_handshake :
    Nif → (configured settled : Status) → ConnCtx → Run Status
continue_connection_handshake nif configured settled c = elim c.config_resource [
  | none ↦ fault
  | some configuration ↦
      let first = set_configuration c.connection configuration in
      if nif.failed configured then done c (first ∷ []) configured else elim c.owner [
        | none ↦ fault
        | some owner ↦ done c (first ∷ set_settings c.connection owner.settings ∷ []) settled
      ]
]

unfoldable pub handshake_reply : Nif → Run Status → Run Reply
handshake_reply nif fault = fault
handshake_reply nif (done c fx st) = done c fx (if nif.failed st then error (status st) else ok)

unfoldable pub async_handshake_1 : Nif → (configured settled : Status) → ConnCtx → Run Reply
unfolding continue_connection_handshake handshake_reply
async_handshake_1 nif configured settled c =
    handshake_reply nif (continue_connection_handshake nif configured settled c)

unfoldable pub get_conn_rid1 : Option ConnCtx → Reply
get_conn_rid1 none = error (atom Atom.badarg)
get_conn_rid1 (some c) = ok_with (uint c.connection)

-- The new owner, if its term is the pid of a local process; `alive` is whether it can be monitored.
unfoldable pub connection_controlling_process :
    (caller : ℕ) → (new_owner : Option ℕ) → (alive : Bool) → ConnCtx → Run Reply
connection_controlling_process caller new_owner alive c = elim c.owner [
  | none ↦ fault
  | some owner ↦
      if not (owner.pid == caller)
      then done c [] (error (atom Atom.not_owner))
      else elim new_owner [
        | none ↦ done c [] (error (atom Atom.badarg))
        | some pid ↦
            if alive
            then done (record c { owner = some (record owner { pid = pid }) })
                (demonitor ∷ monitor pid ∷ []) ok
            else done (record c { owner = some (record owner { pid = caller }) })
                (demonitor ∷ monitor caller ∷ []) (error (atom Atom.owner_dead))
      ]
]

-- A process that was monitored has died: the connection is shut down if it is the owner.
unfoldable pub resource_conn_down_callback : (dead : ℕ) → ConnCtx → List Effect
resource_conn_down_callback dead c = elim c.owner [
  | none ↦ []
  | some owner ↦ if owner.pid == dead then shutdown_connection c.connection 0 0 ∷ [] else []
]

-- The last reference is gone; `none` is the failed assertion that the connection is closed.
unfoldable pub resource_conn_dealloc_callback : ConnCtx → Option (List Effect)
unfolding deinit_c_ctx destroy_owner
resource_conn_dealloc_callback c =
    if c.is_closed
    then some (
        (if c.connection == 0 then [] else close_connection c.connection ∷ [])
        ++ (free_tls_secrets ∷ free_ticket ∷ free_keylogfile ∷ [])
        ++ destroy_owner c.owner
        ++ deinit_c_ctx c)
    else none
