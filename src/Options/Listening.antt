-- ===== src/Options/Listening.antt =====
-- The options of a listener: get_listener_opt and set_listener_opt of c_src/quicer_config.c.
use quicer.Prelude.{ℕ, not, Option, none, some, List, [], ◌∷◌, length, ◌%◌, ◌^◌, if◌then◌else◌}
use quicer.Nif.{Nif, Status, error, atom, status}
use quicer.Nif.Atoms.{Atom}
use quicer.Listener.State.{ListenerCtx}
use quicer.Options.{
  listener_local_address, listener_stats, listener_cibir_id, listener, quic_addr,
  quic_listener_statistics, Buffer, Host, Run, enclose, write, keep_l_ctx, release_l_ctx, lock,
  unlock, done,
}
use quicer.Options.Encode.{read}
use quicer.Options.Levels.{get_at_level, set_at_level}

module _ {nif : Nif} (host : Host nif) where
  unfoldable pub get_listener_param : ListenerCtx → (optname elevel : Nif.Term nif) → Run
  unfolding get_at_level read
  get_listener_param l optname elevel =
      if not (nif.is_same elevel Atom.false)
      then get_at_level host l.listener l.config_resource optname elevel
      else if nif.is_same optname Atom.param_listener_local_address
      then read host listener l.listener listener_local_address (host.sizeof quic_addr)
      else if nif.is_same optname Atom.param_listener_stats
      then read host listener l.listener listener_stats (host.sizeof quic_listener_statistics)
      else if nif.is_same optname Atom.param_listener_cibir_id
      then done [] (error (status Status.not_supported))
      else done [] (error (atom Atom.param_error))

  -- The lock is held for the test and the reference only.
  unfoldable pub get_listener_opt : Option ListenerCtx → (optname elevel : Nif.Term nif) → Run
  unfolding enclose get_listener_param
  get_listener_opt none optname elevel = done [] (error (atom Atom.badarg))
  get_listener_opt (some l) optname elevel =
      if l.is_closed
      then done (lock ∷ unlock ∷ []) (error (atom Atom.closed))
      else enclose (lock ∷ keep_l_ctx ∷ unlock ∷ []) (release_l_ctx ∷ [])
          (get_listener_param l optname elevel)

  unfoldable pub write_cibir_id : (handle : ℕ) → Option (List ℕ) → Run
  unfolding write
  write_cibir_id handle none = done [] (error (atom Atom.badarg))
  write_cibir_id handle (some bin) =
      write host handle listener_cibir_id (length bin % 2 ^ 32) (Buffer.bytes bin)

  unfoldable pub set_listener_param : ListenerCtx → (optname optval elevel : Nif.Term nif) → Run
  unfolding set_at_level write_cibir_id
  set_listener_param l optname optval elevel =
      if l.is_closed
      then done [] (error (atom Atom.closed))
      else if not (nif.is_same elevel Atom.false)
      then set_at_level host l.listener l.config_resource optname optval elevel
      else if nif.is_same optname Atom.param_listener_cibir_id
      then write_cibir_id l.listener (host.inspect_binary optval)
      else done [] (error (atom Atom.param_error))

  -- The lock is held throughout.
  unfoldable pub set_listener_opt :
      Option ListenerCtx → (optname optval elevel : Nif.Term nif) → Run
  unfolding enclose set_listener_param
  set_listener_opt none optname optval elevel = done [] (error (atom Atom.badarg))
  set_listener_opt (some l) optname optval elevel =
      enclose (lock ∷ []) (unlock ∷ []) (set_listener_param l optname optval elevel)
