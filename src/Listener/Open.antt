-- ===== src/Listener/Open.antt =====
-- listen2 of c_src/quicer_listener.c: a listener is created, opened and started. What the readers
-- of the options, the runtime and MsQuic answer is an argument.
use quicer.Prelude.{
  ℕ, Bool, true, false, not, Option, none, some, List, [], ◌∷◌, ◌++◌, ◌==◌, if◌then◌else◌,
}
use quicer.Nif.{Nif, Status, Value, Reply, ok_with, error, error3, atom, status, handle}
use quicer.Nif.Atoms.{Atom}
use quicer.Listener.State.{
  ListenerCtx, init_l_ctx, Effect, load_certificate, free_certificate, alloc_l_ctx, destroy_l_ctx,
  open_configuration, keep_registration, monitor, listener_open, listener_start, listener_close,
}

-- `address`, `certificate`, `verify`, `cacertfile`, `registration` and `alpn` are what the readers of
-- the options find, `none` or `false` being their failure; `some false` and `some 0` stand for an
-- option that is absent. `loaded` is the error of `ServerLoadConfiguration`, if any, and
-- `configuration` the handle that it has opened, 0 if it came to none.
pub record Answers : Type 0 where
  pub address : Bool
  pub certificate : Bool
  pub verify : Bool
  pub cacertfile : Option Bool
  pub allocated : Bool
  pub trusted_store : Option ℕ
  pub self : Option ℕ
  pub registration : Option ℕ
  pub loaded : Option Value
  pub configuration : ℕ
  pub monitored : Bool
  pub opened : Status
  pub opened_listener : ℕ
  pub alpn : Bool
  pub started : Status
  pub new_handle : ℕ

-- The context, where there is one, the effects and the reply.
pub record Listened : Type 0 where
  pub ctx : Option ListenerCtx
  pub effects : List Effect
  pub reply : Reply

-- `return` before the context is there.
abbrev pub refuse : List Effect → Atom → Listened
refuse fx why = record { ctx = none; effects = fx; reply = error (atom why) }

-- The label `exit`.
unfoldable pub exit : ListenerCtx → List Effect → Reply → Listened
exit l fx reply = record {
  ctx = some l;
  effects = fx ++ (free_certificate ∷ destroy_l_ctx ∷ []);
  reply = reply;
}

-- Behind `ListenerOpen`.
unfoldable pub listen_opened : Nif → Answers → ListenerCtx → List Effect → Listened
unfolding exit
listen_opened nif a l fx =
    if not a.alpn
    then exit l fx (error (atom Atom.alpn))
    else if nif.failed a.started
    then exit (record l { listener = 0 })
        (fx ++ (listener_start l.listener a.started ∷ listener_close l.listener ∷ []))
        (error3 Atom.listener_start_error (status a.started))
    else record {
      ctx = some l;
      effects = fx ++ (listener_start l.listener a.started ∷ free_certificate ∷ []);
      reply = ok_with (handle a.new_handle);
    }

-- Behind the configuration. Where `ListenerOpen` fails the `Configuration` is dropped.
unfoldable pub listen_loaded :
    (nif : Nif) → Answers → (options : Nif.Term nif) → ListenerCtx → List Effect → Listened
unfolding exit listen_opened
listen_loaded nif a options l fx =
    if not a.monitored
    then exit l fx (error (atom Atom.bad_mon))
    else if nif.failed a.opened
    then exit (record l { config_resource = some 0 }) (fx ++ (monitor ∷ listener_open ∷ []))
        (error3 Atom.listener_open_error (status a.opened))
    else listen_opened nif a
        (record l {
          listener = a.opened_listener;
          is_closed = false;
          allow_insecure = elim (nif.get_map_value options Atom.allow_insecure) [
            | none ↦ false
            | some insecure ↦ nif.is_same insecure Atom.true
          ];
        })
        (fx ++ (monitor ∷ listener_open ∷ []))

-- Behind the registration: the configuration, and its error if there is one.
unfoldable pub listen_registered :
    (nif : Nif)
    → Answers
    → (options : Nif.Term nif) → ListenerCtx
    → List Effect
    → Option Value
    → Listened
unfolding exit listen_loaded
listen_registered nif a options l fx (some why) =
    exit (record l { config_resource = some a.configuration })
      (fx ++ (open_configuration a.configuration ∷ [])) (error3 Atom.config_error why)
listen_registered nif a options l fx none =
    listen_loaded nif a options (record l { config_resource = some a.configuration })
      (fx ++ (open_configuration a.configuration ∷ []))

unfoldable pub listen_owned :
    (nif : Nif)
    → Answers
    → (options : Nif.Term nif) → ListenerCtx
    → List Effect
    → Option ℕ
    → Listened
unfolding exit listen_registered
listen_owned nif a options l fx none = exit l fx (error (atom Atom.quic_registration))
listen_owned nif a options l fx (some r_ctx) =
    listen_registered nif a options (record l { r_ctx = r_ctx })
      (if r_ctx == 0 then fx else fx ++ (keep_registration r_ctx ∷ [])) a.loaded

unfoldable pub listen_trusted :
    (nif : Nif)
    → Answers
    → (options : Nif.Term nif) → ListenerCtx
    → List Effect
    → Option ℕ
    → Listened
unfolding exit listen_owned
listen_trusted nif a options l fx none = exit l fx (error (atom Atom.bad_pid))
listen_trusted nif a options l fx (some pid) =
    listen_owned nif a options (record l { listener_pid = pid }) fx a.registration

-- The branch of `cacertfile`.
unfoldable pub listen_cacerts :
    (nif : Nif)
    → Answers
    → (options : Nif.Term nif) → (cacertfile : Bool) → (store : Option ℕ) → Listened
unfolding exit listen_trusted init_l_ctx
listen_cacerts nif a options false store =
    listen_trusted nif a options init_l_ctx (load_certificate ∷ alloc_l_ctx ∷ []) a.self
listen_cacerts nif a options true none =
    exit (record init_l_ctx { cacertfile = true }) (load_certificate ∷ alloc_l_ctx ∷ [])
      (error (atom Atom.cert_error))
listen_cacerts nif a options true (some store) =
    listen_trusted nif a options (record init_l_ctx { cacertfile = true; trusted_store = store })
      (load_certificate ∷ alloc_l_ctx ∷ []) a.self

unfoldable pub listen2 : (nif : Nif) → Answers → (options : Nif.Term nif) → Listened
unfolding listen_cacerts
listen2 nif a options =
    if not (nif.is_map options)
    then refuse [] Atom.badarg
    else if not a.address
    then refuse [] Atom.badarg
    else if not a.certificate
    then refuse [] Atom.quic_tls
    else if not a.verify
    then refuse (load_certificate ∷ []) Atom.verify
    else elim a.cacertfile [
      | none ↦ refuse (load_certificate ∷ []) Atom.cacertfile
      | some cacertfile ↦
          if not a.allocated
          then refuse (load_certificate ∷ []) Atom.not_enough_memory
          else listen_cacerts nif a options cacertfile a.trusted_store
    ]
