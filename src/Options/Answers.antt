-- ===== src/Options/Answers.antt =====
-- What every setopt tells, and what every getopt shows: the functions of Options/Levels, Global,
-- Listening, Reading and Writing, and the dispatch over the first argument.
use quicer.Prelude.{
  ℕ, ◌≡◌, ◌≢◌, ◌⊎◌, inl, inr, refl, Bool, true, false, Option, none, some, List, arith,
  if◌then◌else◌, Bool-cases,
}
use quicer.Nif.{Nif, error, atom, status, Status}
use quicer.Nif.Atoms.{Atom}
use quicer.Config.Settings.{Settings, create_settings}
use quicer.Listener.State.{ListenerCtx}
use quicer.Options.{
  Param, global_retry_memory_percent, global_load_balacing_mode, global_settings,
  configuration_settings, listener_cibir_id, tls_handshake_info, quic_handshake_info, Answer,
  Buffer, Host,
}
use quicer.Options.Levels.{
  set_level_param, set_config_opt, set_tls_opt, set_at_level, write_settings,
}
use quicer.Options.Global.{set_global_opt, write_percent, write_lbmode}
use quicer.Options.Listening.{set_listener_opt, set_listener_param, write_cibir_id}
use quicer.Options.Balance.{Told, Ends, none-Told, write-Told, enclose-Told, lock-Neutral}

-- What the setters and getters rely on: the allocators give memory, and MsQuic keeps to the length of
-- the handshake's information.
pub record Healthy {nif : Nif} (host : Host nif) : Type 0 where
  pub memory : (size : ℕ) → host.has_memory size ≡ true
  pub binary : (size : ℕ) → host.has_binary size ≡ true
  pub info_size :
      (handle : ℕ)
      → Answer.buffer_length
          (host.get_param handle tls_handshake_info (host.sizeof quic_handshake_info))
        ≡ host.sizeof quic_handshake_info

-- A context has its config resource, or the level does not ask for it.
abbrev pub HasConfig : (nif : Nif) → Option ℕ → Nif.Term nif → Type 0
HasConfig nif config_resource elevel =
    (nif.is_same elevel Atom.false ≡ true) ⊎ (config_resource ≢ none)

-- Both branches of a test.
either {ℓ} : {A : Type 0} (P : A → Type ℓ) (b : Bool) {x y : A} → P x → P y → P (if b then x else y)
either P true p q = p
either P false p q = q

module _ {nif : Nif} (host : Host nif) (healthy : Healthy host) where
  write_settings-Told :
      (handle : ℕ) (param : Param) (values : Option Settings)
      → Ends (Told host) (write_settings host handle param values)
  unfolding write_settings
  write_settings-Told handle param none = none-Told host _ refl
  write_settings-Told handle param (some values) = write-Told host handle param _ _

  set_level_param-Told :
      (handle configuration : ℕ) (eopt eval level : Nif.Term nif)
      → Ends (Told host) (set_level_param host handle configuration eopt eval level)
  unfolding set_level_param set_tls_opt set_config_opt
  set_level_param-Told handle configuration eopt eval level = ground (
    arith,
    write_settings-Told configuration configuration_settings (create_settings nif host.store eval),
    none-Told host (error (atom Atom.param_error)) refl,
    none-Told host (error (atom Atom.not_found)) refl,
    none-Told host (error (atom Atom.not_supported)) refl,
  )

  pub set_at_level-Told :
      (handle : ℕ) (config_resource : Option ℕ) (eopt eval level : Nif.Term nif)
      → config_resource ≢ none
      → Ends (Told host) (set_at_level host handle config_resource eopt eval level)
  unfolding set_at_level
  set_at_level-Told handle none eopt eval level here = here refl
  set_at_level-Told handle (some configuration) eopt eval level here =
      set_level_param-Told handle configuration eopt eval level

  write_percent-Told : (handle : ℕ) (o : Option ℕ) → Ends (Told host) (write_percent host handle o)
  unfolding write_percent
  write_percent-Told handle none = none-Told host _ refl
  write_percent-Told handle (some n) = ground (
    arith,
    none-Told host (error (atom Atom.badarg)) refl,
    write-Told host handle global_retry_memory_percent 2 (Buffer.number n),
  )

  write_lbmode-Told : (handle : ℕ) (o : Option ℕ) → Ends (Told host) (write_lbmode host handle o)
  unfolding write_lbmode
  write_lbmode-Told handle none = none-Told host _ refl
  write_lbmode-Told handle (some n) = ground (
    arith,
    none-Told host (error (atom Atom.badarg)) refl,
    write-Told host handle global_load_balacing_mode 4 (Buffer.number n),
  )

  pub set_global_opt-Told :
      (handle : ℕ) (optname optval : Nif.Term nif)
      → Ends (Told host) (set_global_opt host handle optname optval)
  unfolding set_global_opt
  set_global_opt-Told handle optname optval = ground (
    arith,
    write_percent-Told handle (nif.get_uint optval),
    write_lbmode-Told handle (nif.get_uint optval),
    write_settings-Told handle global_settings (create_settings nif host.store optval),
    none-Told host (error (status Status.not_supported)) refl,
    none-Told host (error (atom Atom.param_error)) refl,
  )

  pub level_false :
      (config_resource : Option ℕ) (elevel : Nif.Term nif)
      → HasConfig nif config_resource elevel
      → nif.is_same elevel Atom.false ≡ false
      → config_resource ≢ none
  level_false config_resource elevel (inl e) other = absurd cc
  level_false config_resource elevel (inr here) other = here

  write_cibir_id-Told :
      (handle : ℕ) (o : Option (List ℕ)) → Ends (Told host) (write_cibir_id host handle o)
  unfolding write_cibir_id
  write_cibir_id-Told handle none = none-Told host (error (atom Atom.badarg)) refl
  write_cibir_id-Told handle (some bin) = write-Told host handle listener_cibir_id _ _

  set_listener_param-Told :
      (l : ListenerCtx) (optname optval elevel : Nif.Term nif)
      → HasConfig nif l.config_resource elevel
      → Ends (Told host) (set_listener_param host l optname optval elevel)
  unfolding set_listener_param
  set_listener_param-Told l optname optval elevel has =
      elim (Bool-cases (nif.is_same elevel Atom.false)) [
        | inl e ↦ ground (
          arith,
          none-Told host (error (atom Atom.closed)) refl,
          none-Told host (error (atom Atom.param_error)) refl,
          write_cibir_id-Told l.listener (host.inspect_binary optval),
        )
        | inr e ↦ ground (
          arith,
          none-Told host (error (atom Atom.closed)) refl,
          set_at_level-Told l.listener l.config_resource optname optval elevel
              (level_false l.config_resource elevel has e),
        )
      ]

  pub set_listener_opt-Told :
      (l : ListenerCtx) (optname optval elevel : Nif.Term nif)
      → HasConfig nif l.config_resource elevel
      → Ends (Told host) (set_listener_opt host (some l) optname optval elevel)
  unfolding set_listener_opt
  set_listener_opt-Told l optname optval elevel has =
      enclose-Told host _ _ (lock-Neutral host) (set_listener_param host l optname optval elevel)
        (set_listener_param-Told l optname optval elevel has)
