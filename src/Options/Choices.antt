-- ===== src/Options/Choices.antt =====
-- What every setopt of a connection tells: set_connection_opt of c_src/quicer_config.c, by the choice of its
-- chain.
use quicer.Prelude.{
  ℕ, ◌≡◌, inl, inr, refl, true, Option, none, some, List, [], arith, length, Bool-cases,
}
use quicer.Nif.{Nif, Reply, error, atom, status, Status}
use quicer.Nif.Atoms.{Atom}
use quicer.Config.Settings.{Settings, create_settings}
use quicer.Connection.State.{ConnCtx}
use quicer.Options.{
  Param, conn_local_address, conn_remote_address, conn_settings, conn_share_udp_binding,
  conn_local_bidi_stream_count, conn_local_unidi_stream_count, conn_close_reason_phrase,
  conn_stream_scheduling_scheme, conn_datagram_send_enabled, conn_datagram_receive_enabled,
  conn_disable_1rtt_encryption, conn_resumption_ticket, conn_peer_certificate_valid,
  conn_local_interface, quic_settings, Addr, Buffer, Host, enclose, write, done,
}
use quicer.Options.Writing.{
  Choice, refuse, pass, pass_or_badarg, choose, choose_flag, choose_number, choose_phrase,
  choose_ticket, choose_address, choose_settings, set_chosen, set_connection_opt, parse_listen_on,
}
use quicer.Options.Balance.{
  Told, Ends, is_error, none-Told, write-Told, enclose-Told, buffer-Neutral,
}
use quicer.Options.Answers.{Healthy, HasConfig, level_false, set_at_level-Told}

module _ {nif : Nif} (host : Host nif) (healthy : Healthy host) where
  refuse-Told :
      (handle : ℕ) (r : Reply)
      → is_error r ≡ true
      → Ends (Told host) (set_chosen host handle (refuse r))
  unfolding set_chosen
  refuse-Told handle r e = none-Told host r e

  pass-Told :
      (handle : ℕ) (param : Param) (length : ℕ) (b : Buffer)
      → Ends (Told host) (set_chosen host handle (pass param length b))
  unfolding set_chosen
  pass-Told handle param length b = write-Told host handle param length b

  pass_or_badarg-Told :
      (handle : ℕ) (param : Param) (length : ℕ) (b : Buffer)
      → Ends (Told host) (set_chosen host handle (pass_or_badarg param length b))
  unfolding set_chosen
  pass_or_badarg-Told handle param length b = record {
    balanced = record { buffers = refl; references = refl; lock = refl };
    one = omega arith;
    none_read = refl;
    told = ground arith;
    answers = ground arith;
  }

  choose_settings-Told :
      (handle : ℕ) (o : Option Settings)
      → Ends (Told host) (
          set_chosen host handle
            (choose_settings host (host.has_memory (host.sizeof quic_settings)) o))
  unfolding choose_settings set_chosen enclose
  choose_settings-Told handle none = rw (healthy.memory (host.sizeof quic_settings)) (
      enclose-Told host _ _ (buffer-Neutral host) (done [] (error (atom Atom.badarg)))
        (none-Told host (error (atom Atom.badarg)) refl))
  choose_settings-Told handle (some s) = rw (healthy.memory (host.sizeof quic_settings)) (
      enclose-Told host _ _ (buffer-Neutral host)
        (write host handle conn_settings (host.sizeof quic_settings) (Buffer.settings s))
        (write-Told host handle conn_settings (host.sizeof quic_settings) (Buffer.settings s)))

  choose_address-Told :
      (handle : ℕ) (param : Param) (o : Option Addr)
      → Ends (Told host) (set_chosen host handle (choose_address host param o))
  unfolding choose_address
  choose_address-Told handle param none = refuse-Told handle _ refl
  choose_address-Told handle param (some a) = pass-Told handle param _ _

  choose_number-Told :
      (handle : ℕ) (param : Param) (o : Option ℕ)
      → Ends (Told host) (set_chosen host handle (choose_number host param o))
  unfolding choose_number
  choose_number-Told handle param none = pass-Told handle param _ _
  choose_number-Told handle param (some a) = pass-Told handle param _ _

  choose_ticket-Told :
      (handle : ℕ) (o : Option (List ℕ))
      → Ends (Told host) (set_chosen host handle (choose_ticket host o))
  unfolding choose_ticket
  choose_ticket-Told handle none = refuse-Told handle _ refl
  choose_ticket-Told handle (some ticket) = ground (
    arith,
    refuse-Told handle (error (atom Atom.badarg)) refl,
    pass-Told handle conn_resumption_ticket (length ticket) (Buffer.bytes ticket),
  )

  choose_phrase-Told :
      (handle : ℕ) (optval : Nif.Term nif)
      → Ends (Told host) (set_chosen host handle (choose_phrase host optval))
  unfolding choose_phrase
  choose_phrase-Told handle optval = ground (
    arith,
    refuse-Told handle (error (atom Atom.badarg)) refl,
    pass-Told handle conn_close_reason_phrase 512 (Buffer.string ((host.get_string optval 512).1)),
  )

  choose_flag-Told :
      (handle : ℕ) (choice : Param → ℕ → Buffer → Choice)
      (passes : (param : Param) (length : ℕ) (b : Buffer)
        → Ends (Told host) (set_chosen host handle (choice param length b)))
      (param : Param) (optval : Nif.Term nif)
      → Ends (Told host) (set_chosen host handle (choose_flag host choice param optval))
  unfolding choose_flag
  choose_flag-Told handle choice passes param optval = ground (
    arith,
    refuse-Told handle (error (atom Atom.badarg)) refl,
    passes param 1 (Buffer.number 1),
    passes param 1 (Buffer.number 0),
  )

  choose-Told :
      (handle : ℕ) (optname optval : Nif.Term nif)
      → Ends (Told host) (set_chosen host handle (choose host optname optval))
  unfolding choose
  choose-Told handle optname optval = ground (
    arith,
    refuse-Told handle (error (atom Atom.not_supported)) refl,
    refuse-Told handle (error (status Status.not_supported)) refl,
    refuse-Told handle (error (atom Atom.param_error)) refl,
    choose_address-Told handle conn_local_address (parse_listen_on host optval),
    choose_address-Told handle conn_remote_address (parse_listen_on host optval),
    choose_settings-Told handle (create_settings nif host.store optval),
    choose_flag-Told handle pass (pass-Told handle) conn_share_udp_binding optval,
    choose_flag-Told handle pass (pass-Told handle) conn_datagram_send_enabled optval,
    choose_flag-Told handle pass (pass-Told handle) conn_datagram_receive_enabled optval,
    choose_flag-Told handle pass (pass-Told handle) conn_peer_certificate_valid optval,
    choose_flag-Told handle pass_or_badarg (pass_or_badarg-Told handle) conn_disable_1rtt_encryption
        optval,
    choose_number-Told handle conn_local_bidi_stream_count (nif.get_uint optval),
    choose_number-Told handle conn_local_unidi_stream_count (nif.get_uint optval),
    choose_number-Told handle conn_stream_scheduling_scheme (nif.get_uint optval),
    choose_number-Told handle conn_local_interface (nif.get_uint optval),
    choose_phrase-Told handle optval,
    choose_ticket-Told handle (host.inspect_binary optval),
  )

  pub set_connection_opt-Told :
      (c : ConnCtx) (optname optval elevel : Nif.Term nif)
      → HasConfig nif c.config_resource elevel
      → Ends (Told host) (set_connection_opt host c optname optval elevel)
  unfolding set_connection_opt
  set_connection_opt-Told c optname optval elevel has =
      elim (Bool-cases (nif.is_same elevel Atom.false)) [
        | inl e ↦ rw (e) (choose-Told c.connection optname optval)
        | inr e ↦ rw (e) (
            set_at_level-Told host healthy c.connection c.config_resource optname optval elevel
              (level_false host healthy c.config_resource elevel has e))
      ]
