-- ===== src/Options/Showing.antt =====
-- What every getopt shows: the getters of Options/Levels, Global, Listening and Reading.
use quicer.Prelude.{
  ℕ, ◌≡◌, ◌≢◌, inl, inr, refl, true, false, not, Option, none, some, [], ◌∷◌, arith, if◌then◌else◌,
  Bool-cases, ◌==◌,
}
use quicer.Nif.{Nif, Reply, ok_with, error, atom, binary, props, status, Status}
use quicer.Nif.Atoms.{Atom}
use quicer.Connection.State.{ConnCtx}
use quicer.Listener.State.{ListenerCtx}
use quicer.Options.{
  Param, global_retry_memory_percent, global_load_balacing_mode, global_perf_counters,
  global_settings, global_library_git_hash, configuration_settings, listener_local_address,
  listener_stats, conn_max_stream_ids, tls_handshake_info, tls_negotiated_alpn, HandleType, config,
  listener, conn, tls, global, quic_addr, quic_settings, quic_handshake_info,
  quic_listener_statistics, Contents, Answer, Host, Run, keep_l_ctx, release_l_ctx, lock, unlock,
  done,
}
use quicer.Options.Encode.{
  read, run_of, encode_parm_to_eterm, encode, encode_width, encoding, Encoding, as_statistics,
  as_settings, as_number, as_address, as_flag, as_binary, as_listener_statistics, not_encoded,
}
use quicer.Options.Levels.{
  get_level_param, get_config_opt, get_tls_opt, get_at_level, get_handshake_info,
  show_handshake_info,
}
use quicer.Options.Global.{get_global_opt, get_perf_counters}
use quicer.Options.Listening.{get_listener_opt, get_listener_param}
use quicer.Options.Reading.{
  Request, allocated, on_stack, stream_ids, unsupported, unknown_name, request, get_requested,
  get_connection_opt, get_stream_ids,
}
use quicer.Options.Answers.{Healthy, HasConfig}
use quicer.Options.Balance.{
  Shown, Ends, is_ok, none-Shown, call-Shown, enclose-Shown, buffer-Neutral, lock-Neutral,
  keep-Neutral,
}

module _ {nif : Nif} (host : Host nif) (healthy : Healthy host) where
  -- Every branch of the encoding gives a reply, which is not `ok` alone.
  encode-reply :
      (e : Encoding) (length : ℕ) (c : Contents)
      → (r : Reply) × (encode host e length c ≡ some r) × (is_ok r ≡ false)
  unfolding encode encode_width
  encode-reply as_statistics length c = (_, refl, ground arith)
  encode-reply as_settings length c = (_, refl, refl)
  encode-reply as_number length c = (_, refl, ground arith)
  encode-reply as_address length c = (_, refl, refl)
  encode-reply as_flag length c = (_, refl, refl)
  encode-reply as_binary length c =
      (ok_with (binary (c.bytes length)), rw (healthy.binary length) refl, refl)
  encode-reply as_listener_statistics length c = (_, refl, refl)
  encode-reply not_encoded length c = (_, refl, refl)

  pub read-Shown :
      (type : HandleType) (handle : ℕ) (param : Param) (length : ℕ)
      → Ends (Shown host) (read host type handle param length)
  unfolding read encode_parm_to_eterm run_of
  read-Shown type handle param length =
      let a = host.get_param handle param length in
      let (r, e, no_ok) = encode-reply (encoding type param) a.buffer_length a.contents in
      elim (Bool-cases (nif.failed a.answer)) [
        | inl bad ↦
            rw (bad)
              (call-Shown host handle param length (error (status a.answer)) refl (ground arith))
        | inr good ↦ rw (good, e) (call-Shown host handle param length r no_ok (ground arith))
      ]

  get_handshake_info-Shown : (handle : ℕ) → Ends (Shown host) (get_handshake_info host handle)
  unfolding get_handshake_info
  get_handshake_info-Shown handle =
      let size = host.sizeof quic_handshake_info in
      let a = host.get_param handle tls_handshake_info size in
      elim (Bool-cases (nif.failed a.answer)) [
        | inl bad ↦ rw (bad) (
            call-Shown host handle tls_handshake_info size (error (status a.answer)) refl
              (ground arith))
        | inr good ↦
            rw (good, same)
              (call-Shown host handle tls_handshake_info size
                (ok_with (props (show_handshake_info a.contents.handshake_info))) refl
                (ground arith))
      ]
    where
      same :
          (Answer.buffer_length
              (host.get_param handle tls_handshake_info (host.sizeof quic_handshake_info))
            == host.sizeof quic_handshake_info)
          ≡ true
      same = ground (arith, healthy.info_size handle)

  get_level_param-Shown :
      (handle configuration : ℕ) (eopt level : Nif.Term nif)
      → Ends (Shown host) (get_level_param host handle configuration eopt level)
  unfolding get_level_param get_tls_opt get_config_opt
  get_level_param-Shown handle configuration eopt level = ground (
    arith,
    get_handshake_info-Shown handle,
    read-Shown tls handle tls_negotiated_alpn 255,
    read-Shown config configuration configuration_settings (host.sizeof quic_settings),
    none-Shown host (error (atom Atom.param_error)) refl,
    none-Shown host (error (atom Atom.not_found)) refl,
  )

  get_at_level-Shown :
      (handle : ℕ) (config_resource : Option ℕ) (eopt level : Nif.Term nif)
      → config_resource ≢ none
      → Ends (Shown host) (get_at_level host handle config_resource eopt level)
  unfolding get_at_level
  get_at_level-Shown handle none eopt level here = here refl
  get_at_level-Shown handle (some configuration) eopt level here =
      get_level_param-Shown handle configuration eopt level

  -- A getter that asks the level first, and its own chain at the level `false`.
  pub leveled-Shown :
      (handle : ℕ) (config_resource : Option ℕ) (eopt level : Nif.Term nif) (own : Run)
      → HasConfig nif config_resource level
      → Ends (Shown host) own
      → Ends (Shown host) (
          if not (nif.is_same level Atom.false)
          then get_at_level host handle config_resource eopt level
          else own)
  leveled-Shown handle config_resource eopt level own (inl e) shown = rw (e) shown
  leveled-Shown handle config_resource eopt level own (inr here) shown =
      ground (arith, shown, get_at_level-Shown handle config_resource eopt level here)

  get_perf_counters-Shown : Ends (Shown host) (get_perf_counters host)
  unfolding get_perf_counters
  get_perf_counters-Shown = call-Shown host 0 global_perf_counters _ _ (ground arith) (ground arith)

  pub get_global_opt-Shown :
      (handle : ℕ) (optname : Nif.Term nif) → Ends (Shown host) (get_global_opt host handle optname)
  unfolding get_global_opt
  get_global_opt-Shown handle optname = ground (
    arith,
    get_perf_counters-Shown,
    read-Shown global handle global_retry_memory_percent 4,
    read-Shown global handle global_load_balacing_mode 4,
    read-Shown global handle global_settings (host.sizeof quic_settings),
    read-Shown global handle global_library_git_hash 41,
    none-Shown host (error (status Status.not_supported)) refl,
    none-Shown host (error (atom Atom.param_error)) refl,
  )

  get_listener_param-Shown :
      (l : ListenerCtx) (optname elevel : Nif.Term nif)
      → HasConfig nif l.config_resource elevel
      → Ends (Shown host) (get_listener_param host l optname elevel)
  unfolding get_listener_param
  get_listener_param-Shown l optname elevel has =
      leveled-Shown l.listener l.config_resource optname elevel _ has (
        ground (
          arith,
          read-Shown listener l.listener listener_local_address (host.sizeof quic_addr),
          read-Shown listener l.listener listener_stats (host.sizeof quic_listener_statistics),
          none-Shown host (error (status Status.not_supported)) refl,
          none-Shown host (error (atom Atom.param_error)) refl,
        ))

  pub get_listener_opt-Shown :
      (l : ListenerCtx) (optname elevel : Nif.Term nif)
      → HasConfig nif l.config_resource elevel
      → Ends (Shown host) (get_listener_opt host (some l) optname elevel)
  unfolding get_listener_opt
  get_listener_opt-Shown l optname elevel has = ground (
    arith,
    enclose-Shown host (lock ∷ []) (unlock ∷ []) (lock-Neutral host)
        (done [] (error (atom Atom.closed))) (none-Shown host (error (atom Atom.closed)) refl),
    enclose-Shown host (lock ∷ keep_l_ctx ∷ unlock ∷ []) (release_l_ctx ∷ []) (keep-Neutral host)
        (get_listener_param host l optname elevel) (get_listener_param-Shown l optname elevel has),
  )

  get_requested-Shown : (handle : ℕ) (r : Request) → Ends (Shown host) (get_requested host handle r)
  unfolding get_requested get_stream_ids
  get_requested-Shown handle (allocated param length) = rw (healthy.memory length) (
      enclose-Shown host _ _ (buffer-Neutral host) (read host conn handle param length)
        (read-Shown conn handle param length))
  get_requested-Shown handle (on_stack param length) = read-Shown conn handle param length
  get_requested-Shown handle stream_ids =
      call-Shown host handle conn_max_stream_ids 32 _ (ground arith) (ground arith)
  get_requested-Shown handle unsupported =
      none-Shown host (error (status Status.not_supported)) refl
  get_requested-Shown handle unknown_name = none-Shown host (error (atom Atom.param_error)) refl

  pub get_connection_opt-Shown :
      (c : ConnCtx) (optname elevel : Nif.Term nif)
      → HasConfig nif c.config_resource elevel
      → Ends (Shown host) (get_connection_opt host c optname elevel)
  unfolding get_connection_opt
  get_connection_opt-Shown c optname elevel has =
      leveled-Shown c.connection c.config_resource optname elevel _ has
        (get_requested-Shown c.connection (request host optname))
