-- ===== src/Options/Global.antt =====
-- The options of the library: get_global_opt and set_global_opt of c_src/quicer_config.c.
use quicer.Prelude.{ℕ, ◌*◌, Option, none, some, List, [], ◌∷◌, map, ltb, leb, if◌then◌else◌}
use quicer.Nif.{Nif, Status, ok_with, error, atom, status, uint64s}
use quicer.Nif.Atoms.{Atom}
use quicer.Config.Read.{uint16_max}
use quicer.Config.Settings.{create_settings}
use quicer.Options.{
  PerfCounter, global_retry_memory_percent, global_load_balacing_mode, global_perf_counters,
  global_settings, global_library_git_hash, global, quic_settings, Buffer, Host, Run, write,
  get_param, done,
}
use quicer.Options.Encode.{read}
use quicer.Options.Levels.{write_settings}

-- The 30 counters.
unfoldable pub shown_counters : List PerfCounter
shown_counters =
    PerfCounter.conn_created ∷ PerfCounter.conn_handshake_fail ∷ PerfCounter.conn_app_reject
    ∷ PerfCounter.conn_active ∷ PerfCounter.conn_connected ∷ PerfCounter.conn_protocol_errors
    ∷ PerfCounter.conn_no_alpn ∷ PerfCounter.strm_active ∷ PerfCounter.pkts_suspected_lost
    ∷ PerfCounter.pkts_dropped ∷ PerfCounter.pkts_decryption_fail ∷ PerfCounter.udp_recv
    ∷ PerfCounter.udp_send ∷ PerfCounter.udp_recv_bytes ∷ PerfCounter.udp_send_bytes
    ∷ PerfCounter.udp_recv_events ∷ PerfCounter.udp_send_calls ∷ PerfCounter.app_send_bytes
    ∷ PerfCounter.app_recv_bytes ∷ PerfCounter.conn_queue_depth ∷ PerfCounter.conn_oper_queue_depth
    ∷ PerfCounter.conn_oper_queued ∷ PerfCounter.conn_oper_completed
    ∷ PerfCounter.work_oper_queue_depth ∷ PerfCounter.work_oper_queued
    ∷ PerfCounter.work_oper_completed ∷ PerfCounter.path_validated ∷ PerfCounter.path_failure
    ∷ PerfCounter.send_stateless_reset ∷ PerfCounter.send_stateless_retry ∷ []

module _ {nif : Nif} (host : Host nif) where
  -- The counters are asked for without a handle, whatever the handle is.
  unfoldable pub get_perf_counters : Run
  unfolding shown_counters
  get_perf_counters =
      let size = 8 * host.perf_counter_max in
      let a = host.get_param 0 global_perf_counters size in
      done (get_param 0 global_perf_counters size ∷ []) (
        if nif.failed a.answer
        then error (status a.answer)
        else ok_with (uint64s (map a.contents.perf_counters shown_counters)))

  unfoldable pub get_global_opt : (handle : ℕ) → (optname : Nif.Term nif) → Run
  unfolding get_perf_counters read
  get_global_opt handle optname =
      if nif.is_same optname Atom.param_global_retry_memory_percent
      then read host global handle global_retry_memory_percent 4
      else if nif.is_same optname Atom.param_global_supported_versions
      then done [] (error (status Status.not_supported))
      else if nif.is_same optname Atom.param_global_load_balacing_mode
      then read host global handle global_load_balacing_mode 4
      else if nif.is_same optname Atom.param_global_perf_counters
      then get_perf_counters
      else if nif.is_same optname Atom.param_global_settings
      then read host global handle global_settings (host.sizeof quic_settings)
      else if nif.is_same optname Atom.param_global_library_git_hash
      then read host global handle global_library_git_hash 41
      else done [] (error (atom Atom.param_error))

  -- A number that is refused where it is too large; `percent` has two bytes of its four.
  unfoldable pub write_percent : (handle : ℕ) → Option ℕ → Run
  unfolding write
  write_percent handle none = done [] (error (atom Atom.badarg))
  write_percent handle (some percent) =
      if ltb uint16_max percent
      then done [] (error (atom Atom.badarg))
      else write host handle global_retry_memory_percent 2 (Buffer.number percent)

  unfoldable pub write_lbmode : (handle : ℕ) → Option ℕ → Run
  unfolding write
  write_lbmode handle none = done [] (error (atom Atom.badarg))
  write_lbmode handle (some lbmode) =
      if leb host.load_balancing_count lbmode
      then done [] (error (atom Atom.badarg))
      else write host handle global_load_balacing_mode 4 (Buffer.number lbmode)

  unfoldable pub set_global_opt : (handle : ℕ) → (optname optval : Nif.Term nif) → Run
  unfolding write_percent write_lbmode write_settings
  set_global_opt handle optname optval =
      if nif.is_same optname Atom.param_global_retry_memory_percent
      then write_percent handle (nif.get_uint optval)
      else if nif.is_same optname Atom.param_global_supported_versions
      then done [] (error (status Status.not_supported))
      else if nif.is_same optname Atom.param_global_load_balacing_mode
      then write_lbmode handle (nif.get_uint optval)
      else if nif.is_same optname Atom.param_global_settings
      then write_settings host handle global_settings (create_settings nif host.store optval)
      else if nif.is_same optname Atom.param_global_version
      then done [] (error (status Status.not_supported))
      else done [] (error (atom Atom.param_error))
