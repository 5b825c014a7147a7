-- ===== src/Options/Reading.antt =====
-- get_connection_opt of c_src/quicer_config.c. The chain over the name of the option chooses what is
-- asked for, and where it is put; what follows the chain is common.
use quicer.Prelude.{ℕ, not, [], ◌∷◌, map, if◌then◌else◌}
use quicer.Nif.{Nif, Status, ok_with, error, atom, status, plain, uint64s}
use quicer.Nif.Atoms.{Atom}
use quicer.Connection.State.{ConnCtx}
use quicer.Options.{
  Param, conn_quic_version, conn_local_address, conn_remote_address, conn_ideal_processor,
  conn_settings, conn_statistics, conn_share_udp_binding, conn_local_bidi_stream_count,
  conn_local_unidi_stream_count, conn_max_stream_ids, conn_close_reason_phrase,
  conn_stream_scheduling_scheme, conn_datagram_send_enabled, conn_datagram_receive_enabled,
  conn_disable_1rtt_encryption, conn_peer_certificate_valid, conn_local_interface, conn, quic_addr,
  quic_settings, quic_statistics, Host, Run, enclose, get_param, alloc_buffer, free_buffer, done,
}
use quicer.Options.Encode.{read}
use quicer.Options.Levels.{get_at_level}

-- `allocated`: `Buffer` stays NULL. `on_stack`: it points to a variable. The others leave the chain
-- by `goto Exit`.
pub data Request : Type 0 where
  allocated on_stack : Param → (length : ℕ) → Request
  stream_ids unsupported unknown_name : Request

module _ {nif : Nif} (host : Host nif) where
  unfoldable pub request : (optname : Nif.Term nif) → Request
  request optname =
      if nif.is_same optname Atom.param_conn_quic_version
      then allocated conn_quic_version 4
      else if nif.is_same optname Atom.param_conn_local_address
      then allocated conn_local_address (host.sizeof quic_addr)
      else if nif.is_same optname Atom.param_conn_remote_address
      then allocated conn_remote_address (host.sizeof quic_addr)
      else if nif.is_same optname Atom.param_conn_ideal_processor
      then allocated conn_ideal_processor 2
      else if nif.is_same optname Atom.param_conn_settings
      then allocated conn_settings (host.sizeof quic_settings)
      else if nif.is_same optname Atom.param_conn_statistics
      then allocated conn_statistics (host.sizeof quic_statistics)
      else if nif.is_same optname Atom.param_conn_statistics_plat
      then unsupported
      else if nif.is_same optname Atom.param_conn_share_udp_binding
      then allocated conn_share_udp_binding 1
      else if nif.is_same optname Atom.param_conn_local_bidi_stream_count
      then allocated conn_local_bidi_stream_count 2
      else if nif.is_same optname Atom.param_conn_local_unidi_stream_count
      then allocated conn_local_unidi_stream_count 2
      else if nif.is_same optname Atom.param_conn_max_stream_ids
      then stream_ids
      else if nif.is_same optname Atom.param_conn_close_reason_phrase
      then allocated conn_close_reason_phrase 512
      else if nif.is_same optname Atom.param_conn_stream_scheduling_scheme
      then on_stack conn_stream_scheduling_scheme 4
      else if nif.is_same optname Atom.param_conn_datagram_send_enabled
      then on_stack conn_datagram_send_enabled 1
      else if nif.is_same optname Atom.param_conn_datagram_receive_enabled
      then on_stack conn_datagram_receive_enabled 1
      else if nif.is_same optname Atom.param_conn_disable_1rtt_encryption
      then allocated conn_disable_1rtt_encryption 1
      else if nif.is_same optname Atom.param_conn_resumption_ticket
      then unsupported
      else if nif.is_same optname Atom.param_conn_peer_certificate_valid
      then on_stack conn_peer_certificate_valid 0
      else if nif.is_same optname Atom.param_conn_local_interface
      then allocated conn_local_interface 4
      else unknown_name

  unfoldable pub get_stream_ids : (handle : ℕ) → Run
  get_stream_ids handle =
      let a = host.get_param handle conn_max_stream_ids 32 in
      done (get_param handle conn_max_stream_ids 32 ∷ []) (
        if nif.failed a.answer
        then error (status a.answer)
        else ok_with (uint64s (map a.contents.uint64s (0 ∷ 1 ∷ 2 ∷ 3 ∷ []))))

  -- The plain atom is what `res` was at the start.
  unfoldable pub get_requested : (handle : ℕ) → Request → Run
  unfolding enclose get_stream_ids read
  get_requested handle (allocated param length) =
      if host.has_memory length
      then enclose (alloc_buffer ∷ []) (free_buffer ∷ []) (read host conn handle param length)
      else done [] (plain Atom.not_found)
  get_requested handle (on_stack param length) = read host conn handle param length
  get_requested handle stream_ids = get_stream_ids handle
  get_requested handle unsupported = done [] (error (status Status.not_supported))
  get_requested handle unknown_name = done [] (error (atom Atom.param_error))

  unfoldable pub get_connection_opt : ConnCtx → (optname elevel : Nif.Term nif) → Run
  unfolding get_at_level request get_requested
  get_connection_opt c optname elevel =
      if not (nif.is_same elevel Atom.false)
      then get_at_level host c.connection c.config_resource optname elevel
      else get_requested c.connection (request optname)
