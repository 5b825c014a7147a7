-- ===== src/Options/Encode.antt =====
-- encode_parm_to_eterm of c_src/quicer_config.c, addr2eterm and sockname1 of
-- c_src/quicer_connection.c, and the common end of the getters.
use Prim.Native.String.{String}
use quicer.Prelude.{ℕ, Bool, Option, none, some, List, [], ◌∷◌, map, ltb, ◌==◌, if◌then◌else◌}
use quicer.Nif.{
  Nif, eterm_int, Reply, ok_with, error, atom, boolean, binary, status, address, props, named,
  Entry, uint64, Value,
}
use quicer.Nif.Atoms.{Atom}
use quicer.Config.Settings.{Setting, key_of}
use quicer.Options.{
  Param, global_retry_memory_percent, global_load_balacing_mode, global_settings,
  global_library_git_hash, configuration_settings, listener_local_address, listener_stats,
  listener_cibir_id, conn_quic_version, conn_local_address, conn_remote_address,
  conn_ideal_processor, conn_settings, conn_statistics, conn_share_udp_binding,
  conn_local_bidi_stream_count, conn_local_unidi_stream_count, conn_close_reason_phrase,
  conn_stream_scheduling_scheme, conn_datagram_send_enabled, conn_datagram_receive_enabled,
  conn_disable_1rtt_encryption, conn_peer_certificate_valid, conn_local_interface,
  tls_negotiated_alpn, stream_id, stream_0rtt_length, stream_ideal_send_buffer_size, HandleType,
  config, listener, conn, stream, tls, global, Statistic, timing_start, timing_initial_flight_end,
  timing_handshake_flight_end, send_path_mtu, send_total_packets, send_retransmittable_packets,
  send_suspected_lost_packets, send_spurious_lost_packets, send_total_bytes,
  send_total_stream_bytes, send_congestion_count, send_persistent_congestion_count,
  recv_total_packets, recv_reordered_packets, recv_dropped_packets, recv_duplicate_packets,
  recv_total_bytes, recv_total_stream_bytes, recv_decryption_failures, recv_valid_ack_frames,
  quic_addr, quic_statistics, Addr, Contents, Host, Effect, Run, get_param, fault, done,
}

-- The branches of the chain.
pub data Encoding : Type 0 where
  as_statistics as_settings as_number as_address as_flag as_binary as_listener_statistics
        not_encoded :
      Encoding

-- The conditions of the chain on the type of the handle and the parameter.
unfoldable pub encoding : HandleType → Param → Encoding
encoding conn conn_statistics = as_statistics
encoding conn conn_settings = as_settings
encoding config configuration_settings = as_settings
encoding global global_settings = as_settings
encoding stream stream_id = as_number
encoding stream stream_0rtt_length = as_number
encoding stream stream_ideal_send_buffer_size = as_number
encoding conn conn_ideal_processor = as_number
encoding conn conn_local_bidi_stream_count = as_number
encoding conn conn_local_unidi_stream_count = as_number
encoding conn conn_quic_version = as_number
encoding conn conn_local_interface = as_number
encoding conn conn_stream_scheduling_scheme = as_number
encoding global global_load_balacing_mode = as_number
encoding global global_retry_memory_percent = as_number
encoding conn conn_remote_address = as_address
encoding conn conn_local_address = as_address
encoding listener listener_local_address = as_address
encoding conn conn_disable_1rtt_encryption = as_flag
encoding conn conn_share_udp_binding = as_flag
encoding conn conn_datagram_send_enabled = as_flag
encoding conn conn_datagram_receive_enabled = as_flag
encoding conn conn_peer_certificate_valid = as_flag
encoding listener listener_cibir_id = as_binary
encoding tls tls_negotiated_alpn = as_binary
encoding global global_library_git_hash = as_binary
encoding conn conn_close_reason_phrase = as_binary
encoding listener listener_stats = as_listener_statistics
encoding _ _ = not_encoded

-- The 20 entries of the statistics, by the text that the macro makes of the field.
unfoldable pub shown_statistics : List (String × Statistic)
shown_statistics =
    ("Timing.Start", timing_start)
    ∷ ("Timing.InitialFlightEnd", timing_initial_flight_end)
    ∷ ("Timing.HandshakeFlightEnd", timing_handshake_flight_end)
    ∷ ("Send.PathMtu", send_path_mtu)
    ∷ ("Send.TotalPackets", send_total_packets)
    ∷ ("Send.RetransmittablePackets", send_retransmittable_packets)
    ∷ ("Send.SuspectedLostPackets", send_suspected_lost_packets)
    ∷ ("Send.SpuriousLostPackets", send_spurious_lost_packets)
    ∷ ("Send.TotalBytes", send_total_bytes)
    ∷ ("Send.TotalStreamBytes", send_total_stream_bytes)
    ∷ ("Send.CongestionCount", send_congestion_count)
    ∷ ("Send.PersistentCongestionCount", send_persistent_congestion_count)
    ∷ ("Recv.TotalPackets", recv_total_packets)
    ∷ ("Recv.ReorderedPackets", recv_reordered_packets)
    ∷ ("Recv.DroppedPackets", recv_dropped_packets)
    ∷ ("Recv.DuplicatePackets", recv_duplicate_packets)
    ∷ ("Recv.TotalBytes", recv_total_bytes)
    ∷ ("Recv.TotalStreamBytes", recv_total_stream_bytes)
    ∷ ("Recv.DecryptionFailures", recv_decryption_failures)
    ∷ ("Recv.ValidAckFrames", recv_valid_ack_frames)
    ∷ []

-- The 24 fields of the settings.
unfoldable pub shown_settings : List Setting
shown_settings =
    Setting.max_bytes_per_key ∷ Setting.handshake_idle_timeout_ms ∷ Setting.idle_timeout_ms
    ∷ Setting.tls_client_max_send_buffer ∷ Setting.tls_server_max_send_buffer
    ∷ Setting.stream_recv_window_default ∷ Setting.stream_recv_buffer_default
    ∷ Setting.conn_flow_control_window ∷ Setting.max_worker_queue_delay_us
    ∷ Setting.max_stateless_operations ∷ Setting.initial_window_packets
    ∷ Setting.send_idle_timeout_ms ∷ Setting.initial_rtt_ms ∷ Setting.max_ack_delay_ms
    ∷ Setting.disconnect_timeout_ms ∷ Setting.keep_alive_interval_ms
    ∷ Setting.peer_bidi_stream_count ∷ Setting.peer_unidi_stream_count
    ∷ Setting.max_operations_per_drain ∷ Setting.send_buffering_enabled ∷ Setting.pacing_enabled
    ∷ Setting.migration_enabled ∷ Setting.datagram_receive_enabled ∷ Setting.server_resumption_level
    ∷ []

-- `PropTupleAtomBool` for four of them, `PropTupleAtomInt` for the others.
unfoldable pub entry_of : Setting → ℕ → Entry
entry_of Setting.send_buffering_enabled n = Entry.flag (ltb 0 n)
entry_of Setting.pacing_enabled n = Entry.flag (ltb 0 n)
entry_of Setting.migration_enabled n = Entry.flag (ltb 0 n)
entry_of Setting.datagram_receive_enabled n = Entry.flag (ltb 0 n)
entry_of _ n = uint64 n

unfoldable pub encode_settings : (Setting → ℕ) → List Setting → List (Atom × Entry)
unfolding key_of entry_of
encode_settings values [] = []
encode_settings values (f ∷ fs) = (key_of f, entry_of f (values f)) ∷ encode_settings values fs

unfoldable pub encode_statistics : (Statistic → ℕ) → List (String × Statistic) → List (String × ℕ)
encode_statistics values [] = []
encode_statistics values ((text, s) ∷ rest) = (text, values s) ∷ encode_statistics values rest

module _ {nif : Nif} (host : Host nif) where
  -- The port of the second family goes through `ntohs`, that of the first one does not.
  unfoldable pub addr2eterm : Addr → Value
  addr2eterm a =
      if a.is_inet6
      then address (map (λ i. host.ntohs (a.words i)) (0 ∷ 1 ∷ 2 ∷ 3 ∷ 4 ∷ 5 ∷ 6 ∷ 7 ∷ [])) a.port
      else address (map a.quad (0 ∷ 1 ∷ 2 ∷ 3 ∷ [])) (host.ntohs a.port)

  -- The three widths.
  unfoldable pub encode_width : (length : ℕ) → Contents → Reply
  unfolding eterm_int
  encode_width length c =
      if length == 8
      then ok_with (eterm_int (c.number 8))
      else if length == 4
      then ok_with (eterm_int (c.number 4))
      else if length == 2
      then ok_with (eterm_int (c.number 2))
      else error (atom Atom.not_found)

  -- One branch. Where there is no memory for a binary, the copy goes through NULL: `none`.
  unfoldable pub encode : Encoding → (length : ℕ) → Contents → Option Reply
  unfolding addr2eterm encode_width encode_settings encode_statistics shown_settings
      shown_statistics
  encode as_statistics length c = some (
      if host.sizeof quic_statistics == length
      then ok_with (named (encode_statistics c.statistics shown_statistics))
      else error (atom Atom.not_found))
  encode as_settings length c = some (ok_with (props (encode_settings c.settings shown_settings)))
  encode as_number length c = some (encode_width length c)
  encode as_address length c = some (ok_with (addr2eterm c.address))
  encode as_flag length c = some (ok_with (boolean (ltb 0 (c.number 1))))
  encode as_binary length c =
      if host.has_binary length then some (ok_with (binary (c.bytes length))) else none
  encode as_listener_statistics length c = some (
      ok_with (
        named (
          ("total_accepted_connection", c.accepted_connections)
          ∷ ("total_rejected_connection", c.rejected_connections)
          ∷ ("binding_recv_dropped_packets", c.recv_dropped_packets)
          ∷ [])))
  encode not_encoded length c = some (error (atom Atom.not_found))

  unfoldable pub encode_parm_to_eterm : HandleType → Param → (length : ℕ) → Contents → Option Reply
  unfolding encoding encode
  encode_parm_to_eterm type param length c = encode (encoding type param) length c

  unfoldable pub run_of : List Effect → Option Reply → Run
  run_of fx none = fault
  run_of fx (some r) = done fx r

  -- `GetParam`, and the reply to what it answers.
  unfoldable pub read : HandleType → (handle : ℕ) → Param → (length : ℕ) → Run
  unfolding encode_parm_to_eterm run_of
  read type handle param length =
      let a = host.get_param handle param length in
      run_of (get_param handle param length ∷ []) (
        if nif.failed a.answer
        then some (error (status a.answer))
        else encode_parm_to_eterm type param a.buffer_length a.contents)

  -- The resource is a connection's or a listener's handle, or neither.
  unfoldable pub sockname1 : Option (Bool × ℕ) → Run
  unfolding addr2eterm
  sockname1 none = done [] (error (atom Atom.badarg))
  sockname1 (some (is_connection, handle)) =
      let param = if is_connection then conn_local_address else listener_local_address in
      let a = host.get_param handle param (host.sizeof quic_addr) in
      done (get_param handle param (host.sizeof quic_addr) ∷ []) (
        if nif.failed a.answer
        then error (atom Atom.sockname_error)
        else ok_with (addr2eterm a.contents.address))
