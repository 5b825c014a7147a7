-- ===== src/Nif/Atoms.antt =====
-- The atoms of c_src/quicer_eterms.h that the modelled code uses.

pub data Atom : Type 0 where
  false true once undefined ok badarg param_error einval not_ready not_supported not_found
        not_enough_memory internal_error bad_pid owner_dead not_owner closed config_error
        listener_open_error listener_start_error stream_open_error stream_start_error
        stream_send_error dgram_send_error conn_open_error conn_start_error reg_failed open_failed
        bad_mon cert_error sockname_error no_peercert quic_global quic_configuration quic_tls
        quic_registration quic_event_mask active open_flag start_flag cert certfile key keyfile
        password alpn handle verify cacertfile peer none verify_none verify_peer allow_insecure nst
        sslkeylogfile continue stream_closed listener_stopped transport_shutdown shutdown
        peer_send_shutdown peer_send_aborted peer_receive_aborted peer_address_changed
        send_shutdown_complete peer_accepted local_address_changed streams_available
        peer_needs_streams start_completed send_complete dgram_send_state passive nst_received
        dgram_state_changed dgram_max_len dgram_send_enabled debug new_conn connected
        connection_resumed new_stream is_resumed alpns is_handshake_completed is_peer_acked
        is_app_closing is_shutdown_by_app is_closed_remotely is_orphan bidi_streams unidi_streams
        status state stream_id is_peer_accepted is_conn_shutdown absolute_offset len flags version
        local_addr remote_addr server_name client_alpns crypto_buffer error dgram_send_unknown
        dgram_send_sent dgram_send_lost_suspect dgram_send_lost_discarded dgram_send_acknowledged
        dgram_send_acknowledged_spurious dgram_send_canceled low_latency max_throughput scavenger
        real_time success pending out_of_memory invalid_parameter invalid_state buffer_too_small
        handshake_failure aborted address_in_use connection_timeout connection_idle
        connection_refused protocol_error ver_neg_error unreachable tls_error bad_certificate
        user_canceled alpn_neg_failure stream_limit_reached cert_expired cert_untrusted_root
        cert_required cert_unobtainable unknown_tls_status_code unknown_status_code
        param_conn_resumption_ticket param_conn_local_address param_conn_disable_1rtt_encryption
        param_stream_id param_stream_0rtt_length param_stream_ideal_send_buffer_size
        param_stream_priority max_bytes_per_key handshake_idle_timeout_ms idle_timeout_ms
        tls_client_max_send_buffer tls_server_max_send_buffer stream_recv_window_default
        stream_recv_buffer_default conn_flow_control_window max_worker_queue_delay_us
        max_stateless_operations initial_window_packets send_idle_timeout_ms initial_rtt_ms
        max_ack_delay_ms disconnect_timeout_ms keep_alive_interval_ms peer_bidi_stream_count
        peer_unidi_stream_count max_operations_per_drain send_buffering_enabled pacing_enabled
        migration_enabled datagram_receive_enabled server_resumption_level minimum_mtu maximum_mtu
        mtu_discovery_search_complete_timeout_us mtu_discovery_missing_probe_count
        max_binding_stateless_operations stateless_operation_expiration_ms
        param_global_retry_memory_percent param_global_supported_versions
        param_global_load_balacing_mode param_global_perf_counters param_global_settings
        param_global_version param_global_library_git_hash param_configuration_settings
        param_listener_local_address param_listener_stats param_listener_cibir_id
        param_conn_quic_version param_conn_remote_address param_conn_ideal_processor
        param_conn_settings param_conn_statistics param_conn_statistics_plat
        param_conn_share_udp_binding param_conn_local_bidi_stream_count
        param_conn_local_unidi_stream_count param_conn_max_stream_ids param_conn_close_reason_phrase
        param_conn_stream_scheduling_scheme param_conn_datagram_receive_enabled
        param_conn_datagram_send_enabled param_conn_peer_certificate_valid
        param_conn_local_interface tls_protocol_version cipher_algorithm cipher_strength
        hash_algorithm hash_strength key_exchange_algorithm key_exchange_strength cipher_suite
        param_tls_handshake_info param_tls_negotiated_alpn tlsv1_3 aes_128 aes_256 chacha20 sha_256
        sha_384 aes_128_gcm_sha256 aes_256_gcm_sha384 chacha20_poly1305_sha256 :
      Atom

unfoldable pub Atom-discrete : Discrete Atom
Atom-discrete = hlevel
