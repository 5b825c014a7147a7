-- ===== src/Options.antt =====
-- getopt and setopt of c_src/quicer_config.c for the library, a configuration, TLS, a listener and a
-- connection: the parameters that the source names, what MsQuic answers, and what the functions do.
pub mod Encode
pub mod Levels
pub mod Global
pub mod Listening
pub mod Reading
pub mod Writing
pub mod Dispatch
pub mod Answers
pub mod Choices
pub mod Showing
pub mod Contract
pub mod Balance
pub mod Connecting
pub mod Names
pub mod RoundTrip
pub mod ShownSettings
pub mod Addresses
pub mod Numbers
use quicer.Prelude.{ℕ, Bool, true, false, Option, List, [], ◌∷◌, ◌++◌, if◌then◌else◌}
use quicer.Prelude.Int.{ℤ}
use quicer.Nif.{Nif, Status, Reply, ok, error, status}
use quicer.Nif.Atoms.{Atom}
use quicer.Config.Settings.{Setting, Settings}

-- `QUICER_PARAM_HANDLE_TYPE`
pub data HandleType : Type 0 where
  reg config listener conn stream tls global : HandleType

-- The `QUIC_PARAM_*` numbers that the source names.
pub data Param : Type 0 where
  global_retry_memory_percent global_load_balacing_mode global_perf_counters global_settings
        global_library_git_hash configuration_settings listener_local_address listener_stats
        listener_cibir_id conn_quic_version conn_local_address conn_remote_address
        conn_ideal_processor conn_settings conn_statistics conn_share_udp_binding
        conn_local_bidi_stream_count conn_local_unidi_stream_count conn_max_stream_ids
        conn_close_reason_phrase conn_stream_scheduling_scheme conn_datagram_send_enabled
        conn_datagram_receive_enabled conn_disable_1rtt_encryption conn_resumption_ticket
        conn_peer_certificate_valid conn_local_interface tls_handshake_info tls_negotiated_alpn
        stream_id stream_0rtt_length stream_ideal_send_buffer_size stream_priority :
      Param

-- The structures whose size the code asks for.
pub data Structure : Type 0 where
  quic_addr quic_settings quic_statistics quic_handshake_info quic_listener_statistics : Structure

-- The fields of `QUIC_STATISTICS` that the code shows.
pub data Statistic : Type 0 where
  timing_start timing_initial_flight_end timing_handshake_flight_end send_path_mtu
        send_total_packets send_retransmittable_packets send_suspected_lost_packets
        send_spurious_lost_packets send_total_bytes send_total_stream_bytes send_congestion_count
        send_persistent_congestion_count recv_total_packets recv_reordered_packets
        recv_dropped_packets recv_duplicate_packets recv_total_bytes recv_total_stream_bytes
        recv_decryption_failures recv_valid_ack_frames :
      Statistic

-- The `QUIC_PERF_COUNTER_*` that the code shows.
pub data PerfCounter : Type 0 where
  conn_created conn_handshake_fail conn_app_reject conn_active conn_connected conn_protocol_errors
        conn_no_alpn strm_active pkts_suspected_lost pkts_dropped pkts_decryption_fail udp_recv
        udp_send udp_recv_bytes udp_send_bytes udp_recv_events udp_send_calls app_send_bytes
        app_recv_bytes conn_queue_depth conn_oper_queue_depth conn_oper_queued conn_oper_completed
        work_oper_queue_depth work_oper_queued work_oper_completed path_validated path_failure
        send_stateless_reset send_stateless_retry :
      PerfCounter

-- The values of MsQuic's enumerations that the code tells apart.
pub data CipherAlgorithm : Type 0 where
  cipher_none aes_128 aes_256 chacha20 other_cipher : CipherAlgorithm

pub data HashAlgorithm : Type 0 where
  hash_none sha_256 sha_384 other_hash : HashAlgorithm

pub data CipherSuite : Type 0 where
  aes_128_gcm_sha256 aes_256_gcm_sha384 chacha20_poly1305_sha256 other_suite : CipherSuite

-- `QUIC_HANDSHAKE_INFO`: whether the version is TLS 1.3, and whether there is no key exchange.
pub record HandshakeInfo : Type 0 where
  pub is_tls_1_3 : Bool
  pub cipher_algorithm : CipherAlgorithm
  pub cipher_strength : ℕ
  pub hash : HashAlgorithm
  pub hash_strength : ℕ
  pub no_key_exchange : Bool
  pub key_exchange_strength : ℕ
  pub cipher_suite : CipherSuite

-- `QUIC_ADDR`: the 16-bit words and the bytes of the address, and the port, which the layouts of both
-- families have at the same place, as it stands in memory.
pub record Addr : Type 0 where
  pub is_inet6 : Bool
  pub words : ℕ → ℕ
  pub quad : ℕ → ℕ
  pub port : ℕ

-- What a buffer holds behind `GetParam`, as each cast of the code reads it: the number in the first
-- bytes, the bytes, or one of the structures.
pub record Contents : Type 0 where
  pub number : (width : ℕ) → ℕ
  pub bytes : (length : ℕ) → List ℕ
  pub uint64s : ℕ → ℕ
  pub address : Addr
  pub settings : Setting → ℕ
  pub statistics : Statistic → ℕ
  pub perf_counters : PerfCounter → ℕ
  pub accepted_connections : ℕ
  pub rejected_connections : ℕ
  pub recv_dropped_packets : ℕ
  pub handshake_info : HandshakeInfo

pub record Answer : Type 0 where
  pub answer : Status
  pub buffer_length : ℕ
  pub contents : Contents

-- What a buffer holds that the code hands to `SetParam`.
pub data Buffer : Type 0 where
  number : ℕ → Buffer
  address : Addr → Buffer
  settings : Settings → Buffer
  string : List ℕ → Buffer
  bytes : List ℕ → Buffer

-- `enif_term_type`
pub data TermType : Type 0 where
  list integer other : TermType

-- The hosts' calls for the options, each as a function of its arguments: MsQuic's parameters and
-- addresses, the sizes of its structures, the allocators, which may refuse a size, the byte order,
-- and the calls that read a term. `get_string` gives the number of bytes written, or less than 1, and
-- the characters that stand before the terminator.
pub record Host (nif : Nif) : Type 0 where
  pub get_param : (handle : ℕ) → Param → (length : ℕ) → Answer
  pub set_param : (handle : ℕ) → Param → (length : ℕ) → Buffer → Status
  pub sizeof : Structure → ℕ
  pub load_balancing_count : ℕ
  pub perf_counter_max : ℕ
  pub store : Setting → ℕ → ℕ
  pub has_memory : (size : ℕ) → Bool
  pub has_binary : (size : ℕ) → Bool
  pub ntohs : ℕ → ℕ
  pub term_type : Nif.Term nif → TermType
  pub get_string : Nif.Term nif → (size : ℕ) → ℤ × List ℕ
  pub list_length : Nif.Term nif → Option ℕ
  pub list_cell : Nif.Term nif → Option (Nif.Term nif × Nif.Term nif)
  pub inspect_binary : Nif.Term nif → Option (List ℕ)
  pub addr4_from_string : List ℕ → Option Addr
  pub addr6_from_string : List ℕ → Option Addr
  pub addr_from_port : ℕ → Addr

-- What the functions ask of the hosts, in order.
pub data Effect : Type 0 where
  get_param : (handle : ℕ) → Param → (length : ℕ) → Effect
  set_param : (handle : ℕ) → Param → (length : ℕ) → Buffer → Effect
  alloc_buffer free_buffer keep_l_ctx release_l_ctx lock unlock : Effect

-- `fault`: an assertion fails, or memory is reached through NULL.
pub data Run : Type 0 where
  fault : Run
  done : List Effect → Reply → Run

-- What stands before and behind a piece of code that has no way out of its own.
unfoldable pub enclose : List Effect → List Effect → Run → Run
enclose before after fault = fault
enclose before after (done fx r) = done (before ++ fx ++ after) r

-- `SetParam`, and the two answers of a setter.
unfoldable pub write : {nif : Nif} → Host nif → ℕ → Param → ℕ → Buffer → Run
write {nif} host handle param length buffer = done (set_param handle param length buffer ∷ []) (
    if nif.failed (host.set_param handle param length buffer)
    then error (status (host.set_param handle param length buffer))
    else ok)
