-- ===== src/Config/Settings.antt =====
-- create_settings of c_src/quicer_config.c. Each block of the function reads one entry of the option
-- map, at the width of the field, and sets the field and its `IsSet` bit where the entry is there
-- and fits. The blocks are a list in the order of the source, where two fields are read twice.
use quicer.Prelude.{ℕ, Bool, true, false, Option, none, some, List, [], ◌∷◌, if◌then◌else◌}
use quicer.Nif.{Nif}
use quicer.Nif.Atoms.{Atom}
use quicer.Config.Read.{
  get_uint8_from_map, get_uint16_from_map, get_uint32_from_map, get_uint64_from_map,
}

-- The fields of `QUIC_SETTINGS` that the function sets.
pub data Setting : Type 0 where
  max_bytes_per_key handshake_idle_timeout_ms idle_timeout_ms
        mtu_discovery_search_complete_timeout_us tls_client_max_send_buffer
        tls_server_max_send_buffer stream_recv_window_default stream_recv_buffer_default
        conn_flow_control_window max_worker_queue_delay_us max_stateless_operations
        initial_window_packets send_idle_timeout_ms initial_rtt_ms max_ack_delay_ms
        disconnect_timeout_ms keep_alive_interval_ms peer_bidi_stream_count peer_unidi_stream_count
        max_operations_per_drain send_buffering_enabled pacing_enabled migration_enabled
        datagram_receive_enabled server_resumption_level minimum_mtu maximum_mtu
        mtu_discovery_missing_probe_count max_binding_stateless_operations
        stateless_operation_expiration_ms :
      Setting

unfoldable pub Setting-discrete : Discrete Setting
Setting-discrete = hlevel

pub data Width : Type 0 where
  u8 u16 u32 u64 : Width

-- The atom of the entry.
unfoldable pub key_of : Setting → Atom
key_of max_bytes_per_key = Atom.max_bytes_per_key
key_of handshake_idle_timeout_ms = Atom.handshake_idle_timeout_ms
key_of idle_timeout_ms = Atom.idle_timeout_ms
key_of mtu_discovery_search_complete_timeout_us = Atom.mtu_discovery_search_complete_timeout_us
key_of tls_client_max_send_buffer = Atom.tls_client_max_send_buffer
key_of tls_server_max_send_buffer = Atom.tls_server_max_send_buffer
key_of stream_recv_window_default = Atom.stream_recv_window_default
key_of stream_recv_buffer_default = Atom.stream_recv_buffer_default
key_of conn_flow_control_window = Atom.conn_flow_control_window
key_of max_worker_queue_delay_us = Atom.max_worker_queue_delay_us
key_of max_stateless_operations = Atom.max_stateless_operations
key_of initial_window_packets = Atom.initial_window_packets
key_of send_idle_timeout_ms = Atom.send_idle_timeout_ms
key_of initial_rtt_ms = Atom.initial_rtt_ms
key_of max_ack_delay_ms = Atom.max_ack_delay_ms
key_of disconnect_timeout_ms = Atom.disconnect_timeout_ms
key_of keep_alive_interval_ms = Atom.keep_alive_interval_ms
key_of peer_bidi_stream_count = Atom.peer_bidi_stream_count
key_of peer_unidi_stream_count = Atom.peer_unidi_stream_count
key_of max_operations_per_drain = Atom.max_operations_per_drain
key_of send_buffering_enabled = Atom.send_buffering_enabled
key_of pacing_enabled = Atom.pacing_enabled
key_of migration_enabled = Atom.migration_enabled
key_of datagram_receive_enabled = Atom.datagram_receive_enabled
key_of server_resumption_level = Atom.server_resumption_level
key_of minimum_mtu = Atom.minimum_mtu
key_of maximum_mtu = Atom.maximum_mtu
key_of mtu_discovery_missing_probe_count = Atom.mtu_discovery_missing_probe_count
key_of max_binding_stateless_operations = Atom.max_binding_stateless_operations
key_of stateless_operation_expiration_ms = Atom.stateless_operation_expiration_ms

-- The reader that the block calls.
unfoldable pub width : Setting → Width
width max_bytes_per_key = u64
width handshake_idle_timeout_ms = u64
width idle_timeout_ms = u64
width mtu_discovery_search_complete_timeout_us = u64
width tls_client_max_send_buffer = u32
width tls_server_max_send_buffer = u32
width stream_recv_window_default = u32
width stream_recv_buffer_default = u32
width conn_flow_control_window = u32
width max_worker_queue_delay_us = u32
width max_stateless_operations = u32
width initial_window_packets = u32
width send_idle_timeout_ms = u32
width initial_rtt_ms = u32
width max_ack_delay_ms = u32
width disconnect_timeout_ms = u32
width keep_alive_interval_ms = u32
width peer_bidi_stream_count = u16
width peer_unidi_stream_count = u16
width max_operations_per_drain = u8
width send_buffering_enabled = u8
width pacing_enabled = u8
width migration_enabled = u8
width datagram_receive_enabled = u8
width server_resumption_level = u8
width minimum_mtu = u16
width maximum_mtu = u16
width mtu_discovery_missing_probe_count = u8
width max_binding_stateless_operations = u16
width stateless_operation_expiration_ms = u16

-- A field is `some v` where its `IsSet` bit is set and it holds `v`. Cleared memory is `none`.
abbrev pub Settings : Type 0
Settings = Setting → Option ℕ

unfoldable pub cleared : Settings
cleared f = none

unfoldable pub same_setting : Setting → Setting → Bool
unfolding Setting-discrete
same_setting f g = elim (Setting-discrete f g) [ yes _ ↦ true | no _ ↦ false ]

unfoldable pub assign : Settings → Setting → ℕ → Settings
unfolding same_setting
assign s f v g = if same_setting f g then some v else s g

unfoldable pub read_width : (nif : Nif) → Nif.Term nif → Atom → Width → Option ℕ
read_width nif emap name u8 = get_uint8_from_map nif emap name
read_width nif emap name u16 = get_uint16_from_map nif emap name
read_width nif emap name u32 = get_uint32_from_map nif emap name
read_width nif emap name u64 = get_uint64_from_map nif emap name

unfoldable pub read_setting : (nif : Nif) → Nif.Term nif → Setting → Option ℕ
read_setting nif emap f = read_width nif emap (key_of f) (width f)

-- `store` is the value that a field of MsQuic's structure holds after an assignment: some of them
-- are narrower bit fields there.
unfoldable pub set_setting : (Setting → ℕ → ℕ) → Settings → Setting → Option ℕ → Settings
unfolding assign
set_setting store s f none = s
set_setting store s f (some v) = assign s f (store f v)

unfoldable pub run_blocks :
    (nif : Nif) → (Setting → ℕ → ℕ) → Nif.Term nif → List Setting → Settings → Settings
unfolding set_setting
run_blocks nif store emap [] s = s
run_blocks nif store emap (f ∷ fs) s =
    run_blocks nif store emap fs (set_setting store s f (read_setting nif emap f))

-- The blocks up to the bit fields, and those from there on.
unfoldable pub integer_blocks : List Setting
integer_blocks =
    max_bytes_per_key ∷ handshake_idle_timeout_ms ∷ idle_timeout_ms
    ∷ mtu_discovery_search_complete_timeout_us ∷ tls_client_max_send_buffer
    ∷ tls_server_max_send_buffer ∷ stream_recv_window_default ∷ stream_recv_buffer_default
    ∷ conn_flow_control_window ∷ max_worker_queue_delay_us ∷ max_stateless_operations
    ∷ initial_window_packets ∷ send_idle_timeout_ms ∷ initial_rtt_ms ∷ max_ack_delay_ms
    ∷ disconnect_timeout_ms ∷ keep_alive_interval_ms ∷ peer_bidi_stream_count
    ∷ peer_unidi_stream_count ∷ []

unfoldable pub late_blocks : List Setting
late_blocks =
    max_operations_per_drain ∷ send_buffering_enabled ∷ pacing_enabled ∷ migration_enabled
    ∷ datagram_receive_enabled ∷ server_resumption_level ∷ minimum_mtu ∷ maximum_mtu
    ∷ mtu_discovery_search_complete_timeout_us ∷ mtu_discovery_missing_probe_count
    ∷ max_binding_stateless_operations ∷ stateless_operation_expiration_ms ∷ peer_bidi_stream_count
    ∷ []

unfoldable pub create_settings : (nif : Nif) → (Setting → ℕ → ℕ) → Nif.Term nif → Option Settings
create_settings nif store emap =
    if nif.is_map emap
    then some
        (run_blocks nif store emap late_blocks (run_blocks nif store emap integer_blocks cleared))
    else none
