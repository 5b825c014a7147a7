-- ===== src/Options/ShownSettings.antt =====
-- The settings that `encode_parm_to_eterm` shows.
use quicer.Prelude.{
  ℕ, ◌≡◌, refl, Bool, true, false, Option, none, some, List, [], ◌∷◌, ltb, if◌then◌else◌,
}
use quicer.Nif.{Entry, flag, uint64}
use quicer.Nif.Atoms.{Atom}
use quicer.Config.Settings.{
  Setting, key_of, max_bytes_per_key, handshake_idle_timeout_ms, idle_timeout_ms,
  mtu_discovery_search_complete_timeout_us, tls_client_max_send_buffer, tls_server_max_send_buffer,
  stream_recv_window_default, stream_recv_buffer_default, conn_flow_control_window,
  max_worker_queue_delay_us, max_stateless_operations, initial_window_packets, send_idle_timeout_ms,
  initial_rtt_ms, max_ack_delay_ms, disconnect_timeout_ms, keep_alive_interval_ms,
  peer_bidi_stream_count, peer_unidi_stream_count, max_operations_per_drain, send_buffering_enabled,
  pacing_enabled, migration_enabled, datagram_receive_enabled, server_resumption_level, minimum_mtu,
  maximum_mtu, mtu_discovery_missing_probe_count, max_binding_stateless_operations,
  stateless_operation_expiration_ms,
}
use quicer.Options.Encode.{encode_settings, shown_settings, entry_of}
use quicer.Options.Names.{same}

-- The first entry of a key.
unfoldable pub entry_at : Atom → List (Atom × Entry) → Option Entry
unfolding same
entry_at a [] = none
entry_at a ((b, e) ∷ entries) = let rest = entry_at a entries in if same a b then some e else rest

-- Six of the settings that can be set are not shown.
abbrev pub is_shown : Setting → Bool
is_shown mtu_discovery_search_complete_timeout_us = false
is_shown minimum_mtu = false
is_shown maximum_mtu = false
is_shown mtu_discovery_missing_probe_count = false
is_shown max_binding_stateless_operations = false
is_shown stateless_operation_expiration_ms = false
is_shown _ = true

-- The settings that are switches.
abbrev pub is_switch : Setting → Bool
is_switch send_buffering_enabled = true
is_switch pacing_enabled = true
is_switch migration_enabled = true
is_switch datagram_receive_enabled = true
is_switch _ = false

-- A switch is shown as a boolean, that is true where the value is not 0; a number as itself.
abbrev pub shown_as : Setting → ℕ → Entry
shown_as f n = if is_switch f then flag (ltb 0 n) else uint64 n

pub entry_at-encode_settings :
    (values : Setting → ℕ) (f : Setting)
    → entry_at (key_of f) (encode_settings values shown_settings)
      ≡ (if is_shown f then some (shown_as f (values f)) else none)
unfolding entry_at key_of encode_settings shown_settings entry_of
entry_at-encode_settings values max_bytes_per_key = refl
entry_at-encode_settings values handshake_idle_timeout_ms = refl
entry_at-encode_settings values idle_timeout_ms = refl
entry_at-encode_settings values mtu_discovery_search_complete_timeout_us = refl
entry_at-encode_settings values tls_client_max_send_buffer = refl
entry_at-encode_settings values tls_server_max_send_buffer = refl
entry_at-encode_settings values stream_recv_window_default = refl
entry_at-encode_settings values stream_recv_buffer_default = refl
entry_at-encode_settings values conn_flow_control_window = refl
entry_at-encode_settings values max_worker_queue_delay_us = refl
entry_at-encode_settings values max_stateless_operations = refl
entry_at-encode_settings values initial_window_packets = refl
entry_at-encode_settings values send_idle_timeout_ms = refl
entry_at-encode_settings values initial_rtt_ms = refl
entry_at-encode_settings values max_ack_delay_ms = refl
entry_at-encode_settings values disconnect_timeout_ms = refl
entry_at-encode_settings values keep_alive_interval_ms = refl
entry_at-encode_settings values peer_bidi_stream_count = refl
entry_at-encode_settings values peer_unidi_stream_count = refl
entry_at-encode_settings values max_operations_per_drain = refl
entry_at-encode_settings values send_buffering_enabled = refl
entry_at-encode_settings values pacing_enabled = refl
entry_at-encode_settings values migration_enabled = refl
entry_at-encode_settings values datagram_receive_enabled = refl
entry_at-encode_settings values server_resumption_level = refl
entry_at-encode_settings values minimum_mtu = refl
entry_at-encode_settings values maximum_mtu = refl
entry_at-encode_settings values mtu_discovery_missing_probe_count = refl
entry_at-encode_settings values max_binding_stateless_operations = refl
entry_at-encode_settings values stateless_operation_expiration_ms = refl
