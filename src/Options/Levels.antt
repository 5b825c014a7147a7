-- ===== src/Options/Levels.antt =====
-- The options of a configuration and of TLS in c_src/quicer_config.c: get_config_opt, set_config_opt,
-- get_tls_opt, set_tls_opt, get_level_param and set_level_param.
use quicer.Prelude.{ℕ, Bool, Option, none, some, List, [], ◌∷◌, ◌==◌, if◌then◌else◌}
use quicer.Nif.{Nif, ok_with, error, atom, status, props, Entry, uint64, name}
use quicer.Nif.Atoms.{Atom}
use quicer.Config.Settings.{Settings, create_settings}
use quicer.Options.{
  Param, configuration_settings, tls_handshake_info, tls_negotiated_alpn, config, tls,
  quic_settings, quic_handshake_info, Buffer, Host, Effect, Run, write, HandshakeInfo, get_param,
  fault, done, CipherAlgorithm, HashAlgorithm, CipherSuite,
}
use quicer.Options.Encode.{read}

unfoldable pub atom_proto_vsn : Bool → Atom
atom_proto_vsn is_tls_1_3 = if is_tls_1_3 then Atom.tlsv1_3 else Atom.none

unfoldable pub atom_cipher_algorithm : CipherAlgorithm → Atom
atom_cipher_algorithm CipherAlgorithm.cipher_none = Atom.none
atom_cipher_algorithm CipherAlgorithm.aes_128 = Atom.aes_128
atom_cipher_algorithm CipherAlgorithm.aes_256 = Atom.aes_256
atom_cipher_algorithm CipherAlgorithm.chacha20 = Atom.chacha20
atom_cipher_algorithm CipherAlgorithm.other_cipher = Atom.undefined

unfoldable pub atom_hash_algorithm : HashAlgorithm → Atom
atom_hash_algorithm HashAlgorithm.hash_none = Atom.none
atom_hash_algorithm HashAlgorithm.sha_256 = Atom.sha_256
atom_hash_algorithm HashAlgorithm.sha_384 = Atom.sha_384
atom_hash_algorithm HashAlgorithm.other_hash = Atom.undefined

unfoldable pub atom_key_exchange_algorithm : Bool → Atom
atom_key_exchange_algorithm no_key_exchange = if no_key_exchange then Atom.none else Atom.undefined

unfoldable pub atom_cipher_suite : CipherSuite → Atom
atom_cipher_suite CipherSuite.aes_128_gcm_sha256 = Atom.aes_128_gcm_sha256
atom_cipher_suite CipherSuite.aes_256_gcm_sha384 = Atom.aes_256_gcm_sha384
atom_cipher_suite CipherSuite.chacha20_poly1305_sha256 = Atom.chacha20_poly1305_sha256
atom_cipher_suite CipherSuite.other_suite = Atom.undefined

-- The map of 8 entries that `get_tls_opt` makes; its keys differ, so that it can be made.
unfoldable pub show_handshake_info : HandshakeInfo → List (Atom × Entry)
unfolding atom_proto_vsn atom_cipher_algorithm atom_hash_algorithm atom_key_exchange_algorithm
    atom_cipher_suite
show_handshake_info info =
    (Atom.tls_protocol_version, name (atom_proto_vsn info.is_tls_1_3))
    ∷ (Atom.cipher_algorithm, name (atom_cipher_algorithm info.cipher_algorithm))
    ∷ (Atom.cipher_strength, uint64 info.cipher_strength)
    ∷ (Atom.hash_algorithm, name (atom_hash_algorithm info.hash))
    ∷ (Atom.hash_strength, uint64 info.hash_strength)
    ∷ (Atom.key_exchange_algorithm, name (atom_key_exchange_algorithm info.no_key_exchange))
    ∷ (Atom.key_exchange_strength, uint64 info.key_exchange_strength)
    ∷ (Atom.cipher_suite, name (atom_cipher_suite info.cipher_suite))
    ∷ []

module _ {nif : Nif} (host : Host nif) where
  -- An assertion wants the length that was given.
  unfoldable pub get_handshake_info : (handle : ℕ) → Run
  unfolding show_handshake_info
  get_handshake_info handle =
      let size = host.sizeof quic_handshake_info in
      let a = host.get_param handle tls_handshake_info size in
      let fx : List Effect = get_param handle tls_handshake_info size ∷ [] in
      if nif.failed a.answer
      then done fx (error (status a.answer))
      else if a.buffer_length == size
      then done fx (ok_with (props (show_handshake_info a.contents.handshake_info)))
      else fault

  unfoldable pub get_tls_opt : (handle : ℕ) → (optname : Nif.Term nif) → Run
  unfolding get_handshake_info read
  get_tls_opt handle optname =
      if nif.is_same optname Atom.param_tls_handshake_info
      then get_handshake_info handle
      else if nif.is_same optname Atom.param_tls_negotiated_alpn
      then read host tls handle tls_negotiated_alpn 255
      else done [] (error (atom Atom.param_error))

  unfoldable pub set_tls_opt : Run
  set_tls_opt = done [] (error (atom Atom.not_supported))

  unfoldable pub get_config_opt : (handle : ℕ) → (optname : Nif.Term nif) → Run
  unfolding read
  get_config_opt handle optname =
      if nif.is_same optname Atom.param_configuration_settings
      then read host config handle configuration_settings (host.sizeof quic_settings)
      else done [] (error (atom Atom.param_error))

  -- Both setters of settings, for the handle and the parameter.
  unfoldable pub write_settings : (handle : ℕ) → Param → Option Settings → Run
  unfolding write
  write_settings handle param none = done [] (error (atom Atom.badarg))
  write_settings handle param (some values) =
      write host handle param (host.sizeof quic_settings) (Buffer.settings values)

  unfoldable pub set_config_opt : (handle : ℕ) → (optname optval : Nif.Term nif) → Run
  unfolding write_settings
  set_config_opt handle optname optval =
      if nif.is_same optname Atom.param_configuration_settings
      then write_settings handle configuration_settings (create_settings nif host.store optval)
      else done [] (error (atom Atom.param_error))

  -- The second test of the code overrides the first, which has made its call by then; no term is
  -- both atoms.
  unfoldable pub get_level_param : (handle config_handle : ℕ) → (eopt level : Nif.Term nif) → Run
  unfolding get_tls_opt get_config_opt
  get_level_param handle config_handle eopt level =
      if nif.is_same level Atom.quic_tls
      then get_tls_opt handle eopt
      else if nif.is_same level Atom.quic_configuration
      then get_config_opt config_handle eopt
      else done [] (error (atom Atom.not_found))

  unfoldable pub set_level_param :
      (handle config_handle : ℕ) → (eopt eval level : Nif.Term nif) → Run
  unfolding set_tls_opt set_config_opt
  set_level_param handle config_handle eopt eval level =
      if nif.is_same level Atom.quic_tls
      then set_tls_opt
      else if nif.is_same level Atom.quic_configuration
      then set_config_opt config_handle eopt eval
      else done [] (error (atom Atom.not_found))

  -- The level of an option of a listener, a connection or a stream: its config resource is read
  -- through its pointer.
  unfoldable pub get_at_level :
      (handle : ℕ) → (config_resource : Option ℕ) → (eopt level : Nif.Term nif) → Run
  unfolding get_level_param
  get_at_level handle none eopt level = fault
  get_at_level handle (some configuration) eopt level =
      get_level_param handle configuration eopt level

  unfoldable pub set_at_level :
      (handle : ℕ) → (config_resource : Option ℕ) → (eopt eval level : Nif.Term nif) → Run
  unfolding set_level_param
  set_at_level handle none eopt eval level = fault
  set_at_level handle (some configuration) eopt eval level =
      set_level_param handle configuration eopt eval level
