-- ===== src/Tls/Loading.antt =====
-- ServerLoadConfiguration, ClientLoadConfiguration and ReloadCertConfig of c_src/quicer_config.c.
use quicer.Prelude.{Bool, false, Option, none, some, [], ◌∷◌, not, ◌&&◌, if◌then◌else◌}
use quicer.Nif.{Nif, Status, Value, atom, status}
use quicer.Nif.Atoms.{Atom}
use quicer.Config.Settings.{Settings, create_settings}
use quicer.Options.{Host}
use quicer.Tls.{
  Flags, Credential, no_certificate, open_configuration, load_credential, Run, fault, done,
  and_then, free_certificate, parse_cert_options, parse_verify_options,
}
use quicer.Tls.Alpn.{Loaded, overflow, refused, entries, load_alpn}

abbrev pub no_flags : Flags
no_flags = record {
  no_certificate_validation = false;
  require_client_authentication = false;
  indicate_certificate_received = false;
  use_tls_builtin_certificate_validation = false;
}

-- What MsQuic answers to `ConfigurationOpen` and to `ConfigurationLoadCredential`.
pub record Answers : Type 0 where
  pub opened : Status
  pub loaded : Status

-- Where FALSE was answered, the type is NONE.
abbrev pub credential_of : Option Credential → Credential
credential_of none = no_certificate
credential_of (some credential) = credential

module _ {nif : Nif} (host : Host nif) where
  unfoldable reload_cert_config : Answers → Flags → Run Bool
  reload_cert_config answers flags =
      done (load_credential flags ∷ []) (not (nif.failed answers.loaded))

  -- The common end of both functions.
  unfoldable pub open_and_load : Answers → Flags → Loaded → Run Value
  open_and_load answers flags overflow = fault
  open_and_load answers flags refused = done [] (atom Atom.alpn)
  open_and_load answers flags (entries lengths) =
      if nif.failed answers.opened
      then done (open_configuration lengths ∷ []) (status answers.opened)
      else done (open_configuration lengths ∷ load_credential flags ∷ [])
          (if nif.failed answers.loaded then status answers.loaded else atom Atom.ok)

  unfoldable pub with_settings : Option Settings → Run Value → Run Value
  with_settings none next = done [] (atom Atom.badarg)
  with_settings (some s) next = next

  -- `is_registered` is the flag of the library, and `is_global` tells whether the registration is its own.
  unfoldable server_load_configuration :
      (is_registered is_global : Bool) → Answers → (options : Nif.Term nif) → Flags → Run Value
  unfolding with_settings open_and_load load_alpn
  server_load_configuration is_registered is_global answers options flags =
      if not is_registered && is_global
      then done [] (atom Atom.reg_failed)
      else with_settings (create_settings nif host.store options)
          (open_and_load answers flags (load_alpn host options))

  -- Behind `done:`.
  unfoldable pub release_credential : Credential → Value → Run Value
  unfolding free_certificate
  release_credential credential v = done (free_certificate credential) v

  -- The certificate is optional: FALSE leaves the type NONE.
  unfoldable pub load_with : Answers → (options : Nif.Term nif) → Option Credential → Run Value
  unfolding and_then open_and_load parse_verify_options load_alpn release_credential
  load_with answers options credential =
      and_then
        (open_and_load answers (parse_verify_options host options false no_flags)
          (load_alpn host options))
        (release_credential (credential_of credential))

  unfoldable pub client_load_configuration :
      (is_registered is_global allocated : Bool) → Answers → (options : Nif.Term nif) → Run Value
  unfolding and_then with_settings parse_cert_options load_with
  client_load_configuration is_registered is_global allocated answers options =
      if not is_registered && is_global
      then done [] (atom Atom.reg_failed)
      else with_settings (create_settings nif host.store options)
          (and_then (parse_cert_options host allocated options) (load_with answers options))
