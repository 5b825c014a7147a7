-- ===== src/Tls/Clients.antt =====
-- The memory of ClientLoadConfiguration of c_src/quicer_config.c.
use quicer.Prelude.{
  ℕ, ◌+◌, ◌≡◌, refl, subst, Bool, false, Option, none, some, List, [], arith, tally, not, ◌&&◌,
  if◌then◌else◌, Bool-cases, inl, inr,
}
use quicer.Nif.{Nif, Value, atom}
use quicer.Nif.Atoms.{Atom}
use quicer.Config.Settings.{Settings, create_settings}
use quicer.Options.{Host}
use quicer.Tls.{
  Flags, Credential, no_certificate, certificate_file, certificate_file_protected, Effect, Run,
  done, and_then, free_certificate, parse_cert_options, parse_verify_options,
}
use quicer.Tls.Alpn.{Loaded, overflow, refused, entries, load_alpn}
use quicer.Tls.Loading.{
  Answers, no_flags, open_and_load, with_settings, credential_of, release_credential, load_with,
  client_load_configuration,
}
use quicer.Tls.Files.{parse_cert_options-Files}
use quicer.Tls.Memory.{
  Holds, strings_up, strings_down, files_up, files_down, strings_of, files_of, lost_strings,
  then-Holds, parse_cert_options-Holds,
}

module _ {nif : Nif} (host : Host nif) (answers : Answers) where
  open_and_load-Holds :
      (up down : Effect → ℕ) (n : ℕ) (flags : Flags) (loaded : Loaded)
      → ((lengths : List ℕ)
          → (up (Effect.open_configuration lengths) ≡ 0)
            × (down (Effect.open_configuration lengths) ≡ 0))
      → (up (Effect.load_credential flags) ≡ 0) × (down (Effect.load_credential flags) ≡ 0)
      → Holds up down n (λ v. n) (open_and_load host answers flags loaded)
  unfolding open_and_load
  open_and_load-Holds up down n flags overflow opens loads = tt
  open_and_load-Holds up down n flags refused opens loads = omega arith
  open_and_load-Holds up down n flags (entries lengths) opens loads =
      ground (arith, opens lengths, loads)

  release_credential-Holds :
      (n : ℕ) (credential : Credential) (v : Value)
      → Holds strings_up strings_down
          (n + strings_of credential)
          (λ v. n)
          (release_credential host credential v)
  unfolding release_credential free_certificate
  release_credential-Holds n no_certificate v = omega arith
  release_credential-Holds n (certificate_file c k) v = omega arith
  release_credential-Holds n (certificate_file_protected c k p) v = omega arith

  release_credential-Files :
      (credential : Credential) (v : Value)
      → Holds files_up files_down
          (files_of credential)
          (λ v. 0)
          (release_credential host credential v)
  unfolding release_credential free_certificate
  release_credential-Files no_certificate v = omega arith
  release_credential-Files (certificate_file c k) v = omega arith
  release_credential-Files (certificate_file_protected c k p) v = omega arith

  load_with-Holds :
      (n : ℕ) (options : Nif.Term nif) (c : Option Credential)
      → Holds strings_up strings_down
          (n + strings_of (credential_of c))
          (λ v. n)
          (load_with host answers options c)
  unfolding load_with
  load_with-Holds n options c =
      let held = n + strings_of (credential_of c) in
      let flags = parse_verify_options host options false no_flags in
      then-Holds strings_up strings_down held (λ v. held) (λ v. n)
        (open_and_load host answers flags (load_alpn host options))
        (release_credential host (credential_of c))
        (open_and_load-Holds strings_up strings_down held flags (load_alpn host options)
          (λ lengths. (refl, refl)) (refl, refl))
        (release_credential-Holds n (credential_of c))

  load_with-Files :
      (options : Nif.Term nif) (c : Option Credential)
      → Holds files_up files_down
          (files_of (credential_of c))
          (λ v. 0)
          (load_with host answers options c)
  unfolding load_with
  load_with-Files options c =
      let held = files_of (credential_of c) in
      let flags = parse_verify_options host options false no_flags in
      then-Holds files_up files_down held (λ v. held) (λ v. 0)
        (open_and_load host answers flags (load_alpn host options))
        (release_credential host (credential_of c))
        (open_and_load-Holds files_up files_down held flags (load_alpn host options)
          (λ lengths. (refl, refl)) (refl, refl))
        (release_credential-Files (credential_of c))

  -- Nothing is read before the library is registered and the options are a map.
  abbrev pub lost_by_client :
      (is_registered is_global allocated : Bool) → (options : Nif.Term nif) → Option Settings → ℕ
  lost_by_client is_registered is_global allocated options none = 0
  lost_by_client is_registered is_global allocated options (some s) =
      if not is_registered && is_global then 0 else lost_strings host allocated options

  load_parsed-Holds :
      (allocated : Bool) (options : Nif.Term nif)
      → Holds strings_up strings_down 0
          (λ v. lost_strings host allocated options)
          (and_then (parse_cert_options host allocated options) (load_with host answers options))
  load_parsed-Holds allocated options =
      let lost = lost_strings host allocated options in
      then-Holds strings_up strings_down 0 (λ c. lost + strings_of (credential_of c)) (λ v. lost)
        (parse_cert_options host allocated options) (load_with host answers options)
        (parse_cert_options-Holds host allocated options) (load_with-Holds lost options)

  load_parsed-Files :
      (allocated : Bool) (options : Nif.Term nif)
      → Holds files_up files_down 0
          (λ v. 0)
          (and_then (parse_cert_options host allocated options) (load_with host answers options))
  load_parsed-Files allocated options =
      then-Holds files_up files_down 0 (λ c. files_of (credential_of c)) (λ v. 0)
        (parse_cert_options host allocated options) (load_with host answers options)
        (parse_cert_options-Files host allocated options) (load_with-Files options)

  client-Holds :
      (is_registered is_global allocated : Bool) (options : Nif.Term nif) (o : Option Settings)
      → let run : Run Value =
          (if not is_registered && is_global
            then done [] (atom Atom.reg_failed)
            else with_settings host o (
                and_then
                  (parse_cert_options host allocated options)
                  (load_with host answers options))) in
        Holds strings_up strings_down 0
          (λ v. lost_by_client is_registered is_global allocated options o)
          run
        × Holds files_up files_down 0 (λ v. 0) run
  unfolding with_settings
  client-Holds is_registered is_global allocated options none = ground arith
  client-Holds is_registered is_global allocated options (some s) =
      elim (Bool-cases (not is_registered && is_global)) [
        | inl out ↦ rw (out) (omega arith, omega arith)
        | inr on ↦
            rw (on) (load_parsed-Holds allocated options, load_parsed-Files allocated options)
      ]

  -- Where ClientLoadConfiguration returns, it has freed every structure for a certificate's files, and
  -- every string but those that parse_cert_options leaves behind where an option after them cannot be read or
  -- there is no memory for the structure: one for an unreadable keyfile, two for an unreadable password.
  pub client_load_configuration-strings :
      (is_registered is_global allocated : Bool) (options : Nif.Term nif) (fx : List Effect)
      (v : Value)
      → client_load_configuration host is_registered is_global allocated answers options ≡ done fx v
      → (tally strings_up fx
          ≡ tally strings_down fx
            + lost_by_client is_registered is_global allocated options
                (create_settings nif host.store options))
        × (tally files_up fx ≡ tally files_down fx)
  unfolding client_load_configuration
  client_load_configuration-strings is_registered is_global allocated options fx v e =
      let (strings, files) =
        client-Holds is_registered is_global allocated options
          (create_settings nif host.store options) in
      let lost =
        lost_by_client is_registered is_global allocated options
          (create_settings nif host.store options) in
      let strings_done : Holds strings_up strings_down 0 (λ v. lost) (done fx v) =
        subst (Holds strings_up strings_down 0 (λ v. lost)) e strings in
      let files_done : Holds files_up files_down 0 (λ v. 0) (done fx v) =
        subst (Holds files_up files_down 0 (λ v. 0)) e files in
      (omega (arith, strings_done), omega (arith, files_done))
