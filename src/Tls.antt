-- ===== src/Tls.antt =====
-- The options that name certificates, and their memory: parse_cert_options, parse_verify_options,
-- parse_cacertfile_option, build_trustedstore and free_certificate of c_src/quicer_tls.c, and
-- str_from_map of c_src/quicer_config.c.
pub mod Loading
pub mod Memory
pub mod Files
pub mod Clients
pub mod Verifying
pub mod Alpn
use quicer.Prelude.{
  ℕ, ◌+◌, Bool, true, false, Option, none, some, List, [], ◌∷◌, ◌++◌, ltb, not, if◌then◌else◌,
}
use quicer.Nif.{Nif}
use quicer.Nif.Atoms.{Atom}
use quicer.Config.Read.{load_verify}
use quicer.Options.{Host, TermType}
use quicer.Options.Writing.{is_nonzero}

-- `QUIC_CREDENTIAL_CONFIG.Flags`, those that the code sets.
pub record Flags : Type 0 where
  pub no_certificate_validation : Bool
  pub require_client_authentication : Bool
  pub indicate_certificate_received : Bool
  pub use_tls_builtin_certificate_validation : Bool

-- What is allocated and freed: strings, the structures for certificate files, and OpenSSL's stores; and
-- what is asked of MsQuic.
pub data Effect : Type 0 where
  alloc_string free_string alloc_file free_file new_store free_store : Effect
  open_configuration : (lengths : List ℕ) → Effect
  load_credential : Flags → Effect

-- `fault`: memory is reached through NULL, or outside of an array.
pub data Run {ℓ} (A : Type ℓ) : Type ℓ where
  fault : Run A
  done : List Effect → A → Run A

unfoldable pub after {ℓ} : {A : Type ℓ} → List Effect → Run A → Run A
after fx fault = fault
after fx (done gx a) = done (fx ++ gx) a

unfoldable pub and_then {ℓ ℓ'} : {A : Type ℓ} {B : Type ℓ'} → Run A → (A → Run B) → Run B
unfolding after
and_then fault next = fault
and_then (done fx a) next = after fx (next a)

-- `PATH_MAX`
abbrev pub path_max : ℕ
path_max = 4096

-- The part of `QUIC_CREDENTIAL_CONFIG` that names files, by its type.
pub data Credential : Type 0 where
  no_certificate : Credential
  certificate_file : (certfile keyfile : List ℕ) → Credential
  certificate_file_protected : (certfile keyfile password : List ℕ) → Credential

-- `free_certificate`
unfoldable pub free_certificate : Credential → List Effect
free_certificate no_certificate = []
free_certificate (certificate_file certfile keyfile) = free_string ∷ free_string ∷ free_file ∷ []
free_certificate (certificate_file_protected certfile keyfile password) =
    free_string ∷ free_string ∷ free_string ∷ free_file ∷ []

module _ {nif : Nif} (host : Host nif) where
  -- Behind the checks of `str_from_map`, where no buffer was given: the memory for the string is not
  -- checked, and is given back where the term is no string. A string that was cut is taken as well.
  unfoldable pub read_string : (max_len : ℕ) → Nif.Term nif → Run (Option (List ℕ))
  unfolding is_nonzero
  read_string max_len t =
      let s = host.get_string t (max_len + 1) in
      if not (host.has_memory (max_len + 1))
      then fault
      else if is_nonzero s.0
      then done (alloc_string ∷ []) (some s.1)
      else done (alloc_string ∷ free_string ∷ []) none

  unfoldable pub string_of :
      (max_len : ℕ) → TermType → Nif.Term nif → Option ℕ → Run (Option (List ℕ))
  unfolding read_string
  string_of max_len TermType.list t none = done [] none
  string_of max_len TermType.list t (some len) =
      if ltb max_len len then done [] none else read_string max_len t
  string_of max_len _ t len = done [] none

  unfoldable pub str_from_map : Atom → (map : Nif.Term nif) → (max_len : ℕ) → Run (Option (List ℕ))
  unfolding string_of
  str_from_map entry map max_len = elim (nif.get_map_value map entry) [
    | none ↦ done [] none
    | some t ↦ string_of max_len (host.term_type t) t (host.list_length t)
  ]

  -- `allocated` tells whether there is memory for the structure.
  unfoldable pub with_file : (allocated : Bool) → Credential → Run (Option Credential)
  with_file allocated credential =
      if allocated then done (alloc_file ∷ []) (some credential) else done [] none

  unfoldable pub with_password :
      (allocated : Bool) → (certfile keyfile : List ℕ) → Option (List ℕ) → Run (Option Credential)
  unfolding with_file
  with_password allocated certfile keyfile none = done [] none
  with_password allocated certfile keyfile (some password) =
      with_file allocated (certificate_file_protected certfile keyfile password)

  -- By the entry of the password, if there is one.
  unfoldable pub with_entry :
      (allocated : Bool)
      → (options : Nif.Term nif) → (certfile keyfile : List ℕ) → Option (Nif.Term nif)
      → Run (Option Credential)
  unfolding and_then with_password with_file str_from_map
  with_entry allocated options certfile keyfile none =
      with_file allocated (certificate_file certfile keyfile)
  with_entry allocated options certfile keyfile (some t) =
      and_then (str_from_map Atom.password options 256) (with_password allocated certfile keyfile)

  unfoldable pub with_keyfile :
      (allocated : Bool)
      → (options : Nif.Term nif) → (certfile : List ℕ) → Option (List ℕ)
      → Run (Option Credential)
  unfolding with_entry
  with_keyfile allocated options certfile none = done [] none
  with_keyfile allocated options certfile (some keyfile) =
      with_entry allocated options certfile keyfile (nif.get_map_value options Atom.password)

  unfoldable pub with_certfile :
      (allocated : Bool) → (options : Nif.Term nif) → Option (List ℕ) → Run (Option Credential)
  unfolding and_then with_keyfile str_from_map
  with_certfile allocated options none = done [] none
  with_certfile allocated options (some certfile) =
      and_then (str_from_map Atom.keyfile options (path_max + 1))
        (with_keyfile allocated options certfile)

  -- `none` is FALSE.
  unfoldable pub parse_cert_options :
      (allocated : Bool) → (options : Nif.Term nif) → Run (Option Credential)
  unfolding and_then with_certfile str_from_map
  parse_cert_options allocated options =
      and_then (str_from_map Atom.certfile options (path_max + 1)) (with_certfile allocated options)

  unfoldable pub has_entry : Option (Nif.Term nif) → Bool
  has_entry none = false
  has_entry (some t) = true

  -- The flags afterwards; the function always answers TRUE.
  unfoldable pub parse_verify_options :
      (options : Nif.Term nif) → (is_server : Bool) → Flags → Flags
  unfolding load_verify has_entry
  parse_verify_options options is_server flags =
      if not (load_verify nif options false)
      then record flags { no_certificate_validation = true }
      else if is_server
      then record flags { require_client_authentication = true }
      else if has_entry (nif.get_map_value options Atom.cacertfile)
      then record flags {
        no_certificate_validation = true;
        indicate_certificate_received = true;
        use_tls_builtin_certificate_validation = true;
      }
      else record flags { use_tls_builtin_certificate_validation = true }

  -- Where the entry is there: a string, or FALSE. `none` is FALSE, `some none` a NULL.
  unfoldable pub cacertfile_of : Option (List ℕ) → Run (Option (Option (List ℕ)))
  cacertfile_of none = done [] none
  cacertfile_of (some file) = done [] (some (some file))

  unfoldable pub parse_cacertfile_option : (options : Nif.Term nif) → Run (Option (Option (List ℕ)))
  unfolding and_then cacertfile_of str_from_map has_entry
  parse_cacertfile_option options =
      if not (nif.is_map options)
      then done [] none
      else if has_entry (nif.get_map_value options Atom.cacertfile)
      then and_then (str_from_map Atom.cacertfile options (path_max + 1)) cacertfile_of
      else done [] (some none)

-- What OpenSSL answers: a store or NULL, the lookup or NULL, and whether the file could be loaded.
unfoldable pub build_trustedstore :
    Option (List ℕ) → (store lookup : Bool) → (loads : List ℕ → Bool) → Run Bool
build_trustedstore none store lookup loads = done [] false
build_trustedstore (some cacertfile) store lookup loads =
    if not store
    then done [] false
    else if not lookup
    then done (new_store ∷ free_store ∷ []) false
    else if not (loads cacertfile)
    then done (new_store ∷ free_store ∷ []) false
    else done (new_store ∷ []) true
