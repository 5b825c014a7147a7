-- ===== src/Tls/Files.antt =====
-- The structures for the certificates' files.
use quicer.Prelude.{ℕ, ◌+◌, Bool, Option, none, some, List, arith, Option-cases, inl, inr}
use quicer.Nif.{Nif}
use quicer.Nif.Atoms.{Atom}
use quicer.Options.{Host, TermType}
use quicer.Tls.{
  path_max, Credential, Run, parse_cert_options, str_from_map, string_of, read_string, with_file,
  with_password, with_entry, with_keyfile, with_certfile,
}
use quicer.Tls.Loading.{credential_of}
use quicer.Tls.Memory.{Holds, files_up, files_down, files_of, then-Holds}

module _ {nif : Nif} (host : Host nif) where
  module _ (allocated : Bool) where
    file_of-Holds :
        (max_len : ℕ) (type : TermType) (t : Nif.Term nif) (len : Option ℕ)
        → Holds files_up files_down 0 (λ o. 0) (string_of host max_len type t len)
    unfolding string_of read_string
    file_of-Holds max_len TermType.list t none = omega arith
    file_of-Holds max_len TermType.list t (some len) = ground arith
    file_of-Holds max_len TermType.integer t len = omega arith
    file_of-Holds max_len TermType.other t len = omega arith

    no_file :
        (a : Atom) (options : Nif.Term nif) (max_len : ℕ)
        → Holds files_up files_down 0 (λ o. 0) (str_from_map host a options max_len)
    unfolding str_from_map
    no_file a options max_len = elim (Option-cases (nif.get_map_value options a)) [
      | inl absent ↦ rw (absent, Holds) (omega arith)
      | inr (t, present) ↦
          rw (present, Holds) (file_of-Holds max_len (host.term_type t) t (host.list_length t))
    ]

    abbrev Files : Run (Option Credential) → Type 0
    Files run = Holds files_up files_down 0 (λ c. files_of (credential_of c)) run

    with_password-Files :
        (certfile keyfile : List ℕ) (o : Option (List ℕ))
        → Files (with_password host allocated certfile keyfile o)
    unfolding with_password with_file
    with_password-Files certfile keyfile none = omega arith
    with_password-Files certfile keyfile (some password) = ground arith

    with_entry-Files :
        (options : Nif.Term nif) (certfile keyfile : List ℕ) (o : Option (Nif.Term nif))
        → Files (with_entry host allocated options certfile keyfile o)
    unfolding with_entry with_file
    with_entry-Files options certfile keyfile none = ground arith
    with_entry-Files options certfile keyfile (some t) =
        then-Holds files_up files_down 0 (λ o. 0) _ (str_from_map host Atom.password options 256)
          (with_password host allocated certfile keyfile) (no_file Atom.password options 256)
          (with_password-Files certfile keyfile)

    with_keyfile-Files :
        (options : Nif.Term nif) (certfile : List ℕ) (o : Option (List ℕ))
        → Files (with_keyfile host allocated options certfile o)
    unfolding with_keyfile
    with_keyfile-Files options certfile none = omega arith
    with_keyfile-Files options certfile (some keyfile) = with_entry-Files options certfile keyfile _

    with_certfile-Files :
        (options : Nif.Term nif) (o : Option (List ℕ))
        → Files (with_certfile host allocated options o)
    unfolding with_certfile
    with_certfile-Files options none = omega arith
    with_certfile-Files options (some certfile) =
        then-Holds files_up files_down 0 (λ o. 0) _
          (str_from_map host Atom.keyfile options (path_max + 1))
          (with_keyfile host allocated options certfile)
          (no_file Atom.keyfile options (path_max + 1)) (with_keyfile-Files options certfile)

    pub parse_cert_options-Files :
        (options : Nif.Term nif) → Files (parse_cert_options host allocated options)
    unfolding parse_cert_options
    parse_cert_options-Files options =
        then-Holds files_up files_down 0 (λ o. 0) _
          (str_from_map host Atom.certfile options (path_max + 1))
          (with_certfile host allocated options) (no_file Atom.certfile options (path_max + 1))
          (with_certfile-Files options)
