-- ===== src/Tls/Memory.antt =====
-- The memory of the certificates' names.
use quicer.Prelude.{
  ℕ, ◌+◌, ◌≡◌, Bool, Option, none, some, List, arith, tally, tally-append, if◌then◌else◌,
  Option-cases, inl, inr,
}
use quicer.Nif.{Nif}
use quicer.Nif.Atoms.{Atom}
use quicer.Options.{Host, TermType}
use quicer.Tls.{
  path_max, Credential, no_certificate, certificate_file, certificate_file_protected, Effect,
  alloc_string, free_string, alloc_file, free_file, Run, fault, done, after, and_then,
  parse_cert_options, str_from_map, string_of, read_string, with_file, with_password, with_entry,
  with_keyfile, with_certfile,
}
use quicer.Tls.Loading.{credential_of}

abbrev pub strings_up : Effect → ℕ
strings_up alloc_string = 1
strings_up _ = 0

abbrev pub strings_down : Effect → ℕ
strings_down free_string = 1
strings_down _ = 0

abbrev pub files_up : Effect → ℕ
files_up alloc_file = 1
files_up _ = 0

abbrev pub files_down : Effect → ℕ
files_down free_file = 1
files_down _ = 0

-- A run that starts with `before` pieces of memory of a kind, and ends, if it does, with as many as its
-- result tells.
abbrev pub Holds {ℓ} :
    {A : Type ℓ} → (up down : Effect → ℕ) → (before : ℕ) → (A → ℕ) → Run A → Type 0
Holds up down before after fault = Unit
Holds up down before after (done fx a) = before + tally up fx ≡ tally down fx + after a

-- A number that the result of a run decides.
abbrev pub decided : {A : Type 0} → Run A → (A → ℕ) → ℕ
decided fault k = 0
decided (done fx a) k = k a

after-Holds :
    {B : Type 0} (up down : Effect → ℕ) (before middle : ℕ) (end : B → ℕ) (fx : List Effect)
    (r : Run B)
    → before + tally up fx ≡ tally down fx + middle
    → Holds up down middle end r
    → Holds up down before end (after fx r)
unfolding after
after-Holds up down before middle end fx fault h k = tt
after-Holds up down before middle end fx (done gx b) h k =
    omega (arith, h, k, tally-append up fx gx, tally-append down fx gx)

and_then-Holds :
    {A B : Type 0} (up down : Effect → ℕ) (before : ℕ) (middle : A → ℕ) (lost : A → ℕ) (end : B → ℕ)
    (run : Run A) (next : A → Run B)
    → Holds up down before middle run
    → ((a : A) → Holds up down (middle a) (λ b. lost a + end b) (next a))
    → Holds up down before (λ b. decided run lost + end b) (and_then run next)
unfolding and_then
and_then-Holds up down before middle lost end fault next h n = tt
and_then-Holds up down before middle lost end (done fx a) next h n =
    after-Holds up down before (middle a) (λ b. lost a + end b) fx (next a) h (n a)

pub then-Holds :
    {A B : Type 0} (up down : Effect → ℕ) (before : ℕ) (middle : A → ℕ) (end : B → ℕ) (run : Run A)
    (next : A → Run B)
    → Holds up down before middle run
    → ((a : A) → Holds up down (middle a) end (next a))
    → Holds up down before end (and_then run next)
unfolding and_then
then-Holds up down before middle end fault next h n = tt
then-Holds up down before middle end (done fx a) next h n =
    after-Holds up down before (middle a) end fx (next a) h (n a)

abbrev is_some : {A : Type 0} → Option A → ℕ
is_some none = 0
is_some (some a) = 1

-- The strings and the structures that a credential has.
abbrev pub strings_of : Credential → ℕ
strings_of no_certificate = 0
strings_of (certificate_file certfile keyfile) = 2
strings_of (certificate_file_protected certfile keyfile password) = 3

abbrev pub files_of : Credential → ℕ
files_of no_certificate = 0
files_of (certificate_file certfile keyfile) = 1
files_of (certificate_file_protected certfile keyfile password) = 1

module _ {nif : Nif} (host : Host nif) where
  string_of-Holds :
      (before max_len : ℕ) (type : TermType) (t : Nif.Term nif) (len : Option ℕ)
      → Holds strings_up strings_down before
          (λ o. before + is_some o)
          (string_of host max_len type t len)
  unfolding string_of read_string
  string_of-Holds before max_len TermType.list t none = omega arith
  string_of-Holds before max_len TermType.list t (some len) = ground arith
  string_of-Holds before max_len TermType.integer t len = omega arith
  string_of-Holds before max_len TermType.other t len = omega arith

  str_from_map-Holds :
      (before : ℕ) (a : Atom) (options : Nif.Term nif) (max_len : ℕ)
      → Holds strings_up strings_down before
          (λ o. before + is_some o)
          (str_from_map host a options max_len)
  unfolding str_from_map
  str_from_map-Holds before a options max_len = elim (Option-cases (nif.get_map_value options a)) [
    | inl absent ↦ rw (absent, Holds) (omega arith)
    | inr (t, present) ↦
        rw (present, Holds)
          (string_of-Holds before max_len (host.term_type t) t (host.list_length t))
  ]

  module _ (allocated : Bool) where
    -- What is left over where the password cannot be read, or there is no memory for the structure.
    abbrev pub lost_password : Option (List ℕ) → ℕ
    lost_password none = 2
    lost_password (some password) = if allocated then 0 else 3

    abbrev pub lost_entry : (options : Nif.Term nif) → Option (Nif.Term nif) → ℕ
    lost_entry options none = if allocated then 0 else 2
    lost_entry options (some t) =
        decided (str_from_map host Atom.password options 256) lost_password

    abbrev pub lost_keyfile : (options : Nif.Term nif) → Option (List ℕ) → ℕ
    lost_keyfile options none = 1
    lost_keyfile options (some keyfile) =
        lost_entry options (nif.get_map_value options Atom.password)

    abbrev pub lost_certfile : (options : Nif.Term nif) → Option (List ℕ) → ℕ
    lost_certfile options none = 0
    lost_certfile options (some certfile) =
        decided (str_from_map host Atom.keyfile options (path_max + 1)) (lost_keyfile options)

    -- The strings that parse_cert_options leaves behind, by what could be read.
    abbrev pub lost_strings : (options : Nif.Term nif) → ℕ
    lost_strings options =
        decided (str_from_map host Atom.certfile options (path_max + 1)) (lost_certfile options)

    with_password-Holds :
        (certfile keyfile : List ℕ) (o : Option (List ℕ))
        → Holds strings_up strings_down
            (2 + is_some o)
            (λ c. lost_password o + strings_of (credential_of c))
            (with_password host allocated certfile keyfile o)
    unfolding with_password with_file
    with_password-Holds certfile keyfile none = omega arith
    with_password-Holds certfile keyfile (some password) = ground arith

    with_entry-Holds :
        (options : Nif.Term nif) (certfile keyfile : List ℕ) (o : Option (Nif.Term nif))
        → Holds strings_up strings_down 2
            (λ c. lost_entry options o + strings_of (credential_of c))
            (with_entry host allocated options certfile keyfile o)
    unfolding with_entry with_file
    with_entry-Holds options certfile keyfile none = ground arith
    with_entry-Holds options certfile keyfile (some t) =
        and_then-Holds strings_up strings_down 2 (λ o. 2 + is_some o) lost_password
          (λ c. strings_of (credential_of c)) (str_from_map host Atom.password options 256)
          (with_password host allocated certfile keyfile)
          (str_from_map-Holds 2 Atom.password options 256) (with_password-Holds certfile keyfile)

    with_keyfile-Holds :
        (options : Nif.Term nif) (certfile : List ℕ) (o : Option (List ℕ))
        → Holds strings_up strings_down
            (1 + is_some o)
            (λ c. lost_keyfile options o + strings_of (credential_of c))
            (with_keyfile host allocated options certfile o)
    unfolding with_keyfile
    with_keyfile-Holds options certfile none = omega arith
    with_keyfile-Holds options certfile (some keyfile) =
        with_entry-Holds options certfile keyfile (nif.get_map_value options Atom.password)

    with_certfile-Holds :
        (options : Nif.Term nif) (o : Option (List ℕ))
        → Holds strings_up strings_down
            (0 + is_some o)
            (λ c. lost_certfile options o + strings_of (credential_of c))
            (with_certfile host allocated options o)
    unfolding with_certfile
    with_certfile-Holds options none = omega arith
    with_certfile-Holds options (some certfile) =
        and_then-Holds strings_up strings_down 1 (λ o. 1 + is_some o) (lost_keyfile options)
          (λ c. strings_of (credential_of c))
          (str_from_map host Atom.keyfile options (path_max + 1))
          (with_keyfile host allocated options certfile)
          (str_from_map-Holds 1 Atom.keyfile options (path_max + 1))
          (with_keyfile-Holds options certfile)

    pub parse_cert_options-Holds :
        (options : Nif.Term nif)
        → Holds strings_up strings_down 0
            (λ c. lost_strings options + strings_of (credential_of c))
            (parse_cert_options host allocated options)
    unfolding parse_cert_options
    parse_cert_options-Holds options =
        and_then-Holds strings_up strings_down 0 (λ o. 0 + is_some o) (lost_certfile options)
          (λ c. strings_of (credential_of c))
          (str_from_map host Atom.certfile options (path_max + 1))
          (with_certfile host allocated options)
          (str_from_map-Holds 0 Atom.certfile options (path_max + 1)) (with_certfile-Holds options)
