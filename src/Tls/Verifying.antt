-- ===== src/Tls/Verifying.antt =====
-- Which certificates of a server a client accepts: load_verify of c_src/quicer_config.c,
-- parse_verify_options of c_src/quicer_tls.c, and the event of the peer's certificate of
-- c_src/quicer_connection.c, with MsQuic and OpenSSL between them.
use quicer.Prelude.{
  ℕ, ◌≡◌, Bool, true, false, not, ◌&&◌, ◌||◌, ◌⊎◌, inl, inr, refl, Option, none, some, arith, ltb,
  ◌==◌, if◌then◌else◌,
}
use quicer.Prelude.Int.{ℤ, pos, negsuc}
use quicer.Nif.{Nif, Status}
use quicer.Nif.Atoms.{Atom}
use quicer.Config.Read.{load_verify}
use quicer.Options.{Host}
use quicer.Connection.State.{ConnCtx, Run, fault, done}
use quicer.Connection.Security.{
  OpenSsl, is_refused, verdict, handle_connection_event_peer_certificate_received,
}
use quicer.Tls.{Flags, parse_verify_options}
use quicer.Tls.Loading.{no_flags}

-- Whether MsQuic goes on with a handshake, by the flags of the credential, its own validation of the
-- certificate, and the answer of the callback.
abbrev pub Decision : Type 0
Decision = Flags → (valid : Bool) → Status → Bool

-- MsQuic's documentation: a certificate that MsQuic does not find valid ends the handshake unless the
-- flags turn the validation off; and where the certificate is reported to the callback, so does an
-- answer that is a failure. Nothing else does.
pub record IsDocumented (nif : Nif) (goes_on : Decision) : Type 0 where
  pub reported :
      (flags : Flags) (valid : Bool) (st : Status)
      → flags.indicate_certificate_received ≡ true
      → goes_on flags valid st ≡ (flags.no_certificate_validation || valid) && not (nif.failed st)
  pub unreported :
      (flags : Flags) (valid : Bool) (st : Status)
      → flags.indicate_certificate_received ≡ false
      → goes_on flags valid st ≡ flags.no_certificate_validation || valid
  pub bad_certificate : nif.failed Status.bad_certificate ≡ true

-- `verify => peer` or `verify => verify_peer`
abbrev pub asks_for_peer : (nif : Nif) → (verify : Option (Nif.Term nif)) → Bool
asks_for_peer nif none = false
asks_for_peer nif (some t) = nif.is_same t Atom.peer || nif.is_same t Atom.verify_peer

abbrev pub is_given : {A : Type 0} → Option A → Bool
is_given none = false
is_given (some x) = true

-- There is a certificate, and OpenSSL verifies it against the store: a result above 0.
abbrev pub is_above_0 : ℤ → Bool
is_above_0 (pos n) = ltb 0 n
is_above_0 (negsuc n) = false

abbrev pub trusts : OpenSsl → (store cert chain : ℕ) → Bool
trusts ssl store cert chain = not (cert == 0) && is_above_0 (ssl.verify_cert store cert chain)

-- What the callback answers.
abbrev pub answer_of : Run Status → Status
answer_of fault = Status.success
answer_of (done c fx st) = st

verdict-trusts :
    (nif : Nif) (ssl : OpenSsl) (store cert chain : ℕ)
    → nif.failed Status.bad_certificate ≡ true
    → not (nif.failed (verdict ssl store cert chain)) ≡ trusts ssl store cert chain
unfolding verdict is_refused
verdict-trusts nif ssl store cert chain bad = elim (ℤ-cases (ssl.verify_cert store cert chain)) [
  | inl (n, e) ↦ ground (arith, bad, nif.failed_success, e)
  | inr (n, e) ↦ ground (arith, bad, nif.failed_success, e)
]
  where
    ℤ-cases : (z : ℤ) → ((n : ℕ) × (z ≡ pos n)) ⊎ ((n : ℕ) × (z ≡ negsuc n))
    ℤ-cases (pos n) = inl (n, refl)
    ℤ-cases (negsuc n) = inr (n, refl)

abbrev flags_for : (asks given : Bool) → Flags
flags_for false given = record no_flags { no_certificate_validation = true }
flags_for true false = record no_flags { use_tls_builtin_certificate_validation = true }
flags_for true true = record {
  no_certificate_validation = true;
  require_client_authentication = false;
  indicate_certificate_received = true;
  use_tls_builtin_certificate_validation = true;
}

module _ {nif : Nif} (host : Host nif) (ssl : OpenSsl) (goes_on : Decision)
    (documented : IsDocumented nif goes_on) where
  parse_verify_options-flags_for :
      (options : Nif.Term nif)
      → parse_verify_options host options false no_flags
        ≡ flags_for
            (asks_for_peer nif (nif.get_map_value options Atom.verify))
            (is_given (nif.get_map_value options Atom.cacertfile))
  unfolding parse_verify_options load_verify
  parse_verify_options-flags_for options = ground arith

  decided :
      (asks given valid : Bool) (st : Status)
      → goes_on (flags_for asks given) valid st
        ≡ (if asks then if given then not (nif.failed st) else valid else true)
  decided false given valid st = documented.unreported (flags_for false given) valid st refl
  decided true false valid st = documented.unreported (flags_for true false) valid st refl
  decided true true valid st = documented.reported (flags_for true true) valid st refl

  -- A client, whose flags parse_verify_options has set for its options, is shown a certificate by the
  -- server, and MsQuic does as documented with those flags and the callback's answer. The handshake
  -- goes on exactly if `verify` is none of `peer` and `verify_peer`; or there is a `cacertfile` and
  -- OpenSSL verifies the certificate against the store of the connection; or there is none and MsQuic
  -- itself finds the certificate valid.
  pub goes_on-parse_verify_options :
      (options : Nif.Term nif) (c : ConnCtx) (cert chain : ℕ) (valid : Bool)
      → goes_on
          (parse_verify_options host options false no_flags)
          valid
          (answer_of (handle_connection_event_peer_certificate_received ssl c cert chain))
        ≡ (if asks_for_peer nif (nif.get_map_value options Atom.verify)
            then if is_given (nif.get_map_value options Atom.cacertfile)
              then trusts ssl c.trusted cert chain
              else valid
            else true)
  unfolding handle_connection_event_peer_certificate_received
  goes_on-parse_verify_options options c cert chain valid =
      rw
        (
          parse_verify_options-flags_for options,
          decided (asks_for_peer nif (nif.get_map_value options Atom.verify))
              (is_given (nif.get_map_value options Atom.cacertfile)) valid
              (verdict ssl c.trusted cert chain),
          verdict-trusts nif ssl c.trusted cert chain documented.bad_certificate,
        )
        refl
