-- ===== src/Nif/Statuses.antt =====
-- atom_status of c_src/quicer_nif.c: how a status code is shown. The replies of the model carry the status
-- itself.
use quicer.Prelude.{ℕ, ◌-◌, ◌≡◌, refl, sym, ap, ◌∙◌, Bool, Option, none, some, ◌==◌, if◌then◌else◌}
use quicer.Nif.{Status, Value, atom, unknown_tls, unknown_status, coded}
use quicer.Nif.Atoms.{Atom}

-- The numbers of MsQuic and OpenSSL: whether a code has the bits of `TLS_ERROR_BASE`, that number, and the
-- alerts that the switch names.
pub record Alerts : Type 0 where
  pub is_tls : ℕ → Bool
  pub tls_error_base : ℕ
  pub unknown_ca : ℕ
  pub certificate_required : ℕ
  pub certificate_unobtainable : ℕ
  pub unrecognized_name : ℕ
  pub bad_certificate_status_response : ℕ
  pub bad_certificate_hash_value : ℕ

unfoldable pub tls_status : Alerts → (tlserror : ℕ) → Value
tls_status alerts tlserror =
    if tlserror == alerts.unknown_ca
    then atom Atom.cert_untrusted_root
    else if tlserror == alerts.certificate_required
    then atom Atom.cert_required
    else if tlserror == alerts.certificate_unobtainable
    then atom Atom.cert_unobtainable
    else if tlserror == alerts.unrecognized_name
    then atom Atom.bad_certificate
    else if tlserror == alerts.bad_certificate_status_response
    then atom Atom.bad_certificate
    else if tlserror == alerts.bad_certificate_hash_value
    then atom Atom.bad_certificate
    else unknown_tls tlserror

unfoldable pub atom_status : Alerts → Status → Value
unfolding tls_status
atom_status alerts Status.success = atom Atom.success
atom_status alerts Status.pending = atom Atom.pending
atom_status alerts Status.continue = atom Atom.continue
atom_status alerts Status.out_of_memory = atom Atom.out_of_memory
atom_status alerts Status.invalid_parameter = atom Atom.invalid_parameter
atom_status alerts Status.invalid_state = atom Atom.invalid_state
atom_status alerts Status.not_supported = atom Atom.not_supported
atom_status alerts Status.not_found = atom Atom.not_found
atom_status alerts Status.buffer_too_small = atom Atom.buffer_too_small
atom_status alerts Status.handshake_failure = atom Atom.handshake_failure
atom_status alerts Status.aborted = atom Atom.aborted
atom_status alerts Status.address_in_use = atom Atom.address_in_use
atom_status alerts Status.connection_timeout = atom Atom.connection_timeout
atom_status alerts Status.connection_idle = atom Atom.connection_idle
atom_status alerts Status.internal_error = atom Atom.internal_error
atom_status alerts Status.connection_refused = atom Atom.connection_refused
atom_status alerts Status.protocol_error = atom Atom.protocol_error
atom_status alerts Status.ver_neg_error = atom Atom.ver_neg_error
atom_status alerts Status.unreachable = atom Atom.unreachable
atom_status alerts Status.tls_error = atom Atom.tls_error
atom_status alerts Status.bad_certificate = atom Atom.bad_certificate
atom_status alerts Status.user_canceled = atom Atom.user_canceled
atom_status alerts Status.alpn_neg_failure = atom Atom.alpn_neg_failure
atom_status alerts Status.stream_limit_reached = atom Atom.stream_limit_reached
atom_status alerts Status.cert_expired = atom Atom.cert_expired
atom_status alerts Status.cert_untrusted_root = atom Atom.cert_untrusted_root
atom_status alerts (coded n) =
    if alerts.is_tls n
    then tls_status alerts (n - alerts.tls_error_base)
    else unknown_status (coded n)

-- The named status that an atom shows.
abbrev status_of : Value → Option Status
status_of (atom Atom.success) = some Status.success
status_of (atom Atom.pending) = some Status.pending
status_of (atom Atom.continue) = some Status.continue
status_of (atom Atom.out_of_memory) = some Status.out_of_memory
status_of (atom Atom.invalid_parameter) = some Status.invalid_parameter
status_of (atom Atom.invalid_state) = some Status.invalid_state
status_of (atom Atom.not_supported) = some Status.not_supported
status_of (atom Atom.not_found) = some Status.not_found
status_of (atom Atom.buffer_too_small) = some Status.buffer_too_small
status_of (atom Atom.handshake_failure) = some Status.handshake_failure
status_of (atom Atom.aborted) = some Status.aborted
status_of (atom Atom.address_in_use) = some Status.address_in_use
status_of (atom Atom.connection_timeout) = some Status.connection_timeout
status_of (atom Atom.connection_idle) = some Status.connection_idle
status_of (atom Atom.internal_error) = some Status.internal_error
status_of (atom Atom.connection_refused) = some Status.connection_refused
status_of (atom Atom.protocol_error) = some Status.protocol_error
status_of (atom Atom.ver_neg_error) = some Status.ver_neg_error
status_of (atom Atom.unreachable) = some Status.unreachable
status_of (atom Atom.tls_error) = some Status.tls_error
status_of (atom Atom.bad_certificate) = some Status.bad_certificate
status_of (atom Atom.user_canceled) = some Status.user_canceled
status_of (atom Atom.alpn_neg_failure) = some Status.alpn_neg_failure
status_of (atom Atom.stream_limit_reached) = some Status.stream_limit_reached
status_of (atom Atom.cert_expired) = some Status.cert_expired
status_of (atom Atom.cert_untrusted_root) = some Status.cert_untrusted_root
status_of _ = none

-- A status with a number of its own.
abbrev IsNamed : Status → Type 0
IsNamed (coded n) = ⊥
IsNamed _ = Unit

status_of-atom_status :
    (alerts : Alerts) (s : Status) → IsNamed s → status_of (atom_status alerts s) ≡ some s
unfolding atom_status
status_of-atom_status alerts Status.success n = refl
status_of-atom_status alerts Status.pending n = refl
status_of-atom_status alerts Status.continue n = refl
status_of-atom_status alerts Status.out_of_memory n = refl
status_of-atom_status alerts Status.invalid_parameter n = refl
status_of-atom_status alerts Status.invalid_state n = refl
status_of-atom_status alerts Status.not_supported n = refl
status_of-atom_status alerts Status.not_found n = refl
status_of-atom_status alerts Status.buffer_too_small n = refl
status_of-atom_status alerts Status.handshake_failure n = refl
status_of-atom_status alerts Status.aborted n = refl
status_of-atom_status alerts Status.address_in_use n = refl
status_of-atom_status alerts Status.connection_timeout n = refl
status_of-atom_status alerts Status.connection_idle n = refl
status_of-atom_status alerts Status.internal_error n = refl
status_of-atom_status alerts Status.connection_refused n = refl
status_of-atom_status alerts Status.protocol_error n = refl
status_of-atom_status alerts Status.ver_neg_error n = refl
status_of-atom_status alerts Status.unreachable n = refl
status_of-atom_status alerts Status.tls_error n = refl
status_of-atom_status alerts Status.bad_certificate n = refl
status_of-atom_status alerts Status.user_canceled n = refl
status_of-atom_status alerts Status.alpn_neg_failure n = refl
status_of-atom_status alerts Status.stream_limit_reached n = refl
status_of-atom_status alerts Status.cert_expired n = refl
status_of-atom_status alerts Status.cert_untrusted_root n = refl
status_of-atom_status alerts (coded k) n = absurd n

-- Two named codes are shown by the same term only if they are the same code.
atom_status-injective :
    (alerts : Alerts) (s t : Status)
    → IsNamed s
    → IsNamed t
    → atom_status alerts s ≡ atom_status alerts t
    → s ≡ t
atom_status-injective alerts s t m n e =
    let same : some s ≡ some t =
      sym (status_of-atom_status alerts s m) ∙ ap status_of e ∙ status_of-atom_status alerts t n in
    cc same
