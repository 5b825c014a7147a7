-- ===== src/Connection/Security.antt =====
-- The certificate of the peer: handle_connection_event_peer_certificate_received and peercert1 of
-- c_src/quicer_connection.c. OpenSSL's verification is a parameter.
use quicer.Prelude.{ℕ, Bool, Option, none, some, List, [], ◌∷◌, ◌==◌, if◌then◌else◌}
use quicer.Prelude.Int.{ℤ, pos, negsuc}
use quicer.Nif.{Status, Reply, ok_with, error, atom, binary}
use quicer.Nif.Atoms.{Atom}
use quicer.Connection.State.{ConnCtx, free_cert, Run, done}

-- OpenSSL: `X509_dup` of a certificate, where NULL gives NULL; `X509_verify_cert` against a store,
-- with the untrusted certificates of a chain; and `i2d_X509`, where `none` is a length below 0.
pub record OpenSsl : Type 0 where
  pub dup : ℕ → ℕ
  pub verify_cert : (store cert chain : ℕ) → ℤ
  pub der : (cert : ℕ) → Option (List ℕ)

-- `res <= 0`
unfoldable pub is_refused : ℤ → Bool
is_refused (pos n) = n == 0
is_refused (negsuc n) = Bool.true

unfoldable pub verdict : OpenSsl → (store cert chain : ℕ) → Status
unfolding is_refused
verdict ssl store cert chain =
    if cert == 0
    then Status.bad_certificate
    else if is_refused (ssl.verify_cert store cert chain)
    then Status.bad_certificate
    else Status.success

-- The certificate is kept for `peercert1`, whatever the verdict is.
unfoldable pub handle_connection_event_peer_certificate_received :
    OpenSsl → ConnCtx → (cert chain : ℕ) → Run Status
unfolding verdict
handle_connection_event_peer_certificate_received ssl c cert chain =
    done (record c { peer_cert = ssl.dup cert })
      (if c.peer_cert == 0 then [] else free_cert c.peer_cert ∷ [])
      (verdict ssl c.trusted cert chain)

-- Behind the resource, which is a connection or a stream of one; `allocated` tells whether there is
-- memory for the binary.
unfoldable pub peercert1 : OpenSsl → (allocated : Bool) → Option ConnCtx → Reply
peercert1 ssl allocated none = error (atom Atom.badarg)
peercert1 ssl allocated (some c) =
    if c.peer_cert == 0 then error (atom Atom.no_peercert) else elim (ssl.der c.peer_cert) [
      | none ↦ error (atom Atom.internal_error)
      | some der ↦ if allocated then ok_with (binary der) else error (atom Atom.not_enough_memory)
    ]
