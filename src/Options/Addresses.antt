-- ===== src/Options/Addresses.antt =====
-- The port that sockname1 of c_src/quicer_connection.c shows.
use quicer.Prelude.{
  ℕ, ◌≡◌, refl, Bool, false, some, List, [], ◌∷◌, map, if◌then◌else◌, Bool-cases, inl, inr,
}
use quicer.Nif.{Nif, ok_with, address}
use quicer.Options.{
  listener_local_address, conn_local_address, quic_addr, Addr, Contents, Answer, Host,
}
use quicer.Options.Encode.{sockname1, addr2eterm}
use quicer.Options.Names.{reply_of}

-- The parameter that is asked for.
abbrev pub address_of : {nif : Nif} → Host nif → (is_connection : Bool) → (handle : ℕ) → Answer
address_of host is_connection handle =
    host.get_param handle (if is_connection then conn_local_address else listener_local_address)
      (host.sizeof quic_addr)

-- Where MsQuic has the address, whose port `n` stands in it in network order, sockname shows that port for
-- an address of the first family, and the number with its bytes in network order for one of IPv6. `ntohs`
-- undoes `htons`.
pub sockname1-port :
    {nif : Nif} (host : Host nif) (htons : ℕ → ℕ) (is_connection : Bool) (handle n : ℕ)
    → host.ntohs (htons n) ≡ n
    → nif.failed (Answer.answer (address_of host is_connection handle)) ≡ false
    → Addr.port (Contents.address (Answer.contents (address_of host is_connection handle)))
      ≡ htons n
    → (ip : List ℕ) × (reply_of (sockname1 host (some (is_connection, handle)))
        ≡ some (
            ok_with (
              address ip (
                if Addr.is_inet6
                  (Contents.address (Answer.contents (address_of host is_connection handle)))
                then htons n
                else n))))
unfolding sockname1 addr2eterm
sockname1-port {nif} host htons is_connection handle n back good port =
    let a = Contents.address (Answer.contents (address_of host is_connection handle)) in
    elim (Bool-cases
      (Addr.is_inet6 (Contents.address (Answer.contents (address_of host is_connection handle))))) [
        | inl six ↦ (
          map (λ i. host.ntohs (a.words i)) (0 ∷ 1 ∷ 2 ∷ 3 ∷ 4 ∷ 5 ∷ 6 ∷ 7 ∷ []),
          rw (good, six, port) refl,
        )
        | inr four ↦ (map a.quad (0 ∷ 1 ∷ 2 ∷ 3 ∷ []), rw (good, four, port, back) refl)
      ]
