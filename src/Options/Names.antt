-- ===== src/Options/Names.antt =====
-- The names of the options of a connection that are set and read back, and what MsQuic keeps of them.
use quicer.Prelude.{
  subst, ℕ, ◌≡◌, inl, inr, Bool, true, false, Option, none, some, List, [], ◌∷◌, Bool-cases,
}
use quicer.Nif.{Nif, Reply}
use quicer.Nif.Atoms.{Atom, Atom-discrete}
use quicer.Config.Settings.{Setting}
use quicer.Options.{
  Param, conn_share_udp_binding, conn_datagram_send_enabled, conn_datagram_receive_enabled,
  conn_disable_1rtt_encryption, Contents, Answer, Buffer, Host, Effect, Run, fault, done,
}
use quicer.Options.Reading.{request, allocated, on_stack, Request}
use quicer.Options.Writing.{Choice, pass, pass_or_badarg, choose, choose_flag}

-- The flags of a connection that can be set and read.
pub data Flag : Type 0 where
  share_udp_binding datagram_send_enabled datagram_receive_enabled disable_1rtt_encryption : Flag

abbrev pub name_of : Flag → Atom
name_of share_udp_binding = Atom.param_conn_share_udp_binding
name_of datagram_send_enabled = Atom.param_conn_datagram_send_enabled
name_of datagram_receive_enabled = Atom.param_conn_datagram_receive_enabled
name_of disable_1rtt_encryption = Atom.param_conn_disable_1rtt_encryption

abbrev pub param_of : Flag → Param
param_of share_udp_binding = conn_share_udp_binding
param_of datagram_send_enabled = conn_datagram_send_enabled
param_of datagram_receive_enabled = conn_datagram_receive_enabled
param_of disable_1rtt_encryption = conn_disable_1rtt_encryption

abbrev pub choice_of : Flag → Param → ℕ → Buffer → Choice
choice_of disable_1rtt_encryption = pass_or_badarg
choice_of _ = pass

abbrev pub request_of : Flag → Request
request_of share_udp_binding = allocated conn_share_udp_binding 1
request_of datagram_send_enabled = on_stack conn_datagram_send_enabled 1
request_of datagram_receive_enabled = on_stack conn_datagram_receive_enabled 1
request_of disable_1rtt_encryption = allocated conn_disable_1rtt_encryption 1

-- The test of two atoms.
unfoldable pub same : Atom → Atom → Bool
unfolding Atom-discrete
same a b = elim (Atom-discrete a b) [ yes _ ↦ true | no _ ↦ false ]

-- A term that is an atom answers each test as the atom does.
pub is_same-same :
    (nif : Nif) (t : Nif.Term nif) (a : Atom)
    → nif.is_same t a ≡ true
    → (b : Atom) → nif.is_same t b ≡ same a b
unfolding same
is_same-same nif t a e b =
    elim (Atom-discrete a b) as (λ d. nif.is_same t b ≡ elim d [ yes _ ↦ true | no _ ↦ false ]) [
      | yes eq ↦ subst (λ c. nif.is_same t c ≡ true) eq e
      | no other ↦ elim (Bool-cases (nif.is_same t b)) [
        | inl also ↦ absurd (other (nif.is_same_eq t a b e also))
        | inr differs ↦ differs
      ]
    ]

-- What a later state of MsQuic answers about what was set: it is there.
abbrev pub Keeps : {nif : Nif} → Host nif → List Effect → Type 0
Keeps later [] = Unit
Keeps {nif} later (Effect.set_param h p l (Buffer.number n) ∷ fx) =
    (nif.failed (Answer.answer (later.get_param h p l)) ≡ false)
    × (Contents.number (Answer.contents (later.get_param h p l)) l ≡ n)
    × Keeps later fx
Keeps {nif} later (Effect.set_param h p l (Buffer.settings s) ∷ fx) =
    (nif.failed (Answer.answer (later.get_param h p l)) ≡ false)
    × ((f : Setting) (v : ℕ)
        → s f ≡ some v
        → Contents.settings (Answer.contents (later.get_param h p l)) f ≡ v)
    × Keeps later fx
Keeps later (e ∷ fx) = Keeps later fx

abbrev pub reply_of : Run → Option Reply
reply_of fault = none
reply_of (done fx r) = some r

pub choose-name :
    (nif : Nif) (host : Host nif) (f : Flag) (optname optval : Nif.Term nif)
    → nif.is_same optname (name_of f) ≡ true
    → choose host optname optval ≡ choose_flag host (choice_of f) (param_of f) optval
unfolding choose same
choose-name nif host share_udp_binding optname optval e =
    simp (is_same-same nif optname Atom.param_conn_share_udp_binding e)
choose-name nif host datagram_send_enabled optname optval e =
    simp (is_same-same nif optname Atom.param_conn_datagram_send_enabled e)
choose-name nif host datagram_receive_enabled optname optval e =
    simp (is_same-same nif optname Atom.param_conn_datagram_receive_enabled e)
choose-name nif host disable_1rtt_encryption optname optval e =
    simp (is_same-same nif optname Atom.param_conn_disable_1rtt_encryption e)

pub request-name :
    (nif : Nif) (host : Host nif) (f : Flag) (optname : Nif.Term nif)
    → nif.is_same optname (name_of f) ≡ true
    → request host optname ≡ request_of f
unfolding request same
request-name nif host share_udp_binding optname e =
    simp (is_same-same nif optname Atom.param_conn_share_udp_binding e)
request-name nif host datagram_send_enabled optname e =
    simp (is_same-same nif optname Atom.param_conn_datagram_send_enabled e)
request-name nif host datagram_receive_enabled optname e =
    simp (is_same-same nif optname Atom.param_conn_datagram_receive_enabled e)
request-name nif host disable_1rtt_encryption optname e =
    simp (is_same-same nif optname Atom.param_conn_disable_1rtt_encryption e)
