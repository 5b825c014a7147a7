-- ===== src/Dgram/Life.antt =====
-- The context of a datagram from send_dgram to the last state that MsQuic reports.
use quicer.Prelude.{
  ap, sym, ◌∙◌, subst, if◌then◌else◌, ℕ, ◌≡◌, refl, Bool, true, false, Option, none, some, List, [],
  ◌∷◌, ◌++◌, arith, tally, tally-append, leb,
}
use mathlib.Core.List.{append_assoc}
use quicer.Nif.{Nif, Status, Reply, ok_with, Message, atom, event_with_props}
use quicer.Nif.Atoms.{Atom}
use quicer.Connection.State.{
  ConnCtx, Effect, send_message, alloc_dgram_ctx, destroy_dgram_ctx, Run, fault, done,
}
use quicer.Dgram.{
  DgramSendCtx, Sent, send_dgram, SendState, unknown, lost_suspect, lost_discarded, acknowledged,
  acknowledged_spurious, canceled, unlisted, ends_send, handle_dgram_send_state_event,
  atom_dgram_send_state,
}

-- MsQuic's numbers of the states; those from `LOST_DISCARDED` on are final.
abbrev pub number : SendState → ℕ
number unknown = 0
number SendState.sent = 1
number lost_suspect = 2
number lost_discarded = 3
number acknowledged = 4
number acknowledged_spurious = 5
number canceled = 6
number unlisted = 0

abbrev pub is_final : SendState → Bool
is_final s = leb 3 (number s)

-- The states that MsQuic reports for one send: the last one is final, and no other.
pub data Reports : List SendState → Type 0 where
  last : (s : SendState) → is_final s ≡ true → Reports (s ∷ [])
  more :
      (s : SendState) {rest : List SendState}
      → is_final s ≡ false
      → Reports rest
      → Reports (s ∷ rest)

-- Whether the context is gone behind an event; an event behind that reads freed memory, a fault.
abbrev pub destroys_ctx : List Effect → Bool
destroys_ctx [] = false
destroys_ctx (destroy_dgram_ctx ∷ fx) = true
destroys_ctx (_ ∷ fx) = destroys_ctx fx

abbrev pub and_then :
    Option (List Effect) → (List Effect → Option (List Effect)) → Option (List Effect)
and_then none k = none
and_then (some fx) k = k fx

unfoldable pub effects_of : Run Status → Option (List Effect)
effects_of fault = none
effects_of (done c fx st) = some fx

-- The effects of the events of one send, with the context there or gone; `none` is a fault.
unfoldable pub follow :
    ConnCtx → DgramSendCtx → (gone : Bool) → List SendState → Option (List Effect)
unfolding handle_dgram_send_state_event effects_of
follow c d gone [] = some []
follow c d true (s ∷ rest) = none
follow c d false (s ∷ rest) =
    and_then (effects_of (handle_dgram_send_state_event c d s))
      λ fx. and_then (follow c d (destroys_ctx fx) rest) λ gx. some (fx ++ gx)

-- All effects of a call and of the events of what it sent.
unfoldable pub life : ConnCtx → Sent → List SendState → Option (List Effect)
unfolding follow
life c r states = elim r.send_ctx [
  | none ↦ some r.effects
  | some d ↦ and_then (follow c d false states) (λ fx. some (r.effects ++ fx))
]

abbrev pub alloc_weight : Effect → ℕ
alloc_weight alloc_dgram_ctx = 1
alloc_weight _ = 0

abbrev pub destroy_weight : Effect → ℕ
destroy_weight destroy_dgram_ctx = 1
destroy_weight _ = 0

-- What an effect tells a process: to whom, and the message.
abbrev pub told_by : Effect → List (ℕ × Message)
told_by (send_message pid m) = (pid, m) ∷ []
told_by _ = []

-- All that is told, in order.
abbrev pub told : List Effect → List (ℕ × Message)
told [] = []
told (x ∷ fx) = told_by x ++ told fx

told-append : (fx gx : List Effect) → told (fx ++ gx) ≡ told fx ++ told gx
told-append [] gx = refl
told-append (x ∷ fx) gx =
    ap (◌++◌ (told_by x)) (told-append fx gx) ∙ sym (append_assoc (told_by x) (told fx) (told gx))

-- The name that a process is given for a state.
abbrev pub name_of : SendState → Atom
name_of unknown = Atom.dgram_send_unknown
name_of SendState.sent = Atom.dgram_send_sent
name_of lost_suspect = Atom.dgram_send_lost_suspect
name_of lost_discarded = Atom.dgram_send_lost_discarded
name_of acknowledged = Atom.dgram_send_acknowledged
name_of acknowledged_spurious = Atom.dgram_send_acknowledged_spurious
name_of canceled = Atom.dgram_send_canceled
name_of unlisted = Atom.undefined

-- To the sender, for each state in order, `{quic, dgram_send_state, Connection, #{state => Name}}`.
abbrev pub reports : (sender connection : ℕ) → List SendState → List (ℕ × Message)
reports sender connection [] = []
reports sender connection (s ∷ states) =
    (
      sender,
      event_with_props (atom Atom.dgram_send_state) connection
          ((Atom.state, atom (name_of s)) ∷ []),
    )
    ∷ reports sender connection states

-- Those reports, and one release.
abbrev Followed : List (ℕ × Message) → Option (List Effect) → Type 0
Followed expected none = ⊥
Followed expected (some fx) =
    (tally alloc_weight fx ≡ 0) × (tally destroy_weight fx ≡ 1) × (told fx ≡ expected)

named : (s : SendState) → atom_dgram_send_state s ≡ name_of s
unfolding atom_dgram_send_state
named unknown = refl
named SendState.sent = refl
named lost_suspect = refl
named lost_discarded = refl
named acknowledged = refl
named acknowledged_spurious = refl
named canceled = refl
named unlisted = refl

ends_send-is_final : (s : SendState) → ends_send s ≡ is_final s
unfolding ends_send
ends_send-is_final unknown = refl
ends_send-is_final _ = refl

more-Followed :
    (pid : ℕ) (m : Message) (expected : List (ℕ × Message)) (o : Option (List Effect))
    → Followed expected o
    → Followed ((pid, m) ∷ expected) (and_then o (λ gx. some (send_message pid m ∷ gx)))
more-Followed pid m expected none f = f
more-Followed pid m expected (some gx) f =
    (omega (arith, f.0), omega (arith, f.1), ap (◌∷◌ (pid, m)) f.2)

follow-Followed :
    (c : ConnCtx) (d : DgramSendCtx) {states : List SendState}
    → Reports states
    → Followed (reports d.caller c.handle states) (follow c d false states)
unfolding follow handle_dgram_send_state_event effects_of
follow-Followed c d (last s e) = rw (ends_send-is_final s, e, named s) (refl, refl, refl)
follow-Followed c d (more s {rest} e r) =
    rw (ends_send-is_final s, e, named s)
      (more-Followed d.caller _ (reports d.caller c.handle rest) (follow c d false rest)
        (follow-Followed c d r))

-- `{ok, Length}`
abbrev pub is_accepted : Reply → Bool
is_accepted (ok_with v) = true
is_accepted _ = false

-- What a call leaves: the caller's context behind `{ok, Length}`, and none behind an error.
abbrev LeftWith : (self : ℕ) → Option DgramSendCtx → Sent → Type 0
LeftWith self none r =
    (tally alloc_weight r.effects ≡ tally destroy_weight r.effects)
    × (told r.effects ≡ [])
    × (is_accepted r.reply ≡ false)
LeftWith self (some d) r =
    (tally alloc_weight r.effects ≡ 1)
    × (tally destroy_weight r.effects ≡ 0)
    × (told r.effects ≡ [])
    × (is_accepted r.reply ≡ true)
    × (d.caller ≡ self)

send_dgram-Left :
    (nif : Nif) (allocated : Bool) (self : ℕ) (sent : Status) (c_ctx : Option ConnCtx)
    (ebin eflags : Nif.Term nif)
    → LeftWith self
        (send_dgram nif allocated self sent c_ctx ebin eflags).send_ctx
        (send_dgram nif allocated self sent c_ctx ebin eflags)
unfolding send_dgram
send_dgram-Left nif allocated self sent c_ctx ebin eflags = ground arith

abbrev pub Settled : List (ℕ × Message) → Option (List Effect) → Type 0
Settled expected none = ⊥
Settled expected (some fx) =
    (tally alloc_weight fx ≡ tally destroy_weight fx) × (told fx ≡ expected)

appended-Settled :
    (fx : List Effect) (expected : List (ℕ × Message)) (o : Option (List Effect))
    → tally alloc_weight fx ≡ 1
    → tally destroy_weight fx ≡ 0
    → told fx ≡ []
    → Followed expected o
    → Settled expected (and_then o (λ gx. some (fx ++ gx)))
appended-Settled fx expected none a b t f = f
appended-Settled fx expected (some gx) a b t f = (
  ground (arith, tally-append alloc_weight fx gx, tally-append destroy_weight fx gx),
  told-append fx gx ∙ cc (t, f.2),
)

life-Settled_from :
    (self : ℕ) (c : ConnCtx) (r : Sent) (o : Option DgramSendCtx) (states : List SendState)
    → r.send_ctx ≡ o
    → LeftWith self o r
    → Reports states
    → Settled (if is_accepted r.reply then reports self c.handle states else []) (life c r states)
unfolding life
life-Settled_from self c r none states e (balanced, quiet, refused) all =
    rw (e, life, refused) (balanced, quiet)
life-Settled_from self c r (some d) states e (alloc, destroy, quiet, accepted, same) all =
    rw (e, life, accepted)
      (appended-Settled r.effects (reports self c.handle states) (follow c d false states) alloc
        destroy quiet
        (subst (λ who. Followed (reports who c.handle states) (follow c d false states)) same
          (follow-Followed c d all)))

-- Take a call of `send_dgram` and, if it was accepted, the states that MsQuic then reports for the
-- datagram, the last one final and no other. No event reads a context that is gone; the context of
-- the send, where one was allocated, has been destroyed once; and the messages that were sent are, to
-- the caller of `send_dgram`, one for each state, in their order, with the connection's handle and
-- the name of that state; and none if the call was refused.
pub life-Settled :
    (nif : Nif) (allocated : Bool) (self : ℕ) (sent : Status) (c : ConnCtx)
    (ebin eflags : Nif.Term nif) (states : List SendState)
    → Reports states
    → Settled
        (if is_accepted (send_dgram nif allocated self sent (some c) ebin eflags).reply
          then reports self c.handle states
          else [])
        (life c (send_dgram nif allocated self sent (some c) ebin eflags) states)
life-Settled nif allocated self sent c ebin eflags states all =
    life-Settled_from self c _ _ states refl
      (send_dgram-Left nif allocated self sent (some c) ebin eflags) all
