-- ===== src/Stream/History.antt =====
-- Histories of a stream: indications of MsQuic and calls of the owner, in any order.
use quicer.Prelude.{
  ℕ, ◌≡◌, refl, ap, ◌∙◌, arith, Bool, true, false, ◌⊎◌, List, [], ◌∷◌, take, subst,
}
use quicer.Nif.{Nif, Status, Reply, event_with_props, binary}
use quicer.Stream.State.{StreamCtx, Effect, receive_complete, send_message, done}
use quicer.Stream.Receive.{RecvEvent, recv_locked, handle_stream_event_recv, set_active}
use quicer.Stream.Flow.{
  Flow, apply_effect, apply_effects, after_status, after_reply, Indicates, IsFaithful, Ends,
  after_recv, after_indication,
}
use quicer.Stream.Delivery.{
  HasCredit, recv_locked-IsFaithful, handle_stream_event_recv-IsFaithful, set_active-IsFaithful,
}
use quicer.Nif.Atoms.{Atom}

-- One indication or call. The counted mode must have receives left when an indication comes; the
-- option `active` may change while none is outstanding, and be set to `false` at any time.
pub data Step (nif : Nif) (f : Flow) : Flow → Type 0 where
  indicate :
      (sent : Bool) (e : RecvEvent) {t : StreamCtx} {fx : List Effect} {st : Status}
      → f.outstanding ≡ false
      → Indicates f e
      → HasCredit f.ctx.owner
      → handle_stream_event_recv nif sent f.ctx e ≡ done t fx st
      → Step nif f (after_indication f e.total t fx st)
  recv :
      (set_enabled : Status) (n : ℕ) {t : StreamCtx} {fx : List Effect} {r : Reply}
      → recv_locked nif set_enabled f.ctx n ≡ done t fx r
      → Step nif f (after_recv f t fx r)
  activate :
      (value : Nif.Term nif) {t : StreamCtx} {fx : List Effect} {r : Reply}
      → (f.outstanding ≡ false) ⊎ (nif.is_same value Atom.false ≡ true)
      → set_active nif f.ctx value ≡ done t fx r
      → Step nif f (after_recv f t fx r)

pub data Reach (nif : Nif) (f : Flow) : Flow → Type 0 where
  here : Reach nif f f
  next : {g h : Flow} → Reach nif f g → Step nif g h → Reach nif f h

Step-IsFaithful : {nif : Nif} {f g : Flow} → Step nif f g → IsFaithful f → IsFaithful g
Step-IsFaithful {nif} {f} (indicate sent e shut shows credit run) v =
    subst (Ends (λ t fx st. IsFaithful (after_indication f e.total t fx st))) run
      (handle_stream_event_recv-IsFaithful nif sent f e v shut shows credit)
Step-IsFaithful {nif} {f} (recv set_enabled n run) v =
    subst (Ends (λ t fx r. IsFaithful (after_recv f t fx r))) run
      (recv_locked-IsFaithful nif set_enabled n f v)
Step-IsFaithful {nif} {f} (activate value still run) v =
    subst (Ends (λ t fx r. IsFaithful (after_recv f t fx r))) run
      (set_active-IsFaithful nif f value v still)

Reach-IsFaithful : {nif : Nif} {f g : Flow} → Reach nif f g → IsFaithful f → IsFaithful g
Reach-IsFaithful here v = v
Reach-IsFaithful (next r st) v = Step-IsFaithful st (Reach-IsFaithful r v)

apply_effects-peer : (f : Flow) (fx : List Effect) → (apply_effects f fx).peer ≡ f.peer
unfolding apply_effects
apply_effects-peer f [] = refl
apply_effects-peer f (receive_complete s n ∷ fx) = apply_effects-peer _ fx
apply_effects-peer f (send_message p (event_with_props (binary b) h ps) ∷ fx) =
    apply_effects-peer _ fx
apply_effects-peer f (x ∷ fx) = apply_effects-peer (apply_effect f x) fx ∙ ground arith

after_status-peer : (f : Flow) (n : ℕ) (st : Status) → (after_status f n st).peer ≡ f.peer
unfolding after_status
after_status-peer f n Status.pending = refl
after_status-peer f n _ = refl

after_reply-peer : (f : Flow) (r : Reply) → (after_reply f r).peer ≡ f.peer
unfolding after_reply
after_reply-peer f r = ground arith

Step-peer : {nif : Nif} {f g : Flow} → Step nif f g → g.peer ≡ f.peer
Step-peer {f} (indicate sent e {t} {fx} {st} shut shows credit run) =
    after_status-peer (apply_effects (record f { ctx = t }) fx) e.total st
    ∙ apply_effects-peer (record f { ctx = t }) fx
Step-peer {f} (recv set_enabled n {t} {fx} {r} run) =
    after_reply-peer (apply_effects (record f { ctx = t }) fx) r
    ∙ apply_effects-peer (record f { ctx = t }) fx
Step-peer {f} (activate value {t} {fx} {r} still run) =
    after_reply-peer (apply_effects (record f { ctx = t }) fx) r
    ∙ apply_effects-peer (record f { ctx = t }) fx

Reach-peer : {nif : Nif} {f g : Flow} → Reach nif f g → g.peer ≡ f.peer
Reach-peer here = refl
Reach-peer (next r st) = Step-peer st ∙ Reach-peer r

-- From a faithful state, in every history of indications, calls of `recv2` and changes of the
-- option `active`, the owner has received exactly the bytes that MsQuic was told to take as
-- consumed, in order and once: a prefix of what the peer sends. Each indication shows the next
-- bytes, comes while none is outstanding, and finds receives left in the counted mode; the option
-- changes while no indication is outstanding, or to `false`.
pub Reach-received :
    {nif : Nif} {f g : Flow} → Reach nif f g → IsFaithful f → g.received ≡ take g.consumed f.peer
Reach-received {g} r v = (Reach-IsFaithful r v).received_eq ∙ ap (take g.consumed) (Reach-peer r)
