-- ===== src/Listener/Lifecycle.antt =====
-- A listener's context is destroyed once, when the listener is closed.
use quicer.Prelude.{
  ◌≡◌, ◌≢◌, subst, true, false, not, ◌⊎◌, inl, inr, Option, none, some, arith, ◌==◌, if◌then◌else◌,
}
use quicer.Nif.{Nif}
use quicer.Listener.System.{System, Action, close, stop, owner_down, start, act}

-- An open listener has its handle, its config resource and its whole life before it, and is stopped
-- exactly if MsQuic does not listen. A closed one has no handle and has been destroyed.
pub record IsOpen (y : System) : Type 0 where
  pub not_closed : y.ctx.is_closed ≡ false
  pub has_handle : (y.ctx.listener == 0) ≡ false
  pub has_config : y.ctx.config_resource ≢ none
  pub in_step : y.ctx.is_stopped ≡ not y.listening
  pub not_released : y.released ≡ 0

pub record IsGone (y : System) : Type 0 where
  pub closed : y.ctx.is_closed ≡ true
  pub no_handle : (y.ctx.listener == 0) ≡ true
  pub silent : y.listening ≡ false
  pub released_once : y.released ≡ 1

abbrev pub IsSound : System → Type 0
IsSound y = IsOpen y ⊎ IsGone y

-- MsQuic refuses to start a listener that is started.
abbrev pub Allowed : Nif → System → Action → Type 0
Allowed nif y (start address alpn st) = y.listening ≡ true → nif.failed st ≡ true
Allowed nif y _ = Unit {0}

abbrev pub Ends : (System → Type 0) → Option System → Type 0
Ends P none = ⊥
Ends P (some y) = P y

-- An open listener stays open, unless it is closed.
act-IsOpen :
    (nif : Nif) (y : System) (a : Action) → IsOpen y → Allowed nif y a → Ends IsSound (act nif y a)
unfolding act
act-IsOpen nif y close v ok = ground (arith, v.not_closed, v.in_step, v.has_config)
act-IsOpen nif y stop v ok = ground (arith, v.not_closed, v.in_step, v.has_config)
act-IsOpen nif y owner_down v ok = ground (arith, v.not_closed, v.in_step, v.has_config)
act-IsOpen nif y (start address alpn st) v ok =
    ground (arith, v.not_closed, v.in_step, v.has_config)

-- Nothing happens to a closed one.
act-IsGone : (nif : Nif) (y : System) (a : Action) → IsGone y → Ends IsGone (act nif y a)
unfolding act
act-IsGone nif y close v = ground (arith, v.closed)
act-IsGone nif y stop v = ground (arith, v.closed)
act-IsGone nif y owner_down v = ground (arith, v.closed)
act-IsGone nif y (start address alpn st) v = ground (arith, v.closed)

sound : (o : Option System) → Ends IsGone o → Ends IsSound o
sound none e = e
sound (some y) e = inr e

-- From a listener that is open, or closed and destroyed, each of close, stop, start and the end of
-- the owner leads without a fault to one that is open, or closed and destroyed, if MsQuic refuses
-- to start a listener that is started.
pub act-IsSound :
    (nif : Nif) (y : System) (a : Action) → IsSound y → Allowed nif y a → Ends IsSound (act nif y a)
act-IsSound nif y a (inl v) allowed = act-IsOpen nif y a v allowed
act-IsSound nif y a (inr v) allowed = sound (act nif y a) (act-IsGone nif y a v)

-- What callers do one after the other.
pub data Reach (nif : Nif) (y : System) : System → Type 0 where
  here : Reach nif y y
  next :
      {z w : System} (a : Action)
      → Reach nif y z
      → Allowed nif z a
      → act nif z a ≡ some w
      → Reach nif y w

Reach-IsSound : {nif : Nif} {y z : System} → Reach nif y z → IsSound y → IsSound z
Reach-IsSound here v = v
Reach-IsSound {nif} (next {z} a r allowed run) v =
    subst (Ends IsSound) run (act-IsSound nif z a (Reach-IsSound r v) allowed)

-- In every history of a listener that was open, in which MsQuic refuses to start a listener that
-- is started, its context has been destroyed once if it is closed and not at all otherwise, and it
-- holds a handle exactly as long as it is not closed.
pub Reach-released :
    {nif : Nif} {y z : System}
    → Reach nif y z
    → IsOpen y
    → (z.released ≡ (if z.ctx.is_closed then 1 else 0)) × ((z.ctx.listener == 0) ≡ z.ctx.is_closed)
Reach-released {z} r v = elim (Reach-IsSound r (inl v)) [
  | inl o ↦ rw o.not_closed (o.not_released, o.has_handle)
  | inr g ↦ rw g.closed (g.released_once, g.no_handle)
]
