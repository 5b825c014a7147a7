-- ===== src/Connection/Stages.antt =====
-- What the stages of async_connect3 keep.
use quicer.Prelude.{
  ℕ, ◌≡◌, Bool, true, false, ◌⊎◌, none, some, List, [], ◌∷◌, ◌++◌, arith, tally, tally-append, ◌==◌,
}
use quicer.Prelude.Int.{ℤ}
use quicer.Nif.{Reply, ok_with}
use quicer.Queue.{Acceptor}
use quicer.Connection.State.{Effect, monitor, start_connection}
use quicer.Connection.Closing.{close_weight}
use quicer.Connection.Open.{Progress, Stage, fault, goto_error, go, ◌>>=◌}

abbrev pub start_weight : Effect → ℕ
start_weight (start_connection _ _ _ _) = 1
start_weight _ = 0

abbrev pub monitor_weight : Effect → ℕ
monitor_weight (monitor _) = 1
monitor_weight _ = 0

abbrev pub starts : List Effect → ℕ
starts = tally start_weight

abbrev pub closes : List Effect → ℕ
closes = tally close_weight

abbrev pub monitors : List Effect → ℕ
monitors = tally monitor_weight

-- Neither started, closed nor monitored so far.
pub record IsCalm (fx : List Effect) : Type 0 where
  pub not_started : starts fx ≡ 0
  pub not_closed : closes fx ≡ 0
  pub not_monitored : monitors fx ≡ 0

abbrev pub IsOwned : Progress → Type 0
IsOwned p = (owner : Acceptor) × (p.ctx.owner ≡ some owner)

-- A reply other than `{ok, _}`.
abbrev pub IsRefusal : Reply → Type 0
IsRefusal (ok_with v) = ⊥
IsRefusal _ = Unit {0}

-- What the error label may find: nothing was started, and the handle is NULL only if the context is
-- closed; or the start failed, and the handle and the owner are gone.
abbrev pub IsGivenUp : Progress → Type 0
IsGivenUp p =
    (IsCalm p.effects × ((p.ctx.is_closed ≡ true) ⊎ ((p.ctx.connection == 0) ≡ false)))
    ⊎ ((starts p.effects ≡ 1)
        × (closes p.effects ≡ 0)
        × (monitors p.effects ≡ 0)
        × ((p.ctx.connection == 0) ≡ true)
        × (p.ctx.owner ≡ none))

abbrev pub Leads : (Progress → Type 0) → Stage → Type 0
Leads P fault = ⊥
Leads P (goto_error p r) = IsRefusal r × IsGivenUp p
Leads P (go p) = P p

pub bind :
    (P Q : Progress → Type 0) (s : Stage) (k : Progress → Stage)
    → Leads P s
    → ((p : Progress) → P p → Leads Q (k p))
    → Leads Q (s >>= k)
bind P Q fault k h f = h
bind P Q (goto_error p r) k h f = h
bind P Q (go p) k h f = f p h

pub also-IsCalm :
    (fx : List Effect) (x : Effect)
    → start_weight x ≡ 0
    → close_weight x ≡ 0
    → monitor_weight x ≡ 0
    → IsCalm fx
    → IsCalm (fx ++ (x ∷ []))
also-IsCalm fx x a b d v = record {
  not_started = ground (arith, tally-append start_weight fx (x ∷ []), v.not_started);
  not_closed = ground (arith, tally-append close_weight fx (x ∷ []), v.not_closed);
  not_monitored = ground (arith, tally-append monitor_weight fx (x ∷ []), v.not_monitored);
}

-- Behind the start: one further effect.
pub after_start :
    (fx : List Effect) (connection configuration : ℕ) (host : List ℕ) (port : ℤ) (x : Effect)
    → start_weight x ≡ 0
    → close_weight x ≡ 0
    → IsCalm fx
    → let gx = (fx ++ (start_connection connection configuration host port ∷ [])) ++ (x ∷ []) in
      (starts gx ≡ 1) × (closes gx ≡ 0) × (monitors gx ≡ monitor_weight x)
after_start fx connection configuration host port x a b v =
    let s = start_connection connection configuration host port in
    (
      ground (
        arith,
        tally-append start_weight (fx ++ (s ∷ [])) (x ∷ []),
        tally-append start_weight fx (s ∷ []),
        v.not_started,
      ),
      ground (
        arith,
        tally-append close_weight (fx ++ (s ∷ [])) (x ∷ []),
        tally-append close_weight fx (s ∷ []),
        v.not_closed,
      ),
      ground (
        arith,
        tally-append monitor_weight (fx ++ (s ∷ [])) (x ∷ []),
        tally-append monitor_weight fx (s ∷ []),
        v.not_monitored,
      ),
    )

-- A context that is closed, or closed and with a handle; and one that is open.
pub record IsIdle (p : Progress) : Type 0 where
  pub calm : IsCalm p.effects
  pub owned : IsOwned p
  pub closed : p.ctx.is_closed ≡ true

-- The same with a configuration, and with the handle that it had.
pub record IsConfigured (connection : ℕ) (p : Progress) : Type 0 where
  pub calm : IsCalm p.effects
  pub owned : IsOwned p
  pub closed : p.ctx.is_closed ≡ true
  pub same_handle : p.ctx.connection ≡ connection
  pub configured : (configuration : ℕ) × (p.ctx.config_resource ≡ some configuration)

pub record IsHeld (closed : Bool) (p : Progress) : Type 0 where
  pub calm : IsCalm p.effects
  pub owned : IsOwned p
  pub handle : (p.ctx.connection == 0) ≡ false
  pub in_state : p.ctx.is_closed ≡ closed
  pub configured : (configuration : ℕ) × (p.ctx.config_resource ≡ some configuration)

-- Connected: started and monitored once, and not closed.
pub record IsStarted (p : Progress) : Type 0 where
  pub started : starts p.effects ≡ 1
  pub not_closed : closes p.effects ≡ 0
  pub monitored : monitors p.effects ≡ 1
  pub owned : IsOwned p
  pub handle : (p.ctx.connection == 0) ≡ false
  pub open_ : p.ctx.is_closed ≡ false
