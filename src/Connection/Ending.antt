-- ===== src/Connection/Ending.antt =====
-- The end of async_connect3, and what it leaves behind.
use quicer.Prelude.{
  ℕ, ◌≤◌, ◌≡◌, refl, Bool, true, false, ◌⊎◌, inl, inr, Option, none, some, List, [], ◌∷◌, ◌++◌,
  arith, tally-append, ◌==◌, Bool-cases,
}
use quicer.Nif.{Reply, ok_with}
use quicer.Queue.{Acceptor}
use quicer.Connection.State.{ConnCtx, Effect, close_connection}
use quicer.Connection.Closing.{close_weight}
use quicer.Connection.Open.{Progress, Stage, fault, goto_error, go, Opened}
use quicer.Connection.Connect.{connect_end}
use quicer.Connection.Stages.{
  starts, closes, monitors, start_weight, monitor_weight, IsCalm, IsRefusal, IsGivenUp, Leads,
  IsStarted,
}

-- The context behind an error: it has no handle and is not monitored; it is closed and was not
-- started, or its start failed and the owner is gone.
abbrev pub LeftBehind : ConnCtx → List Effect → Type 0
LeftBehind c fx =
    ((c.connection == 0) ≡ true)
    × (monitors fx ≡ 0)
    × (((c.is_closed ≡ true) × (starts fx ≡ 0) × (closes fx ≤ 1))
        ⊎ ((starts fx ≡ 1) × (closes fx ≡ 0) × (c.owner ≡ none)))

-- With `{ok, Connection}` the context is open, has its handle and its owner, was started and is
-- monitored, once each.
abbrev pub Connected : Option ConnCtx → List Effect → Reply → Type 0
Connected none fx r = IsRefusal r × (fx ≡ [])
Connected (some c) fx (ok_with v) =
    (c.is_closed ≡ false)
    × ((c.connection == 0) ≡ false)
    × ((owner : Acceptor) × (c.owner ≡ some owner))
    × (starts fx ≡ 1)
    × (closes fx ≡ 0)
    × (monitors fx ≡ 1)
Connected (some c) fx r = LeftBehind c fx

-- A fault needs a `ConnectionClose` that reports the end before it returns.
abbrev pub Connects : (close_reports : Bool) → Option Opened → Type 0
Connects close_reports none = close_reports ≡ true
Connects close_reports (some o) = Connected o.ctx o.effects o.reply

closing :
    (fx : List Effect) (connection : ℕ)
    → IsCalm fx
    → let gx = fx ++ (close_connection connection ∷ []) in
      (starts gx ≡ 0) × (closes gx ≡ 1) × (monitors gx ≡ 0)
closing fx connection v = (
  ground (arith, tally-append start_weight fx (close_connection connection ∷ []), v.not_started),
  ground (arith, tally-append close_weight fx (close_connection connection ∷ []), v.not_closed),
  ground
      (arith, tally-append monitor_weight fx (close_connection connection ∷ []), v.not_monitored),
)

refused-Connected :
    (c : ConnCtx) (fx : List Effect) (r : Reply)
    → IsRefusal r
    → LeftBehind c fx
    → Connected (some c) fx r
refused-Connected c fx (ok_with v) h left = absurd h
refused-Connected c fx _ h left = left

-- At the error label: without a handle, and with one, which is closed.
given_up-LeftBehind :
    (p : Progress) → IsGivenUp p → (p.ctx.connection == 0) ≡ true → LeftBehind p.ctx p.effects
given_up-LeftBehind p (inl (calm, state)) gone =
    ground (arith, calm.not_started, calm.not_closed, calm.not_monitored)
given_up-LeftBehind p (inr failed) gone = ground arith

closed-LeftBehind :
    (p : Progress)
    → IsGivenUp p
    → (p.ctx.connection == 0) ≡ false
    → LeftBehind
        (record p.ctx { connection = 0; is_closed = true })
        (p.effects ++ (close_connection p.ctx.connection ∷ []))
closed-LeftBehind p (inl (calm, state)) there =
    ground (arith, closing p.effects p.ctx.connection calm)
closed-LeftBehind p (inr failed) there = ground arith

given_up-Connects :
    (b : Bool) (p : Progress) (r : Reply)
    → IsRefusal r
    → IsGivenUp p
    → Connects b (connect_end b (goto_error p r))
unfolding connect_end
given_up-Connects true p r h g = elim (Bool-cases (p.ctx.connection == 0)) [
  | inl gone ↦ rw gone (refused-Connected p.ctx p.effects r h (given_up-LeftBehind p g gone))
  | inr there ↦ rw there refl
]
given_up-Connects false p r h g = elim (Bool-cases (p.ctx.connection == 0)) [
  | inl gone ↦ rw gone (refused-Connected p.ctx p.effects r h (given_up-LeftBehind p g gone))
  | inr there ↦ rw there (
      refused-Connected (record p.ctx { connection = 0; is_closed = true })
        (p.effects ++ (close_connection p.ctx.connection ∷ [])) r h (closed-LeftBehind p g there))
]

pub connect_end-Connects : (b : Bool) (s : Stage) → Leads IsStarted s → Connects b (connect_end b s)
unfolding connect_end
connect_end-Connects b fault h = absurd h
connect_end-Connects b (goto_error p r) h = given_up-Connects b p r h.0 h.1
connect_end-Connects b (go p) h = (h.open_, h.handle, h.owned, h.started, h.not_closed, h.monitored)
