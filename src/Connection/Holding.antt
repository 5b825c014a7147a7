-- ===== src/Connection/Holding.antt =====
-- The owner of a connection through handovers and deaths.
use quicer.Prelude.{
  ℕ, ◌≡◌, refl, Option, none, some, List, [], ◌∷◌, ◌++◌, arith, ◌==◌, if◌then◌else◌, subst,
}
use quicer.Nif.{Reply}
use quicer.Queue.{Acceptor}
use quicer.Queue.Ownership.{Handover, holder, receiver}
use quicer.Connection.State.{
  ConnCtx, Effect, monitor, demonitor, shutdown_connection, Run, fault, done,
}
use quicer.Connection.Calls.{connection_controlling_process, resource_conn_down_callback}

-- The monitors of a connection: the one in `owner_mon`, and those taken before it that nothing has
-- removed. A second `enif_monitor_process` overwrites `owner_mon`, as the event `connected` does with
-- the monitor that async_connect3 took; a demonitor removes the last one only.
pub record Monitors : Type 0 where
  pub owner_mon : Option ℕ
  pub stale : List ℕ

abbrev pub with_stale : Option ℕ → List ℕ → List ℕ
with_stale none pids = pids
with_stale (some pid) pids = pid ∷ pids

-- The monitors behind the effects.
abbrev pub watched : Monitors → List Effect → Monitors
watched w [] = w
watched w (monitor pid ∷ fx) =
    watched (record { owner_mon = some pid; stale = with_stale w.owner_mon w.stale }) fx
watched w (demonitor ∷ fx) = watched (record w { owner_mon = none }) fx
watched w (_ ∷ fx) = watched w fx

-- Behind one call, and behind a list of them: the context, and its monitors. `none` is a fault.
abbrev pub behind : Monitors → Run Reply → Option (ConnCtx × Monitors)
behind w fault = none
behind w (done c fx r) = some (c, watched w fx)

unfoldable pub pass_on : ConnCtx × Monitors → List Handover → Option (ConnCtx × Monitors)
unfolding connection_controlling_process
pass_on s [] = some s
pass_on (c, w) (h ∷ rest) =
    elim (behind w (connection_controlling_process h.caller h.new_owner h.alive c)) [
      | none ↦ none
      | some s ↦ pass_on s rest
    ]

-- The process is dead: each monitor of it calls back.
unfoldable pub calls_back : (dead : ℕ) → ConnCtx → (monitored : List ℕ) → List Effect
unfolding resource_conn_down_callback
calls_back dead c [] = []
calls_back dead c (pid ∷ pids) =
    (if pid == dead then resource_conn_down_callback dead c else []) ++ calls_back dead c pids

-- One shutdown, without flags, for each time that the process is in the list.
abbrev pub shutdowns : (connection dead : ℕ) → List ℕ → List Effect
shutdowns connection dead [] = []
shutdowns connection dead (pid ∷ pids) =
    (if pid == dead then shutdown_connection connection 0 0 ∷ [] else [])
    ++ shutdowns connection dead pids

abbrev pub watching : ℕ → List ℕ → Monitors
watching pid stale = record { owner_mon = some pid; stale = stale }

abbrev pub held_by : ConnCtx → Acceptor → ℕ → ConnCtx
held_by c owner pid = record c { owner = some (record owner { pid = pid }) }

one_handover :
    (c : ConnCtx) (owner : Acceptor) (stale : List ℕ) (pid : ℕ) (h : Handover)
    → behind
        (watching pid stale)
        (connection_controlling_process h.caller h.new_owner h.alive (held_by c owner pid))
      ≡ (let next = if pid == h.caller then receiver h pid else pid in
          some (held_by c owner next, watching next stale))
unfolding connection_controlling_process
one_handover c owner stale pid h = ground arith

handed_over :
    (c : ConnCtx) (owner : Acceptor) (stale : List ℕ) (pid : ℕ) (history : List Handover)
    → pass_on (held_by c owner pid, watching pid stale) history
      ≡ some (held_by c owner (holder pid history), watching (holder pid history) stale)
unfolding pass_on
handed_over c owner stale pid [] = refl
handed_over c owner stale pid (h ∷ rest) =
    rw (pass_on, one_handover c owner stale pid h)
      (handed_over c owner stale (if pid == h.caller then receiver h pid else pid) rest)

-- What a death does, whichever processes are monitored.
dies :
    (c : ConnCtx) (owner : Acceptor) (last dead : ℕ) (monitored : List ℕ)
    → calls_back dead (held_by c owner last) monitored
      ≡ (if last == dead then shutdowns c.connection dead monitored else [])
unfolding calls_back resource_conn_down_callback
dies c owner last dead [] = ground arith
dies c owner last dead (pid ∷ pids) = ground (arith, dies c owner last dead pids)

-- Take a connection whose owner is monitored by `owner_mon`, with any monitors that were taken before
-- that one and are still there, and any calls of `connection_controlling_process`, from whichever
-- process and to whichever term. None faults. Behind them the holder owns the connection: the process
-- to which a holder has last handed it over while that was alive, or the first owner. It keeps the
-- receive mode and its counter, and is the process of `owner_mon`; the earlier monitors are as they
-- were, and nothing else in the context has changed. The death of a process shuts the connection down
-- if it is the holder, with no flags, once for each monitor of it, and otherwise does nothing.
pub pass_on-connection_holder :
    (c : ConnCtx) (owner : Acceptor) (stale : List ℕ) (history : List Handover) (dead : ℕ)
    → c.owner ≡ some owner
    → let last = holder owner.pid history in
      (pass_on (c, watching owner.pid stale) history
        ≡ some (held_by c owner last, watching last stale))
      × (calls_back dead (held_by c owner last) (last ∷ stale)
          ≡ (if last == dead then shutdowns c.connection dead (last ∷ stale) else []))
pass_on-connection_holder c owner stale history dead o = (
  subst
      (λ d.
        pass_on (d, watching owner.pid stale) history
        ≡ some
            (held_by c owner (holder owner.pid history), watching (holder owner.pid history) stale))
      same (handed_over c owner stale owner.pid history),
  dies c owner (holder owner.pid history) dead (holder owner.pid history ∷ stale),
)
  where
    same : held_by c owner owner.pid ≡ c
    same = ground (arith, o)
