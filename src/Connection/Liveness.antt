-- ===== src/Connection/Liveness.antt =====
-- A connection that was opened locally can always be brought to its end: what MsQuic, the processes and the
-- streams still have to do, in an order that frees it.
use quicer.Prelude.{zero, suc, ℕ, List, [], ◌∷◌}
use quicer.Nif.{Nif}
use quicer.Connection.Lifecycle.{Action}

abbrev pub repeated : Action → ℕ → List Action
repeated a zero = []
repeated a (suc n) = a ∷ repeated a n
