-- ===== src/Queue/Ownership.antt =====
-- Who holds a connection or a stream, through the handovers of their controlling process.
use quicer.Prelude.{ℕ, Bool, Option, none, some, List, [], ◌∷◌, ◌==◌, if◌then◌else◌}

-- A call of `connection_controlling_process` or of its like for streams: who calls, the process that
-- is to hold it, if the term is the pid of one, and whether that can be monitored.
pub record Handover : Type 0 where
  pub caller : ℕ
  pub new_owner : Option ℕ
  pub alive : Bool

-- Only the holder can hand over, and only to a process that is alive.
abbrev pub receiver : Handover → (pid : ℕ) → ℕ
receiver h pid = elim h.new_owner [ none ↦ pid | some heir ↦ if h.alive then heir else pid ]

abbrev pub holder : (pid : ℕ) → List Handover → ℕ
holder pid [] = pid
holder pid (h ∷ rest) = holder (if pid == h.caller then receiver h pid else pid) rest
