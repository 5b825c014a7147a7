-- ===== src/Handover.antt =====
-- controlling_process of c_src/quicer_nif.c: a process hands a stream or a connection over to another.
use quicer.Prelude.{ℕ, ◌≡◌, Bool, Option, none, some, arith, Option-cases, inl, inr}
use quicer.Nif.{Reply, ok, error, atom}
use quicer.Nif.Atoms.{Atom}
use quicer.Queue.{Acceptor}
use quicer.Stream.State
use quicer.Stream.State.{StreamCtx}
use quicer.Stream.Ownership.{stream_controlling_process}
use quicer.Connection.State as Conn
use quicer.Connection.State.{ConnCtx}
use quicer.Connection.Calls.{connection_controlling_process}

-- What the first argument is.
pub data Target : Type 0 where
  a_stream : StreamCtx → Target
  a_connection : ConnCtx → Target
  neither : Target

data Handed : Type 0 where
  refused : Reply → Handed
  of_stream : State.Run Reply → Handed
  of_connection : Conn.Run Reply → Handed

-- `target` is the pid of the second argument, if it is one, and `caller` that of the calling process; the
-- lock of the context makes its part one step.
unfoldable controlling_process :
    (handle : Target) → (target caller : Option ℕ) → (alive : Bool) → Handed
unfolding stream_controlling_process connection_controlling_process
controlling_process handle none caller alive = refused (error (atom Atom.badarg))
controlling_process handle (some target) none alive = refused (error (atom Atom.badarg))
controlling_process (a_stream s) (some target) (some caller) alive =
    of_stream (stream_controlling_process caller (some target) alive s)
controlling_process (a_connection c) (some target) (some caller) alive =
    of_connection (connection_controlling_process caller (some target) alive c)
controlling_process neither (some target) (some caller) alive = refused (error (atom Atom.badarg))

-- The pid that owns the handle, and the one that owns it afterwards.
abbrev owner_of : Option Acceptor → Option ℕ
owner_of none = none
owner_of (some owner) = some owner.pid

abbrev HandsOver : (before after : Option ℕ) → (target caller : Option ℕ) → Reply → Type 0
HandsOver before after target caller ok = (before ≡ caller) × (after ≡ target)
HandsOver before after target caller r = after ≡ before

abbrev Hands : Target → (target caller : Option ℕ) → Handed → Type 0
Hands (a_stream s) target caller (of_stream (State.done t fx r)) =
    HandsOver (some s.owner.pid) (some t.owner.pid) target caller r
Hands (a_connection c) target caller (of_connection (Conn.done d fx r)) =
    HandsOver (owner_of c.owner) (owner_of d.owner) target caller r
Hands handle target caller _ = Unit

refused-Hands :
    (handle : Target) (target caller : Option ℕ) (r : Reply)
    → Hands handle target caller (refused r)
refused-Hands (a_stream s) target caller r = tt
refused-Hands (a_connection c) target caller r = tt
refused-Hands neither target caller r = tt

-- Where controlling_process acts on a stream or a connection and answers `ok`, the caller owned it and the
-- target owns it now; with another answer, the owner is the one before.
controlling_process-Hands :
    (handle : Target) (target caller : Option ℕ) (alive : Bool)
    → Hands handle target caller (controlling_process handle target caller alive)
unfolding controlling_process
controlling_process-Hands handle none caller alive =
    refused-Hands handle none caller (error (atom Atom.badarg))
controlling_process-Hands handle (some target) none alive =
    refused-Hands handle (some target) none (error (atom Atom.badarg))
controlling_process-Hands (a_stream s) (some target) (some caller) alive = ground arith
controlling_process-Hands (a_connection c) (some target) (some caller) alive =
    elim (Option-cases c.owner) [ inl nobody ↦ ground arith | inr (owner, owned) ↦ ground arith ]
controlling_process-Hands neither (some target) (some caller) alive = tt
