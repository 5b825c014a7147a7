-- ===== src/Dgram.antt =====
-- Datagrams: c_src/quicer_dgram.c. The data of a binary is never NULL.
pub mod Life
use quicer.Prelude.{
  ℕ, ◌%◌, Bool, true, false, Option, none, some, List, [], ◌∷◌, length, ◌==◌, if◌then◌else◌,
}
use quicer.Nif.{
  Nif, Status, Reply, ok_with, error, error3, eterm_int, atom, uint, boolean, binary, status, event,
  event_with_props,
}
use quicer.Nif.Atoms.{Atom}
use quicer.Stream.Send.{payload}
use quicer.Connection.State.{
  ConnCtx, Effect, send_message, send_datagram, alloc_dgram_ctx, destroy_dgram_ctx, Run, done,
  notify_owner,
}

-- `QuicerDgramSendCTX`, as far as datagrams use it.
pub record DgramSendCtx : Type 0 where
  pub caller : ℕ
  pub is_sync : Bool
  pub buffer : List ℕ

-- What `send_dgram` leaves: its context while MsQuic holds it, the effects and the reply.
pub record Sent : Type 0 where
  pub send_ctx : Option DgramSendCtx
  pub effects : List Effect
  pub reply : Reply

abbrev pub give_up : Atom → Sent
give_up why = record {
  send_ctx = none;
  effects = alloc_dgram_ctx ∷ destroy_dgram_ctx ∷ [];
  reply = error (atom why);
}

-- The part under the lock; `sent` is what `DatagramSend` answers.
unfoldable pub send_dgram_locked : Nif → Status → (connection : ℕ) → DgramSendCtx → Sent
send_dgram_locked nif sent connection d =
    if nif.failed sent
    then record {
      send_ctx = none;
      effects = alloc_dgram_ctx ∷ send_datagram connection d.buffer ∷ destroy_dgram_ctx ∷ [];
      reply = error3 Atom.dgram_send_error (status sent);
    }
    else record {
      send_ctx = some d;
      effects = alloc_dgram_ctx ∷ send_datagram connection d.buffer ∷ [];
      reply = ok_with (eterm_int (length d.buffer));
    }

-- `sendflags & 1UL`
abbrev pub is_sync_flag : ℕ → Bool
is_sync_flag flags = flags % 2 == 1

unfoldable pub send_dgram :
    (nif : Nif)
    → (allocated : Bool) → (self : ℕ) → (sent : Status) → (c_ctx : Option ConnCtx)
    → (ebin eflags : Nif.Term nif) → Sent
unfolding send_dgram_locked payload
send_dgram nif allocated self sent none ebin eflags = record {
  send_ctx = none;
  effects = [];
  reply = error (atom Atom.badarg);
}
send_dgram nif allocated self sent (some c) ebin eflags =
    if allocated
    then elim (nif.get_uint eflags) [
      | none ↦ give_up Atom.badarg
      | some flags ↦ elim (payload nif ebin) [
        | none ↦ give_up Atom.badarg
        | some bin ↦
            send_dgram_locked nif sent c.connection
              (record { caller = self; is_sync = is_sync_flag flags; buffer = bin })
      ]
    ]
    else record { send_ctx = none; effects = []; reply = error (atom Atom.not_enough_memory) }

-- `QUIC_DATAGRAM_SEND_STATE`; any other number is `unlisted`.
pub data SendState : Type 0 where
  unknown sent lost_suspect lost_discarded acknowledged acknowledged_spurious canceled unlisted :
      SendState

unfoldable pub atom_dgram_send_state : SendState → Atom
atom_dgram_send_state unknown = Atom.dgram_send_unknown
atom_dgram_send_state sent = Atom.dgram_send_sent
atom_dgram_send_state lost_suspect = Atom.dgram_send_lost_suspect
atom_dgram_send_state lost_discarded = Atom.dgram_send_lost_discarded
atom_dgram_send_state acknowledged = Atom.dgram_send_acknowledged
atom_dgram_send_state acknowledged_spurious = Atom.dgram_send_acknowledged_spurious
atom_dgram_send_state canceled = Atom.dgram_send_canceled
atom_dgram_send_state unlisted = Atom.undefined

unfoldable pub handle_dgram_state_changed_event : ConnCtx → (max_len : ℕ) → Bool → Run Status
handle_dgram_state_changed_event c max_len enabled = notify_owner c (
    event_with_props (atom Atom.dgram_state_changed) c.handle
      ((Atom.dgram_max_len, uint max_len) ∷ (Atom.dgram_send_enabled, boolean enabled) ∷ []))

-- The test of the states behind which the context is destroyed.
unfoldable pub ends_send : SendState → Bool
ends_send lost_discarded = true
ends_send acknowledged = true
ends_send acknowledged_spurious = true
ends_send canceled = true
ends_send _ = false

-- The report goes to the sender, and the context of the send with the last state.
unfoldable pub handle_dgram_send_state_event : ConnCtx → DgramSendCtx → SendState → Run Status
unfolding ends_send
handle_dgram_send_state_event c d state =
    done c
      (send_message d.caller (
          event_with_props (atom Atom.dgram_send_state) c.handle
            ((Atom.state, atom (atom_dgram_send_state state)) ∷ []))
        ∷ (if ends_send state then destroy_dgram_ctx ∷ [] else []))
      Status.success

-- `allocated` tells whether there is memory for the binary.
unfoldable pub handle_dgram_recv_event : (allocated : Bool) → ConnCtx → List ℕ → ℕ → Run Status
unfolding notify_owner
handle_dgram_recv_event allocated c bytes flags =
    if allocated
    then notify_owner c (event (binary bytes) c.handle (uint flags))
    else done c [] Status.success
