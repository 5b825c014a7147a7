-- ===== src/Stream/Send.antt =====
-- Sending: send3, csend4 and shutdown_stream3 of c_src/quicer_stream.c. What the allocators, the
-- runtime and MsQuic answer in one call is an argument.
use quicer.Prelude.{
  ℕ, ◌-◌, ◌/◌, ◌%◌, ◌^◌, Bool, Option, none, some, List, [], ◌∷◌, length, ltb, ◌==◌, if◌then◌else◌,
}
use quicer.Nif.{eterm_int, Nif, Status, Reply, ok, ok_with, error, error3, atom, status}
use quicer.Nif.Atoms.{Atom}
use quicer.Stream.State.{
  StreamCtx, shutdown_stream_raw, send_stream, alloc_send_ctx, destroy_send_ctx, Run, refused, done,
}

-- `sendflags & QUICER_SEND_FLAGS_SYNC`, which is 0x1000, and `sendflags &= ~QUICER_SEND_FLAGS_SYNC`.
abbrev pub flags_sync : ℕ
flags_sync = 0x1000

abbrev pub has_sync : ℕ → Bool
has_sync flags = (flags / flags_sync) % 2 == 1

abbrev pub clear_sync : ℕ → ℕ
clear_sync flags = if has_sync flags then flags - flags_sync else flags

abbrev pub uint32_max : ℕ
uint32_max = 2 ^ 32 - 1

-- The payload, unless it is no binary or too long for the 32-bit length of a `QUIC_BUFFER`.
unfoldable pub payload : (nif : Nif) → Nif.Term nif → Option (List ℕ)
payload nif ebin = elim (nif.inspect ebin) [
  | none ↦ none
  | some bin ↦ if ltb uint32_max (length bin) then none else some bin
]

-- The part of `send3` under the lock: `sent` is the status that `StreamSend` answers.
unfoldable pub send_locked : Nif → Status → StreamCtx → List ℕ → ℕ → Run Reply
send_locked nif sent s bin flags =
    let call = send_stream s.stream bin flags in
    if nif.failed sent
    then done s (alloc_send_ctx ∷ call ∷ destroy_send_ctx ∷ [])
        (error3 Atom.stream_send_error (status sent))
    else done s (alloc_send_ctx ∷ call ∷ []) (ok_with (eterm_int (length bin)))

-- A send context that is given up before `StreamSend`.
unfoldable pub give_up_send : StreamCtx → Run Reply
give_up_send s = done s (alloc_send_ctx ∷ destroy_send_ctx ∷ []) (error (atom Atom.badarg))

unfoldable pub send_checked : Nif → Status → StreamCtx → Option ℕ → Option (List ℕ) → Run Reply
unfolding send_locked give_up_send
send_checked nif sent s none bin = give_up_send s
send_checked nif sent s (some flags) none = give_up_send s
send_checked nif sent s (some flags) (some bin) = send_locked nif sent s bin (clear_sync flags)

unfoldable pub send3 :
    (nif : Nif)
    → (allocated : Bool) → Status
    → Option StreamCtx
    → (ebin eflags : Nif.Term nif) → Run Reply
unfolding send_checked payload
send3 nif allocated sent none ebin eflags = refused (error (atom Atom.badarg))
send3 nif allocated sent (some s) ebin eflags =
    if allocated
    then send_checked nif sent s (nif.get_uint eflags) (payload nif ebin)
    else refused (error (atom Atom.not_enough_memory))

-- The flags and the code are only read; a value that is no `unsigned int` leaves the variable 0 and
-- sets the reply, and the stream is shut down all the same.
unfoldable pub read_uint : Option ℕ → ℕ
read_uint none = 0
read_uint (some n) = n

unfoldable pub shutdown_reply : Nif → Status → Option ℕ → Option ℕ → Reply
shutdown_reply nif st none code =
    if nif.failed st then error (status st) else error (atom Atom.badarg)
shutdown_reply nif st (some _) none =
    if nif.failed st then error (status st) else error (atom Atom.badarg)
shutdown_reply nif st (some _) (some _) = if nif.failed st then error (status st) else ok

unfoldable pub shutdown_stream3 :
    (nif : Nif) → Status → Option StreamCtx → (eflags ecode : Nif.Term nif) → Run Reply
unfolding read_uint shutdown_reply
shutdown_stream3 nif st none eflags ecode = refused (error (atom Atom.badarg))
shutdown_stream3 nif st (some s) eflags ecode =
    done s
      (shutdown_stream_raw s.stream (read_uint (nif.get_uint eflags))
          (read_uint (nif.get_uint ecode))
        ∷ [])
      (shutdown_reply nif st (nif.get_uint eflags) (nif.get_uint ecode))
