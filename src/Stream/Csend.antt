-- ===== src/Stream/Csend.antt =====
-- csend4 of c_src/quicer_stream.c: open a stream, start it and send on it, in one call.
use Prim.Native.Nat.{bit_or}
use quicer.Prelude.{ℕ, not, Option, none, some, List, [], ◌∷◌, ◌++◌, if◌then◌else◌}
use quicer.Nif.{Nif, Reply, ok_with, error, error3, atom, status, handle}
use quicer.Nif.Atoms.{Atom}
use quicer.Queue.{Acceptor, acceptor_alloc, set_owner_recv_mode}
use quicer.Config.Read.{get_uint32_from_map}
use quicer.Stream.State.{
  StreamCtx, Effect, open_stream, send_stream, keep_connection, alloc_send_ctx, destroy_send_ctx,
  alloc_s_ctx, destroy_s_ctx, Run, refused, fault, done,
}
use quicer.Stream.Send.{clear_sync, payload}
use quicer.Stream.Open.{Answers, optional_flag, new_stream, set_mask}

-- `ErrorExit`: both contexts are destroyed.
unfoldable pub csend_give_up : StreamCtx → List Effect → Reply → Run Reply
csend_give_up s fx r = done s (fx ++ (destroy_send_ctx ∷ destroy_s_ctx ∷ [])) r

-- The stream is open: the payload is read and sent, with the flag that starts the stream.
unfoldable pub csend_opened :
    Nif → Answers → StreamCtx → List Effect → ℕ → Option (List ℕ) → Run Reply
unfolding csend_give_up
csend_opened nif a s fx flags none = csend_give_up s fx (error (atom Atom.badarg))
csend_opened nif a s fx flags (some bin) =
    let fx' = fx ++ (send_stream s.stream bin (bit_or flags nif.send_flag_start) ∷ []) in
    if nif.failed a.sent
    then csend_give_up s fx' (error3 Atom.stream_send_error (status a.sent))
    else done s fx' (ok_with (handle s.handle))

unfoldable pub csend_owned :
    Nif
    → Answers
    → StreamCtx
    → List Effect
    → (open_flag flags : ℕ) → Option (List ℕ)
    → Option Acceptor
    → Run Reply
unfolding csend_opened
csend_owned nif a s fx open_flag flags bin none = csend_give_up s fx (error (atom Atom.badarg))
csend_owned nif a s fx open_flag flags bin (some owner) =
    let fx' = fx ++ (open_stream s.connection open_flag ∷ []) in
    let t = record s { owner = owner } in
    if nif.failed a.opened
    then csend_give_up t fx' (error3 Atom.stream_open_error (status a.opened))
    else csend_opened nif a (record t { stream = a.opened_stream }) fx' flags bin

-- `flags` is what `enif_get_uint` reads of the send flags.
unfoldable pub csend_flags :
    (nif : Nif)
    → Answers
    → StreamCtx
    → List Effect
    → (open_flag : ℕ) → (flags mask : Option ℕ) → Option (List ℕ)
    → (active_val : Nif.Term nif) → Run Reply
unfolding csend_owned
csend_flags nif a s fx open_flag none mask bin active_val =
    csend_give_up s fx (error (atom Atom.badarg))
csend_flags nif a s fx open_flag (some flags) mask bin active_val =
    csend_owned nif a (set_mask s mask) fx open_flag (clear_sync flags) bin
      (set_owner_recv_mode nif s.owner active_val)

unfoldable pub csend_caller :
    (nif : Nif)
    → Answers
    → (connection open_flag : ℕ) → (flags mask : Option ℕ) → Option (List ℕ)
    → (active_val : Nif.Term nif) → (pid : Option ℕ) → Run Reply
unfolding csend_flags new_stream acceptor_alloc
csend_caller nif a connection open_flag flags mask bin active_val none =
    csend_give_up (new_stream connection acceptor_alloc a.new_handle none)
      (alloc_s_ctx ∷ keep_connection connection ∷ alloc_send_ctx ∷ []) (error (atom Atom.bad_pid))
csend_caller nif a connection open_flag flags mask bin active_val (some pid) =
    csend_flags nif a
      (new_stream connection (record acceptor_alloc { pid = pid }) a.new_handle none)
      (alloc_s_ctx ∷ keep_connection connection ∷ alloc_send_ctx ∷ []) open_flag flags mask bin
      active_val

-- Without memory for the send context, `ErrorExit` hands NULL to `destroy_send_ctx`, which reads
-- through it; without memory for the acceptor, `AcceptorAlloc` writes through NULL.
unfoldable pub csend4 :
    (nif : Nif) → Answers → (c_ctx : Option ℕ) → (ebin eoptions eflags : Nif.Term nif) → Run Reply
unfolding csend_caller optional_flag payload
csend4 nif a none ebin eoptions eflags = refused (error (atom Atom.badarg))
csend4 nif a (some c_ctx) ebin eoptions eflags = elim (nif.get_map_value eoptions Atom.active) [
  | none ↦ refused (error (atom Atom.badarg))
  | some active_val ↦ elim (optional_flag nif (nif.get_map_value eoptions Atom.open_flag)) [
    | none ↦ refused (error (atom Atom.badarg))
    | some open_flag ↦ elim (nif.get_map_value eoptions Atom.start_flag) [
      | some start_flag ↦ refused (error (atom Atom.badarg))
      | none ↦
          if not a.s_ctx_allocated
          then refused (error (atom Atom.not_enough_memory))
          else if not a.send_ctx_allocated
          then fault
          else if not a.acceptor_allocated
          then fault
          else csend_caller nif a c_ctx open_flag (nif.get_uint eflags)
              (get_uint32_from_map nif eoptions Atom.quic_event_mask) (payload nif ebin) active_val
              a.self
    ]
  ]
]
