-- ===== src/Stream/Open.antt =====
-- Opening and accepting streams: async_start_stream2, async_accept_stream2 and csend4 of
-- c_src/quicer_stream.c. The arity is checked by the runtime, so `argc` is left out.
use quicer.Prelude.{ℕ, Bool, not, Option, none, some, List, [], ◌∷◌, ◌++◌, if◌then◌else◌}
use quicer.Nif.{Nif, Status, Reply, ok_with, error, error3, atom, status, handle}
use quicer.Nif.Atoms.{Atom}
use quicer.Queue.{Acceptor, acceptor_alloc, set_owner_recv_mode}
use quicer.Config.Read.{get_uint32_from_map}
use quicer.Stream.State.{
  StreamCtx, init_s_ctx, Effect, open_stream, start_stream, keep_connection, alloc_s_ctx,
  destroy_s_ctx, enqueue_acceptor, Run, refused, fault, done,
}

-- What the allocators, the runtime and MsQuic answer during one call.
pub record Answers : Type 0 where
  pub s_ctx_allocated : Bool
  pub send_ctx_allocated : Bool
  pub acceptor_allocated : Bool
  pub self : Option ℕ
  pub self_is_alive : Bool
  pub new_handle : ℕ
  pub opened : Status
  pub opened_stream : ℕ
  pub started : Status
  pub sent : Status

-- An optional flag: absent, it is 0; present, it must be an `unsigned int`.
unfoldable pub optional_flag : (nif : Nif) → Option (Nif.Term nif) → Option ℕ
optional_flag nif none = some 0
optional_flag nif (some t) = nif.get_uint t

-- The mask stays as it is where the map holds no valid one.
unfoldable pub set_mask : StreamCtx → Option ℕ → StreamCtx
set_mask s none = s
set_mask s (some m) = record s { event_mask = m }

-- A new context of the connection, and its reference to it.
unfoldable pub new_stream : ℕ → Acceptor → ℕ → Option ℕ → StreamCtx
unfolding init_s_ctx set_mask
new_stream connection owner new_handle mask =
    set_mask (record (init_s_ctx owner new_handle) { connection = connection }) mask

-- Once the stream is open it is started. If that fails the callback closes the context.
unfoldable pub start_opened : Nif → Answers → StreamCtx → ℕ → List Effect → Run Reply
start_opened nif a s start_flag fx =
    done (record s { stream = a.opened_stream })
      (fx ++ (start_stream a.opened_stream start_flag ∷ []))
      (if nif.failed a.started
        then error3 Atom.stream_start_error (status a.started)
        else ok_with (handle s.handle))

unfoldable pub give_up_stream : StreamCtx → List Effect → Reply → Run Reply
give_up_stream s fx r = done s (fx ++ (destroy_s_ctx ∷ [])) r

-- Behind the allocation of the context: the owner is the caller, in the mode asked for.
unfoldable pub start_owned :
    Nif
    → Answers
    → (connection open_flag start_flag : ℕ) → (mask pid : Option ℕ) → (Acceptor → Option Acceptor)
    → Run Reply
unfolding new_stream start_opened give_up_stream acceptor_alloc
start_owned nif a connection open_flag start_flag mask none recv_mode =
    give_up_stream (new_stream connection acceptor_alloc a.new_handle mask)
      (alloc_s_ctx ∷ keep_connection connection ∷ []) (error (atom Atom.bad_pid))
start_owned nif a connection open_flag start_flag mask (some pid) recv_mode =
    let fx = alloc_s_ctx ∷ keep_connection connection ∷ [] in
    let caller = record acceptor_alloc { pid = pid } in
    elim (recv_mode caller) [
      | none ↦
          give_up_stream (new_stream connection caller a.new_handle mask) fx
            (error (atom Atom.badarg))
      | some owner ↦
          let s = new_stream connection owner a.new_handle mask in
          let fx' = fx ++ (open_stream connection open_flag ∷ []) in
          if nif.failed a.opened
          then give_up_stream s fx' (error3 Atom.stream_open_error (status a.opened))
          else start_opened nif a s start_flag fx'
    ]

-- `c_ctx` is the connection that `enif_get_resource` finds. `AcceptorAlloc` clears the memory before
-- any check, so a failed allocation is a fault.
unfoldable pub async_start_stream2 :
    (nif : Nif) → Answers → (c_ctx : Option ℕ) → (eoptions : Nif.Term nif) → Run Reply
unfolding start_owned optional_flag
async_start_stream2 nif a none eoptions = refused (error (atom Atom.badarg))
async_start_stream2 nif a (some c_ctx) eoptions = elim (nif.get_map_value eoptions Atom.active) [
  | none ↦ refused (error (atom Atom.badarg))
  | some active_val ↦ elim (optional_flag nif (nif.get_map_value eoptions Atom.open_flag)) [
    | none ↦ refused (error (atom Atom.badarg))
    | some open_flag ↦ elim (optional_flag nif (nif.get_map_value eoptions Atom.start_flag)) [
      | none ↦ refused (error (atom Atom.badarg))
      | some start_flag ↦
          if not a.s_ctx_allocated
          then refused (error (atom Atom.not_enough_memory))
          else if not a.acceptor_allocated
          then fault
          else start_owned nif a c_ctx open_flag start_flag
              (get_uint32_from_map nif eoptions Atom.quic_event_mask) a.self
              (λ o. set_owner_recv_mode nif o active_val)
    ]
  ]
]

-- `async_accept_stream2` behind its allocation: the acceptor joins the queue of the connection.
-- The acceptor is freed where an error is returned.
unfoldable pub accept_owned : ℕ → Option Acceptor → Reply × List Effect
accept_owned c_ctx none = (error (atom Atom.param_error), [])
accept_owned c_ctx (some acceptor) = (ok_with (handle c_ctx), enqueue_acceptor acceptor ∷ [])

unfoldable pub accept_caller :
    Answers → ℕ → Option ℕ → (Acceptor → Option Acceptor) → Reply × List Effect
unfolding accept_owned acceptor_alloc
accept_caller a c_ctx none recv_mode = (error (atom Atom.bad_pid), [])
accept_caller a c_ctx (some pid) recv_mode =
    if a.self_is_alive
    then accept_owned c_ctx (recv_mode (record acceptor_alloc { pid = pid }))
    else (error (atom Atom.owner_dead), [])

-- `none` is the fault of `AcceptorAlloc` without memory.
unfoldable pub async_accept_stream2 :
    (nif : Nif)
    → Answers
    → (c_ctx : Option ℕ) → (eoptions : Nif.Term nif) → Option (Reply × List Effect)
unfolding accept_caller
async_accept_stream2 nif a none eoptions = some (error (atom Atom.badarg), [])
async_accept_stream2 nif a (some c_ctx) eoptions = elim (nif.get_map_value eoptions Atom.active) [
  | none ↦ some (error (atom Atom.badarg), [])
  | some active_val ↦
      if a.acceptor_allocated
      then some (accept_caller a c_ctx a.self (λ o. set_owner_recv_mode nif o active_val))
      else none
]
