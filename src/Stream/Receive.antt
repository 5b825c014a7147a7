-- ===== src/Stream/Receive.antt =====
-- Receiving on a stream: recvbuffer_flush, recv2, handle_stream_event_recv and reset_stream_recv of
-- c_src/quicer_stream.c, and the `active` option of c_src/quicer_config.c.
use quicer.Prelude.{
  ℕ, zero, suc, ◌-◌, Bool, true, false, not, ◌&&◌, ◌||◌, Option, none, some, List, [], ◌∷◌, ◌++◌,
  length, take, ltb, leb, ◌==◌, if◌then◌else◌,
}
use quicer.Nif.{
  eterm_int, Nif, Status, Reply, ok, ok_with, error, event, event_with_props, atom, uint, binary,
  status,
}
use mathlib.Core.Option
use quicer.Nif.Atoms.{Atom}
use quicer.Queue.{Acceptor, RecvMode, passive, active, once, multi, set_owner_recv_mode}
use quicer.Stream.State.{
  StreamCtx, Effect, receive_complete, receive_set_enabled, shutdown_stream, send_message, graceful,
  Run, refused, fault, done,
}

-- The copying loop over `Buffers`, with `size` bytes to go; `none` is a read beyond the last buffer.
unfoldable pub flush_loop : List (List ℕ) → ℕ → Option (List ℕ)
flush_loop buffers zero = some []
flush_loop [] (suc n) = none
flush_loop (b ∷ bs) (suc n) =
    let rest = flush_loop bs (suc n - length b) in
    if leb (length b) (suc n) then Option.map (◌++◌ b) rest else some (take (suc n) b)

-- The bytes of `bin`, whose number is the result; `none` is a failed assertion or such a read.
unfoldable pub recvbuffer_flush : StreamCtx → ℕ → Option (List ℕ)
unfolding flush_loop
recvbuffer_flush s req_len =
    let size = if req_len == 0 then s.total_buffer_length else req_len in
    if ltb s.total_buffer_length req_len || size == 0
    then none
    else flush_loop (s.buffer0 ∷ s.buffer1 ∷ []) size

unfoldable pub reset_stream_recv : StreamCtx → StreamCtx
reset_stream_recv s = record s {
  buffer0 = [];
  buffer1 = [];
  is_recv_pending = false;
  total_buffer_length = 0;
}

-- The branch of `recv2` for a ready buffer.
unfoldable pub recv_ready : StreamCtx → Option (List ℕ) → Run Reply
unfolding reset_stream_recv
recv_ready s none = fault
recv_ready s (some bin) =
    let t = reset_stream_recv s in
    done (if ltb 0 (length bin) then record t { is_wait_for_data = false } else t)
      (receive_complete s.stream (length bin) ∷ []) (ok_with (binary bin))

-- The branch that asks MsQuic for more; `set_enabled` is the status that it answers.
unfoldable pub recv_more : Nif → Status → StreamCtx → Run Reply
recv_more nif set_enabled s =
    done (record s { is_wait_for_data = true })
      ((if s.is_recv_pending then receive_complete s.stream 0 ∷ [] else [])
        ++ (receive_set_enabled s.stream true ∷ []))
      (if nif.failed set_enabled then error (status set_enabled) else ok_with (atom Atom.not_ready))

abbrev pub is_passive : RecvMode → Bool
is_passive passive = true
is_passive _ = false

-- `recv2` below the reading of its arguments.
unfoldable pub recv_locked : Nif → Status → StreamCtx → ℕ → Run Reply
unfolding recvbuffer_flush recv_ready recv_more
recv_locked nif set_enabled s size_req =
    if not (is_passive s.owner.active)
    then done s [] (error (atom Atom.einval))
    else if s.is_recv_pending && ltb 0 s.total_buffer_length
    then recv_ready s (
        recvbuffer_flush s
          (if ltb s.total_buffer_length size_req then s.total_buffer_length else size_req))
    else recv_more nif set_enabled s

-- The first argument is the context that `enif_get_resource` finds.
unfoldable pub recv2 : (nif : Nif) → Status → Option StreamCtx → Nif.Term nif → Run Reply
unfolding recv_locked
recv2 nif set_enabled none size = refused (error (atom Atom.badarg))
recv2 nif set_enabled (some s) size = elim (nif.get_uint64 size) [
  | none ↦ refused (error (atom Atom.badarg))
  | some size_req ↦ recv_locked nif set_enabled s size_req
]

-- `Event->RECEIVE`: the first two buffers that it points at.
pub record RecvEvent : Type 0 where
  pub first : List ℕ
  pub second : List ℕ
  pub count : ℕ
  pub total : ℕ
  pub absolute_offset : ℕ
  pub flags : ℕ

-- The context keeps pointers into MsQuic's buffers. The bytes here stand for what those hold while the
-- indication is outstanding; behind its completion the buffers are MsQuic's again.
unfoldable pub store_event : StreamCtx → RecvEvent → StreamCtx
store_event s e = record s {
  buffer0 = e.first;
  buffer1 = e.second;
  buffer_count = e.count;
  total_buffer_length = e.total;
}

-- Passive receive; `sent` is what `enif_send` answers for the notification.
unfoldable pub recv_passive : Bool → StreamCtx → Run Status
recv_passive sent s =
    let notice =
      send_message s.owner.pid (event (atom Atom.continue) s.handle (atom Atom.undefined)) in
    let down = shutdown_stream s.stream (graceful ∷ []) Status.unreachable in
    done (record s { is_recv_pending = true })
      (if s.is_wait_for_data then (if sent then notice ∷ [] else notice ∷ down ∷ []) else [])
      Status.pending

-- The report of received data to the owner.
unfoldable pub report_active : StreamCtx → RecvEvent → List ℕ → Effect
report_active s e bin = send_message s.owner.pid (
    event_with_props (binary bin) s.handle (
      (Atom.absolute_offset, uint e.absolute_offset)
      ∷ (Atom.len, uint e.total)
      ∷ (Atom.flags, eterm_int e.flags)
      ∷ []))

-- The counted mode: a decrement of the `uint16_t`, and the switch to passive at zero.
unfoldable pub count_down : StreamCtx → Effect → Run Status
count_down s report =
    if s.owner.active_count == 0
    then fault
    else if s.owner.active_count - 1 == 0
    then done (record s { owner = record s.owner { active_count = 0; active = passive } })
        (receive_set_enabled s.stream false
          ∷ report
          ∷ send_message s.owner.pid (event (atom Atom.passive) s.handle (atom Atom.undefined))
          ∷ [])
        Status.success
    else done (record s { owner = record s.owner { active_count = s.owner.active_count - 1 } })
        (report ∷ []) Status.success

unfoldable pub deliver : RecvMode → StreamCtx → Effect → Run Status
unfolding count_down
deliver passive s report = fault
deliver active s report = done s (report ∷ []) Status.success
deliver once s report =
    done (record s { owner = record s.owner { active_count = 0; active = passive } }) (report ∷ [])
      Status.success
deliver multi s report = count_down s report

unfoldable pub recv_active : StreamCtx → RecvEvent → Option (List ℕ) → Run Status
unfolding report_active deliver
recv_active s e none = fault
recv_active s e (some bin) = deliver s.owner.active s (report_active s e bin)

unfoldable pub handle_stream_event_recv : Nif → Bool → StreamCtx → RecvEvent → Run Status
unfolding store_event recv_passive recv_active
handle_stream_event_recv nif sent s e =
    if not (ltb 0 e.count || e.flags == nif.receive_flag_fin)
    then fault
    else let t = store_event s e in
      if e.total == 0
      then done t [] Status.success
      else if is_passive s.owner.active
      then recv_passive sent t
      else recv_active t e (recvbuffer_flush t 0)

-- What wakes MsQuic up when bytes are held for a passive owner that turns active.
unfoldable pub wake : (nif : Nif) → StreamCtx → Nif.Term nif → List Effect
wake nif s optval =
    if is_passive s.owner.active
      && not (nif.is_same optval Atom.false)
      && ltb 0 s.total_buffer_length
    then (if s.is_recv_pending then receive_complete s.stream 0 ∷ [] else [])
      ++ (receive_set_enabled s.stream true ∷ [])
    else []

unfoldable pub store_mode : StreamCtx → List Effect → Option Acceptor → Run Reply
store_mode s fx none = done s fx (error (atom Atom.param_error))
store_mode s fx (some owner) = done (record s { owner = owner }) fx ok

-- The option `active` of `set_stream_opt`, which the code handles before all others.
unfoldable pub set_active : (nif : Nif) → StreamCtx → Nif.Term nif → Run Reply
unfolding wake store_mode
set_active nif s optval = store_mode s (wake nif s optval) (set_owner_recv_mode nif s.owner optval)
