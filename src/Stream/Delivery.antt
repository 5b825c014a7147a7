-- ===== src/Stream/Delivery.antt =====
-- No byte of the stream is lost, duplicated or reordered on its way to the owner.
use quicer.Prelude.{
  ℕ, ◌+◌, ◌-◌, ◌≤◌, ◌<◌, ◌≡◌, refl, sym, ap, ◌∙◌, Bool, true, false, ◌&&◌, Option, none, some, List,
  [], ◌++◌, arith, length, take, drop, take-add, take-take, ltb, ◌==◌, if◌then◌else◌, Bool-cases,
  ◌⊎◌, inl, inr, length-take,
}
use quicer.Nif.{Nif, Status}
use quicer.Nif.Atoms.{Atom}
use quicer.Queue.{set_owner_recv_mode, Acceptor, RecvMode, passive, active, once, multi}
use quicer.Stream.State.{StreamCtx}
use quicer.Stream.Receive.{
  RecvEvent, is_passive, recv_locked, recv_ready, recv_more, recv_passive, recv_active, deliver,
  report_active, handle_stream_event_recv, wake, store_mode, set_active, recvbuffer_flush,
  store_event,
}
use quicer.Stream.Buffers.{contents, flush_size, recvbuffer_flush-take}
use quicer.Stream.Flow.{
  Flow, apply_effects, after_status, after_reply, Indicates, IsFaithful, Ends, after_recv,
  after_indication,
}

-- The next bytes, behind those already taken.
take_next :
    (c k m : ℕ) (buffer peer : List ℕ)
    → k ≤ m
    → take m buffer ≡ take m (drop c peer)
    → take c peer ++ take k buffer ≡ take (c + k) peer
take_next c k m buffer peer h e =
    ap (λ xs. take c peer ++ xs)
      (sym (take-take k m buffer h) ∙ ap (take k) e ∙ take-take k m (drop c peer) h)
    ∙ take-add c k peer

-- With nothing outstanding, what was received is all there is to say.
idle-IsFaithful :
    (f : Flow)
    → f.received ≡ take f.consumed f.peer
    → f.ctx.is_recv_pending ≡ false
    → f.outstanding ≡ false
    → IsFaithful f
idle-IsFaithful f r p o = record {
  received_eq = r;
  in_sync = p ∙ sym o;
  some_bytes = λ e. cc;
  held = λ e. cc;
  next = λ e. cc;
}

-- What `recv2` asks of `recvbuffer_flush`.
abbrev asked : StreamCtx → ℕ → ℕ
asked s n = if ltb s.total_buffer_length n then s.total_buffer_length else n

module _ (f : Flow) (n : ℕ) (v : IsFaithful f) (open_ : f.outstanding ≡ true) where
  abbrev size : ℕ
  size = flush_size f.ctx (asked f.ctx n)

  size_le : size ≤ f.ctx.total_buffer_length
  size_le = ground arith

  flushed : recvbuffer_flush f.ctx (asked f.ctx n) ≡ some (take size (contents f.ctx))
  flushed =
      recvbuffer_flush-take f.ctx (asked f.ctx n) (v.some_bytes open_) (v.held open_) (ground arith)

  ready-IsFaithful :
      Ends
        (λ t fx r. IsFaithful (after_recv f t fx r))
        (recv_ready f.ctx (some (take size (contents f.ctx))))
  unfolding recv_ready apply_effects after_reply
  ready-IsFaithful =
      let bin = take size (contents f.ctx) in
      let long : length bin ≡ size =
        omega (arith, length-take size (contents f.ctx), v.held open_, size_le) in
      record {
        received_eq =
            rw (v.received_eq, long)
              (take_next f.consumed size f.ctx.total_buffer_length (contents f.ctx) f.peer size_le
                (v.next open_));
        in_sync = ground arith;
        some_bytes = λ e. cc;
        held = λ e. cc;
        next = λ e. cc;
      }

-- On a faithful stream `recv2` ends without a fault and keeps it faithful, on each of its
-- branches.
pub recv_locked-IsFaithful :
    (nif : Nif) (set_enabled : Status) (n : ℕ) (f : Flow)
    → IsFaithful f
    → Ends (λ t fx r. IsFaithful (after_recv f t fx r)) (recv_locked nif set_enabled f.ctx n)
unfolding recv_locked recv_more apply_effects after_reply
recv_locked-IsFaithful nif set_enabled n f v = elim (Bool-cases (is_passive f.ctx.owner.active)) [
  | inr busy ↦ rw busy v
  | inl idle ↦ elim (Bool-cases f.outstanding) [
    | inl open_ ↦
        let ready : (f.ctx.is_recv_pending && ltb 0 f.ctx.total_buffer_length) ≡ true =
          ground (arith, v.in_sync, v.some_bytes open_) in
        rw (idle, ready, flushed f n v open_) (ready-IsFaithful f n v open_)
    | inr shut ↦
        let quiet : f.ctx.is_recv_pending ≡ false = v.in_sync ∙ shut in
        elim (Bool-cases (nif.failed set_enabled)) [
          | inl bad ↦ rw (idle, quiet, bad) (idle-IsFaithful _ v.received_eq refl shut)
          | inr good ↦ rw (idle, quiet, good) (idle-IsFaithful _ v.received_eq refl shut)
        ]
  ]
]

-- The counted mode has receives left.
abbrev pub HasCredit : Acceptor → Type 0
HasCredit a = a.active ≡ multi → 0 < a.active_count

module _ (f : Flow) (e : RecvEvent) (v : IsFaithful f) (shut : f.outstanding ≡ false)
    (shows : Indicates f e) where
  -- Without a byte the event changes nothing but the empty buffers.
  empty-IsFaithful :
      e.total ≡ 0 → IsFaithful (after_indication f e.total (store_event f.ctx e) [] Status.success)
  unfolding apply_effects after_status store_event
  empty-IsFaithful none_there =
      idle-IsFaithful _ (rw none_there (v.received_eq ∙ ap (λ k. take k f.peer) (omega arith)))
        (v.in_sync ∙ shut) shut

  -- Passive: the bytes stay in the buffers, and the indication stays open.
  passive-IsFaithful :
      (sent : Bool)
      → 0 < e.total
      → Ends
          (λ t fx st. IsFaithful (after_indication f e.total t fx st))
          (recv_passive sent (store_event f.ctx e))
  unfolding recv_passive apply_effects after_status store_event
  passive-IsFaithful sent some_there =
      let opened : IsFaithful (record f {
        ctx = record (store_event f.ctx e) { is_recv_pending = true };
        outstanding = true;
      }) =
        record {
          received_eq = v.received_eq;
          in_sync = refl;
          some_bytes = λ _. some_there;
          held = λ _. shows.held;
          next = λ _. shows.next;
        } in
      elim (Bool-cases f.ctx.is_wait_for_data) [
        | inr calm ↦ rw calm (rw calm at opened)
        | inl waiting ↦ elim (Bool-cases sent) [
          | inl told ↦ rw (waiting, told) (rw waiting at opened)
          | inr dead ↦ rw (waiting, dead) (rw waiting at opened)
        ]
      ]

  -- The other modes: all bytes go to the owner.
  taken : f.received ++ take e.total (e.first ++ e.second) ≡ take (f.consumed + e.total) f.peer
  taken =
      rw v.received_eq
        (take_next f.consumed e.total e.total (e.first ++ e.second) f.peer (omega arith) shows.next)

  active-IsFaithful :
      (m : RecvMode)
      → HasCredit f.ctx.owner
      → f.ctx.owner.active ≡ m
      → is_passive m ≡ false
      → Ends
          (λ t fx st. IsFaithful (after_indication f e.total t fx st))
          (deliver m
            (store_event f.ctx e)
            (report_active (store_event f.ctx e) e (take e.total (e.first ++ e.second))))
  unfolding deliver report_active apply_effects after_status store_event
  active-IsFaithful passive credit is busy = cc
  active-IsFaithful active credit is busy = idle-IsFaithful _ taken (v.in_sync ∙ shut) shut
  active-IsFaithful once credit is busy = idle-IsFaithful _ taken (v.in_sync ∙ shut) shut
  active-IsFaithful multi credit is busy =
      let some_left : (f.ctx.owner.active_count == 0) ≡ false = ground (arith, credit is) in
      rw some_left (elim (Bool-cases (f.ctx.owner.active_count - 1 == 0)) [
        | inl last ↦ rw last (idle-IsFaithful _ taken (v.in_sync ∙ shut) shut)
        | inr more ↦ rw more (idle-IsFaithful _ taken (v.in_sync ∙ shut) shut)
      ])

-- On an indication of the next bytes of a faithful stream, with no other outstanding and receives
-- left if the mode is the counted one, the receive callback ends without a fault and keeps the
-- stream faithful, in each receive mode.
pub handle_stream_event_recv-IsFaithful :
    (nif : Nif) (sent : Bool) (f : Flow) (e : RecvEvent)
    → IsFaithful f
    → f.outstanding ≡ false
    → Indicates f e
    → HasCredit f.ctx.owner
    → Ends
        (λ t fx st. IsFaithful (after_indication f e.total t fx st))
        (handle_stream_event_recv nif sent f.ctx e)
unfolding handle_stream_event_recv store_event
handle_stream_event_recv-IsFaithful nif sent f e v shut shows credit =
    let counted : ltb 0 e.count ≡ true = ground (arith, shows.buffers) in
    elim (Bool-cases (e.total == 0)) [
      | inl nothing ↦ rw (counted, nothing) (empty-IsFaithful f e v shut shows (ground arith))
      | inr bytes ↦ elim (Bool-cases (is_passive f.ctx.owner.active)) [
        | inl idle ↦
            rw (counted, bytes, idle) (passive-IsFaithful f e v shut shows sent (ground arith))
        | inr busy ↦
            let flushed : recvbuffer_flush (store_event f.ctx e) 0
                ≡ some (take e.total (e.first ++ e.second)) =
              recvbuffer_flush-take (store_event f.ctx e) 0 (ground arith) shows.held
                (ground arith) in
            rw (counted, bytes, busy, flushed, recv_active)
              (active-IsFaithful f e v shut shows f.ctx.owner.active credit refl busy)
      ]
    ]

wake_quiet :
    (nif : Nif) (f : Flow) (s : StreamCtx) (t : Nif.Term nif)
    → s.is_recv_pending ≡ false
    → apply_effects f (wake nif s t) ≡ f
unfolding wake apply_effects
wake_quiet nif f s t quiet = ground arith

-- Turning passive wakes nobody up.
wake_false :
    (nif : Nif) (f : Flow) (s : StreamCtx) (t : Nif.Term nif)
    → nif.is_same t Atom.false ≡ true
    → apply_effects f (wake nif s t) ≡ f
unfolding wake apply_effects
wake_false nif f s t off = ground arith

owner-IsFaithful :
    (f : Flow) (owner : Acceptor)
    → IsFaithful f
    → IsFaithful (record f { ctx = record f.ctx { owner = owner } })
owner-IsFaithful f owner v = record {
  received_eq = v.received_eq;
  in_sync = v.in_sync;
  some_bytes = v.some_bytes;
  held = v.held;
  next = v.next;
}

-- On a faithful stream a change of the option `active` ends without a fault and keeps the stream
-- faithful: whatever the new value is while no indication is outstanding, and while one is
-- outstanding if the new value is `false`.
pub set_active-IsFaithful :
    (nif : Nif) (f : Flow) (t : Nif.Term nif)
    → IsFaithful f
    → (f.outstanding ≡ false) ⊎ (nif.is_same t Atom.false ≡ true)
    → Ends (λ t fx r. IsFaithful (after_recv f t fx r)) (set_active nif f.ctx t)
unfolding set_active
set_active-IsFaithful nif f t v still = go (set_owner_recv_mode nif f.ctx.owner t)
  where
    untouched : (g : Flow) → apply_effects g (wake nif f.ctx t) ≡ g
    untouched g = elim still [
      | inl shut ↦ wake_quiet nif g f.ctx t (v.in_sync ∙ shut)
      | inr off ↦ wake_false nif g f.ctx t off
    ]

    go :
        (o : Option Acceptor)
        → Ends (λ t fx r. IsFaithful (after_recv f t fx r)) (store_mode f.ctx (wake nif f.ctx t) o)
    go none = rw (untouched (record f { ctx = f.ctx })) (unfold after_reply in v)
    go (some owner) =
        rw (untouched (record f { ctx = record f.ctx { owner = owner } }))
          (unfold after_reply in owner-IsFaithful f owner v)
