-- ===== src/Connection/Serving.antt =====
-- Who gets the streams of the peer: the stream acceptors in their order, and then the owner.
use quicer.Prelude.{
  ℕ, ◌+◌, ◌≤◌, ◌≡◌, refl, Bool, true, false, Option, none, some, List, [], ◌∷◌, ◌++◌, arith, tally,
  ◌==◌, ◌%◌, ◌^◌,
}
use quicer.Prelude.Int.{pos}
use quicer.Nif.{Nif, Status}
use quicer.Nif.Atoms.{Atom}
use quicer.Queue.{
  Acceptor, AcceptorQueue, passive, multi, int16_max, acceptor_enqueue, acceptor_dequeue,
  set_owner_recv_mode,
}
use quicer.Stream.State.{StreamCtx}
use quicer.Connection.State.{
  ConnCtx, StreamCallback, Effect, set_callback_handler, Run, fault, done,
}
use quicer.Connection.Incoming.{
  Answers, orphan_owner, incoming, adopt, handle_connection_event_peer_stream_started,
}
use quicer.Connection.Closing.{keep_weight, release_weight}

-- The contexts for which MsQuic gets a callback, and those allocated.
abbrev pub handed : List Effect → List StreamCtx
handed [] = []
handed (set_callback_handler cb s ∷ fx) = s ∷ handed fx
handed (_ ∷ fx) = handed fx

abbrev pub owners : List StreamCtx → List Acceptor
owners [] = []
owners (s ∷ ss) = s.owner ∷ owners ss

-- What happens at a connection, in the order of its lock: a process waits for a stream, or the peer
-- opens one, whose announcement reaches a process or finds it dead.
pub data Action : Type 0 where
  wait : Acceptor → Action
  start : (new_handle stream flags : ℕ) → (sent : Bool) → Action

abbrev pub answers : ℕ → Bool → Answers
answers new_handle sent = record {
  s_ctx_allocated = true;
  acceptor_allocated = true;
  new_handle = new_handle;
  sent = sent;
}

-- The context afterwards, and the contexts of streams that were handed over.
unfoldable pub continued : Run Status → Option (ConnCtx × List StreamCtx)
continued fault = none
continued (done c fx st) = some (c, handed fx)

unfoldable pub act : StreamCallback → ConnCtx → Action → Option (ConnCtx × List StreamCtx)
unfolding continued handle_connection_event_peer_stream_started acceptor_enqueue
act cb c (wait acc) = some (record c { acceptor_queue = acceptor_enqueue c.acceptor_queue acc }, [])
act cb c (start new_handle stream flags sent) =
    continued
      (handle_connection_event_peer_stream_started (answers new_handle sent) cb c stream flags)

abbrev pub and_then :
    Option (ConnCtx × List StreamCtx)
    → (ConnCtx → Option (ConnCtx × List StreamCtx))
    → Option (ConnCtx × List StreamCtx)
and_then none k = none
and_then (some (c, ss)) k = elim (k c) [ none ↦ none | some (d, ts) ↦ some (d, ss ++ ts) ]

unfoldable pub run : StreamCallback → ConnCtx → List Action → Option (ConnCtx × List StreamCtx)
unfolding act
run cb c [] = some (c, [])
run cb c (a ∷ rest) = and_then (act cb c a) (λ d. run cb d rest)

-- The connection's owner with the receive mode `passive`, and otherwise as it is.
abbrev pub in_passive_mode : Acceptor → Acceptor
in_passive_mode owner = record {
  pid = owner.pid;
  active = passive;
  active_count = owner.active_count;
  settings = owner.settings;
}

-- The abstract assignment: each stream uses up the acceptor that has waited longest, and goes to it
-- if it is alive; with nobody waiting it goes to the connection's owner, in passive mode, if that is
-- alive. The owners, in order, and the acceptors that still wait.
pub assigned : Acceptor → AcceptorQueue → List Action → List Acceptor × AcceptorQueue
assigned owner q [] = ([], q)
assigned owner q (wait acc ∷ rest) = assigned owner (q ++ (acc ∷ [])) rest
assigned owner [] (start new_handle stream flags true ∷ rest) =
    let (os, q') = assigned owner [] rest in (in_passive_mode owner ∷ os, q')
assigned owner [] (start new_handle stream flags false ∷ rest) = assigned owner [] rest
assigned owner (acc ∷ q) (start new_handle stream flags true ∷ rest) =
    let (os, q') = assigned owner q rest in (acc ∷ os, q')
assigned owner (acc ∷ q) (start new_handle stream flags false ∷ rest) = assigned owner q rest

abbrev pub Follows :
    ConnCtx → List Acceptor × AcceptorQueue → Option (ConnCtx × List StreamCtx) → Type 0
Follows c (os, q) none = ⊥
Follows c (os, q) (some (d, ss)) = (owners ss ≡ os) × (d ≡ record c { acceptor_queue = q })

module _ (cb : StreamCallback) (owner : Acceptor) where
  run-assigned_from :
      (c : ConnCtx) (q : AcceptorQueue) (history : List Action)
      → c.owner ≡ some owner
      → (c.connection == 0) ≡ false
      → Follows c (assigned owner q history) (run cb (record c { acceptor_queue = q }) history)
  unfolding run act assigned handle_connection_event_peer_stream_started acceptor_dequeue
      orphan_owner
  run-assigned_from c q [] o e = (refl, refl)
  run-assigned_from c q (wait acc ∷ rest) o e =
      ground (arith, run-assigned_from c (q ++ (acc ∷ [])) rest o e)
  run-assigned_from c [] (start n s f true ∷ rest) o e =
      rw (e, o) (ground (arith, run-assigned_from c [] rest o e))
  run-assigned_from c [] (start n s f false ∷ rest) o e =
      rw (e, o) (ground (arith, run-assigned_from c [] rest o e))
  run-assigned_from c (acc ∷ q) (start n s f true ∷ rest) o e =
      rw e (ground (arith, run-assigned_from c q rest o e))
  run-assigned_from c (acc ∷ q) (start n s f false ∷ rest) o e =
      rw e (ground (arith, run-assigned_from c q rest o e))

  -- Take a connection with its handle and an owner, of either end, and any history of processes that
  -- wait for a stream and streams that the peer opens, with memory at hand. No step faults; each
  -- stream uses up the acceptor that has waited longest and goes to it if it is alive; with nobody
  -- waiting it goes to the connection's owner if that is alive, in passive mode, with the owner's
  -- process and counter; and but for the queue the connection stays as it was.
  pub run-assigned :
      (c : ConnCtx) (history : List Action)
      → c.owner ≡ some owner
      → (c.connection == 0) ≡ false
      → Follows c (assigned owner c.acceptor_queue history) (run cb c history)
  run-assigned c history o e = run-assigned_from c c.acceptor_queue history o e

-- The contexts of one announced stream, and the reference that it took to the connection.
abbrev pub Announced : ConnCtx → (stream : ℕ) → Acceptor → (sent : Bool) → Run Status → Type 0
Announced c stream owner sent fault = ⊥
Announced c stream owner true (done d fx st) =
    (st ≡ Status.success)
    × ((s : StreamCtx) × (handed fx ≡ s ∷ [])
        × (s.owner ≡ owner)
        × (s.stream ≡ stream)
        × (s.connection ≡ c.handle)
        × (s.is_closed ≡ false))
    × (tally keep_weight fx ≡ 1)
    × (tally release_weight fx ≡ 0)
Announced c stream owner false (done d fx st) =
    (st ≡ Status.unreachable)
    × (handed fx ≡ [])
    × (tally keep_weight fx ≡ 1)
    × (tally release_weight fx ≡ 0)

-- Who a stream is for: the acceptor that has waited longest, or else the connection's owner.
abbrev pub chosen : AcceptorQueue → Acceptor → Acceptor
chosen [] owner = in_passive_mode owner
chosen (acc ∷ q) owner = acc

adopt-Announced :
    (cb : StreamCallback) (c : ConnCtx) (owner : Acceptor) (q : AcceptorQueue)
    (new_handle stream flags : ℕ) (sent : Bool)
    → c.owner ≡ some owner
    → Announced c stream
        (chosen q owner)
        sent
        (adopt (answers new_handle sent) cb c stream flags (acceptor_dequeue q))
unfolding adopt acceptor_dequeue orphan_owner
adopt-Announced cb c owner [] n stream flags true o = rw o (
  refl,
  (
    incoming (record c { acceptor_queue = [] }) n stream (orphan_owner owner),
    refl,
    refl,
    refl,
    refl,
    refl,
  ),
  refl,
  refl,
)
adopt-Announced cb c owner [] n stream flags false o = rw o (refl, refl, refl, refl)
adopt-Announced cb c owner (acc ∷ q) n stream flags true o = (
  refl,
  (incoming (record c { acceptor_queue = q }) n stream acc, refl, refl, refl, refl, refl),
  refl,
  refl,
)
adopt-Announced cb c owner (acc ∷ q) n stream flags false o = (refl, refl, refl, refl)

-- A stream of the peer at a connection with its handle and an owner, with memory at hand, is for the
-- acceptor that has waited longest, or, if nobody waits, for the connection's owner in passive mode,
-- with its process and counter. If that process is alive MsQuic gets, once, the context of that stream, open, owned by that
-- process and holding a reference to the connection; if it is dead MsQuic gets none and is told
-- `unreachable`, but the reference that the new context took to the connection is not given back.
pub peer_stream_started-Announced :
    (cb : StreamCallback) (c : ConnCtx) (owner : Acceptor) (new_handle stream flags : ℕ)
    (sent : Bool)
    → c.owner ≡ some owner
    → (c.connection == 0) ≡ false
    → Announced c stream
        (chosen c.acceptor_queue owner)
        sent
        (handle_connection_event_peer_stream_started (answers new_handle sent) cb c stream flags)
unfolding handle_connection_event_peer_stream_started
peer_stream_started-Announced cb c owner n stream flags sent o e =
    rw e (adopt-Announced cb c owner c.acceptor_queue n stream flags sent o)

-- An orphan stream of an owner in the counted mode is passive, but keeps the owner's counter: where
-- its new owner then asks for `n` receives it is given that many more, if the sum fits `int16_t`.
pub orphan_owner-set_owner_recv_mode :
    (nif : Nif) (owner : Acceptor) (t : Nif.Term nif) (n : ℕ)
    → nif.is_same t Atom.false ≡ false
    → nif.is_same t Atom.true ≡ false
    → nif.is_same t Atom.once ≡ false
    → nif.get_int t ≡ some (pos n)
    → owner.active_count + n ≤ int16_max
    → ((orphan_owner owner).active ≡ passive)
      × ((b : Acceptor) × (set_owner_recv_mode nif (orphan_owner owner) t ≡ some b)
          × (b.active ≡ multi)
          × (b.active_count ≡ owner.active_count + n))
unfolding orphan_owner set_owner_recv_mode
orphan_owner-set_owner_recv_mode nif owner t n f r o i fits = (
  refl,
  (
    record owner { active = multi; active_count = (owner.active_count + n) % 2 ^ 16 },
    rw (f, r, o, i) (ground arith),
    refl,
    omega arith,
  ),
)
