-- ===== src/Queue.antt =====
-- c_src/quicer_queue.c and c_src/quicer_queue.h: acceptors, their receive mode, and the queue of
-- acceptors of a listener or a connection. The intrusive list is MsQuic's; it is a `List`, head
-- first, and the mutex makes each operation one step.
pub mod Mode
pub mod Order
pub mod Ownership
use quicer.Prelude.{
  ℕ, ◌+◌, ◌-◌, ◌%◌, ◌^◌, Bool, true, false, ◌&&◌, Option, none, some, List, [], ◌∷◌, ◌++◌, ltb, leb,
  if◌then◌else◌,
}
use quicer.Prelude.Int.{ℤ, pos, negsuc, abs}
use quicer.Nif.{Nif}
use quicer.Nif.Atoms.{Atom}

pub data RecvMode : Type 0 where
  passive active once multi : RecvMode

-- `settings` stands for the address-free copy of `QUIC_SETTINGS` that an acceptor carries.
pub record Acceptor : Type 0 where
  pub pid : ℕ
  pub active : RecvMode
  pub active_count : ℕ  -- uint16_t
  pub settings : ℕ

abbrev pub int16_max : ℕ
int16_max = 2 ^ 15 - 1

-- `i <= INT16_MAX && i >= INT16_MIN`
unfoldable pub is_int16 : ℤ → Bool
is_int16 (pos n) = leb n int16_max
is_int16 (negsuc n) = ltb n (2 ^ 15)

-- The branch of an integer `i` in range; `none` is the `FALSE` returned on overflow. An `i` below
-- zero is taken off the counter, and the store converts to `uint16_t`.
unfoldable pub add_active : Acceptor → ℤ → Option Acceptor
add_active owner (pos n) =
    if ltb int16_max (owner.active_count + n)
    then none
    else some (record owner { active_count = (owner.active_count + n) % 2 ^ 16; active = multi })
add_active owner (negsuc n) =
    if ltb owner.active_count (abs (negsuc n))
    then some (record owner { active = passive; active_count = 0 })
    else if ltb int16_max (owner.active_count - abs (negsuc n))
    then none
    else some (record owner {
      active_count = (owner.active_count - abs (negsuc n)) % 2 ^ 16;
      active = multi;
    })

-- `enif_get_int(env, term, &i) && i <= INT16_MAX && i >= INT16_MIN`, and what follows.
unfoldable pub add_active_term : Acceptor → Option ℤ → Option Acceptor
unfolding is_int16 add_active
add_active_term owner none = none
add_active_term owner (some i) = if is_int16 i then add_active owner i else none

-- `none` is the result `FALSE`, which leaves the owner as it was.
unfoldable pub set_owner_recv_mode : (nif : Nif) → Acceptor → Nif.Term nif → Option Acceptor
unfolding add_active_term
set_owner_recv_mode nif owner term =
    if nif.is_same term Atom.false
    then some (record owner { active_count = 0; active = passive })
    else if nif.is_same term Atom.true
    then some (record owner { active_count = 0; active = active })
    else if nif.is_same term Atom.once
    then some (record owner { active_count = 0; active = once })
    else add_active_term owner (nif.get_int term)

-- `AcceptorAlloc`: zeroed memory, and active mode.
unfoldable pub acceptor_alloc : Acceptor
acceptor_alloc = record { pid = 0; active = active; active_count = 0; settings = 0 }

abbrev pub AcceptorQueue : Type 0
AcceptorQueue = List Acceptor

unfoldable pub acceptor_queue_new : AcceptorQueue
acceptor_queue_new = []

unfoldable pub acceptor_enqueue : AcceptorQueue → Acceptor → AcceptorQueue
acceptor_enqueue q a = q ++ (a ∷ [])

unfoldable pub acceptor_dequeue : AcceptorQueue → Option Acceptor × AcceptorQueue
acceptor_dequeue [] = (none, [])
acceptor_dequeue (a ∷ q) = (some a, q)

-- The acceptors that `AcceptorQueueDestroy` frees, in order: the loop removes the head until the
-- list is empty.
unfoldable pub acceptor_queue_destroy : AcceptorQueue → List Acceptor
acceptor_queue_destroy [] = []
acceptor_queue_destroy (a ∷ q) = a ∷ acceptor_queue_destroy q
