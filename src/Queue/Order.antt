-- ===== src/Queue/Order.antt =====
-- The queue is first in, first out.
use quicer.Prelude.{◌≡◌, Option, none, some, sym, ◌∙◌, ap, List, [], ◌∷◌, ◌++◌}
use mathlib.Core.List.{append-nil, append_assoc}
use quicer.Queue.{Acceptor, AcceptorQueue, acceptor_enqueue, acceptor_dequeue}

-- The calls that the NIFs and the callbacks make, in the order of the queue's mutex.
pub data Call : Type 0 where
  enqueue : Acceptor → Call
  dequeue : Call

-- What one call hands out; NULL is nothing.
abbrev pub handed : Option Acceptor → List Acceptor → List Acceptor
handed none later = later
handed (some a) later = a ∷ later

-- The acceptors handed out, in order, and the queue afterwards.
unfoldable pub run : AcceptorQueue → List Call → List Acceptor × AcceptorQueue
unfolding acceptor_enqueue acceptor_dequeue
run q [] = ([], q)
run q (enqueue a ∷ cs) = run (acceptor_enqueue q a) cs
run q (dequeue ∷ cs) =
    let rest = run (acceptor_dequeue q).1 cs in (handed (acceptor_dequeue q).0 rest.0, rest.1)

-- The acceptors that a history enqueues, in order.
abbrev pub enqueued : List Call → List Acceptor
enqueued [] = []
enqueued (enqueue a ∷ cs) = a ∷ enqueued cs
enqueued (dequeue ∷ cs) = enqueued cs

-- In any history the acceptors handed out, followed by those still queued, are those queued at the
-- start followed by those enqueued: none is lost, duplicated or overtaken.
pub run_fifo :
    (q : AcceptorQueue) (cs : List Call) → (run q cs).0 ++ (run q cs).1 ≡ q ++ enqueued cs
unfolding run acceptor_enqueue acceptor_dequeue
run_fifo q [] = sym (append-nil q)
run_fifo q (enqueue a ∷ cs) = run_fifo (q ++ (a ∷ [])) cs ∙ append_assoc q (a ∷ []) (enqueued cs)
run_fifo [] (dequeue ∷ cs) = run_fifo [] cs
run_fifo (a ∷ q) (dequeue ∷ cs) = ap (◌∷◌ a) (run_fifo q cs)
