-- ===== src/Connection/Lifecycle.antt =====
-- A connection that was opened locally, from async_connect3 to the last reference.
use quicer.Prelude.{
  if_not, ℕ, ◌+◌, ◌-◌, ◌≤◌, ◌≡◌, Bool, true, false, Option, none, some, List, [], ◌∷◌, ◌++◌, ◌==◌,
  if◌then◌else◌, tally, ◌||◌, ◌&&◌,
}
use quicer.Nif.{Status}
use quicer.Queue.{Acceptor}
use quicer.Connection.State.{ConnCtx, Effect, Run, fault, done}
use quicer.Connection.Calls.{resource_conn_dealloc_callback}
use quicer.Connection.Events.{ConnEvent, shutdown_complete, Hosts, client_connection_callback}
use quicer.Connection.Closing.{release_weight, keep_weight, close_weight}

-- The context, `none` when its last reference is gone; the references that the runtime counts; the
-- terms and the contexts of streams that refer to it; whether MsQuic has reported the end, behind
-- which it reports nothing; and the effects so far.
pub record World : Type 0 where
  pub ctx : Option ConnCtx
  pub references : ℕ
  pub terms : ℕ
  pub streams : ℕ
  pub ended : Bool
  pub effects : List Effect

-- What may happen: MsQuic reports an event, with what the hosts answer, memory at hand; a term of the connection is
-- made, by a process that has one or by the callback; a term is collected; the context of a stream is
-- freed.
pub data Action : Type 0 where
  report : Hosts → ConnEvent → Action
  copy collect free_stream : Action

abbrev pub world :
    Option ConnCtx → (references terms streams : ℕ) → (ended : Bool) → List Effect → World
world o references terms streams ended fx = record {
  ctx = o;
  references = references;
  terms = terms;
  streams = streams;
  ended = ended;
  effects = fx;
}

abbrev pub with_memory : Hosts → Hosts
with_memory h = record h {
  answers = record h.answers { s_ctx_allocated = true; acceptor_allocated = true };
}

-- The last reference calls the callback of the resource; `none` is a fault.
unfoldable pub dealloc : World → ConnCtx → Option World
unfolding resource_conn_dealloc_callback
dealloc w c = elim (resource_conn_dealloc_callback c) [
  | none ↦ none
  | some fx ↦ some (record w { ctx = none; references = 0; effects = w.effects ++ fx })
]

-- Some references are given back.
unfoldable pub release : World → ConnCtx → (count : ℕ) → Option World
unfolding dealloc
release w c count =
    if w.references == count
    then dealloc w c
    else some (record w { ctx = some c; references = w.references - count })

abbrev pub ends : ConnEvent → Bool
ends (shutdown_complete _ _ _) = true
ends _ = false

-- Behind the callback, which keeps and releases references.
unfoldable pub reported : World → ConnEvent → Run Status → Option World
unfolding release
reported w e fault = none
reported w e (done c fx st) =
    release
      (record w {
        references = w.references + tally keep_weight fx;
        streams = w.streams + tally keep_weight fx;
        ended = w.ended || ends e;
        effects = w.effects ++ fx;
      })
      c (tally release_weight fx)

-- An action whose actor is not there does not happen. A context that is gone is a fault for all others.
unfoldable pub act_live : (connection : ℕ) → World → ConnCtx → Action → Option World
unfolding reported release client_connection_callback
act_live connection w c (report h e) =
    if w.ended
    then some w
    else reported w e (client_connection_callback (with_memory h) connection c e)
act_live connection w c copy =
    if w.ended && w.terms == 0
    then some w
    else some (record w { references = w.references + 1; terms = w.terms + 1 })
act_live connection w c collect =
    if w.terms == 0 then some w else release (record w { terms = w.terms - 1 }) c 1
act_live connection w c free_stream =
    if w.streams == 0 then some w else release (record w { streams = w.streams - 1 }) c 1

abbrev pub is_idle : World → Action → Bool
is_idle w (report h e) = w.ended
is_idle w copy = w.ended && w.terms == 0
is_idle w collect = w.terms == 0
is_idle w free_stream = w.streams == 0

unfoldable pub act : (connection : ℕ) → World → Action → Option World
unfolding act_live
act connection w a = elim w.ctx [
  | none ↦ if is_idle w a then some w else none
  | some c ↦ act_live connection w c a
]

unfoldable pub run : (connection : ℕ) → World → List Action → Option World
unfolding act
run connection w [] = some w
run connection w (a ∷ rest) = elim (act connection w a) [
  | none ↦ none
  | some v ↦ run connection v rest
]

-- With references left, each is accounted for; without, nobody refers to the connection.
abbrev pub Sound :
    (connection : ℕ)
    → Acceptor
    → Option ConnCtx
    → (references terms streams : ℕ) → (ended : Bool) → List Effect
    → Type 0
Sound connection owner none references terms streams ended fx =
    (ended ≡ true) × (terms ≡ 0) × (streams ≡ 0) × (references ≡ 0) × (tally close_weight fx ≡ 1)
Sound connection owner (some c) references terms streams ended fx =
    (c.connection ≡ connection)
    × (c.owner ≡ some owner)
    × (c.is_closed ≡ ended)
    × (references ≡ terms + streams + if_not ended)
    × (1 ≤ references)
    × (tally close_weight fx ≡ 0)

abbrev pub IsSound : (connection : ℕ) → Acceptor → Option World → Type 0
IsSound connection owner none = ⊥
IsSound connection owner (some w) =
    Sound connection owner w.ctx w.references w.terms w.streams w.ended w.effects
