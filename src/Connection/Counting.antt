-- ===== src/Connection/Counting.antt =====
-- A connection that was opened locally is freed with its last reference, and then only.
use quicer.Prelude.{
  if_so, if_not, ℕ, ◌+◌, ◌-◌, ◌≡◌, refl, Bool, true, false, Option, none, some, List, [], ◌∷◌, ◌++◌,
  ◌==◌, arith, tally, tally-append, inl, inr, Option-cases, Bool-cases, subst, ◌||◌, ◌&&◌,
}
use quicer.Nif.{Status}
use quicer.Queue.{Acceptor}
use quicer.Connection.State.{ConnCtx, Effect, Run, fault, done}
use quicer.Connection.Calls.{resource_conn_dealloc_callback}
use quicer.Connection.Events.{ConnEvent, shutdown_complete, client_connection_callback}
use quicer.Connection.Closing.{
  EndsIn, Outcome, release_weight, keep_weight, close_weight, expected_releases, expected_closed,
  client_connection_callback-Outcome,
}
use quicer.Nif.{Nif, Value, ok_with}
use quicer.Connection.Open.{Answers, Opened}
use quicer.Connection.Connect.{Setup, async_connect3}
use quicer.Connection.Opening.{Sets}
use quicer.Connection.Ending.{Connected, Connects}
use quicer.Connection.Connecting.{named, Reusable, async_connect3-Connects}
use quicer.Connection.Lifecycle.{
  World, Action, world, with_memory, dealloc, release, ends, reported, act_live, act, run, Sound,
  IsSound, report, copy, collect, free_stream,
}
use quicer.Connection.Freeing.{ClosesOnce, dealloc-ClosesOnce}

module _ (connection : ℕ) (owner : Acceptor) where
  -- The last reference is given back.
  freed-IsSound :
      (w : World) (c : ConnCtx) (o : Option (List Effect))
      → w.ended ≡ true
      → w.terms ≡ 0
      → w.streams ≡ 0
      → tally close_weight w.effects ≡ 0
      → resource_conn_dealloc_callback c ≡ o
      → ClosesOnce o
      → IsSound connection owner (dealloc w c)
  unfolding dealloc
  freed-IsSound w c none ended t s e dealloced once = absurd once
  freed-IsSound w c (some fx) ended t s e dealloced once =
      rw (dealloc, dealloced)
        (ended, t, s, refl, ground (arith, tally-append close_weight w.effects fx))

  -- Some references are given back, while the world is behind in its count.
  released-IsSound :
      (w : World) (c : ConnCtx) (count : ℕ)
      → (connection == 0) ≡ false
      → c.connection ≡ connection
      → c.owner ≡ some owner
      → c.is_closed ≡ w.ended
      → w.references ≡ w.terms + w.streams + if_not w.ended + count
      → tally close_weight w.effects ≡ 0
      → IsSound connection owner (release w c count)
  unfolding release
  released-IsSound w c count n same owned closed counted unclosed =
      elim (Bool-cases (w.references == count)) [
        | inl last ↦
            let ended : w.ended ≡ true = ground arith in
            rw (release, last)
              (freed-IsSound w c (resource_conn_dealloc_callback c) ended (ground arith)
                (ground arith) unclosed refl (dealloc-ClosesOnce c (ground arith) (ground arith)))
        | inr more ↦ rw (release, more) (same, owned, closed, ground arith, ground arith, unclosed)
      ]

  expected_end : (e : ConnEvent) (was : Bool) → expected_closed e was ≡ (was || ends e)
  expected_end (shutdown_complete _ _ _) was = ground arith
  expected_end _ was = ground arith

  released_end : (e : ConnEvent) → expected_releases e ≡ if_so (ends e)
  released_end (shutdown_complete _ _ _) = refl
  released_end _ = refl

  reported-IsSound :
      (w : World) (c : ConnCtx) (e : ConnEvent) (r : Run Status)
      → (connection == 0) ≡ false
      → Sound connection owner (some c) w.references w.terms w.streams w.ended w.effects
      → w.ended ≡ false
      → EndsIn (Outcome c e) r
      → IsSound connection owner (reported w e r)
  unfolding reported
  reported-IsSound w c e fault n v open_ ends_ = ends_
  reported-IsSound w c e (done d fx st) n v open_ ends_ =
      released-IsSound
        (record w {
          references = w.references + tally keep_weight fx;
          streams = w.streams + tally keep_weight fx;
          ended = w.ended || ends e;
          effects = w.effects ++ fx;
        })
        d (tally release_weight fx) n (ground (arith, ends_.same_connection))
        (ground (arith, ends_.same_owner))
        (ground (arith, ends_.is_closed, expected_end e c.is_closed))
        (ground (arith, ends_.released, released_end e))
        (ground (arith, ends_.not_closed, tally-append close_weight w.effects fx))

  -- The actions, at a context that is gone, behind the end, and before it.
  gone-IsSound :
      (fx : List Effect) (a : Action)
      → Sound connection owner none 0 0 0 true fx
      → IsSound connection owner (act connection (world none 0 0 0 true fx) a)
  unfolding act
  gone-IsSound fx (report h e) v = v
  gone-IsSound fx copy v = v
  gone-IsSound fx collect v = v
  gone-IsSound fx free_stream v = v

  live-IsSound :
      (c : ConnCtx) (references terms streams : ℕ) (ended : Bool) (fx : List Effect) (a : Action)
      → (connection == 0) ≡ false
      → Sound connection owner (some c) references terms streams ended fx
      → IsSound connection owner
          (act connection (world (some c) references terms streams ended fx) a)
  unfolding act act_live
  live-IsSound c references terms streams true fx (report h e) n v = v
  live-IsSound c references terms streams false fx (report h e) n v =
      reported-IsSound (world (some c) references terms streams false fx) c e
        (client_connection_callback (with_memory h) connection c e) n v refl
        (client_connection_callback-Outcome (with_memory h) connection c owner e (record {
          matches = v.0;
          has_handle = n;
          owned = v.1;
          s_ctx_memory = refl;
          acceptor_memory = refl;
        }))
  live-IsSound c references terms streams ended fx copy n v =
      elim (Bool-cases (ended && terms == 0)) [
        | inl nobody ↦ rw (nobody, act_live) v
        | inr somebody ↦ rw (somebody, act_live) (v.0, v.1, v.2, ground arith, ground arith, v.5)
      ]
  live-IsSound c references terms streams ended fx collect n v = elim (Bool-cases (terms == 0)) [
    | inl nobody ↦ rw (nobody, act_live) v
    | inr somebody ↦
        rw (somebody, act_live)
          (released-IsSound (world (some c) references (terms - 1) streams ended fx) c 1 n v.0 v.1
            v.2 (ground arith) v.5)
  ]
  live-IsSound c references terms streams ended fx free_stream n v =
      elim (Bool-cases (streams == 0)) [
        | inl nobody ↦ rw (nobody, act_live) v
        | inr somebody ↦
            rw (somebody, act_live)
              (released-IsSound (world (some c) references terms (streams - 1) ended fx) c 1 n v.0
                v.1 v.2 (ground arith) v.5)
      ]

  acted-IsSound :
      (o : Option ConnCtx) (references terms streams : ℕ) (ended : Bool) (fx : List Effect)
      (a : Action)
      → (connection == 0) ≡ false
      → Sound connection owner o references terms streams ended fx
      → IsSound connection owner (act connection (world o references terms streams ended fx) a)
  acted-IsSound none references terms streams ended fx a n (e, t, s, r, once) =
      rw (e, t, s, r) (gone-IsSound fx a (refl, refl, refl, refl, once))
  acted-IsSound (some c) references terms streams ended fx a n v =
      live-IsSound c references terms streams ended fx a n v

  pub run-IsSound :
      (w : World) (history : List Action)
      → (connection == 0) ≡ false
      → IsSound connection owner (some w)
      → IsSound connection owner (run connection w history)
  unfolding run
  run-IsSound w [] n v = v
  run-IsSound w (a ∷ rest) n v =
      let acted = acted-IsSound w.ctx w.references w.terms w.streams w.ended w.effects a n v in
      elim (Option-cases (act connection w a)) [
        | inl faulty ↦ absurd (subst (IsSound connection owner) faulty acted)
        | inr (next, went) ↦
            rw (run, went) (run-IsSound next rest n (subst (IsSound connection owner) went acted))
      ]

-- Take a call of `async_connect3` that answers `{ok, Connection}`, with memory at hand there and
-- later, a handle from MsQuic that is not NULL, `set_connection_opt` answering `ok` or an error,
-- and a handle to reuse, if the options name one, that `open_connection` made; any number of terms
-- of the connection; and any history of events that MsQuic reports up to `shutdown_complete`, of
-- terms that are made and collected, and of contexts of streams that are freed. No callback and no
-- release faults. While the context is there, its references are those of the terms, of the
-- streams, and one more until `shutdown_complete`; it is closed from then on; and its handle was
-- not closed. Once the context is gone, MsQuic has reported the end, no term and no stream refers
-- to it, and its handle was closed, once.
pub run-async_connect3-IsSound :
    (nif : Nif) (a : Answers nif) (t : Setup nif) (eport options : Nif.Term nif) (o : Opened)
    (c : ConnCtx) (v : Value) (terms : ℕ) (history : List Action)
    → Sets nif a
    → a.c_ctx_allocated ≡ true
    → a.acceptor_allocated ≡ true
    → (a.opened_connection == 0) ≡ false
    → Reusable (named nif t options)
    → async_connect3 nif a t eport options ≡ some o
    → o.ctx ≡ some c
    → o.reply ≡ ok_with v
    → (owner : Acceptor) × (c.owner ≡ some owner)
      × IsSound c.connection owner
          (run c.connection (world (some c) (terms + 1) terms 0 false o.effects) history)
run-async_connect3-IsSound nif a t eport options o c v terms history sets m n opens usable run_ made
      answered =
    let connects : Connected o.ctx o.effects o.reply =
      subst (Connects a.close_reports) run_
        (async_connect3-Connects nif a t options sets eport m n opens usable) in
    let left : Connected (some c) o.effects o.reply =
      subst (λ x. Connected x o.effects o.reply) made connects in
    let (open_, there, (owner, owned), started, unclosed, monitored) : Connected (some c) o.effects
        (ok_with v) =
      subst (Connected (some c) o.effects) answered left in
    (
      owner,
      owned,
      run-IsSound c.connection owner (world (some c) (terms + 1) terms 0 false o.effects) history
          there (refl, owned, open_, ground arith, ground arith, unclosed),
    )
