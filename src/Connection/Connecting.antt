-- ===== src/Connection/Connecting.antt =====
-- What async_connect3 answers, and what it leaves behind.
use quicer.Prelude.{
  ℕ, ◌≡◌, refl, true, false, inl, inr, Option, none, some, List, [], arith, ◌==◌, Option-cases,
}
use quicer.Prelude.Int.{ℤ}
use quicer.Nif.{Nif}
use quicer.Nif.Atoms.{Atom}
use quicer.Queue.{Acceptor}
use quicer.Connection.State.{ConnCtx}
use quicer.Connection.Open.{Answers, Progress, go, ◌>>=◌, parse_conn_option}
use quicer.Connection.Connect.{
  Setup, create, mark_open, parse_sslkeylogfile_option, parse_conn_event_mask, start, connect_owned,
  connect_end, connect_to, reuse, async_connect3, port_of,
}
use quicer.Connection.Stages.{Leads, bind, IsIdle, IsConfigured, IsHeld, IsStarted}
use quicer.Connection.Opening.{
  Sets, create-IsIdle, configure-IsConfigured, parse_conn_option-IsHeld, open_new-IsHeld,
  mark_open-IsHeld, parse_sslkeylogfile_option-IsHeld, parse_conn_event_mask-IsHeld,
  start-IsStarted,
}
use quicer.Connection.Ending.{Connects, connect_end-Connects}

module _ (nif : Nif) (a : Answers nif) (t : Setup nif) (options : Nif.Term nif) (sets : Sets nif a)
    (host : List ℕ) (port : ℤ) where
  -- Behind the handle.
  held-IsStarted :
      (p : Progress)
      → IsHeld true p
      → Leads IsStarted (
          mark_open p >>= λ marked.
          parse_conn_option nif a Atom.param_conn_local_address Atom.param_conn_local_address
            options
            (parse_sslkeylogfile_option nif t marked)
          >>= λ local.
              parse_conn_option nif a Atom.param_conn_disable_1rtt_encryption
                Atom.param_conn_disable_1rtt_encryption options local
              >>= λ plain. parse_conn_event_mask nif options plain >>= λ masked.
                  start nif t host port masked)
  held-IsStarted p v =
      bind (IsHeld false) IsStarted _ _ (mark_open-IsHeld nif a t options p v) λ marked w.
        bind (IsHeld false) IsStarted _ _
          (parse_conn_option-IsHeld nif a t options _ _ false _ sets
            (parse_sslkeylogfile_option-IsHeld nif a t options marked w))
          λ local x.
            bind (IsHeld false) IsStarted _ _
              (parse_conn_option-IsHeld nif a t options _ _ false local sets x)
              λ plain y.
                bind (IsHeld false) IsStarted _ _
                  (parse_conn_event_mask-IsHeld nif a t options plain y)
                  λ masked z. start-IsStarted nif a t options host port masked z

  new-IsStarted :
      (p : Progress)
      → (a.opened_connection == 0) ≡ false
      → IsIdle p
      → Leads IsStarted (connect_owned nif a t false options host port p)
  unfolding connect_owned
  new-IsStarted p opens v =
      bind (IsConfigured p.ctx.connection) IsStarted _ _
        (configure-IsConfigured nif a t options p v)
        λ q w.
          bind (IsHeld true) IsStarted _ _
            (open_new-IsHeld nif a t options q sets opens p.ctx.connection w) held-IsStarted

  reused-IsStarted :
      (p : Progress)
      → (p.ctx.connection == 0) ≡ false
      → IsIdle p
      → Leads IsStarted (connect_owned nif a t true options host port p)
  unfolding connect_owned
  reused-IsStarted p has v =
      bind (IsConfigured p.ctx.connection) IsStarted _ _
        (configure-IsConfigured nif a t options p v)
        λ q w. held-IsStarted q (record {
          calm = w.calm;
          owned = w.owned;
          handle = ground (arith, w.same_handle, has);
          in_state = w.closed;
          configured = w.configured;
        })

-- The connection whose handle the options name.
abbrev pub named : (nif : Nif) → Setup nif → (options : Nif.Term nif) → Option ConnCtx
named nif t options = elim (nif.get_map_value options Atom.handle) [
  | none ↦ none
  | some term ↦ t.resource term
]

-- A handle that `open_connection` made: closed, owned, and with MsQuic's handle.
abbrev pub Reusable : Option ConnCtx → Type 0
Reusable none = Unit {0}
Reusable (some c) =
    ((owner : Acceptor) × (c.owner ≡ some owner))
    × (c.is_closed ≡ true)
    × ((c.connection == 0) ≡ false)

module _ (nif : Nif) (a : Answers nif) (t : Setup nif) (options : Nif.Term nif)
    (sets : Sets nif a) where
  new-Connects :
      (host : List ℕ) (port : ℤ)
      → a.c_ctx_allocated ≡ true
      → a.acceptor_allocated ≡ true
      → (a.opened_connection == 0) ≡ false
      → Connects a.close_reports (
          connect_end a.close_reports (do
            created ← create nif a options
            connect_owned nif a t false options host port created))
  new-Connects host port m n opens = connect_end-Connects a.close_reports _ (
      bind IsIdle IsStarted _ _ (create-IsIdle nif a t options m n)
        (λ p v. new-IsStarted nif a t options sets host port p opens v))

  reused-Connects :
      (host : List ℕ) (port : ℤ) (c : ConnCtx)
      → Reusable (some c)
      → Connects a.close_reports (
          connect_end a.close_reports
            (do created ← reuse c; connect_owned nif a t true options host port created))
  unfolding reuse
  reused-Connects host port c ((owner, owned), closed, has) =
      let same : reuse c ≡ go (record { ctx = c; effects = [] }) = ground arith in
      rw same (
        connect_end-Connects a.close_reports _ (
          reused-IsStarted nif a t options sets host port (record { ctx = c; effects = [] }) has
            (record {
              calm = record { not_started = refl; not_closed = refl; not_monitored = refl };
              owned = (owner, owned);
              closed = closed;
            })))

  -- With the handle looked up.
  hosted-Connects :
      (host : List ℕ) (port : ℤ)
      → a.c_ctx_allocated ≡ true
      → a.acceptor_allocated ≡ true
      → (a.opened_connection == 0) ≡ false
      → Reusable (named nif t options)
      → Connects a.close_reports (connect_to nif a t options host port)
  unfolding connect_to
  hosted-Connects host port m n opens usable =
      elim (Option-cases (nif.get_map_value options Atom.handle)) [
        | inl new ↦ rw (new, connect_to) (new-Connects host port m n opens)
        | inr (term, old) ↦ elim (Option-cases (t.resource term)) [
          | inl wrong ↦ rw (old, connect_to, wrong) (tt, refl)
          | inr (c, found) ↦
              rw (old, connect_to, found) (reused-Connects host port c (ground arith))
        ]
      ]

  -- With memory at hand, a handle from MsQuic that is not NULL, `set_connection_opt` answering
  -- `ok` or an error, and a handle to reuse, if the options name one, that `open_connection`
  -- made, `async_connect3` faults only if `ConnectionClose` reports the end of a handle that was
  -- not started before it returns. Where it ends: with `{ok, Connection}` the context is open,
  -- has its handle and its owner, and was started and is monitored, once each; with any other
  -- reply there is no context, or it has no handle and is not monitored, and then it is closed
  -- and was not started, and its handle was closed at most once, or its start failed and the
  -- owner is gone.
  pub async_connect3-Connects :
      (eport : Nif.Term nif)
      → a.c_ctx_allocated ≡ true
      → a.acceptor_allocated ≡ true
      → (a.opened_connection == 0) ≡ false
      → Reusable (named nif t options)
      → Connects a.close_reports (async_connect3 nif a t eport options)
  unfolding async_connect3
  async_connect3-Connects eport m n opens usable = elim (Option-cases t.host) [
    | inl unread ↦ rw (unread, async_connect3) (ground arith)
    | inr (host, read) ↦
        rw (read, async_connect3)
          (ground (arith, hosted-Connects host (port_of (nif.get_int eport)) m n opens usable))
  ]
