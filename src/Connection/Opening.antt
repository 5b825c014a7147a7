-- ===== src/Connection/Opening.antt =====
-- The stages of async_connect3, and what each keeps.
use quicer.Prelude.{ℕ, ◌≡◌, refl, Bool, true, false, ◌⊎◌, inl, inr, List, arith, ◌==◌, Option-cases}
use quicer.Prelude.Int.{ℤ}
use quicer.Nif.{Nif, Value, ok, error, atom}
use quicer.Nif.Atoms.{Atom}
use quicer.Connection.State.{monitor, set_option, destroy_acceptor, open_connection}
use quicer.Connection.Open.{Answers, Progress, parse_conn_option, open_handle}
use quicer.Connection.Connect.{
  Setup, registration_of, create, configure, open_new, mark_open, parse_sslkeylogfile_option,
  parse_conn_event_mask, start,
}
use quicer.Connection.Stages.{
  Leads, bind, also-IsCalm, after_start, IsIdle, IsConfigured, IsHeld, IsStarted,
}

-- Options are set or refused: `set_connection_opt` answers `ok` or an error.
abbrev pub Sets : (nif : Nif) → Answers nif → Type 0
Sets nif a =
    (o : Atom) (v : Nif.Term nif)
    → (a.set_connection_opt o v ≡ ok) ⊎ ((w : Value) × (a.set_connection_opt o v ≡ error w))

module _ (nif : Nif) (a : Answers nif) (t : Setup nif) (options : Nif.Term nif) where
  pub create-IsIdle :
      a.c_ctx_allocated ≡ true → a.acceptor_allocated ≡ true → Leads IsIdle (create nif a options)
  unfolding create
  create-IsIdle m n = ground arith

  pub configure-IsConfigured :
      (p : Progress) → IsIdle p → Leads (IsConfigured p.ctx.connection) (configure nif t p)
  unfolding configure
  configure-IsConfigured p v = ground (arith, v.calm, v.owned, v.closed)

  pub parse_conn_option-IsHeld :
      (entry option : Atom) (closed : Bool) (p : Progress)
      → Sets nif a
      → IsHeld closed p
      → Leads (IsHeld closed) (parse_conn_option nif a entry option options p)
  unfolding parse_conn_option
  parse_conn_option-IsHeld entry option closed p sets v =
      elim (Option-cases (nif.get_map_value options entry)) [
        | inl absent ↦ rw (absent, parse_conn_option) v
        | inr (w, there) ↦
            let after = also-IsCalm p.effects (set_option p.ctx.connection) refl refl refl v.calm in
            elim (sets option w) [
              | inl set ↦
                  rw (there, parse_conn_option, set)
                    (record {
                      calm = after;
                      owned = v.owned;
                      handle = v.handle;
                      in_state = v.in_state;
                      configured = v.configured;
                    })
              | inr (why, refused) ↦
                  rw (there, parse_conn_option, refused) (tt, inl (after, inr v.handle))
            ]
      ]

  pub open_new-IsHeld :
      (p : Progress)
      → Sets nif a
      → (a.opened_connection == 0) ≡ false
      → (connection : ℕ) → IsConfigured connection p
      → Leads (IsHeld true) (open_new nif a false options p)
  unfolding open_new open_handle
  open_new-IsHeld p sets handle connection v =
      bind (IsHeld true) (IsHeld true)
        (open_handle nif a registration (error (atom Atom.conn_open_error)) p) _ opened
        (λ q w. parse_conn_option-IsHeld Atom.nst Atom.param_conn_resumption_ticket true q sets w)
    where
      registration : ℕ
      registration = registration_of nif a p.ctx.r_ctx

      opened :
          Leads (IsHeld true) (open_handle nif a registration (error (atom Atom.conn_open_error)) p)
      opened = ground (
        arith,
        v.owned,
        v.closed,
        v.configured,
        handle,
        also-IsCalm p.effects (open_connection registration) refl refl refl v.calm,
      )

  pub mark_open-IsHeld : (p : Progress) → IsHeld true p → Leads (IsHeld false) (mark_open p)
  unfolding mark_open
  mark_open-IsHeld p v = rw v.in_state (record {
    calm = v.calm;
    owned = v.owned;
    handle = v.handle;
    in_state = refl;
    configured = v.configured;
  })

  pub parse_sslkeylogfile_option-IsHeld :
      (p : Progress) → IsHeld false p → IsHeld false (parse_sslkeylogfile_option nif t p)
  unfolding parse_sslkeylogfile_option
  parse_sslkeylogfile_option-IsHeld p v = ground (
    arith,
    v.calm,
    v.owned,
    v.handle,
    v.in_state,
    v.configured,
    also-IsCalm p.effects (set_option p.ctx.connection) refl refl refl v.calm,
  )

  pub parse_conn_event_mask-IsHeld :
      (p : Progress) → IsHeld false p → Leads (IsHeld false) (parse_conn_event_mask nif options p)
  unfolding parse_conn_event_mask
  parse_conn_event_mask-IsHeld p v =
      ground (arith, v.calm, v.owned, v.handle, v.in_state, v.configured)

  pub start-IsStarted :
      (host : List ℕ) (port : ℤ) (p : Progress)
      → IsHeld false p
      → Leads IsStarted (start nif t host port p)
  unfolding start
  start-IsStarted host port p v =
      let (configuration, there) = v.configured in
      let (owner, owned) = v.owned in
      let monitored =
        after_start p.effects p.ctx.connection configuration host port (monitor owner.pid) refl refl
          v.calm in
      let freed =
        after_start p.effects p.ctx.connection configuration host port (destroy_acceptor owner) refl
          refl v.calm in
      ground (arith, v.in_state, v.handle, there, owned, monitored, freed)
