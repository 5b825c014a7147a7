-- ===== src/Stream/RoundTrip.antt =====
-- What getopt says of the option `active` after setopt.
use quicer.Prelude.{
  ap, ◌^◌, ℕ, ◌+◌, ◌<◌, ◌≡◌, refl, sym, ◌∙◌, subst, ◌⊎◌, inl, inr, true, false, Option, none, some,
  List, arith, Bool-cases, Option-cases,
}
use quicer.Prelude.Int.{pos, ℤ, pos_part, neg_part}
use quicer.Nif.{eterm_int, int, to_int-below, Nif, Status, Reply, ok, ok_with, atom}
use quicer.Nif.Atoms.{Atom}
use quicer.Queue.{multi, Acceptor, set_owner_recv_mode}
use quicer.Queue.Mode.{Counted, set_owner_recv_mode-Counted}
use quicer.Stream.State.{StreamCtx, Effect, done}
use quicer.Stream.Receive.{set_active, store_mode, wake}
use quicer.Stream.Options.{Levels, Param, get_stream_opt, get_active, set_stream_opt}

-- The value that a later getopt must show: the atom itself, and for an integer `false` where it was
-- below minus the counter, and otherwise the sum with the counter before.
abbrev pub Shows : (nif : Nif) → Acceptor → Nif.Term nif → Reply → Type 0
Shows nif before t r =
    ((nif.is_same t Atom.false ≡ true) × (r ≡ ok_with (atom Atom.false)))
    ⊎ ((nif.is_same t Atom.true ≡ true) × (r ≡ ok_with (atom Atom.true)))
    ⊎ ((nif.is_same t Atom.once ≡ true) × (r ≡ ok_with (atom Atom.once)))
    ⊎ ((i : ℤ) × (nif.get_int t ≡ some i)
        × (((before.active_count + pos_part i < neg_part i) × (r ≡ ok_with (atom Atom.false)))
            ⊎ ((n : ℕ) × (n + neg_part i ≡ before.active_count + pos_part i)
                × (r ≡ ok_with (int (pos n))))))

counted_reply :
    (b : Acceptor)
    → b.active ≡ multi
    → b.active_count < 2 ^ 31
    → get_active b b.active ≡ ok_with (int (pos b.active_count))
unfolding get_active eterm_int
counted_reply b on fits =
    ap (get_active b) on ∙ ap (λ i. ok_with (int i)) (to_int-below b.active_count fits)

counted_Shows :
    (nif : Nif) (a b : Acceptor) (t : Nif.Term nif) (i : ℤ)
    → nif.is_same t Atom.false ≡ false
    → nif.is_same t Atom.true ≡ false
    → nif.is_same t Atom.once ≡ false
    → nif.get_int t ≡ some i
    → set_owner_recv_mode nif a t ≡ some b
    → ((a.active_count + pos_part i < neg_part i)
        × (get_active b b.active ≡ ok_with (atom Atom.false)))
      ⊎ ((n : ℕ) × (n + neg_part i ≡ a.active_count + pos_part i)
          × (get_active b b.active ≡ ok_with (int (pos n))))
unfolding get_active
counted_Shows nif a b t i f r o is_int e =
    elim (subst (Counted a i) e (set_owner_recv_mode-Counted nif a t i f r o is_int)).1 [
      | inl (low, off, _) ↦ inl (low, ground arith)
      | inr (on, sum, fits) ↦ inr (b.active_count, sum, counted_reply b on (omega (arith, fits)))
    ]

mode_Shows :
    (nif : Nif) (a b : Acceptor) (t : Nif.Term nif)
    → set_owner_recv_mode nif a t ≡ some b
    → Shows nif a t (get_active b b.active)
unfolding get_active
mode_Shows nif a b t e = elim (Bool-cases (nif.is_same t Atom.false)) [
  | inl f ↦ inl (f, unfold set_owner_recv_mode in ground arith)
  | inr f ↦ elim (Bool-cases (nif.is_same t Atom.true)) [
    | inl r ↦ inr (inl (r, unfold set_owner_recv_mode in ground arith))
    | inr r ↦ elim (Bool-cases (nif.is_same t Atom.once)) [
      | inl o ↦ inr (inr (inl (o, unfold set_owner_recv_mode in ground arith)))
      | inr o ↦ elim (Option-cases (nif.get_int t)) [
        | inl no_int ↦ absurd (unfold set_owner_recv_mode in ground arith)
        | inr (i, is_int) ↦ inr (inr (inr (i, is_int, counted_Shows nif a b t i f r o is_int e)))
      ]
    ]
  ]
]

no_stream_id :
    (nif : Nif) (t : Nif.Term nif)
    → nif.is_same t Atom.active ≡ true
    → nif.is_same t Atom.param_stream_id ≡ false
no_stream_id nif t e = elim (Bool-cases (nif.is_same t Atom.param_stream_id)) [
  | inl also ↦ cc (nif.is_same_eq t Atom.active Atom.param_stream_id e also)
  | inr other ↦ other
]

stored_owner :
    (s t : StreamCtx) (fx gx : List Effect) (m : Option Acceptor)
    → store_mode s gx m ≡ done t fx ok
    → m ≡ some t.owner
unfolding store_mode
stored_owner s t fx gx none e = cc
stored_owner s t fx gx (some b) e = cc

set_stream_opt-active :
    (nif : Nif) (setters : Levels) (set : Status) (s : StreamCtx)
    (optname optval elevel : Nif.Term nif)
    → nif.is_same optname Atom.active ≡ true
    → set_stream_opt nif setters set s optname optval elevel
      ≡ store_mode s (wake nif s optval) (set_owner_recv_mode nif s.owner optval)
unfolding set_stream_opt set_active
set_stream_opt-active nif setters set s optname optval elevel named = rw (named) refl

-- After a setopt of `active` that answered `ok`, with the level `false`, getopt of `active` at
-- that level shows what was asked for.
pub get_stream_opt-set_stream_opt :
    (nif : Nif) (getters setters : Levels) (set : Status) (id zero_rtt ideal : Param)
    (s t : StreamCtx) (fx : List Effect) (optname optval elevel : Nif.Term nif)
    → nif.is_same optname Atom.active ≡ true
    → nif.is_same elevel Atom.false ≡ true
    → set_stream_opt nif setters set s optname optval elevel ≡ done t fx ok
    → Shows nif s.owner optval (get_stream_opt nif getters id zero_rtt ideal t optname elevel)
unfolding get_stream_opt
get_stream_opt-set_stream_opt nif getters setters set id zero_rtt ideal s t fx optname optval elevel
      named level e =
    rw (level, no_stream_id nif optname named, named)
      (mode_Shows nif s.owner t.owner optval (stored_owner s t fx (wake nif s optval) _ answered))
  where
    answered :
        store_mode s (wake nif s optval) (set_owner_recv_mode nif s.owner optval) ≡ done t fx ok
    answered = sym (set_stream_opt-active nif setters set s optname optval elevel named) ∙ e
