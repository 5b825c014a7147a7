-- ===== src/Queue/Mode.antt =====
-- What a call of `set_owner_recv_mode` does to the receive mode and the counter.
use quicer.Prelude.{
  ◌+◌, ◌≤◌, ◌<◌, ◌≡◌, ◌≢◌, ◌⊎◌, inl, inr, Bool-cases, true, false, Option, none, some, arith,
}
use quicer.Prelude.Int.{ℤ, pos, negsuc, pos_part, neg_part}
use quicer.Nif.{Nif}
use quicer.Nif.Atoms.{Atom}
use quicer.Queue.{
  passive, multi, Acceptor, int16_max, is_int16, add_active, add_active_term, set_owner_recv_mode,
}

-- The counter fits `int16_t`, and only the counted mode has one.
pub record IsBounded (a : Acceptor) : Type 0 where
  pub fits : a.active_count ≤ int16_max
  pub only_multi : a.active ≢ multi → a.active_count ≡ 0

add_active-IsBounded :
    (a b : Acceptor) (i : ℤ) → IsBounded a → add_active a i ≡ some b → IsBounded b
unfolding add_active
add_active-IsBounded a b (pos n) v h = ground arith
add_active-IsBounded a b (negsuc n) v h = ground arith

add_active_term-IsBounded :
    (a b : Acceptor) (o : Option ℤ) → IsBounded a → add_active_term a o ≡ some b → IsBounded b
unfolding add_active_term
add_active_term-IsBounded a b none v h = cc
add_active_term-IsBounded a b (some i) v h = ground (arith, add_active-IsBounded a b i)

-- Whatever term the user passes, an accepted call keeps the counter within `int16_t`, and zero in
-- every mode but the counted one, if it was so before.
pub set_owner_recv_mode-IsBounded :
    (nif : Nif) (a b : Acceptor) (t : Nif.Term nif)
    → IsBounded a
    → set_owner_recv_mode nif a t ≡ some b
    → IsBounded b
unfolding set_owner_recv_mode
set_owner_recv_mode-IsBounded nif a b t v h =
    ground (arith, add_active_term-IsBounded a b (nif.get_int t))

-- The outcome for an integer `i`, in integers: refused outside the range of `int16_t` and where the
-- sum with the counter is above `INT16_MAX`; passive where `i` is below minus the counter; and in
-- every other case counted, with the exact sum as the new counter.
abbrev pub Counted : Acceptor → ℤ → Option Acceptor → Type 0
Counted a i none = (is_int16 i ≡ false) ⊎ (int16_max + neg_part i < a.active_count + pos_part i)
Counted a i (some b) =
    (is_int16 i ≡ true)
    × (((a.active_count + pos_part i < neg_part i) × (b.active ≡ passive) × (b.active_count ≡ 0))
        ⊎ ((b.active ≡ multi)
            × (b.active_count + neg_part i ≡ a.active_count + pos_part i)
            × (b.active_count ≤ int16_max)))

add_active-Counted : (a : Acceptor) (i : ℤ) → is_int16 i ≡ true → Counted a i (add_active a i)
unfolding add_active
add_active-Counted a (pos n) e = ground arith
add_active-Counted a (negsuc n) e = ground arith

-- For an integer term, which is none of the three atoms, the call is refused outside the range of
-- `int16_t` and where the sum with the counter is above `INT16_MAX`; otherwise the mode is passive
-- and the counter 0 if the sum is below 0, and in every other case the mode is the counted one
-- with the exact sum.
pub set_owner_recv_mode-Counted :
    (nif : Nif) (a : Acceptor) (t : Nif.Term nif) (i : ℤ)
    → nif.is_same t Atom.false ≡ false
    → nif.is_same t Atom.true ≡ false
    → nif.is_same t Atom.once ≡ false
    → nif.get_int t ≡ some i
    → Counted a i (set_owner_recv_mode nif a t)
unfolding set_owner_recv_mode
set_owner_recv_mode-Counted nif a t i f r o e =
    rw (f, r, o, e)
      (elim (Bool-cases (is_int16 i)) [
        | inl inside ↦ rw inside (add_active-Counted a i inside)
        | inr outside ↦ rw outside (inl outside)
      ])
