-- ===== src/Stream/Numbers.antt =====
-- How the numbers of a stream come out of getopt.
use quicer.Prelude.{ℕ, ◌^◌, ◌≤◌, ◌<◌, ◌≡◌, ◌≢◌, ap, ◌⊎◌, inl, inr, ltb, Bool-cases, ltb→lt, arith}
use quicer.Prelude.Int.{ℤ, pos}
use quicer.Nif.{Reply, ok_with, int, eterm_int, eterm_int, to_int, to_int-below}
use quicer.Stream.Options.{Param, encode_number}

to_int-from : (n : ℕ) → 2 ^ 31 ≤ n → to_int n ≢ pos n
unfolding to_int
to_int-from n h e = ground arith

int_inj : (i j : ℤ) → ◌≡◌ {A = Reply} (ok_with (int i)) (ok_with (int j)) → i ≡ j
int_inj i j e = cc

-- A parameter of eight bytes is shown exactly if it is below 2 ^ 31; from there on the owner reads
-- another number.
pub encode_number-int :
    (p : Param)
    → p.buffer_length ≡ 8
    → ((p.buffer < 2 ^ 31) × (encode_number p ≡ ok_with (int (pos p.buffer))))
      ⊎ ((2 ^ 31 ≤ p.buffer) × (encode_number p ≢ ok_with (int (pos p.buffer))))
unfolding encode_number eterm_int
encode_number-int p eight = elim (Bool-cases (ltb p.buffer (2 ^ 31))) [
  | inl small ↦
      let below : p.buffer < 2 ^ 31 = ltb→lt _ _ small in
      inl (below, rw eight (ap (λ i. ok_with (int i)) (to_int-below p.buffer below)))
  | inr large ↦
      let from : 2 ^ 31 ≤ p.buffer = ground arith in
      inr (
        from,
        rw eight (λ e. to_int-from p.buffer from (int_inj (to_int p.buffer) (pos p.buffer) e)),
      )
]
