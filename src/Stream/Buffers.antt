-- ===== src/Stream/Buffers.antt =====
-- recvbuffer_flush copies a prefix of the two buffers.
use quicer.Prelude.{
  ℕ, zero, suc, ◌-◌, ◌≤◌, ◌<◌, ◌≡◌, refl, sym, ap, ◌∙◌, false, ◌||◌, some, List, [], ◌∷◌, ◌++◌,
  arith, length, take, length-append, take-append_ge, take-append_le, ltb, leb, ◌==◌, leb→le,
  Bool-cases, inl, inr, if◌then◌else◌,
}
use mathlib.Core.List.{append-nil}
use quicer.Stream.State.{StreamCtx}
use quicer.Stream.Receive.{flush_loop, recvbuffer_flush}

-- The buffers one after the other.
abbrev pub joined : List (List ℕ) → List ℕ
joined [] = []
joined (b ∷ bs) = b ++ joined bs

take_zero : {A : Type 0} (xs : List A) → take 0 xs ≡ []
take_zero xs = refl

pub flush_loop-take :
    (bs : List (List ℕ)) (n : ℕ)
    → n ≤ length (joined bs)
    → flush_loop bs n ≡ some (take n (joined bs))
unfolding flush_loop
flush_loop-take bs zero h = refl
flush_loop-take [] (suc n) h = absurd (omega arith)
flush_loop-take (b ∷ bs) (suc n) h = elim (Bool-cases (leb (length b) (suc n))) [
  | inl whole ↦
      let fits : length b ≤ suc n = leb→le _ _ whole in
      let room : suc n - length b ≤ length (joined bs) =
        omega (arith, length-append b (joined bs)) in
      rw (whole, flush_loop-take bs (suc n - length b) room)
        (ap some (sym (take-append_ge (suc n) b (joined bs) fits)))
  | inr part ↦ rw part (ap some (sym (take-append_le (suc n) b (joined bs) (ground arith))))
]

-- What the context holds: the first `total_buffer_length` bytes of the buffers.
abbrev pub contents : StreamCtx → List ℕ
contents s = s.buffer0 ++ s.buffer1

-- The bytes that a request for `req_len` bytes yields, 0 standing for all.
abbrev pub flush_size : StreamCtx → ℕ → ℕ
flush_size s req_len = if req_len == 0 then s.total_buffer_length else req_len

-- With bytes in the buffers, and no more requested than there are, no assertion of
-- `recvbuffer_flush` fails, no byte outside the buffers is read, and the result is the prefix of
-- the requested length, or all bytes for a request of 0.
pub recvbuffer_flush-take :
    (s : StreamCtx) (req_len : ℕ)
    → 0 < s.total_buffer_length
    → s.total_buffer_length ≤ length (contents s)
    → req_len ≤ s.total_buffer_length
    → recvbuffer_flush s req_len ≡ some (take (flush_size s req_len) (contents s))
unfolding recvbuffer_flush
recvbuffer_flush-take s req_len some_bytes held asked =
    let size_le : flush_size s req_len ≤ s.total_buffer_length = ground arith in
    let size_pos : 0 < flush_size s req_len = ground arith in
    let same : joined (s.buffer0 ∷ s.buffer1 ∷ []) ≡ contents s =
      ap (◌++◌ s.buffer0) (append-nil s.buffer1) in
    let flushed : flush_loop (s.buffer0 ∷ s.buffer1 ∷ []) (flush_size s req_len)
        ≡ some (take (flush_size s req_len) (joined (s.buffer0 ∷ s.buffer1 ∷ []))) =
      flush_loop-take (s.buffer0 ∷ s.buffer1 ∷ []) (flush_size s req_len)
        (omega (arith, ap (length {0}) same)) in
    let pass : (ltb s.total_buffer_length req_len || flush_size s req_len == 0) ≡ false =
      ground arith in
    rw pass (flushed ∙ ap (λ xs. some (take (flush_size s req_len) xs)) same)
