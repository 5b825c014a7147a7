-- ===== src/Options/Balance.antt =====
-- What getopt and setopt ask of the hosts, counted.
use quicer.Prelude.{
  ℕ, ◌+◌, ◌≤◌, ◌≡◌, refl, Bool, true, false, List, [], ◌∷◌, ◌++◌, arith, ◌||◌, tally, sym, ◌∙◌,
  tally-append, if_so, if_not,
}
use quicer.Nif.{error, error3, plain, Nif, Reply, ok, ok_with}
use quicer.Options.{
  Param, Answer, Buffer, Host, Effect, Run, enclose, write, get_param, alloc_buffer, free_buffer,
  keep_l_ctx, release_l_ctx, lock, unlock, fault, done,
}

-- Calls of `SetParam` and of `GetParam`.
abbrev pub sets : Effect → ℕ
sets (Effect.set_param h p l b) = 1
sets _ = 0

abbrev pub reads : Effect → ℕ
reads (Effect.get_param h p l) = 1
reads _ = 0

-- What is taken, and what is given back: buffers, references to a listener, and its lock.
abbrev pub allocs : Effect → ℕ
allocs alloc_buffer = 1
allocs _ = 0

abbrev pub frees : Effect → ℕ
frees free_buffer = 1
frees _ = 0

abbrev pub keeps : Effect → ℕ
keeps keep_l_ctx = 1
keeps _ = 0

abbrev pub releases : Effect → ℕ
releases release_l_ctx = 1
releases _ = 0

abbrev pub locks : Effect → ℕ
locks lock = 1
locks _ = 0

abbrev pub unlocks : Effect → ℕ
unlocks unlock = 1
unlocks _ = 0

abbrev pub is_ok : Reply → Bool
is_ok ok = true
is_ok _ = false

abbrev pub is_error : Reply → Bool
is_error (error v) = true
is_error _ = false

abbrev pub is_value : Reply → Bool
is_value (ok_with v) = true
is_value _ = false

module _ {nif : Nif} (host : Host nif) where
  -- The calls of `SetParam` that MsQuic accepts, and the calls of `GetParam` that it refuses.
  abbrev pub accepted : Effect → ℕ
  accepted (Effect.set_param h p l b) = if_not (nif.failed (host.set_param h p l b))
  accepted _ = 0

  abbrev pub refused : Effect → ℕ
  refused (Effect.get_param h p l) = if_so (nif.failed (Answer.answer (host.get_param h p l)))
  refused _ = 0

-- All that was taken is given back.
pub record Balanced (fx : List Effect) : Type 0 where
  pub buffers : tally allocs fx ≡ tally frees fx
  pub references : tally keeps fx ≡ tally releases fx
  pub lock : tally locks fx ≡ tally unlocks fx

-- A setter makes one call of `SetParam` at most, reads nothing, and says `ok` where MsQuic accepted the
-- call and otherwise gives an error; a getter makes one call of `GetParam` at most, sets nothing, never says `ok`
-- without a value, and gives no value where MsQuic refused.
pub record Told {nif : Nif} (host : Host nif) (fx : List Effect) (r : Reply) : Type 0 where
  pub balanced : Balanced fx
  pub one : tally sets fx ≤ 1
  pub none_read : tally reads fx ≡ 0
  pub told : if_so (is_ok r) ≡ tally (accepted host) fx
  pub answers : (is_ok r || is_error r) ≡ true

pub record Shown {nif : Nif} (host : Host nif) (fx : List Effect) (r : Reply) : Type 0 where
  pub balanced : Balanced fx
  pub one : tally reads fx ≤ 1
  pub none_set : tally sets fx ≡ 0
  pub no_ok : is_ok r ≡ false
  pub shown : tally (refused host) fx + if_so (is_value r) ≤ 1

-- The run ends, and its end is such.
abbrev pub Ends : (List Effect → Reply → Type 0) → Run → Type 0
Ends P fault = ⊥
Ends P (done fx r) = P fx r

tally-enclosed :
    (weight : Effect → ℕ) (before fx after : List Effect)
    → tally weight (before ++ fx ++ after)
      ≡ tally weight before + tally weight fx + tally weight after
tally-enclosed weight before fx after =
    omega (arith, tally-append weight (before ++ fx) after, tally-append weight before fx)

-- Two lists of effects around a piece of code that are balanced together, and call no `SetParam` or
-- `GetParam`.
module _ {nif : Nif} (host : Host nif) where
  pub record Neutral (before after : List Effect) : Type 0 where
    pub buffers : tally allocs before + tally allocs after ≡ tally frees before + tally frees after
    pub references :
        tally keeps before + tally keeps after ≡ tally releases before + tally releases after
    pub lock : tally locks before + tally locks after ≡ tally unlocks before + tally unlocks after
    pub no_set : tally sets before + tally sets after ≡ 0
    pub no_read : tally reads before + tally reads after ≡ 0
    pub no_accepted : tally (accepted host) before + tally (accepted host) after ≡ 0
    pub no_refused : tally (refused host) before + tally (refused host) after ≡ 0

  pub buffer-Neutral : Neutral (alloc_buffer ∷ []) (free_buffer ∷ [])
  buffer-Neutral = record {
    buffers = refl;
    references = refl;
    lock = refl;
    no_set = refl;
    no_read = refl;
    no_accepted = refl;
    no_refused = refl;
  }

  pub lock-Neutral : Neutral (lock ∷ []) (unlock ∷ [])
  lock-Neutral = record {
    buffers = refl;
    references = refl;
    lock = refl;
    no_set = refl;
    no_read = refl;
    no_accepted = refl;
    no_refused = refl;
  }

  pub keep-Neutral : Neutral (lock ∷ keep_l_ctx ∷ unlock ∷ []) (release_l_ctx ∷ [])
  keep-Neutral = record {
    buffers = refl;
    references = refl;
    lock = refl;
    no_set = refl;
    no_read = refl;
    no_accepted = refl;
    no_refused = refl;
  }

  module _ (before after : List Effect) (n : Neutral before after) where
    enclose-Balanced : (fx : List Effect) → Balanced fx → Balanced (before ++ fx ++ after)
    enclose-Balanced fx b = record {
      buffers = omega (
        arith,
        tally-enclosed allocs before fx after,
        tally-enclosed frees before fx after,
        n.buffers,
        b.buffers,
      );
      references = omega (
        arith,
        tally-enclosed keeps before fx after,
        tally-enclosed releases before fx after,
        n.references,
        b.references,
      );
      lock = omega (
        arith,
        tally-enclosed locks before fx after,
        tally-enclosed unlocks before fx after,
        n.lock,
        b.lock,
      );
    }

    -- A weight that the enclosing effects do not have.
    same_tally :
        (weight : Effect → ℕ) (fx : List Effect)
        → tally weight before + tally weight after ≡ 0
        → tally weight (before ++ fx ++ after) ≡ tally weight fx
    same_tally weight fx zero = omega (arith, tally-enclosed weight before fx after, zero)

    pub enclose-Told :
        (run : Run) → Ends (Told host) run → Ends (Told host) (enclose before after run)
    unfolding enclose
    enclose-Told fault e = e
    enclose-Told (done fx r) e = record {
      balanced = enclose-Balanced fx e.balanced;
      one = omega (arith, same_tally sets fx n.no_set, e.one);
      none_read = same_tally reads fx n.no_read ∙ e.none_read;
      answers = e.answers;
      told = e.told ∙ sym (same_tally (accepted host) fx n.no_accepted);
    }

    pub enclose-Shown :
        (run : Run) → Ends (Shown host) run → Ends (Shown host) (enclose before after run)
    unfolding enclose
    enclose-Shown fault e = e
    enclose-Shown (done fx r) e = record {
      balanced = enclose-Balanced fx e.balanced;
      one = omega (arith, same_tally reads fx n.no_read, e.one);
      none_set = same_tally sets fx n.no_set ∙ e.none_set;
      no_ok = e.no_ok;
      shown = omega (arith, same_tally (refused host) fx n.no_refused, e.shown);
    }

  -- Without an effect, any reply but `ok` is told, and any reply but that is shown.
  none-Balanced : Balanced []
  none-Balanced = record { buffers = refl; references = refl; lock = refl }

  pub none-Told : (r : Reply) → is_error r ≡ true → Ends (Told host) (done [] r)
  none-Told (error v) e = record {
    balanced = none-Balanced;
    one = omega arith;
    none_read = refl;
    told = refl;
    answers = refl;
  }
  none-Told ok e = absurd cc
  none-Told (ok_with v) e = absurd cc
  none-Told (error3 a v) e = absurd cc
  none-Told (plain a) e = absurd cc

  pub none-Shown : (r : Reply) → is_ok r ≡ false → Ends (Shown host) (done [] r)
  none-Shown r e = record {
    balanced = none-Balanced;
    one = omega arith;
    none_set = refl;
    no_ok = e;
    shown = ground arith;
  }

  pub write-Told :
      (handle : ℕ) (param : Param) (length : ℕ) (b : Buffer)
      → Ends (Told host) (write host handle param length b)
  unfolding write
  write-Told handle param length b = record {
    balanced = record { buffers = refl; references = refl; lock = refl };
    one = omega arith;
    none_read = refl;
    told = ground arith;
    answers = ground arith;
  }

  -- One call of `GetParam`, and a reply that gives a value only where it was accepted.
  pub call-Shown :
      (handle : ℕ) (param : Param) (length : ℕ) (r : Reply)
      → is_ok r ≡ false
      → if_so (nif.failed (Answer.answer (host.get_param handle param length))) + if_so (is_value r)
        ≤ 1
      → Ends (Shown host) (done (get_param handle param length ∷ []) r)
  call-Shown handle param length r no_ok shown = record {
    balanced = record { buffers = refl; references = refl; lock = refl };
    one = omega arith;
    none_set = refl;
    no_ok = no_ok;
    shown = omega (arith, shown);
  }
