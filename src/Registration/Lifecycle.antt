-- ===== src/Registration/Lifecycle.antt =====
-- A registration from new_registration2 to the last reference.
use quicer.Prelude.{
  if_so, if_not, ℕ, ◌+◌, ◌-◌, ◌≤◌, ◌≡◌, true, false, Option, none, some, List, [], ◌∷◌, ◌++◌, ◌==◌,
  arith, if◌then◌else◌, tally, tally-append, inl, inr, Option-cases, Bool-cases, subst,
}
use quicer.Nif.{Nif, Value, ok_with}
use quicer.Registration.{
  RegistrationCtx, Effect, shutdown_registration, close_registration, free_env, Memory, gone, live,
  Run, fault, done, release, keep, shutdown_registration_x, new_registration2, Answers,
  destroy_r_ctx, resource_reg_dealloc_callback, deinit_r_ctx, read_name, open_named, give_up,
  init_r_ctx, shutdown_arguments,
}

-- The memory of one registration, the terms and the contexts of connections and listeners that refer
-- to it, and the effects so far.
pub record World : Type 0 where
  pub memory : Memory
  pub terms : ℕ
  pub users : ℕ
  pub effects : List Effect

-- What may happen: a process that has a term shuts the registration down, or opens a connection or a
-- listener with it; a term is collected; a connection or a listener gives its reference back.
pub data Action (nif : Nif) : Type 0 where
  shutdown : Option (Nif.Term nif × Nif.Term nif) → Action nif
  collect use_it give_back : Action nif

abbrev pub next : {A : Type 0} → World → (terms users : ℕ) → Run A → Option World
next w terms users fault = none
next w terms users (done m fx a) =
    some (record { memory = m; terms = terms; users = users; effects = w.effects ++ fx })

-- An action for which there is no term, or no user, does not happen. `none` is a fault.
unfoldable pub act : (nif : Nif) → World → Action nif → Option World
unfolding shutdown_registration_x release keep
act nif w (shutdown arguments) =
    if w.terms == 0
    then some w
    else next w w.terms w.users (shutdown_registration_x nif arguments w.memory)
act nif w collect = if w.terms == 0 then some w else next w (w.terms - 1) w.users (release w.memory)
act nif w use_it = if w.terms == 0 then some w else next w w.terms (w.users + 1) (keep w.memory)
act nif w give_back =
    if w.users == 0 then some w else next w w.terms (w.users - 1) (release w.memory)

unfoldable pub run : (nif : Nif) → World → List (Action nif) → Option World
unfolding act
run nif w [] = some w
run nif w (a ∷ rest) = elim (act nif w a) [ none ↦ none | some v ↦ run nif v rest ]

abbrev pub shutdown_weight : Effect → ℕ
shutdown_weight (shutdown_registration _ _ _) = 1
shutdown_weight _ = 0

abbrev pub close_weight : Effect → ℕ
close_weight (close_registration _) = 1
close_weight _ = 0

abbrev pub free_weight : Effect → ℕ
free_weight free_env = 1
free_weight _ = 0

-- With references left, each is accounted for; without, nobody refers to the registration.
abbrev pub Sound : Memory → (terms users : ℕ) → List Effect → Type 0
Sound gone terms users fx =
    (terms ≡ 0)
    × (users ≡ 0)
    × (tally shutdown_weight fx ≡ 1)
    × (tally close_weight fx ≡ 1)
    × (tally free_weight fx ≡ 1)
Sound (live r) terms users fx =
    (r.has_env ≡ true)
    × ((r.registration == 0) ≡ false)
    × (r.references ≡ terms + users + if_not r.is_released)
    × (1 ≤ r.references)
    × (tally shutdown_weight fx ≡ if_so r.is_released)
    × (tally close_weight fx ≡ 0)
    × (tally free_weight fx ≡ 0)

abbrev pub IsSound : Option World → Type 0
IsSound none = ⊥
IsSound (some w) = Sound w.memory w.terms w.users w.effects

-- The weight of one more effect.
also_tally :
    (weight : Effect → ℕ) (fx : List Effect) (x : Effect)
    → tally weight (fx ++ (x ∷ [])) ≡ tally weight fx + weight x
also_tally weight fx x = ground (arith, tally-append weight fx (x ∷ []))

none_tally : (weight : Effect → ℕ) (fx : List Effect) → tally weight (fx ++ []) ≡ tally weight fx
none_tally weight fx = ground (arith, tally-append weight fx [])

both_tally :
    (weight : Effect → ℕ) (fx : List Effect) (x y : Effect)
    → tally weight (fx ++ (x ∷ y ∷ [])) ≡ tally weight fx + weight x + weight y
both_tally weight fx x y = ground (arith, tally-append weight fx (x ∷ y ∷ []))

abbrev pub world : Memory → (terms users : ℕ) → List Effect → World
world m terms users fx = record { memory = m; terms = terms; users = users; effects = fx }

module _ (nif : Nif) where
  released-IsSound :
      (r : RegistrationCtx) (terms users terms' users' : ℕ) (fx : List Effect)
      → Sound (live r) terms users fx
      → terms + users ≡ terms' + users' + 1
      → IsSound (next (world (live r) terms users fx) terms' users' (release (live r)))
  unfolding release resource_reg_dealloc_callback deinit_r_ctx
  released-IsSound r terms users terms' users' fx v e = ground (
    arith,
    none_tally shutdown_weight fx,
    none_tally close_weight fx,
    none_tally free_weight fx,
    both_tally shutdown_weight fx free_env (close_registration r.registration),
    both_tally close_weight fx free_env (close_registration r.registration),
    both_tally free_weight fx free_env (close_registration r.registration),
  )

  shutdown-IsSound :
      (r : RegistrationCtx) (terms users : ℕ) (fx : List Effect)
      (arguments : Option (Nif.Term nif × Nif.Term nif))
      → Sound (live r) terms users fx
      → (terms == 0) ≡ false
      → IsSound (
          next
            (world (live r) terms users fx)
            terms
            users
            (shutdown_registration_x nif arguments (live r)))
  unfolding shutdown_registration_x destroy_r_ctx release
  shutdown-IsSound r terms users fx arguments v e =
      elim (Option-cases (shutdown_arguments nif arguments)) [
        | inl wrong ↦
            rw (wrong, shutdown_registration_x)
              (ground (
                arith,
                none_tally shutdown_weight fx,
                none_tally close_weight fx,
                none_tally free_weight fx,
              ))
        | inr ((silent, code), right) ↦
            rw (right, shutdown_registration_x)
              (let x = shutdown_registration r.registration silent code in
                ground (
                  arith,
                  none_tally shutdown_weight fx,
                  none_tally close_weight fx,
                  none_tally free_weight fx,
                  also_tally shutdown_weight fx x,
                  also_tally close_weight fx x,
                  also_tally free_weight fx x,
                ))
      ]

  kept-IsSound :
      (r : RegistrationCtx) (terms users : ℕ) (fx : List Effect)
      → Sound (live r) terms users fx
      → IsSound (next (world (live r) terms users fx) terms (users + 1) (keep (live r)))
  unfolding keep
  kept-IsSound r terms users fx v =
      ground (
        arith,
        none_tally shutdown_weight fx,
        none_tally close_weight fx,
        none_tally free_weight fx,
      )

  acted-IsSound :
      (m : Memory) (terms users : ℕ) (fx : List Effect) (a : Action nif)
      → Sound m terms users fx
      → IsSound (act nif (world m terms users fx) a)
  unfolding act
  acted-IsSound gone terms users fx (shutdown arguments) v = ground arith
  acted-IsSound gone terms users fx collect v = ground arith
  acted-IsSound gone terms users fx use_it v = ground arith
  acted-IsSound gone terms users fx give_back v = ground arith
  acted-IsSound (live r) terms users fx (shutdown arguments) v = elim (Bool-cases (terms == 0)) [
    | inl nobody ↦ rw (nobody, act) v
    | inr somebody ↦ rw (somebody, act) (shutdown-IsSound r terms users fx arguments v somebody)
  ]
  acted-IsSound (live r) terms users fx collect v = elim (Bool-cases (terms == 0)) [
    | inl nobody ↦ rw (nobody, act) v
    | inr somebody ↦
        rw (somebody, act) (released-IsSound r terms users (terms - 1) users fx v (ground arith))
  ]
  acted-IsSound (live r) terms users fx use_it v = elim (Bool-cases (terms == 0)) [
    | inl nobody ↦ rw (nobody, act) v
    | inr somebody ↦ rw (somebody, act) (kept-IsSound r terms users fx v)
  ]
  acted-IsSound (live r) terms users fx give_back v = elim (Bool-cases (users == 0)) [
    | inl nobody ↦ rw (nobody, act) v
    | inr somebody ↦
        rw (somebody, act) (released-IsSound r terms users terms (users - 1) fx v (ground arith))
  ]

  run-IsSound :
      (w : World) (history : List (Action nif)) → IsSound (some w) → IsSound (run nif w history)
  unfolding run
  run-IsSound w [] v = v
  run-IsSound w (a ∷ rest) v = elim (Option-cases (act nif w a)) [
    | inl faulty ↦
        absurd (subst IsSound faulty (acted-IsSound w.memory w.terms w.users w.effects a v))
    | inr (next_, went) ↦
        rw (run, went)
          (run-IsSound next_ rest
            (subst IsSound went (acted-IsSound w.memory w.terms w.users w.effects a v)))
  ]

-- What `new_registration2` leaves with `{ok, Registration}`, and a handle that is not NULL.
opened-Sound :
    (nif : Nif) (a : Answers) (eprofile : Option (Nif.Term nif)) (m : Memory) (fx : List Effect)
    (v : Value)
    → (a.opened_registration == 0) ≡ false
    → new_registration2 nif a eprofile ≡ done m fx (ok_with v)
    → Sound m 1 0 fx
unfolding new_registration2 read_name open_named give_up deinit_r_ctx init_r_ctx keep
opened-Sound nif a eprofile m fx v n e = ground arith

-- Take a registration that `new_registration2` has opened, with a handle that is not NULL, and any
-- history of shutdowns by processes that have its term, collected terms, connections and listeners
-- that take a reference, and those that give it back. Nothing is used that is gone. While the context
-- is there, its references are those of the terms, of the users, and one more until it is shut down;
-- MsQuic has shut the registration down once if it is released and else not at all, and has not closed
-- it. Once the context is gone, there is no term and no user, and MsQuic has shut the registration down
-- and closed it, and the environment was freed, once each.
pub run-new_registration2-IsSound :
    (nif : Nif) (a : Answers) (eprofile : Option (Nif.Term nif)) (m : Memory) (fx : List Effect)
    (v : Value) (history : List (Action nif))
    → (a.opened_registration == 0) ≡ false
    → new_registration2 nif a eprofile ≡ done m fx (ok_with v)
    → IsSound (run nif (world m 1 0 fx) history)
run-new_registration2-IsSound nif a eprofile m fx v history n e =
    run-IsSound nif (world m 1 0 fx) history (opened-Sound nif a eprofile m fx v n e)
