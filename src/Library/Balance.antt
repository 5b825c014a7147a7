-- ===== src/Library/Balance.antt =====
-- What a history of calls opens and closes, and when it uses a library that is closed.
use quicer.Prelude.{
  if_so, Bool, true, false, not, ◌&&◌, ℕ, ◌+◌, ◌==◌, ◌≡◌, refl, Option, none, some, List, [], ◌∷◌,
  ◌++◌, arith, tally, tally-append, subst, if◌then◌else◌, inl, inr, Option-cases,
}
use quicer.Nif.{Nif, Status}
use quicer.Library.{
  Library, Effect, open_api, close_api, open_registration, close_registration, Run, fault, done,
  loaded, open_lib, close_lib, registration, deregistration, on_unload, unload_registration,
  unload_library,
}

-- The calls of a module, and its unloading.
pub data Call (nif : Nif) : Type 0 where
  opens : Status → (traced : Bool) → Call nif
  closes deregisters unloads : Call nif
  registers : Status → (opened_registration : ℕ) → Option (Nif.Term nif) → Call nif

-- The state afterwards and the effects; `none` is a fault.
abbrev pub outcome : {A : Type 0} → Run A → Option (Library × List Effect)
outcome fault = none
outcome (done l fx a) = some (l, fx)

unfoldable pub call : (nif : Nif) → Library → Call nif → Option (Library × List Effect)
unfolding open_lib close_lib registration deregistration on_unload
call nif l (opens opened traced) = outcome (open_lib nif opened traced l)
call nif l closes = outcome (close_lib l)
call nif l deregisters = outcome (deregistration l)
call nif l unloads = outcome (on_unload l)
call nif l (registers opened r eprofile) = outcome (registration nif opened r eprofile l)

unfoldable pub run : (nif : Nif) → Library → List (Call nif) → Option (Library × List Effect)
unfolding call
run nif l [] = some (l, [])
run nif l (c ∷ rest) = elim (call nif l c) [
  | none ↦ none
  | some (m, fx) ↦ elim (run nif m rest) [ none ↦ none | some (n, gx) ↦ some (n, fx ++ gx) ]
]

-- The library is not closed while there is a registration.
abbrev pub is_orderly : {nif : Nif} → Library → Call nif → Bool
is_orderly l closes = not l.is_registered
is_orderly l _ = true

unfoldable pub are_orderly : (nif : Nif) → Library → List (Call nif) → Bool
unfolding call
are_orderly nif l [] = true
are_orderly nif l (c ∷ rest) =
    is_orderly l c && elim (call nif l c) [ none ↦ true | some (m, fx) ↦ are_orderly nif m rest ]

abbrev pub opened_api : Nif → Effect → ℕ
opened_api nif (open_api opened) = if nif.failed opened then 0 else 1
opened_api nif _ = 0

abbrev pub closed_api : Effect → ℕ
closed_api close_api = 1
closed_api _ = 0

abbrev pub opened_registration : Nif → Effect → ℕ
opened_registration nif (open_registration profile opened) = if nif.failed opened then 0 else 1
opened_registration nif _ = 0

abbrev pub closed_registration : Effect → ℕ
closed_registration (close_registration r) = 1
closed_registration _ = 0

-- The table is open when the flag says so, and a registration has an open library.
pub record IsSafe (l : Library) : Type 0 where
  pub same : l.api_open ≡ l.is_lib_opened
  pub registered : (l.is_registered && not l.is_lib_opened) ≡ false

-- From one state to another: what was opened is closed, but for what is open at the end.
pub record Balanced (nif : Nif) (l m : Library) (fx : List Effect) : Type 0 where
  pub api :
      tally (opened_api nif) fx + if_so l.is_lib_opened
      ≡ tally closed_api fx + if_so m.is_lib_opened
  pub registrations :
      tally (opened_registration nif) fx + if_so l.is_registered
      ≡ tally closed_registration fx + if_so m.is_registered

abbrev pub EndsSafely : Nif → Library → Option (Library × List Effect) → Type 0
EndsSafely nif l none = ⊥
EndsSafely nif l (some (m, fx)) = IsSafe m × Balanced nif l m fx

call-EndsSafely :
    (nif : Nif) (l : Library) (c : Call nif)
    → IsSafe l
    → is_orderly l c ≡ true
    → EndsSafely nif l (call nif l c)
unfolding call open_lib close_lib registration deregistration on_unload unload_registration
    unload_library
call-EndsSafely nif l (opens opened traced) v o = ground (arith, v.same, v.registered)
call-EndsSafely nif l closes v o = ground (arith, v.same, v.registered)
call-EndsSafely nif l deregisters v o = ground (arith, v.same, v.registered)
call-EndsSafely nif l unloads v o = ground (arith, v.same, v.registered)
call-EndsSafely nif l (registers opened r eprofile) v o = ground (arith, v.same, v.registered)

joined-EndsSafely :
    (nif : Nif) (l m : Library) (fx : List Effect) (o : Option (Library × List Effect))
    → Balanced nif l m fx
    → EndsSafely nif m o
    → EndsSafely nif l (elim o [ none ↦ none | some (n, gx) ↦ some (n, fx ++ gx) ])
joined-EndsSafely nif l m fx none b v = v
joined-EndsSafely nif l m fx (some (n, gx)) b (safe, after) = (
  safe,
  record {
    api = ground (
      arith,
      b.api,
      after.api,
      tally-append (opened_api nif) fx gx,
      tally-append closed_api fx gx,
    );
    registrations = ground (
      arith,
      b.registrations,
      after.registrations,
      tally-append (opened_registration nif) fx gx,
      tally-append closed_registration fx gx,
    );
  },
)

run-EndsSafely_from :
    (nif : Nif) (l : Library) (history : List (Call nif))
    → IsSafe l
    → are_orderly nif l history ≡ true
    → EndsSafely nif l (run nif l history)
unfolding run are_orderly
run-EndsSafely_from nif l [] v o = (v, record { api = refl; registrations = refl })
run-EndsSafely_from nif l (c ∷ rest) v o = elim (Option-cases (call nif l c)) [
  | inl faulty ↦ absurd (subst (EndsSafely nif l) faulty called)
  | inr ((m, fx), went) ↦
      let (safe, balanced) : EndsSafely nif l (some (m, fx)) =
        subst (EndsSafely nif l) went called in
      rw (run, went)
        (joined-EndsSafely nif l m fx (run nif m rest) balanced
          (run-EndsSafely_from nif m rest safe (ground (arith, o, went))))
]
  where
    called : EndsSafely nif l (call nif l c)
    called = call-EndsSafely nif l c v (ground (arith, o))

-- Take any history of `openLib`, `closeLib`, `registration`, `deregistration` and unloading from the
-- state in which the module is loaded, in which `closeLib` is not called while there is a registration.
-- No call goes through a table that is not open; and of the libraries and registrations that MsQuic
-- has opened each was closed, once, but for the one that the state shows to be open.
pub run-EndsSafely :
    (nif : Nif) (history : List (Call nif))
    → are_orderly nif loaded history ≡ true
    → EndsSafely nif loaded (run nif loaded history)
run-EndsSafely nif history o =
    run-EndsSafely_from nif loaded history (record { same = refl; registered = refl }) o

-- At an open library with a registration, `closeLib` leaves the flag of the registration set: both
-- `deregistration` and unloading then call through the closed table. In the other order, and where
-- the module is unloaded at once, the library and the registration are closed.
pub close_lib-deregistration :
    (nif : Nif) (l : Library)
    → IsSafe l
    → l.is_registered ≡ true
    → (l.g_registration == 0) ≡ false
    → (run nif l (closes ∷ deregisters ∷ []) ≡ none)
      × (run nif l (closes ∷ unloads ∷ []) ≡ none)
      × ((m : Library) × (run nif l (deregisters ∷ closes ∷ [])
            ≡ some (m, close_registration l.g_registration ∷ close_api ∷ []))
          × (m.is_registered ≡ false)
          × (m.is_lib_opened ≡ false))
      × ((m : Library) × (run nif l (unloads ∷ [])
            ≡ some (m, close_registration l.g_registration ∷ close_api ∷ []))
          × (m.is_registered ≡ false)
          × (m.is_lib_opened ≡ false))
unfolding run call close_lib deregistration on_unload unload_registration unload_library
close_lib-deregistration nif l v registered handle =
    let opened : l.is_lib_opened ≡ true = ground (arith, v.registered, registered) in
    let table : l.api_open ≡ true = ground (arith, v.same, opened) in
    (
      ground (arith, opened, table),
      ground (arith, opened, table),
      (
        record l {
          is_lib_opened = false;
          is_registered = false;
          g_registration = 0;
          api_open = false;
        },
        ground (arith, opened, table),
        refl,
        refl,
      ),
      (
        record l { is_lib_opened = false; is_registered = false; api_open = false },
        ground (arith, opened, table),
        refl,
        refl,
      ),
    )
