-- ===== src/Library.antt =====
-- The library as a whole: openLib, closeLib, registration, deregistration and on_unload of
-- c_src/quicer_nif.c, on its global state.
pub mod Balance
use quicer.Prelude.{
  Bool, true, false, not, ◌&&◌, ◌||◌, ℕ, ◌==◌, Option, none, some, List, [], ◌∷◌, ◌++◌,
  if◌then◌else◌,
}
use quicer.Nif.{Nif, Status, Value, Reply, ok, ok_with, error, error3, atom, status, status_number}
use quicer.Nif.Atoms.{Atom}
use quicer.Registration.{profile_of}

-- `isLibOpened`, `isRegistered`, `GRegistration` with NULL as 0, the profile of `GRegConfig`, and
-- whether `MsQuic` points at a table of functions that is open.
pub record Library : Type 0 where
  pub is_lib_opened : Bool
  pub is_registered : Bool
  pub g_registration : ℕ
  pub profile : Atom
  pub api_open : Bool

-- What is asked of MsQuic, and what it answers.
pub data Effect : Type 0 where
  open_api : (opened : Status) → Effect
  close_api : Effect
  open_registration : (profile : Atom) → (opened : Status) → Effect
  close_registration : (registration : ℕ) → Effect

-- `fault`: a function of MsQuic is called through a table that is not open.
pub data Run (A : Type 0) : Type 0 where
  fault : Run A
  done : Library → List Effect → A → Run A

-- The state when the module is loaded.
abbrev pub loaded : Library
loaded = record {
  is_lib_opened = false;
  is_registered = false;
  g_registration = 0;
  profile = Atom.low_latency;
  api_open = false;
}

-- A call through the table of functions.
abbrev pub with_api : {A : Type 0} → Library → Run A → Run A
with_api l run = if l.api_open then run else fault

-- `opened` is what `MsQuicOpen2` answers, `traced` whether the tracing library was named and loaded.
unfoldable pub open_lib : Nif → (opened : Status) → (traced : Bool) → Library → Run Reply
open_lib nif opened traced l =
    if l.is_lib_opened
    then done l [] (ok_with (atom Atom.false))
    else if nif.failed opened
    then done (record l { is_lib_opened = false }) (open_api opened ∷ [])
        (error3 Atom.open_failed (status opened))
    else done (record l { is_lib_opened = true; api_open = true }) (open_api opened ∷ [])
        (ok_with (atom (if traced then Atom.debug else Atom.true)))

-- `MsQuic` is not NULL where `isLibOpened` is set.
unfoldable pub close_lib : Library → Run Reply
close_lib l =
    if l.is_lib_opened
    then with_api l
        (done (record l { is_lib_opened = false; api_open = false }) (close_api ∷ []) ok)
    else done l [] ok

-- `eprofile` is the argument, if there is one; the profile of the last call stays without.
unfoldable pub registration_profile :
    (nif : Nif) → (eprofile : Option (Nif.Term nif)) → (last : Atom) → Option Atom
unfolding profile_of
registration_profile nif none last = some last
registration_profile nif (some t) last = profile_of nif (some t)

-- `opened` is what `RegistrationOpen` answers, which writes the handle on success.
unfoldable pub registration :
    (nif : Nif)
    → (opened : Status) → (opened_registration : ℕ) → (eprofile : Option (Nif.Term nif)) → Library
    → Run Reply
unfolding registration_profile
registration nif opened opened_registration eprofile l =
    if l.is_registered || not l.is_lib_opened
    then done l [] (error (atom Atom.badarg))
    else elim (registration_profile nif eprofile l.profile) [
      | none ↦ done l [] (error (atom Atom.badarg))
      | some profile ↦ with_api l (
          if nif.failed opened
          then done (record l { is_registered = false; profile = profile })
              (open_registration profile opened ∷ [])
              (error3 Atom.reg_failed (status_number opened))
          else done
              (record l {
                is_registered = true;
                g_registration = opened_registration;
                profile = profile;
              })
              (open_registration profile opened ∷ []) ok)
    ]

unfoldable pub deregistration : Library → Run Reply
deregistration l =
    if l.is_registered && not (l.g_registration == 0)
    then with_api l (
        done (record l { g_registration = 0; is_registered = false })
          (close_registration l.g_registration ∷ []) ok)
    else done l [] ok

-- `on_unload`: the registration, and then the library.
unfoldable pub unload_registration : Library → Run Unit
unload_registration l =
    if l.is_registered
    then with_api l
        (done (record l { is_registered = false }) (close_registration l.g_registration ∷ []) tt)
    else done l [] tt

unfoldable pub unload_library : Library → Run Unit
unload_library l =
    if l.is_lib_opened
    then with_api l
        (done (record l { is_lib_opened = false; api_open = false }) (close_api ∷ []) tt)
    else done l [] tt

unfoldable pub on_unload : Library → Run Unit
unfolding unload_registration unload_library
on_unload l = elim (unload_registration l) [
  | fault ↦ fault
  | done m fx _ ↦ elim (unload_library m) [ fault ↦ fault | done n gx u ↦ done n (fx ++ gx) u ]
]
