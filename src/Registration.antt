-- ===== src/Registration.antt =====
-- Registrations: c_src/quicer_reg.c, the registration's context of c_src/quicer_ctx.c and
-- c_src/quicer_ctx.h, and the callback of its resource in c_src/quicer_nif.c.
pub mod Lifecycle
use quicer.Prelude.{
  ℕ, ◌-◌, ◌+◌, Bool, true, false, not, ◌||◌, ◌&&◌, Option, none, some, List, [], ◌∷◌, ◌++◌, ◌==◌,
  ltb, if◌then◌else◌,
}
use quicer.Nif.{Nif, Status, Reply, ok, ok_with, error, atom, status, string, handle}
use quicer.Nif.Atoms.{Atom}

-- `QuicerRegistrationCTX`, with the count of references that the runtime keeps for the resource.
-- `has_env` tells whether `env` is allocated and not freed; the handle 0 is NULL.
pub record RegistrationCtx : Type 0 where
  pub has_env : Bool
  pub registration : ℕ
  pub is_released : Bool
  pub name : List ℕ
  pub references : ℕ

-- What is asked of MsQuic and the runtime.
pub data Effect : Type 0 where
  alloc_env free_env : Effect
  open_registration : (profile : Atom) → Effect
  shutdown_registration : (registration : ℕ) → (silent : Bool) → (code : ℕ) → Effect
  close_registration : (registration : ℕ) → Effect

-- The memory of the context: `gone` when its last reference is.
pub data Memory : Type 0 where
  gone : Memory
  live : RegistrationCtx → Memory

-- `fault`: memory that is gone, freed or NULL is used. Otherwise the memory, the effects and the
-- result.
pub data Run (A : Type 0) : Type 0 where
  fault : Run A
  done : Memory → List Effect → A → Run A

infixl 5 ◌>>=◌
abbrev pub ◌>>=◌ : {A B : Type 0} → Run A → (Memory → A → Run B) → Run B
fault >>= k = fault
done m fx a >>= k = elim (k m a) [ fault ↦ fault | done n gx b ↦ done n (fx ++ gx) b ]

abbrev pub with_live : {A : Type 0} → Memory → (RegistrationCtx → Run A) → Run A
with_live gone k = fault
with_live (live r) k = k r

-- The environment is freed once at most.
unfoldable pub deinit_r_ctx : Memory → Run Unit
deinit_r_ctx m =
    with_live m λ r.
      if r.has_env then done (live (record r { has_env = false })) (free_env ∷ []) tt else fault

-- The callback, with the last reference gone.
unfoldable pub resource_reg_dealloc_callback : Memory → Run Unit
unfolding deinit_r_ctx
resource_reg_dealloc_callback m = deinit_r_ctx m >>= λ n _.
    with_live n
      λ r. done gone (if r.registration == 0 then [] else close_registration r.registration ∷ []) tt

-- `enif_release_resource`, as the runtime documents it: the last reference calls the callback. The
-- further references are those of `enif_keep_resource` and of terms.
unfoldable pub release : Memory → Run Unit
unfolding resource_reg_dealloc_callback
release m = with_live m λ r.
    if r.references == 0
    then fault
    else if r.references == 1
    then resource_reg_dealloc_callback (live (record r { references = 0 }))
    else done (live (record r { references = r.references - 1 })) [] tt

unfoldable pub keep : Memory → Run Unit
keep m = with_live m λ r. done (live (record r { references = r.references + 1 })) [] tt

-- `is_released = TRUE`, and the reference that the allocation gave.
unfoldable pub destroy_r_ctx : Memory → Run Unit
unfolding release
destroy_r_ctx m = with_live m λ r. release (live (record r { is_released = true }))

-- Cleared memory, one reference, and an environment.
unfoldable pub init_r_ctx : RegistrationCtx
init_r_ctx = record {
  has_env = true;
  registration = 0;
  is_released = false;
  name = [];
  references = 1;
}

-- The profile: low latency without an argument, and `none` if it is no profile.
unfoldable pub profile_of : (nif : Nif) → (eprofile : Option (Nif.Term nif)) → Option Atom
profile_of nif none = some Atom.low_latency
profile_of nif (some t) =
    if nif.is_same t Atom.low_latency
    then some Atom.low_latency
    else if nif.is_same t Atom.max_throughput
    then some Atom.max_throughput
    else if nif.is_same t Atom.scavenger
    then some Atom.scavenger
    else if nif.is_same t Atom.real_time
    then some Atom.real_time
    else none

-- What the allocator, the runtime and MsQuic answer; `name` is what `enif_get_string` reads, if it
-- reads something.
pub record Answers : Type 0 where
  pub allocated : Bool
  pub name : Option (List ℕ)
  pub opened : Status
  pub opened_registration : ℕ
  pub new_handle : ℕ

-- `deinit_r_ctx` and `destroy_r_ctx`, as both error paths call them.
unfoldable pub give_up : Memory → Run Unit
unfolding deinit_r_ctx destroy_r_ctx
give_up m = deinit_r_ctx m >>= λ n _. destroy_r_ctx n

-- The name: if it is not read the context is dropped, and the code goes on.
unfoldable pub read_name : Option (List ℕ) → Memory → Run Unit
unfolding give_up
read_name none m = give_up m
read_name (some name) m = with_live m λ r. done (live (record r { name = name })) [] tt

-- `RegistrationOpen`, which writes the handle to the context; on success a term is made of it.
unfoldable pub open_named : Nif → Answers → (profile : Atom) → Memory → Run Reply
unfolding give_up keep
open_named nif a profile m = done m (open_registration profile ∷ []) tt >>= λ n _.
    if nif.failed a.opened
    then (give_up n >>= λ o _. done o [] (error (status a.opened)))
    else (with_live n λ r.
        keep (live (record r { registration = a.opened_registration })) >>= λ o _.
        done o [] (ok_with (handle a.new_handle)))

-- Without memory NULL is used, since the reply of that branch is not returned.
unfoldable pub new_registration2 :
    (nif : Nif) → Answers → (eprofile : Option (Nif.Term nif)) → Run Reply
unfolding profile_of read_name open_named init_r_ctx
new_registration2 nif a eprofile = elim (profile_of nif eprofile) [
  | none ↦ done gone [] (error (atom Atom.badarg))
  | some profile ↦
      if a.allocated
      then (done (live init_r_ctx) (alloc_env ∷ []) tt >>= λ m _.
          read_name a.name m >>= λ n _. open_named nif a profile n)
      else fault
]

-- The arguments of a shutdown: both or neither; `none` is a wrong one.
unfoldable pub shutdown_arguments :
    (nif : Nif) → Option (Nif.Term nif × Nif.Term nif) → Option (Bool × ℕ)
shutdown_arguments nif none = some (false, 0)
shutdown_arguments nif (some (esilent, ecode)) =
    let code = nif.get_uint64 ecode in
    if nif.is_same esilent Atom.true
    then elim code [ none ↦ none | some n ↦ some (true, n) ]
    else if nif.is_same esilent Atom.false
    then elim code [ none ↦ none | some n ↦ some (false, n) ]
    else none

-- Behind the resource, which the caller's term keeps.
unfoldable pub shutdown_registration_x :
    (nif : Nif) → (arguments : Option (Nif.Term nif × Nif.Term nif)) → Memory → Run Reply
unfolding shutdown_arguments destroy_r_ctx
shutdown_registration_x nif arguments m = elim (shutdown_arguments nif arguments) [
  | none ↦ done m [] (error (atom Atom.badarg))
  | some (silent, code) ↦ with_live m λ r.
      if not (r.registration == 0) && not r.is_released
      then (done m (shutdown_registration r.registration silent code ∷ []) tt >>= λ n _.
          destroy_r_ctx n >>= λ o _. done o [] ok)
      else done m [] ok
]

unfoldable pub get_registration_name1 : Memory → Run Reply
get_registration_name1 m = with_live m λ r. done m [] (ok_with (string r.name))
