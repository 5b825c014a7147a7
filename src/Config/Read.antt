-- ===== src/Config/Read.antt =====
-- Reading a number of a given width out of a term or an option map, and the small option parsers of
-- c_src/quicer_config.c. `none` is the result `false`, which leaves the variable as it was.
use quicer.Prelude.{ℕ, ◌-◌, ◌^◌, Bool, true, false, ◌||◌, Option, none, some, ltb, if◌then◌else◌}
use quicer.Nif.{Nif}
use quicer.Nif.Atoms.{Atom}

-- The check of `value0` against the largest value of the narrower type.
unfoldable pub narrow : ℕ → Option ℕ → Option ℕ
narrow largest none = none
narrow largest (some n) = if ltb largest n then none else some n

abbrev pub uint8_max : ℕ
uint8_max = 2 ^ 8 - 1

abbrev pub uint16_max : ℕ
uint16_max = 2 ^ 16 - 1

-- `enif_get_map_value` and then a reader of the value.
unfoldable pub from_map : {T A : Type 0} → (T → Option A) → Option T → Option A
from_map read none = none
from_map read (some t) = read t

module _ (nif : Nif) where
  unfoldable pub get_uint16 : Nif.Term nif → Option ℕ
  unfolding narrow
  get_uint16 term = narrow uint16_max (nif.get_uint term)

  unfoldable pub get_uint8_from_map : Nif.Term nif → Atom → Option ℕ
  unfolding narrow from_map
  get_uint8_from_map map name =
      from_map (λ t. narrow uint8_max (nif.get_uint t)) (nif.get_map_value map name)

  unfoldable pub get_uint16_from_map : Nif.Term nif → Atom → Option ℕ
  unfolding narrow from_map
  get_uint16_from_map map name =
      from_map (λ t. narrow uint16_max (nif.get_uint t)) (nif.get_map_value map name)

  unfoldable pub get_uint32_from_map : Nif.Term nif → Atom → Option ℕ
  unfolding from_map
  get_uint32_from_map map name = from_map nif.get_uint (nif.get_map_value map name)

  unfoldable pub get_uint64_from_map : Nif.Term nif → Atom → Option ℕ
  unfolding from_map
  get_uint64_from_map map name = from_map nif.get_uint64 (nif.get_map_value map name)

  unfoldable pub verify_value : Bool → Option (Nif.Term nif) → Bool
  verify_value default_verify none = default_verify
  verify_value default_verify (some t) =
      if nif.is_same t Atom.peer || nif.is_same t Atom.verify_peer
      then true
      else if nif.is_same t Atom.none || nif.is_same t Atom.verify_none
      then false
      else default_verify

  unfoldable pub load_verify : Nif.Term nif → Bool → Bool
  unfolding verify_value
  load_verify options default_verify =
      verify_value default_verify (nif.get_map_value options Atom.verify)
