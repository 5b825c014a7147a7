-- ===== src/Config/Widths.antt =====
-- What create_settings reads.
use quicer.Prelude.{
  ℕ, ◌^◌, ◌<◌, ◌≤◌, ◌≡◌, refl, ◌∙◌, ap, inl, inr, Bool, true, false, ◌||◌, Option, none, some, List,
  [], ◌∷◌, arith, Bool-cases, Option-cases, if◌then◌else◌,
}
use mathlib.Core.Option
use quicer.Nif.{Nif}
use quicer.Nif.Atoms.{Atom}
use quicer.Config.Read.{
  get_uint8_from_map, get_uint16_from_map, get_uint32_from_map, get_uint64_from_map,
}
use quicer.Config.Settings.{
  Setting, max_bytes_per_key, Setting-discrete, key_of, Width, u8, u16, u32, u64, width, Settings,
  cleared, same_setting, assign, read_width, read_setting, set_setting, run_blocks, integer_blocks,
  late_blocks, create_settings,
}

-- Whether a block of the list is about the field.
unfoldable pub contains : List Setting → Setting → Bool
contains [] g = false
contains (f ∷ fs) g = same_setting f g || contains fs g

same_setting-eq : (f g : Setting) → same_setting f g ≡ true → f ≡ g
unfolding same_setting
same_setting-eq f g h = go (Setting-discrete f g) h
  where
    go : (d : Dec (f ≡ g)) → ◌≡◌ {A = Bool} (elim d [ yes _ ↦ true | no _ ↦ false ]) true → f ≡ g
    go (yes e) h = e
    go (no n) h = cc

-- The field where its entry is there and fits, and otherwise the value before.
abbrev pub or_before : Option ℕ → Option ℕ → Option ℕ
or_before none before = before
or_before (some v) before = some v

module _ (nif : Nif) (store : Setting → ℕ → ℕ) (emap : Nif.Term nif) where
  abbrev pub stored : Setting → Option ℕ
  stored f = Option.map (store f) (read_setting nif emap f)

  set_setting-at :
      (s : Settings) (f g : Setting)
      → set_setting store s f (read_setting nif emap f) g
        ≡ (if same_setting f g then or_before (stored g) (s g) else s g)
  unfolding set_setting assign
  set_setting-at s f g = elim (Bool-cases (same_setting f g)) [
    | inl hit ↦ elim (Option-cases (read_setting nif emap f)) [
      | inl e ↦
          ground
            (arith, same_setting-eq f g hit, ap (read_setting nif emap) (same_setting-eq f g hit))
      | inr (v, e) ↦
          ground
            (arith, same_setting-eq f g hit, ap (read_setting nif emap) (same_setting-eq f g hit))
    ]
    | inr miss ↦ elim (Option-cases (read_setting nif emap f)) [
      | inl e ↦ rw (e, miss) refl
      | inr (v, e) ↦ rw (e, miss) refl
    ]
  ]

  run_blocks-at :
      (fs : List Setting) (s : Settings) (g : Setting)
      → run_blocks nif store emap fs s g
        ≡ (if contains fs g then or_before (stored g) (s g) else s g)
  unfolding run_blocks contains
  run_blocks-at [] s g = refl
  run_blocks-at (f ∷ fs) s g =
      let after = set_setting store s f (read_setting nif emap f) in
      run_blocks-at fs after g ∙ ground (arith, set_setting-at s f g)

covered : (g : Setting) → (contains late_blocks g || contains integer_blocks g) ≡ true
unfolding contains same_setting late_blocks integer_blocks
covered max_bytes_per_key = refl
covered _ = refl

-- Where the options are a map, each field is set exactly if its entry is in the map and fits the
-- width of the field, and then holds that entry: the order of the blocks, and that two fields are
-- read twice, does not show.
pub create_settings-read_setting :
    (nif : Nif) (store : Setting → ℕ → ℕ) (emap : Nif.Term nif) (s : Settings) (g : Setting)
    → create_settings nif store emap ≡ some s
    → s g ≡ Option.map (store g) (read_setting nif emap g)
unfolding create_settings
create_settings-read_setting nif store emap s g made =
    let early = run_blocks nif store emap integer_blocks cleared in
    let all = run_blocks nif store emap late_blocks early in
    let same : all g ≡ s g = ground arith in
    let blank : cleared g ≡ none = unfold cleared in refl in
    ground (
      arith,
      same,
      blank,
      covered g,
      run_blocks-at nif store emap integer_blocks cleared g,
      run_blocks-at nif store emap late_blocks early g,
    )

-- The bits of a reader.
abbrev pub bits : Width → ℕ
bits u8 = 8
bits u16 = 16
bits u32 = 32
bits u64 = 64

read_width-lt :
    (nif : Nif) (emap : Nif.Term nif) (name : Atom) (w : Width) (v : ℕ)
    → read_width nif emap name w ≡ some v
    → v < 2 ^ bits w
unfolding read_width get_uint8_from_map get_uint16_from_map get_uint32_from_map get_uint64_from_map
read_width-lt nif emap name u8 v e = elim (Option-cases (nif.get_map_value emap name)) [
  | inl absent ↦ ground arith
  | inr (t, present) ↦ ground arith
]
read_width-lt nif emap name u16 v e = elim (Option-cases (nif.get_map_value emap name)) [
  | inl absent ↦ ground arith
  | inr (t, present) ↦ ground arith
]
read_width-lt nif emap name u32 v e = elim (Option-cases (nif.get_map_value emap name)) [
  | inl absent ↦ ground arith
  | inr (t, present) ↦ ground (arith, nif.get_uint_lt t v)
]
read_width-lt nif emap name u64 v e = elim (Option-cases (nif.get_map_value emap name)) [
  | inl absent ↦ ground arith
  | inr (t, present) ↦ ground (arith, nif.get_uint64_lt t v)
]

-- No field of the settings is set beyond the width of its reader, if the fields of MsQuic's
-- structure hold at most what is stored.
pub create_settings-lt :
    (nif : Nif) (store : Setting → ℕ → ℕ) (emap : Nif.Term nif) (s : Settings) (g : Setting) (v : ℕ)
    → ((f : Setting) (n : ℕ) → store f n ≤ n)
    → create_settings nif store emap ≡ some s
    → s g ≡ some v
    → v < 2 ^ bits (width g)
unfolding read_setting
create_settings-lt nif store emap s g v fits made e =
    elim (Option-cases (read_setting nif emap g)) [
      | inl absent ↦ ground (arith, create_settings-read_setting nif store emap s g made)
      | inr (n, present) ↦
          let bound : n < 2 ^ bits (width g) =
            read_width-lt nif emap (key_of g) (width g) n present in
          let held : v ≡ store g n =
            ground (arith, create_settings-read_setting nif store emap s g made) in
          omega (arith, fits g n)
    ]
