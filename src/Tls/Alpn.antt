-- ===== src/Tls/Alpn.antt =====
-- load_alpn of c_src/quicer_config.c: the list of protocols of a listener or a connection.
use mathlib.Core.List.{append_assoc}
use quicer.Prelude.{
  length-append, ℕ, zero, suc, ◌+◌, ◌≡◌, true, Option, none, some, List, [], ◌∷◌, ◌++◌, length,
  arith, ltb, leb, ◌==◌, not, if◌then◌else◌,
}
use quicer.Nif.{Nif}
use quicer.Nif.Atoms.{Atom}
use quicer.Options.{Host}
use quicer.Options.Writing.{is_positive}
use quicer.Tls.{path_max}

-- `MAX_ALPN`, the size of the caller's array.
abbrev pub max_alpn : ℕ
max_alpn = 16

-- `overflow`: an entry behind the end of the array is written. Otherwise FALSE, or the lengths of the
-- entries. Each of them points to the block-local array `str`, which is gone when load_alpn returns:
-- what is read through them then is not modelled.
pub data Loaded : Type 0 where
  overflow refused : Loaded
  entries : (lengths : List ℕ) → Loaded

-- `strlen`
unfoldable pub strlen : List ℕ → ℕ
strlen [] = 0
strlen (c ∷ cs) = let rest = strlen cs in if c == 0 then 0 else suc rest

module _ {nif : Nif} (host : Host nif) where
  -- One round: the string is read, and its entry stands behind `lengths`.
  unfoldable pub load_cell : (head : Nif.Term nif) → (lengths : List ℕ) → (next : Loaded) → Loaded
  unfolding is_positive
  load_cell head lengths next =
      if not (is_positive (host.get_string head path_max).0)
      then refused
      else if leb max_alpn (length lengths)
      then overflow
      else next

  abbrev pub text_of : Nif.Term nif → List ℕ
  text_of head = (host.get_string head path_max).1

  -- The loop, with `left` rounds to go behind this one. A list that ends too early is refused; behind the
  -- last round it is not looked at.
  unfoldable pub load_cells : (left : ℕ) → (head tail : Nif.Term nif) → (lengths : List ℕ) → Loaded
  unfolding load_cell strlen
  load_cells zero head tail lengths =
      load_cell head lengths (entries (lengths ++ (strlen (text_of head) ∷ [])))
  load_cells (suc left) head tail lengths = load_cell head lengths (elim (host.list_cell tail) [
    | none ↦ refused
    | some cell ↦ load_cells left cell.0 cell.1 (lengths ++ (strlen (text_of head) ∷ []))
  ])

  -- No round for a length of 0.
  unfoldable pub load_list :
      (alpn_buffer_length : ℕ) → Option (Nif.Term nif × Nif.Term nif) → Loaded
  unfolding load_cells
  load_list n none = refused
  load_list zero (some cell) = entries []
  load_list (suc left) (some cell) = load_cells left cell.0 cell.1 []

  unfoldable pub load_alpn : (options : Nif.Term nif) → Loaded
  unfolding load_list
  load_alpn options = elim (nif.get_map_value options Atom.alpn) [
    | none ↦ refused
    | some alpn_list ↦ elim (host.list_length alpn_list) [
      | none ↦ refused
      | some n ↦ load_list n (host.list_cell alpn_list)
    ]
  ]

  -- The term is the list of these terms, as the interface reads it.
  abbrev pub IsList : Nif.Term nif → List (Nif.Term nif) → Type 0
  IsList t [] = host.list_cell t ≡ none
  IsList t (head ∷ heads) =
      (tail : Nif.Term nif) × (host.list_cell t ≡ some (head, tail)) × IsList tail heads

  -- Each of them is a string that fits.
  abbrev pub AreStrings : List (Nif.Term nif) → Type 0
  AreStrings [] = Unit
  AreStrings (head ∷ heads) =
      (is_positive (host.get_string head path_max).0 ≡ true) × AreStrings heads

  abbrev pub lengths_of : List (Nif.Term nif) → List ℕ
  lengths_of [] = []
  lengths_of (head ∷ heads) = strlen (text_of head) ∷ lengths_of heads

  load_cells-IsList :
      (head tail : Nif.Term nif) (heads : List (Nif.Term nif)) (lengths : List ℕ)
      → IsList tail heads
      → AreStrings (head ∷ heads)
      → load_cells (length heads) head tail lengths ≡ (
          if leb max_alpn (length lengths + length heads)
          then overflow
          else entries (lengths ++ lengths_of (head ∷ heads)))
  unfolding load_cells load_cell
  load_cells-IsList head tail [] lengths is_list strings = ground (arith, strings.0)
  load_cells-IsList head tail (next ∷ heads) lengths is_list strings =
      let here = strlen (text_of head) in
      let (rest, cell, more) = is_list in
      let later = load_cells-IsList next rest heads (lengths ++ (here ∷ [])) more strings.1 in
      rw (cell) (
        ground (
          arith,
          strings.0,
          later,
          length-append lengths (here ∷ []),
          append_assoc lengths (here ∷ []) (lengths_of (next ∷ heads)),
        ))

  -- For a list of strings, one at least: where there are more than 16, an entry behind the end of the
  -- caller's array is written; otherwise there is one entry for each string, in their order, with the
  -- string's length.
  pub load_alpn-lengths_of :
      (options t head : Nif.Term nif) (heads : List (Nif.Term nif))
      → nif.get_map_value options Atom.alpn ≡ some t
      → host.list_length t ≡ some (length (head ∷ heads))
      → IsList t (head ∷ heads)
      → AreStrings (head ∷ heads)
      → load_alpn options ≡ (
          if ltb max_alpn (length (head ∷ heads))
          then overflow
          else entries (lengths_of (head ∷ heads)))
  unfolding load_alpn load_list
  load_alpn-lengths_of options t head heads given size is_list strings =
      let (tail, cell, more) = is_list in
      ground (arith, given, size, cell, load_cells-IsList head tail heads [] more strings)
