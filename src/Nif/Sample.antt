-- ===== src/Nif/Sample.antt =====
-- One concrete host, for tests and examples: an Erlang term is an atom, an integer or a map.
use quicer.Prelude.{
  ℕ, List, ◌^◌, ◌<◌, ◌≡◌, refl, sym, ◌∙◌, Bool, true, false, Option, none, some, ltb, ltb→lt, arith,
  if◌then◌else◌, Bool-cases, inl, inr,
}
use quicer.Prelude.Int.{ℤ, pos}
use quicer.Nif.{Nif, Status, pending, continue, success}
use quicer.Nif.Atoms.{Atom, Atom-discrete}

mutual
  pub data SampleTerm : Type 0 where
    atom : Atom → SampleTerm
    int : ℤ → SampleTerm
    map : Pairs → SampleTerm
    bytes : List ℕ → SampleTerm

  pub data Pairs : Type 0 where
    empty : Pairs
    pair : Atom → SampleTerm → Pairs → Pairs

unfoldable pub same_atom : Atom → Atom → Bool
unfolding Atom-discrete
same_atom a b = elim (Atom-discrete a b) [ yes _ ↦ true | no _ ↦ false ]

same_atom-eq : (a b : Atom) → same_atom a b ≡ true → a ≡ b
unfolding same_atom
same_atom-eq a b h = go (Atom-discrete a b) h
  where
    go : (d : Dec (a ≡ b)) → ◌≡◌ {A = Bool} (elim d [ yes _ ↦ true | no _ ↦ false ]) true → a ≡ b
    go (yes e) h = e
    go (no n) h = cc

unfoldable pub is_same : SampleTerm → Atom → Bool
unfolding same_atom
is_same (atom a) b = same_atom a b
is_same _ b = false

pub is_same_eq : (t : SampleTerm) (a b : Atom) → is_same t a ≡ true → is_same t b ≡ true → a ≡ b
unfolding is_same
is_same_eq (atom c) a b p q = sym (same_atom-eq c a p) ∙ same_atom-eq c b q
is_same_eq (int i) a b p q = cc
is_same_eq (map m) a b p q = cc
is_same_eq (bytes l) a b p q = cc

unfoldable pub lookup : Atom → Pairs → Option SampleTerm
unfolding same_atom
lookup a empty = none
lookup a (pair b t m) = let rest = lookup a m in if same_atom a b then some t else rest

unfoldable pub get_map_value : SampleTerm → Atom → Option SampleTerm
unfolding lookup
get_map_value (map m) a = lookup a m
get_map_value _ a = none

unfoldable pub is_map : SampleTerm → Bool
is_map (map m) = true
is_map _ = false

unfoldable pub get_int : SampleTerm → Option ℤ
get_int (int i) = some i
get_int _ = none

unfoldable pub inspect : SampleTerm → Option (List ℕ)
inspect (bytes l) = some l
inspect _ = none

unfoldable pub get_below : ℕ → SampleTerm → Option ℕ
get_below bound (int (pos n)) = if ltb n bound then some n else none
get_below bound _ = none

pub get_below_lt : (bound : ℕ) (t : SampleTerm) (n : ℕ) → get_below bound t ≡ some n → n < bound
unfolding get_below
get_below_lt bound (int (pos k)) n h = elim (Bool-cases (ltb k bound)) [
  | inl e ↦ ground (arith, ltb→lt k bound e)
  | inr e ↦ ground arith
]
get_below_lt bound _ n h = cc

unfoldable pub failed : Status → Bool
failed success = false
failed pending = false
failed continue = false
failed _ = true

unfoldable pub sample : Nif
unfolding is_same lookup get_map_value is_map get_int get_below inspect failed
sample = record {
  Term = SampleTerm;
  is_same = is_same;
  is_map = is_map;
  get_map_value = get_map_value;
  get_int = get_int;
  get_uint = get_below (2 ^ 32);
  get_uint64 = get_below (2 ^ 64);
  inspect = inspect;
  failed = failed;
  receive_flag_fin = 2;
  send_flag_start = 4;
  is_same_eq = is_same_eq;
  get_uint_lt = get_below_lt (2 ^ 32);
  get_uint64_lt = get_below_lt (2 ^ 64);
  failed_success = refl;
}

-- The terms of the host.
unfoldable pub sample_atom : Atom → Nif.Term sample
unfolding sample
sample_atom a = atom a

unfoldable pub sample_int : ℤ → Nif.Term sample
unfolding sample
sample_int i = int i

unfoldable pub sample_bytes : List ℕ → Nif.Term sample
unfolding sample
sample_bytes b = bytes b

unfoldable pub sample_map : Pairs → Nif.Term sample
unfolding sample
sample_map m = map m
