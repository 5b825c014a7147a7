-- ===== src/Nif.antt =====
-- What the NIF code shares with its two hosts, Erlang's NIF interface and MsQuic: the atoms that
-- the source names (c_src/quicer_eterms.h and INIT_ATOMS of c_src/quicer_nif.c), the status codes,
-- the replies and messages it builds, and the parts of the hosts that it calls, as a parameter.
pub mod Atoms
pub mod Sample
pub mod Statuses
use Prim.Native.String.{String}
use quicer.Prelude.{
  ◌-◌, ◌%◌, ltb, arith, ℕ, ◌^◌, ◌<◌, ◌≡◌, Bool, true, false, Option, none, some, List,
  if◌then◌else◌,
}
use quicer.Prelude.Int.{ℤ, pos, negsuc}
use Atoms.{Atom}

-- The `QUIC_STATUS_*` codes that the source names; a code of the TLS range and any other code
-- carry their number.
pub data Status : Type 0 where
  success pending continue out_of_memory invalid_parameter invalid_state not_supported not_found
        buffer_too_small handshake_failure aborted address_in_use connection_timeout connection_idle
        internal_error connection_refused protocol_error ver_neg_error unreachable tls_error
        bad_certificate user_canceled alpn_neg_failure stream_limit_reached cert_expired
        cert_untrusted_root :
      Status
  coded : ℕ → Status

-- The value of a property: a number, a flag or an atom.
pub data Entry : Type 0 where
  uint64 : ℕ → Entry
  flag : Bool → Entry
  name : Atom → Entry

-- A term that the NIF builds, as far as its callers look at it. `address` is the tuple of an address
-- and a port, `uint64s` a list of numbers, `props` a list or a map with atoms for keys, and `named`
-- a list with strings for keys.
pub data Value : Type 0 where
  atom : Atom → Value
  uint : ℕ → Value
  int : ℤ → Value
  boolean : Bool → Value
  binary : List ℕ → Value
  string : List ℕ → Value
  status : Status → Value
  handle : ℕ → Value
  unknown_tls : ℕ → Value
  unknown_status : Status → Value
  status_number : Status → Value
  address : (ip : List ℕ) → (port : ℕ) → Value
  uint64s : List ℕ → Value
  props : List (Atom × Entry) → Value
  named : List (String × ℕ) → Value

-- What a NIF returns: `ok`, `{ok, V}`, `{error, V}`, `{error, E, V}`, or an atom by itself.
pub data Reply : Type 0 where
  ok : Reply
  ok_with : Value → Reply
  error : Value → Reply
  error3 : Atom → Value → Reply
  plain : Atom → Reply

-- The conversion of an unsigned number to `int`, which has 32 bits.
unfoldable pub to_int : ℕ → ℤ
to_int n = if ltb (n % 2 ^ 32) (2 ^ 31) then pos (n % 2 ^ 32) else negsuc (2 ^ 32 - 1 - n % 2 ^ 32)

-- `ETERM_INT`, and `ETERM_UINT_64`, which calls `enif_make_int` as well.
unfoldable pub eterm_int : ℕ → Value
unfolding to_int
eterm_int n = int (to_int n)

pub to_int-below : (n : ℕ) → n < 2 ^ 31 → to_int n ≡ pos n
unfolding to_int
to_int-below n h = ground arith

-- A message `{quic, Name, Handle, Prop}`: `make_event` and `make_event_with_props`. The handle may be
-- the atom `undefined`.
pub data Message : Type 0 where
  event_undefined : (name prop : Value) → Message
  event : Value → ℕ → Value → Message
  event_with_props : Value → ℕ → List (Atom × Value) → Message

-- The hosts. A term of Erlang is opaque to the code, which reads it through these calls; each one
-- is a function of the term, as the interface documents.
pub record Nif : Type 1 where
  pub Term : Type 0
  pub is_same : Term → Atom → Bool
  pub is_map : Term → Bool
  pub get_map_value : Term → Atom → Option Term
  pub get_int : Term → Option ℤ
  pub get_uint : Term → Option ℕ
  pub get_uint64 : Term → Option ℕ
  -- `enif_inspect_iolist_as_binary` or else `enif_inspect_binary`
  pub inspect : Term → Option (List ℕ)
  -- `QUIC_FAILED`, and the flags of msquic.h that the source names
  pub failed : Status → Bool
  pub receive_flag_fin : ℕ
  pub send_flag_start : ℕ
  -- Atoms are identical to themselves only.
  pub is_same_eq : (t : Term) (a b : Atom) → is_same t a ≡ true → is_same t b ≡ true → a ≡ b
  -- `unsigned int` has 32 bits, `ErlNifUInt64` has 64.
  pub get_uint_lt : (t : Term) (n : ℕ) → get_uint t ≡ some n → n < 2 ^ 32
  pub get_uint64_lt : (t : Term) (n : ℕ) → get_uint64 t ≡ some n → n < 2 ^ 64
  pub failed_success : failed success ≡ false

-- `QUIC_SUCCEEDED`
abbrev pub succeeded : Nif → Status → Bool
succeeded nif s = if nif.failed s then false else true
