-- ===== src/Examples/Setting.antt =====
-- Options, addresses, certificates and protocols, at one host that keeps what was set.
use quicer.Prelude.{
  ℕ, suc, ◌*◌, ◌+◌, ◌/◌, ◌%◌, ◌≡◌, refl, inl, true, false, Option, none, some, List, [], ◌∷◌,
  length, ap,
}
use quicer.Prelude.Int.{ℤ, pos}
use quicer.Nif.{Nif, Status, ok, ok_with, boolean, address, props, Entry}
use quicer.Nif.Atoms.{Atom}
use quicer.Nif.Sample.{
  sample, SampleTerm, Pairs, sample_int, sample_atom, sample_map, empty, pair, int, bytes,
}
use quicer.Config.Settings.{
  Setting, Settings, key_of, create_settings, read_setting, run_blocks, late_blocks, integer_blocks,
  cleared,
}
use quicer.Connection.State.{ConnCtx}
use quicer.Options.{
  global_retry_memory_percent, conn_settings, conn_datagram_receive_enabled, Addr, Contents, Buffer,
  Host, Effect, alloc_buffer, free_buffer, done, TermType, CipherAlgorithm, HashAlgorithm,
  CipherSuite,
}
use quicer.Options.Encode.{sockname1}
use quicer.Options.Global.{set_global_opt}
use quicer.Options.Dispatch.{connection_ctx, of_options, getopt3, setopt4}
use quicer.Options.Balance.{Ends, Shown}
use quicer.Options.Answers.{Healthy}
use quicer.Options.Contract.{Tells, setopt4-Tells, getopt3-Shown}
use quicer.Options.Names.{Keeps, reply_of, datagram_receive_enabled}
use quicer.Options.ShownSettings.{entry_at, is_shown, shown_as}
use quicer.Options.RoundTrip.{getopt3-setopt4_flag, getopt3-setopt4_settings}
use quicer.Options.Addresses.{sockname1-port}
use quicer.Options.Numbers.{InBounds, set_global_opt-InBounds}

-- The size of a list of entries, and its first one.
abbrev count : Pairs → ℕ
count empty = 0
count (pair a t m) = suc (count m)

abbrev size_of : SampleTerm → Option ℕ
size_of (SampleTerm.map m) = some (count m)
size_of (bytes l) = some (length l)
size_of _ = none

abbrev cell_of : SampleTerm → Option (SampleTerm × SampleTerm)
cell_of (SampleTerm.map (pair a t m)) = some (t, SampleTerm.map m)
cell_of _ = none

abbrev type_of : SampleTerm → TermType
type_of (int i) = TermType.integer
type_of (bytes l) = TermType.list
type_of _ = TermType.other

abbrev string_in : SampleTerm → ℤ × List ℕ
string_in (bytes l) = (pos (suc (length l)), l)
string_in _ = (pos 0, [])

abbrev swap : ℕ → ℕ
swap n = n % 256 * 256 + n / 256

-- An address of IPv6 with the port 443, in network order.
abbrev local : Addr
local = record { is_inet6 = true; words = λ i. i; quad = λ i. i; port = swap 443 }

-- Every value is 1, but for the settings.
abbrev contents : (Setting → ℕ) → Contents
contents settings = record {
  number = λ width. 1;
  bytes = λ n. [];
  uint64s = λ i. i;
  address = local;
  settings = settings;
  statistics = λ s. 0;
  perf_counters = λ c. 0;
  accepted_connections = 0;
  rejected_connections = 0;
  recv_dropped_packets = 0;
  handshake_info = record {
    is_tls_1_3 = true;
    cipher_algorithm = CipherAlgorithm.aes_128;
    cipher_strength = 128;
    hash = HashAlgorithm.sha_256;
    hash_strength = 256;
    no_key_exchange = true;
    key_exchange_strength = 0;
    cipher_suite = CipherSuite.aes_128_gcm_sha256;
  };
}

unfoldable pub host : (Setting → ℕ) → Host sample
unfolding sample
host settings = record {
  get_param =
      λ h p n. record { answer = Status.success; buffer_length = n; contents = contents settings };
  set_param = λ h p n b. Status.success;
  sizeof = λ s. 128;
  load_balancing_count = 3;
  perf_counter_max = 32;
  store = λ f n. n;
  has_memory = λ n. true;
  has_binary = λ n. true;
  ntohs = swap;
  term_type = type_of;
  get_string = λ t n. string_in t;
  list_length = size_of;
  list_cell = cell_of;
  inspect_binary = λ t. none;
  addr4_from_string = λ s. none;
  addr6_from_string = λ s. none;
  addr_from_port = λ n. record local { port = swap n };
}

abbrev no_settings : Setting → ℕ
no_settings f = 0

abbrev pub plain_host : Host sample
plain_host = host no_settings

pub plain-Healthy : Healthy plain_host
unfolding host sample
plain-Healthy = record { memory = λ n. refl; binary = λ n. refl; info_size = λ h. refl }

abbrev pub c_ctx : ConnCtx
c_ctx = record {
  handle = 4;
  config_resource = none;
  r_ctx = 0;
  connection = 6;
  acceptor_queue = [];
  owner = none;
  trusted = 0;
  tls_secrets = false;
  resumption_ticket = none;
  is_closed = false;
  event_mask = 0;
  ssl_keylogfile = false;
  peer_cert = 0;
}

abbrev pub name : Atom → Nif.Term sample
name = sample_atom

setopt4-Tells_example : Tells plain_host 0 (
    setopt4 plain_host
      (connection_ctx c_ctx)
      true
      (name Atom.param_conn_datagram_receive_enabled)
      (name Atom.true)
      (name Atom.false))
unfolding sample sample_atom
setopt4-Tells_example =
    setopt4-Tells plain_host plain-Healthy (connection_ctx c_ctx) true
      (name Atom.param_conn_datagram_receive_enabled) (name Atom.true) (name Atom.false) (inl refl)

getopt3-Shown_example : Ends (Shown plain_host) (
    getopt3 plain_host
      (connection_ctx c_ctx)
      true
      (name Atom.param_conn_local_address)
      (name Atom.false))
unfolding sample sample_atom
getopt3-Shown_example =
    getopt3-Shown plain_host plain-Healthy (connection_ctx c_ctx) true
      (name Atom.param_conn_local_address) (name Atom.false) (inl refl)

abbrev flag_set : List Effect
flag_set = Effect.set_param 6 conn_datagram_receive_enabled 1 (Buffer.number 1) ∷ []

is_set :
    setopt4 plain_host
      (connection_ctx c_ctx)
      true
      (name Atom.param_conn_datagram_receive_enabled)
      (name Atom.true)
      (name Atom.false)
    ≡ of_options (done flag_set ok)
unfolding setopt4 host sample sample_atom
is_set = refl

flag_kept : Keeps plain_host flag_set
unfolding host sample
flag_kept = (refl, refl, tt)

getopt3-setopt4_flag_example :
    reply_of (
      getopt3 plain_host
        (connection_ctx c_ctx)
        true
        (name Atom.param_conn_datagram_receive_enabled)
        (name Atom.false))
    ≡ some (ok_with (boolean (sample.is_same (name Atom.true) Atom.true)))
unfolding host sample sample_atom
getopt3-setopt4_flag_example =
    getopt3-setopt4_flag plain_host plain_host c_ctx datagram_receive_enabled
      (name Atom.param_conn_datagram_receive_enabled) (name Atom.true) (name Atom.false) flag_set
      refl refl is_set flag_kept refl

-- `#{idle_timeout_ms => 5000, pacing_enabled => 256}`: the second value does not fit.
abbrev timeout : Nif.Term sample
timeout =
    sample_map
      (pair Atom.idle_timeout_ms (int (pos 5000)) (pair Atom.pacing_enabled (int (pos 256)) empty))

unfoldable value_of : Option ℕ → ℕ
value_of none = 0
value_of (some n) = n

abbrev made : Settings
made =
    run_blocks sample (λ f n. n) timeout late_blocks
      (run_blocks sample (λ f n. n) timeout integer_blocks cleared)

-- What MsQuic keeps of these settings.
abbrev keeping : Host sample
keeping = host (λ f. value_of (made f))

abbrev settings_set : List Effect
settings_set =
    alloc_buffer ∷ Effect.set_param 6 conn_settings 128 (Buffer.settings made) ∷ free_buffer ∷ []

are_set :
    setopt4 plain_host
      (connection_ctx c_ctx)
      true
      (name Atom.param_conn_settings)
      timeout
      (name Atom.false)
    ≡ of_options (done settings_set ok)
unfolding setopt4 host sample sample_atom sample_map create_settings
are_set = refl

settings_kept : Keeps keeping settings_set
unfolding host sample value_of
settings_kept = (refl, λ f v e. ap value_of e, tt)

getopt3-setopt4_settings_example :
    (entries : List (Atom × Entry)) × (reply_of (
        getopt3 keeping
          (connection_ctx c_ctx)
          true
          (name Atom.param_conn_settings)
          (name Atom.false))
      ≡ some (ok_with (props entries)))
    × ((f : Setting) (n : ℕ)
        → is_shown f ≡ true
        → read_setting sample timeout f ≡ some n
        → entry_at (key_of f) entries ≡ some (shown_as f (plain_host.store f n)))
    × ((f : Setting) → is_shown f ≡ false → entry_at (key_of f) entries ≡ none)
unfolding host sample sample_atom
getopt3-setopt4_settings_example =
    getopt3-setopt4_settings plain_host keeping c_ctx (name Atom.param_conn_settings) timeout
      (name Atom.false) settings_set refl refl are_set settings_kept refl refl

-- Port 443 of an address of IPv6 is shown as 47873.
sockname1-port_example :
    (ip : List ℕ) × (reply_of (sockname1 plain_host (some (true, 6)))
      ≡ some (ok_with (address ip 47873)))
unfolding host sample
sockname1-port_example = sockname1-port plain_host swap true 6 443 refl refl refl

percent_set :
    set_global_opt plain_host 0 (name Atom.param_global_retry_memory_percent) (sample_int (pos 10))
    ≡ done (Effect.set_param 0 global_retry_memory_percent 2 (Buffer.number 10) ∷ []) ok
unfolding set_global_opt host sample sample_atom sample_int
percent_set = refl

set_global_opt-InBounds_example :
    InBounds plain_host global_retry_memory_percent 10
    × (sample.get_uint (sample_int (pos 10)) ≡ some 10)
set_global_opt-InBounds_example =
    set_global_opt-InBounds plain_host 0 (name Atom.param_global_retry_memory_percent)
      (sample_int (pos 10)) 0 global_retry_memory_percent 2 10 ok percent_set
