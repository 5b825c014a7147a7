-- ===== src/Options/Writing.antt =====
-- set_connection_opt and parse_listen_on of c_src/quicer_config.c. The chain over the name of the
-- option reads the value and chooses what is set; what follows the chain is common.
use quicer.Prelude.{
  ℕ, ◌%◌, ◌^◌, Bool, true, false, not, Option, none, some, List, [], ◌∷◌, length, leb, ltb,
  if◌then◌else◌,
}
use quicer.Prelude.Int.{ℤ, pos, negsuc}
use quicer.Nif.{Nif, Status, Reply, ok, error, atom, status}
use quicer.Nif.Atoms.{Atom}
use quicer.Config.Settings.{Settings, create_settings}
use quicer.Connection.State.{ConnCtx}
use quicer.Options.{
  Param, conn_local_address, conn_remote_address, conn_settings, conn_share_udp_binding,
  conn_local_bidi_stream_count, conn_local_unidi_stream_count, conn_close_reason_phrase,
  conn_stream_scheduling_scheme, conn_datagram_send_enabled, conn_datagram_receive_enabled,
  conn_disable_1rtt_encryption, conn_resumption_ticket, conn_peer_certificate_valid,
  conn_local_interface, quic_addr, quic_settings, Addr, Buffer, Host, Run, enclose, write,
  set_param, alloc_buffer, free_buffer, fault, done, TermType,
}
use quicer.Options.Levels.{set_at_level}

-- `pass`: `SetParam` is called, by the branch itself or behind the chain. `pass_or_badarg`: the same,
-- with another answer to a failure. `refuse` sets nothing. `pass_allocated` and `refuse_allocated`
-- have an allocated buffer, and `crash` writes through NULL.
pub data Choice : Type 0 where
  refuse refuse_allocated : Reply → Choice
  pass pass_or_badarg pass_allocated : Param → (length : ℕ) → Buffer → Choice
  crash : Choice

-- `enif_get_string(...) > 0`, and `enif_get_string(...)` as a truth value.
unfoldable pub is_positive : ℤ → Bool
is_positive (pos n) = ltb 0 n
is_positive (negsuc n) = false

unfoldable pub is_nonzero : ℤ → Bool
is_nonzero (pos n) = ltb 0 n
is_nonzero (negsuc n) = true

abbrev or_else {ℓ} : {A : Type ℓ} → Option A → Option A → Option A
or_else none o = o
or_else (some a) o = some a

module _ {nif : Nif} (host : Host nif) where
  -- `INET6_ADDRSTRLEN + 6`
  abbrev listen_on_size : ℕ
  listen_on_size = 52

  unfoldable pub parse_port : Option ℤ → Option Addr
  parse_port none = none
  parse_port (some (negsuc n)) = none
  parse_port (some (pos n)) = some (host.addr_from_port (n % 2 ^ 16))

  unfoldable pub parse_listen_on_as : TermType → (elisten_on : Nif.Term nif) → Option Addr
  unfolding is_positive parse_port
  parse_listen_on_as TermType.list elisten_on =
      let s = host.get_string elisten_on listen_on_size in
      if is_positive s.0
      then or_else (host.addr4_from_string s.1) (host.addr6_from_string s.1)
      else none
  parse_listen_on_as TermType.integer elisten_on = parse_port (nif.get_int elisten_on)
  parse_listen_on_as TermType.other elisten_on = none

  unfoldable pub parse_listen_on : (elisten_on : Nif.Term nif) → Option Addr
  unfolding parse_listen_on_as
  parse_listen_on elisten_on = parse_listen_on_as (host.term_type elisten_on) elisten_on

  unfoldable pub choose_address : Param → Option Addr → Choice
  choose_address param none = refuse (error (atom Atom.badarg))
  choose_address param (some a) = pass param (host.sizeof quic_addr) (Buffer.address a)

  -- `malloc` is not checked: `create_settings` clears the memory that it is given.
  unfoldable pub choose_settings : Bool → Option Settings → Choice
  choose_settings false o = crash
  choose_settings true none = refuse_allocated (error (atom Atom.badarg))
  choose_settings true (some s) =
      pass_allocated conn_settings (host.sizeof quic_settings) (Buffer.settings s)

  -- `true`, `false`, or an error.
  unfoldable pub choose_flag :
      (Param → ℕ → Buffer → Choice) → Param → (optval : Nif.Term nif) → Choice
  choose_flag choice param optval =
      if nif.is_same optval Atom.true
      then choice param 1 (Buffer.number 1)
      else if nif.is_same optval Atom.false
      then choice param 1 (Buffer.number 0)
      else refuse (error (atom Atom.badarg))

  -- An option that is a number. Where the value is none, the branch assigns `badarg` and goes on with
  -- the 0 that the variable was given.
  unfoldable pub choose_number : Param → Option ℕ → Choice
  choose_number param none = pass param 4 (Buffer.number 0)
  choose_number param (some n) = pass param 4 (Buffer.number n)

  -- The 512 bytes are passed whole; a text that was cut is taken as well.
  unfoldable pub choose_phrase : (optval : Nif.Term nif) → Choice
  unfolding is_nonzero
  choose_phrase optval =
      let s = host.get_string optval 512 in
      if is_nonzero s.0
      then pass conn_close_reason_phrase 512 (Buffer.string s.1)
      else refuse (error (atom Atom.badarg))

  unfoldable pub choose_ticket : Option (List ℕ) → Choice
  choose_ticket none = refuse (error (atom Atom.badarg))
  choose_ticket (some ticket) =
      if leb (2 ^ 32) (length ticket)
      then refuse (error (atom Atom.badarg))
      else pass conn_resumption_ticket (length ticket) (Buffer.bytes ticket)

  unfoldable pub choose : (optname optval : Nif.Term nif) → Choice
  unfolding choose_address choose_settings choose_flag choose_number choose_phrase choose_ticket
      parse_listen_on
  choose optname optval =
      if nif.is_same optname Atom.param_conn_quic_version
      then refuse (error (atom Atom.not_supported))
      else if nif.is_same optname Atom.param_conn_local_address
      then choose_address conn_local_address (parse_listen_on optval)
      else if nif.is_same optname Atom.param_conn_remote_address
      then choose_address conn_remote_address (parse_listen_on optval)
      else if nif.is_same optname Atom.param_conn_ideal_processor
      then refuse (error (atom Atom.not_supported))
      else if nif.is_same optname Atom.param_conn_settings
      then choose_settings (host.has_memory (host.sizeof quic_settings))
          (create_settings nif host.store optval)
      else if nif.is_same optname Atom.param_conn_share_udp_binding
      then choose_flag pass conn_share_udp_binding optval
      else if nif.is_same optname Atom.param_conn_local_bidi_stream_count
      then choose_number conn_local_bidi_stream_count (nif.get_uint optval)
      else if nif.is_same optname Atom.param_conn_local_unidi_stream_count
      then choose_number conn_local_unidi_stream_count (nif.get_uint optval)
      else if nif.is_same optname Atom.param_conn_max_stream_ids
      then refuse (error (status Status.not_supported))
      else if nif.is_same optname Atom.param_conn_close_reason_phrase
      then choose_phrase optval
      else if nif.is_same optname Atom.param_conn_stream_scheduling_scheme
      then choose_number conn_stream_scheduling_scheme (nif.get_uint optval)
      else if nif.is_same optname Atom.param_conn_datagram_send_enabled
      then choose_flag pass conn_datagram_send_enabled optval
      else if nif.is_same optname Atom.param_conn_datagram_receive_enabled
      then choose_flag pass conn_datagram_receive_enabled optval
      else if nif.is_same optname Atom.param_conn_disable_1rtt_encryption
      then choose_flag pass_or_badarg conn_disable_1rtt_encryption optval
      else if nif.is_same optname Atom.param_conn_resumption_ticket
      then choose_ticket (host.inspect_binary optval)
      else if nif.is_same optname Atom.param_conn_peer_certificate_valid
      then choose_flag pass conn_peer_certificate_valid optval
      else if nif.is_same optname Atom.param_conn_local_interface
      then choose_number conn_local_interface (nif.get_uint optval)
      else refuse (error (atom Atom.param_error))

  unfoldable pub set_chosen : (handle : ℕ) → Choice → Run
  unfolding write enclose
  set_chosen handle (refuse r) = done [] r
  set_chosen handle (refuse_allocated r) = done (alloc_buffer ∷ free_buffer ∷ []) r
  set_chosen handle (pass param length buffer) = write host handle param length buffer
  set_chosen handle (pass_or_badarg param length buffer) =
      done (set_param handle param length buffer ∷ []) (
        if nif.failed (host.set_param handle param length buffer)
        then error (atom Atom.badarg)
        else ok)
  set_chosen handle (pass_allocated param length buffer) =
      enclose (alloc_buffer ∷ []) (free_buffer ∷ []) (write host handle param length buffer)
  set_chosen handle crash = fault

  unfoldable pub set_connection_opt : ConnCtx → (optname optval elevel : Nif.Term nif) → Run
  unfolding set_at_level choose set_chosen
  set_connection_opt c optname optval elevel =
      if not (nif.is_same elevel Atom.false)
      then set_at_level host c.connection c.config_resource optname optval elevel
      else set_chosen c.connection (choose optname optval)
