-- ===== src/Stream/Options.antt =====
-- getopt and setopt of a stream: get_stream_opt, set_stream_opt, get_level_param and set_level_param
-- of c_src/quicer_config.c. What the options of the configuration and of TLS answer is an argument.
use quicer.Prelude.{ℕ, not, Option, none, some, [], ◌∷◌, ◌==◌, if◌then◌else◌}
use quicer.Nif.{eterm_int, Nif, Status, Reply, ok, ok_with, error, atom, status, Status}
use quicer.Nif.Atoms.{Atom}
use quicer.Config.Read.{get_uint16}
use quicer.Queue.{Acceptor, RecvMode, passive, active, once, multi}
use quicer.Stream.State.{StreamCtx, set_param_priority, Run, refused, done}
use quicer.Stream.Receive.{set_active}

-- The answers of `get_config_opt` and `get_tls_opt`, or of the two setters.
pub record Levels : Type 0 where
  pub configuration : Reply
  pub tls : Reply

-- `get_level_param` and `set_level_param`: the second test overrides the first.
unfoldable pub level_param : (nif : Nif) → Levels → (level : Nif.Term nif) → Reply
level_param nif levels level =
    if nif.is_same level Atom.quic_tls
    then levels.tls
    else if nif.is_same level Atom.quic_configuration
    then levels.configuration
    else error (atom Atom.not_found)

-- The `switch` over the receive mode.
unfoldable pub get_active : Acceptor → RecvMode → Reply
unfolding eterm_int
get_active owner passive = ok_with (atom Atom.false)
get_active owner multi = ok_with (eterm_int owner.active_count)
get_active owner once = ok_with (atom Atom.once)
get_active owner active = ok_with (atom Atom.true)

-- What `GetParam` answers: a status, the length of the value, and the value.
pub record Param : Type 0 where
  pub answer : Status
  pub buffer_length : ℕ
  pub buffer : ℕ

-- The branch of `encode_parm_to_eterm` for the numbers of a stream.
unfoldable pub encode_number : Param → Reply
unfolding eterm_int
encode_number p =
    if p.buffer_length == 8
    then ok_with (eterm_int p.buffer)
    else if p.buffer_length == 4
    then ok_with (eterm_int p.buffer)
    else if p.buffer_length == 2
    then ok_with (eterm_int p.buffer)
    else error (atom Atom.not_found)

unfoldable pub get_number : Nif → Param → Reply
unfolding encode_number
get_number nif p = if nif.failed p.answer then error (status p.answer) else encode_number p

-- The chain over the names, behind the test of the level.
unfoldable pub get_stream_param :
    (nif : Nif) → (id zero_rtt ideal : Param) → StreamCtx → (optname : Nif.Term nif) → Reply
unfolding get_active get_number
get_stream_param nif id zero_rtt ideal s optname =
    if nif.is_same optname Atom.param_stream_id
    then get_number nif id
    else if nif.is_same optname Atom.active
    then get_active s.owner s.owner.active
    else if nif.is_same optname Atom.param_stream_0rtt_length
    then get_number nif zero_rtt
    else if nif.is_same optname Atom.param_stream_ideal_send_buffer_size
    then get_number nif ideal
    else error (atom Atom.param_error)

unfoldable pub get_stream_opt :
    (nif : Nif)
    → Levels
    → (id zero_rtt ideal : Param) → StreamCtx
    → (optname elevel : Nif.Term nif) → Reply
unfolding level_param get_stream_param
get_stream_opt nif levels id zero_rtt ideal s optname elevel =
    if not (nif.is_same elevel Atom.false)
    then level_param nif levels elevel
    else get_stream_param nif id zero_rtt ideal s optname

-- `set` is the status that `SetParam` answers.
unfoldable pub set_priority : Nif → Status → StreamCtx → Option ℕ → Run Reply
set_priority nif set s none = refused (error (atom Atom.param_error))
set_priority nif set s (some value) =
    done s (set_param_priority s.stream value ∷ [])
      (if nif.failed set then error (status set) else ok)

-- The chain over the names, behind the option `active` and the test of the level.
unfoldable pub set_stream_param :
    (nif : Nif) → Status → StreamCtx → (optname optval : Nif.Term nif) → Run Reply
unfolding set_priority
set_stream_param nif set s optname optval =
    if nif.is_same optname Atom.param_stream_id
    then refused (error (status Status.not_supported))
    else if nif.is_same optname Atom.param_stream_0rtt_length
    then refused (error (status Status.not_supported))
    else if nif.is_same optname Atom.param_stream_ideal_send_buffer_size
    then refused (error (status Status.not_supported))
    else if nif.is_same optname Atom.param_stream_priority
    then set_priority nif set s (get_uint16 nif optval)
    else refused (error (atom Atom.param_error))

unfoldable pub set_stream_opt :
    (nif : Nif) → Levels → Status → StreamCtx → (optname optval elevel : Nif.Term nif) → Run Reply
unfolding set_stream_param level_param
set_stream_opt nif levels set s optname optval elevel =
    if nif.is_same optname Atom.active
    then set_active nif s optval
    else if not (nif.is_same elevel Atom.false)
    then refused (level_param nif levels elevel)
    else set_stream_param nif set s optname optval
