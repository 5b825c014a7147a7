-- ===== src/Options/Dispatch.antt =====
-- getopt3 and setopt4 of c_src/quicer_config.c.
use quicer.Prelude.{ℕ, Bool, not, true, false, Option, none, some, [], if◌then◌else◌}
use quicer.Nif.{Nif, Status, Reply, error, atom}
use quicer.Nif.Atoms.{Atom}
use quicer.Stream.State
use quicer.Stream.State.{StreamCtx}
use quicer.Config.Read.{get_uint16}
use quicer.Options.Encode.{read}
use quicer.Stream.Receive.{set_active}
use quicer.Stream.Options.{get_active, set_stream_param}
use quicer.Listener.State.{ListenerCtx}
use quicer.Connection.State.{ConnCtx}
use quicer.Options.{
  stream_id, stream_0rtt_length, stream_ideal_send_buffer_size, stream_priority, stream, Buffer,
  Host, Run, done,
}
use quicer.Options.Levels.{get_at_level, set_at_level}
use quicer.Options.Global.{get_global_opt, set_global_opt}
use quicer.Options.Listening.{get_listener_opt, set_listener_opt}
use quicer.Options.Reading.{get_connection_opt}
use quicer.Options.Writing.{set_connection_opt}

-- What the first argument is: the atom `quic_global`, the resource of a context, or something else. A
-- stream comes with the config resource of its connection.
pub data Target : Type 0 where
  quic_global : Target
  stream_ctx : StreamCtx → (config_resource : Option ℕ) → Target
  connection_ctx : ConnCtx → Target
  listener_ctx : ListenerCtx → Target
  other_term : Target

-- A setopt of a stream may act on the stream's context.
pub data SetOutcome : Type 0 where
  of_options : Run → SetOutcome
  of_stream : State.Run Reply → SetOutcome

module _ {nif : Nif} (host : Host nif) where
  -- `get_stream_opt`, whose numbers go through `encode_parm_to_eterm` as the others do.
  unfoldable pub get_stream_call :
      StreamCtx → (config_resource : Option ℕ) → (optname elevel : Nif.Term nif) → Run
  unfolding get_at_level get_active read
  get_stream_call s config_resource optname elevel =
      if not (nif.is_same elevel Atom.false)
      then get_at_level host s.stream config_resource optname elevel
      else if nif.is_same optname Atom.param_stream_id
      then read host stream s.stream stream_id 8
      else if nif.is_same optname Atom.active
      then done [] (get_active s.owner s.owner.active)
      else if nif.is_same optname Atom.param_stream_0rtt_length
      then read host stream s.stream stream_0rtt_length 8
      else if nif.is_same optname Atom.param_stream_ideal_send_buffer_size
      then read host stream s.stream stream_ideal_send_buffer_size 8
      else done [] (error (atom Atom.param_error))

  -- `is_atom` is what `enif_is_atom` says of the name. The level of an option of the library is not
  -- looked at.
  unfoldable pub getopt3 : Target → (is_atom : Bool) → (eopt elevel : Nif.Term nif) → Run
  unfolding get_global_opt get_stream_call get_connection_opt get_listener_opt
  getopt3 target false eopt elevel = done [] (error (atom Atom.badarg))
  getopt3 quic_global true eopt elevel = get_global_opt host 0 eopt
  getopt3 (stream_ctx s config_resource) true eopt elevel =
      get_stream_call s config_resource eopt elevel
  getopt3 (connection_ctx c) true eopt elevel = get_connection_opt host c eopt elevel
  getopt3 (listener_ctx l) true eopt elevel = get_listener_opt host (some l) eopt elevel
  getopt3 other_term true eopt elevel = done [] (error (atom Atom.badarg))

  -- What `SetParam` answers for a priority that could be read.
  unfoldable pub priority_answer : (handle : ℕ) → Option ℕ → Status
  priority_answer handle none = Status.success
  priority_answer handle (some priority) =
      host.set_param handle stream_priority 2 (Buffer.number priority)

  unfoldable pub set_stream_call :
      StreamCtx → (config_resource : Option ℕ) → (optname optval elevel : Nif.Term nif) → SetOutcome
  unfolding set_active set_at_level set_stream_param priority_answer
  set_stream_call s config_resource optname optval elevel =
      if nif.is_same optname Atom.active
      then of_stream (set_active nif s optval)
      else if not (nif.is_same elevel Atom.false)
      then of_options (set_at_level host s.stream config_resource optname optval elevel)
      else of_stream
          (set_stream_param nif (priority_answer s.stream (get_uint16 nif optval)) s optname optval)

  unfoldable pub setopt4 :
      Target → (is_atom : Bool) → (eopt evalue elevel : Nif.Term nif) → SetOutcome
  unfolding set_global_opt set_stream_call set_connection_opt set_listener_opt
  setopt4 target false eopt evalue elevel = of_options (done [] (error (atom Atom.badarg)))
  setopt4 quic_global true eopt evalue elevel = of_options (set_global_opt host 0 eopt evalue)
  setopt4 (stream_ctx s config_resource) true eopt evalue elevel =
      set_stream_call s config_resource eopt evalue elevel
  setopt4 (connection_ctx c) true eopt evalue elevel =
      of_options (set_connection_opt host c eopt evalue elevel)
  setopt4 (listener_ctx l) true eopt evalue elevel =
      of_options (set_listener_opt host (some l) eopt evalue elevel)
  setopt4 other_term true eopt evalue elevel = of_options (done [] (error (atom Atom.badarg)))
