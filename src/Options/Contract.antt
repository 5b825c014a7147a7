-- ===== src/Options/Contract.antt =====
-- The contract of getopt3 and setopt4 of c_src/quicer_config.c, over all their targets.
use quicer.Prelude.{
  ℕ, ◌+◌, ◌≤◌, ◌≡◌, inl, inr, refl, Bool, true, false, Option, none, some, List, arith, tally,
  if_so, if_not, Bool-cases, [], ◌||◌, if◌then◌else◌,
}
use quicer.Nif.{Nif, Reply, error, atom}
use quicer.Nif.Atoms.{Atom}
use quicer.Config.Read.{get_uint16}
use quicer.Queue.{Acceptor, set_owner_recv_mode, RecvMode, passive, active, once, multi}
use quicer.Stream.State
use quicer.Stream.State.{StreamCtx}
use quicer.Stream.Receive.{set_active, store_mode, wake}
use quicer.Stream.Options.{set_priority, set_stream_param, get_active}
use quicer.Options.{
  stream_id, stream_0rtt_length, stream_ideal_send_buffer_size, stream_priority, stream, Buffer,
  Host,
}
use quicer.Options.Balance.{Told, Shown, Ends, is_ok, is_error, none-Told, none-Shown}
use quicer.Options.Choices.{set_connection_opt-Told}
use quicer.Options.Answers.{
  Healthy, HasConfig, level_false, set_at_level-Told, set_global_opt-Told, set_listener_opt-Told,
}
use quicer.Options.Showing.{
  leveled-Shown, get_global_opt-Shown, get_connection_opt-Shown, get_listener_opt-Shown, read-Shown,
}
use quicer.Options.Dispatch.{
  Target, quic_global, stream_ctx, connection_ctx, listener_ctx, other_term, SetOutcome, of_options,
  of_stream, getopt3, setopt4, get_stream_call, set_stream_call, priority_answer,
}

-- The target's config resource is there, or the level does not ask for it.
abbrev pub Configured : (nif : Nif) → Target → Nif.Term nif → Type 0
Configured nif (stream_ctx s config_resource) elevel = HasConfig nif config_resource elevel
Configured nif (connection_ctx c) elevel = HasConfig nif c.config_resource elevel
Configured nif (listener_ctx l) elevel = HasConfig nif l.config_resource elevel
Configured nif _ elevel = Unit

module _ {nif : Nif} (host : Host nif) where
  -- The priorities that are set, and those of them that MsQuic accepts.
  abbrev pub priorities : State.Effect → ℕ
  priorities (State.set_param_priority s value) = 1
  priorities _ = 0

  abbrev pub accepted_priority : State.Effect → ℕ
  accepted_priority (State.set_param_priority s value) =
      if_not (nif.failed (host.set_param s stream_priority 2 (Buffer.number value)))
  accepted_priority _ = 0

  -- A setopt on a stream's context ends. It sets one priority at most; it says `ok` where it changed
  -- the receive mode, as it did `modes` times, or MsQuic accepted the priority, and gives an error
  -- otherwise.
  abbrev pub AnswersStream : (modes : ℕ) → List State.Effect → Reply → Type 0
  AnswersStream modes fx r =
      (tally priorities fx ≤ 1)
      × (if_so (is_ok r) ≡ modes + tally accepted_priority fx)
      × ((is_ok r || is_error r) ≡ true)

  abbrev pub TellsStream : (modes : ℕ) → State.Run Reply → Type 0
  TellsStream modes (State.refused r) = AnswersStream modes [] r
  TellsStream modes State.fault = ⊥
  TellsStream modes (State.done t fx r) = AnswersStream modes fx r

  abbrev pub Tells : (modes : ℕ) → SetOutcome → Type 0
  Tells modes (of_options run) = Ends (Told host) run
  Tells modes (of_stream run) = TellsStream modes run

abbrev pub if_some : {A : Type 0} → Option A → ℕ
if_some none = 0
if_some (some x) = 1

-- How often a setopt changes a stream's receive mode: once for the option `active`, where the value
-- is a mode.
abbrev pub mode_changes : (nif : Nif) → Target → (eopt evalue : Nif.Term nif) → ℕ
mode_changes nif (stream_ctx s config_resource) eopt evalue =
    if nif.is_same eopt Atom.active then if_some (set_owner_recv_mode nif s.owner evalue) else 0
mode_changes nif _ eopt evalue = 0

module _ {nif : Nif} (host : Host nif) (healthy : Healthy host) where
  store_mode-TellsStream :
      (s : StreamCtx) (fx : List State.Effect) (o : Option Acceptor)
      → tally (priorities host) fx ≡ 0
      → tally (accepted_priority host) fx ≡ 0
      → TellsStream host (if_some o) (store_mode s fx o)
  unfolding store_mode
  store_mode-TellsStream s fx none e a = (omega (arith, e), omega (arith, a), refl)
  store_mode-TellsStream s fx (some owner) e a = (omega (arith, e), omega (arith, a), refl)

  wake_quiet :
      (s : StreamCtx) (optval : Nif.Term nif)
      → (tally (priorities host) (wake nif s optval) ≡ 0)
        × (tally (accepted_priority host) (wake nif s optval) ≡ 0)
  unfolding wake
  wake_quiet s optval = ground arith

  set_priority-TellsStream :
      (s : StreamCtx) (o : Option ℕ)
      → TellsStream host 0 (set_priority nif (priority_answer host s.stream o) s o)
  unfolding set_priority priority_answer
  set_priority-TellsStream s none = (omega arith, refl, refl)
  set_priority-TellsStream s (some value) = ground arith

  set_stream_call-Tells :
      (s : StreamCtx) (config_resource : Option ℕ) (optname optval elevel : Nif.Term nif)
      → HasConfig nif config_resource elevel
      → Tells host
          (mode_changes nif (stream_ctx s config_resource) optname optval)
          (set_stream_call host s config_resource optname optval elevel)
  unfolding set_stream_call set_active set_stream_param
  set_stream_call-Tells s config_resource optname optval elevel has =
      elim (Bool-cases (nif.is_same elevel Atom.false)) [
        | inl e ↦ ground (arith, own, set_priority-TellsStream s (get_uint16 nif optval))
        | inr e ↦ ground (
          arith,
          own,
          set_at_level-Told host healthy s.stream config_resource optname optval elevel
              (level_false host healthy config_resource elevel has e),
        )
      ]
    where
      own :
          TellsStream host
            (if_some (set_owner_recv_mode nif s.owner optval))
            (store_mode s (wake nif s optval) (set_owner_recv_mode nif s.owner optval))
      own =
          store_mode-TellsStream s _ (set_owner_recv_mode nif s.owner optval)
            (wake_quiet s optval).0 (wake_quiet s optval).1

  -- With memory, and with MsQuic keeping to the length of the handshake's information, every setopt
  -- whose config resource is there, or whose level is `false`, ends. On the library, a connection, a
  -- listener, or at a level of a stream, it calls `SetParam` once at most, reads nothing, and gives
  -- back every buffer, reference and lock that it took; it says `ok` where MsQuic accepted the call,
  -- and gives an error otherwise. An option of a stream itself sets one priority at most; it says `ok`
  -- where MsQuic accepted the priority, or where the option is `active` and the value is a receive
  -- mode, and gives an error otherwise.
  pub setopt4-Tells :
      (target : Target) (is_atom : Bool) (eopt evalue elevel : Nif.Term nif)
      → Configured nif target elevel
      → Tells host
          (mode_changes nif target eopt evalue)
          (setopt4 host target is_atom eopt evalue elevel)
  unfolding setopt4
  setopt4-Tells target false eopt evalue elevel has = none-Told host (error (atom Atom.badarg)) refl
  setopt4-Tells quic_global true eopt evalue elevel has =
      set_global_opt-Told host healthy 0 eopt evalue
  setopt4-Tells (stream_ctx s config_resource) true eopt evalue elevel has =
      set_stream_call-Tells s config_resource eopt evalue elevel has
  setopt4-Tells (connection_ctx c) true eopt evalue elevel has =
      set_connection_opt-Told host healthy c eopt evalue elevel has
  setopt4-Tells (listener_ctx l) true eopt evalue elevel has =
      set_listener_opt-Told host healthy l eopt evalue elevel has
  setopt4-Tells other_term true eopt evalue elevel has =
      none-Told host (error (atom Atom.badarg)) refl

  get_active-no_ok : (owner : Acceptor) (mode : RecvMode) → is_ok (get_active owner mode) ≡ false
  unfolding get_active
  get_active-no_ok owner passive = refl
  get_active-no_ok owner multi = refl
  get_active-no_ok owner once = refl
  get_active-no_ok owner active = refl

  get_stream_call-Shown :
      (s : StreamCtx) (config_resource : Option ℕ) (optname elevel : Nif.Term nif)
      → HasConfig nif config_resource elevel
      → Ends (Shown host) (get_stream_call host s config_resource optname elevel)
  unfolding get_stream_call
  get_stream_call-Shown s config_resource optname elevel has =
      leveled-Shown host healthy s.stream config_resource optname elevel _ has (
        ground (
          arith,
          read-Shown host healthy stream s.stream stream_id 8,
          none-Shown host (get_active s.owner s.owner.active)
              (get_active-no_ok s.owner s.owner.active),
          read-Shown host healthy stream s.stream stream_0rtt_length 8,
          read-Shown host healthy stream s.stream stream_ideal_send_buffer_size 8,
          none-Shown host (error (atom Atom.param_error)) refl,
        ))

  -- With memory, and with MsQuic keeping to the length of the handshake's information, every getopt whose
  -- config resource is there, or whose level is `false`, ends. It calls `GetParam` once at most, sets
  -- nothing, gives back every buffer, reference and lock that it took, never says `ok` without a value, and
  -- gives no value where MsQuic refused.
  pub getopt3-Shown :
      (target : Target) (is_atom : Bool) (eopt elevel : Nif.Term nif)
      → Configured nif target elevel
      → Ends (Shown host) (getopt3 host target is_atom eopt elevel)
  unfolding getopt3
  getopt3-Shown target false eopt elevel has = none-Shown host (error (atom Atom.badarg)) refl
  getopt3-Shown quic_global true eopt elevel has = get_global_opt-Shown host healthy 0 eopt
  getopt3-Shown (stream_ctx s config_resource) true eopt elevel has =
      get_stream_call-Shown s config_resource eopt elevel has
  getopt3-Shown (connection_ctx c) true eopt elevel has =
      get_connection_opt-Shown host healthy c eopt elevel has
  getopt3-Shown (listener_ctx l) true eopt elevel has =
      get_listener_opt-Shown host healthy l eopt elevel has
  getopt3-Shown other_term true eopt elevel has = none-Shown host (error (atom Atom.badarg)) refl
