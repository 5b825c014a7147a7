-- ===== src/Options/RoundTrip.antt =====
-- An option of a connection that was set with setopt4 and is read with getopt3.
use quicer.Prelude.{
  ap, ◌∙◌, subst, ℕ, ◌≡◌, refl, Bool, true, false, Option, none, some, List, [], ◌∷◌, arith, ltb,
}
use mathlib.Core.Option
use quicer.Nif.{Nif, ok, ok_with, boolean, props, Entry}
use quicer.Nif.Atoms.{Atom}
use quicer.Config.Settings.{Setting, Settings, key_of, create_settings, read_setting}
use quicer.Config.Widths.{create_settings-read_setting}
use quicer.Connection.State.{ConnCtx}
use quicer.Options.{
  conn_settings, quic_settings, Contents, Answer, Buffer, Host, Effect, enclose, write, set_param,
  alloc_buffer, free_buffer, done,
}
use quicer.Options.Encode.{
  read, run_of, encode_parm_to_eterm, encode, encoding, encode_settings, shown_settings,
}
use quicer.Options.Reading.{request, get_requested, get_connection_opt, allocated}
use quicer.Options.Writing.{choose, choose_flag, choose_settings, set_chosen, set_connection_opt}
use quicer.Options.Dispatch.{connection_ctx, of_options, getopt3, setopt4}
use quicer.Options.Names.{
  Flag, share_udp_binding, datagram_send_enabled, datagram_receive_enabled, disable_1rtt_encryption,
  name_of, param_of, choice_of, request_of, Keeps, reply_of, choose-name, request-name, same,
  is_same-same,
}
use quicer.Options.ShownSettings.{entry_at, is_shown, shown_as, entry_at-encode_settings}

module _ {nif : Nif} (host later : Host nif) where
  setopt4-choose :
      (c : ConnCtx) (optname optval elevel : Nif.Term nif)
      → nif.is_same elevel Atom.false ≡ true
      → setopt4 host (connection_ctx c) true optname optval elevel
        ≡ of_options (set_chosen host c.connection (choose host optname optval))
  unfolding setopt4 set_connection_opt
  setopt4-choose c optname optval elevel level = rw (level) refl

  -- A flag that was set: the atom was `true` or `false`, and MsQuic keeps 1 or 0.
  kept_flag :
      (handle : ℕ) (f : Flag) (optval : Nif.Term nif) (fx : List Effect)
      → set_chosen host handle (choose_flag host (choice_of f) (param_of f) optval) ≡ done fx ok
      → Keeps later fx
      → (nif.failed (Answer.answer (later.get_param handle (param_of f) 1)) ≡ false)
        × (ltb 0 (Contents.number (Answer.contents (later.get_param handle (param_of f) 1)) 1)
            ≡ nif.is_same optval Atom.true)
  unfolding set_chosen choose_flag write
  kept_flag handle share_udp_binding optval fx e keeps = ground arith
  kept_flag handle datagram_send_enabled optval fx e keeps = ground arith
  kept_flag handle datagram_receive_enabled optval fx e keeps = ground arith
  kept_flag handle disable_1rtt_encryption optval fx e keeps = ground arith

  shown_flag :
      (handle : ℕ) (f : Flag) (b : Bool)
      → later.has_memory 1 ≡ true
      → nif.failed (Answer.answer (later.get_param handle (param_of f) 1)) ≡ false
      → ltb 0 (Contents.number (Answer.contents (later.get_param handle (param_of f) 1)) 1) ≡ b
      → reply_of (get_requested later handle (request_of f)) ≡ some (ok_with (boolean b))
  unfolding get_requested read run_of encode_parm_to_eterm encoding encode enclose
  shown_flag handle share_udp_binding b memory good e = rw (memory, good, e) refl
  shown_flag handle datagram_send_enabled b memory good e = rw (good, e) refl
  shown_flag handle datagram_receive_enabled b memory good e = rw (good, e) refl
  shown_flag handle disable_1rtt_encryption b memory good e = rw (memory, good, e) refl

  -- After a setopt of one of the four flags of a connection that answered `ok`, at the level `false`,
  -- getopt shows the flag: `true` where the value was the atom `true`, and `false` otherwise. MsQuic keeps
  -- what was set, and there is memory for the answer.
  pub getopt3-setopt4_flag :
      (c : ConnCtx) (f : Flag) (optname optval elevel : Nif.Term nif) (fx : List Effect)
      → nif.is_same optname (name_of f) ≡ true
      → nif.is_same elevel Atom.false ≡ true
      → setopt4 host (connection_ctx c) true optname optval elevel ≡ of_options (done fx ok)
      → Keeps later fx
      → later.has_memory 1 ≡ true
      → reply_of (getopt3 later (connection_ctx c) true optname elevel)
        ≡ some (ok_with (boolean (nif.is_same optval Atom.true)))
  unfolding getopt3 get_connection_opt
  getopt3-setopt4_flag c f optname optval elevel fx named level e keeps memory =
      let (good, same) = kept_flag c.connection f optval fx set keeps in
      rw (level, request-name nif later f optname named)
        (shown_flag c.connection f _ memory good same)
    where
      set :
          set_chosen host c.connection (choose_flag host (choice_of f) (param_of f) optval)
          ≡ done fx ok
      set = cc (
        setopt4-choose c optname optval elevel level,
        choose-name nif host f optname optval named,
        e,
      )

  -- The settings that were read from the map are what MsQuic keeps.
  kept_settings :
      (handle : ℕ) (allocated : Bool) (o : Option Settings) (fx : List Effect)
      → set_chosen host handle (choose_settings host allocated o) ≡ done fx ok
      → Keeps later fx
      → (s : Settings) × (o ≡ some s)
        × (nif.failed
              (Answer.answer (later.get_param handle conn_settings (host.sizeof quic_settings)))
            ≡ false)
        × ((f : Setting) (v : ℕ)
            → s f ≡ some v
            → Contents.settings
                (Answer.contents (later.get_param handle conn_settings (host.sizeof quic_settings)))
                f
              ≡ v)
  unfolding set_chosen choose_settings write enclose
  kept_settings handle false o fx e keeps = absurd cc
  kept_settings handle true none fx e keeps = absurd cc
  kept_settings handle true (some s) fx e keeps =
      let size = host.sizeof quic_settings in
      let made : List Effect =
        alloc_buffer ∷ set_param handle conn_settings size (Buffer.settings s) ∷ free_buffer ∷ [] in
      let same : fx ≡ made = cc e in
      let kept : Keeps later made = subst (Keeps later) same keeps in (s, refl, kept.0, kept.1)

  choose-settings :
      (optname optval : Nif.Term nif)
      → nif.is_same optname Atom.param_conn_settings ≡ true
      → choose host optname optval
        ≡ choose_settings host
            (host.has_memory (host.sizeof quic_settings))
            (create_settings nif host.store optval)
  unfolding choose same
  choose-settings optname optval e = simp (is_same-same nif optname Atom.param_conn_settings e)

  request-settings :
      (optname : Nif.Term nif)
      → nif.is_same optname Atom.param_conn_settings ≡ true
      → request later optname ≡ allocated conn_settings (later.sizeof quic_settings)
  unfolding request same
  request-settings optname e = simp (is_same-same nif optname Atom.param_conn_settings e)

  shown_settings_of :
      (handle : ℕ)
      → later.sizeof quic_settings ≡ host.sizeof quic_settings
      → later.has_memory (host.sizeof quic_settings) ≡ true
      → nif.failed
          (Answer.answer (later.get_param handle conn_settings (host.sizeof quic_settings)))
        ≡ false
      → reply_of (get_requested later handle (allocated conn_settings (later.sizeof quic_settings)))
        ≡ some (
            ok_with (
              props (
                encode_settings
                  (Contents.settings (
                    Answer.contents
                      (later.get_param handle conn_settings (host.sizeof quic_settings))))
                  shown_settings)))
  unfolding get_requested read run_of encode_parm_to_eterm encoding encode enclose
  shown_settings_of handle size memory good = rw (size, memory, good) refl

  -- After a setopt of the settings of a connection that answered `ok`, at the level `false`, getopt
  -- gives a property list. It has, for each of the 24 settings it shows, the value that could be read
  -- from the map, as the field of MsQuic's structure stores it: four switches (send buffering, pacing,
  -- migration, receiving datagrams) as a boolean, true where the stored value is not 0, and the others
  -- as that number. It has no entry for the six other settings. MsQuic keeps what was set, its
  -- structure has one size, and there is memory for the answer.
  pub getopt3-setopt4_settings :
      (c : ConnCtx) (optname optval elevel : Nif.Term nif) (fx : List Effect)
      → nif.is_same optname Atom.param_conn_settings ≡ true
      → nif.is_same elevel Atom.false ≡ true
      → setopt4 host (connection_ctx c) true optname optval elevel ≡ of_options (done fx ok)
      → Keeps later fx
      → later.sizeof quic_settings ≡ host.sizeof quic_settings
      → later.has_memory (host.sizeof quic_settings) ≡ true
      → (entries : List (Atom × Entry)) × (reply_of
            (getopt3 later (connection_ctx c) true optname elevel)
          ≡ some (ok_with (props entries)))
        × ((f : Setting) (n : ℕ)
            → is_shown f ≡ true
            → read_setting nif optval f ≡ some n
            → entry_at (key_of f) entries ≡ some (shown_as f (host.store f n)))
        × ((f : Setting) → is_shown f ≡ false → entry_at (key_of f) entries ≡ none)
  unfolding getopt3 get_connection_opt
  getopt3-setopt4_settings c optname optval elevel fx named level e keeps size memory =
      let (s, made, good, holds) =
        kept_settings c.connection _ (create_settings nif host.store optval) fx set keeps in
      let values : Setting → ℕ = Contents.settings (
        Answer.contents (later.get_param c.connection conn_settings (host.sizeof quic_settings))) in
      (
        encode_settings values shown_settings,
        rw (level, request-settings optname named)
            (shown_settings_of c.connection size memory good),
        λ f n shown present.
            let value : values f ≡ host.store f n = holds f (host.store f n) (
              create_settings-read_setting nif host.store optval s f made
              ∙ ap (Option.map (host.store f)) present) in
            entry_at-encode_settings values f ∙ rw (shown, value) refl,
        λ f hidden. entry_at-encode_settings values f ∙ rw (hidden) refl,
      )
    where
      set :
          set_chosen host c.connection (
            choose_settings host
              (host.has_memory (host.sizeof quic_settings))
              (create_settings nif host.store optval))
          ≡ done fx ok
      set =
          cc (setopt4-choose c optname optval elevel level, choose-settings optname optval named, e)
