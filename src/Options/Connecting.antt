-- ===== src/Options/Connecting.antt =====
-- What the opening of a connection relies on of set_connection_opt of c_src/quicer_config.c.
use quicer.Prelude.{◌≡◌, refl, subst, true, ◌||◌, List, inl, inr, ◌⊎◌}
use quicer.Nif.{Nif, Value, Reply, ok, ok_with, error, error3, plain}
use quicer.Nif.Atoms.{Atom}
use quicer.Connection.State.{ConnCtx}
use quicer.Connection.Open
use quicer.Connection.Opening.{Sets}
use quicer.Options.{Host, Effect, done}
use quicer.Options.Balance.{Told, Ends, is_ok, is_error}
use quicer.Options.Choices.{set_connection_opt-Told}
use quicer.Options.Answers.{Healthy}
use quicer.Options.Writing.{set_connection_opt}

ok_or_error :
    (r : Reply) → (is_ok r || is_error r) ≡ true → (r ≡ ok) ⊎ ((w : Value) × (r ≡ error w))
ok_or_error ok e = inl refl
ok_or_error (error w) e = inr (w, refl)
ok_or_error (ok_with v) e = absurd cc
ok_or_error (error3 a v) e = absurd cc
ok_or_error (plain a) e = absurd cc

-- Take what async_connect3 gets from set_connection_opt to be what set_connection_opt answers at the
-- level `false`, for whatever context and term of the option's name. With memory, and with MsQuic
-- keeping to the length of the handshake's information, it is `ok` or an error: the hypothesis `Sets`
-- of its theorems holds.
pub set_connection_opt-Sets :
    {nif : Nif} (host : Host nif) (a : Open.Answers nif) (elevel : Nif.Term nif)
    (ctx : Atom → Nif.Term nif → ConnCtx) (optname : Atom → Nif.Term nif)
    → Healthy host
    → nif.is_same elevel Atom.false ≡ true
    → ((o : Atom) (v : Nif.Term nif)
        → (fx : List Effect) × (set_connection_opt host (ctx o v) (optname o) v elevel
            ≡ done fx (a.set_connection_opt o v)))
    → Sets nif a
set_connection_opt-Sets host a elevel ctx optname healthy level answered o v =
    let (fx, e) = answered o v in
    let told : Told host fx (a.set_connection_opt o v) =
      subst (Ends (Told host)) e
        (set_connection_opt-Told host healthy (ctx o v) (optname o) v elevel (inl level)) in
    ok_or_error (a.set_connection_opt o v) told.answers
