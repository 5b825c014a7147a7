-- ===== src/Listener/System.antt =====
-- A listener between its callers and MsQuic. MsQuic reports the end of a stop within the call of
-- `ListenerStop` or `ListenerClose` that stopped a listener, and once, as the callback of the code
-- says; it does not report on a listener that was not started.
use quicer.Prelude.{ℕ, suc, Bool, true, false, Option, none, some, List, [], ◌∷◌, if◌then◌else◌}
use quicer.Nif.{Nif, Status}
use quicer.Listener.State.{
  ListenerCtx, Effect, listener_start, listener_stop, listener_close, destroy_l_ctx, destroy,
}
use quicer.Listener.Calls.{
  close_listener1, stop_listener1, start_listener3, resource_listener_down_callback, stop_complete,
}

-- `listening` is MsQuic's; `released` counts the calls of `destroy_l_ctx`.
pub record System : Type 0 where
  pub ctx : ListenerCtx
  pub listening : Bool
  pub released : ℕ

-- `none` is a fault.
unfoldable pub destroyed : System → Option (ListenerCtx × List Effect) → Option System
destroyed y none = none
destroyed y (some (l, fx)) = some (record y { ctx = l; released = suc y.released })

abbrev pub and_then : Option System → (System → Option System) → Option System
and_then none k = none
and_then (some y) k = k y

-- The effects of the callback, which calls MsQuic no further.
unfoldable pub report : System → List Effect → Option System
unfolding destroyed destroy
report y [] = some y
report y (destroy_l_ctx ∷ fx) = and_then (destroyed y (destroy y.ctx)) (λ z. report z fx)
report y (_ ∷ fx) = report y fx

unfoldable pub reports : System → Option (List Effect) → Option System
unfolding report
reports y none = none
reports y (some fx) = report y fx

unfoldable pub stop_listening : System → Option System
unfolding reports stop_complete
stop_listening y =
    if y.listening then reports (record y { listening = false }) (stop_complete y.ctx) else some y

unfoldable pub perform : Nif → System → Effect → Option System
unfolding stop_listening destroyed destroy
perform nif y (listener_start l st) =
    some (record y { listening = if nif.failed st then y.listening else true })
perform nif y (listener_stop l) = stop_listening y
perform nif y (listener_close l) = stop_listening y
perform nif y destroy_l_ctx = destroyed y (destroy y.ctx)
perform nif y _ = some y

unfoldable pub performs : Nif → System → List Effect → Option System
unfolding perform
performs nif y [] = some y
performs nif y (x ∷ fx) = and_then (perform nif y x) (λ z. performs nif z fx)

pub data Action : Type 0 where
  close stop owner_down : Action
  start : (address alpn : Bool) → Status → Action

unfoldable pub act : Nif → System → Action → Option System
unfolding close_listener1 stop_listener1 start_listener3 resource_listener_down_callback performs
act nif y close = let r = close_listener1 y.ctx in performs nif (record y { ctx = r.0 }) r.1
act nif y stop = let r = stop_listener1 y.ctx in performs nif (record y { ctx = r.0 }) r.1
act nif y owner_down =
    let r = resource_listener_down_callback y.ctx in performs nif (record y { ctx = r.0 }) r.1
act nif y (start address alpn st) =
    let r = start_listener3 nif address alpn st y.ctx in performs nif (record y { ctx = r.0 }) r.1
