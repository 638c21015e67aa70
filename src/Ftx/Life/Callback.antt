-- ===== src/Ftx/Life/Callback.antt =====
-- The lifetime of the drop callback, which refers to the websocket that is a local variable of `reconnect`:
-- src/vendor/ftx/ftx_websocket_connector_concept.cpp.
use mathlib.Core.Option.{some-injective}
use boost_connector.Base.{
  Text, Bool, true, false, Option, some, >>=-eq-some, ◌≡◌, ◌≢◌, refl, sym, ap, arith, subst,
}
use boost_connector.Json.{Value}
use boost_connector.Ftx.Connection.{down}
use boost_connector.Ftx.Connector.{Connector, notify_connection_state}
use boost_connector.Ftx.Credentials.{WebsocketKey}
use boost_connector.Ftx.Session.{Tasks, Outcome, pending, succeeded, failed, join, leave}
use boost_connector.Ftx.Life.{
  Stage, idle, connecting, joined, pausing, exited, System, start, stop, Step, reconnects, refuses,
  connects, receives, read_throws, write_throws, ping_pong_returns, leaves, expires, exits_pause,
  exits_idle, stopped, acts, Reach, here, next, all_ended, joins, after_announce,
}
use boost_connector.Ftx.Life.Tied.{Tied}
use boost_connector.Ftx.Life.Tied.Turns.{step-Tied}

-- Outside `reconnect`, where there is no websocket, the callback is not set.
abbrev pub OffIn : Stage → Connector → Type 0
OffIn connecting w = Unit
OffIn (joined t) w = Unit
OffIn _ w = w.connection.on_drop ≡ false

abbrev pub Off : System → Type 0
Off s = OffIn s.stage s.connector

all_ended-join : (t : Tasks) → all_ended t ≡ true → join t ≢ pending
unfolding join
all_ended-join t h e = ground arith

Off-Tied : (g : Stage) (w w' : Connector) → Tied w.connection w'.connection → OffIn g w → OffIn g w'
Off-Tied idle w w' t h = ground arith
Off-Tied connecting w w' t h = tt
Off-Tied (joined _) w w' t h = tt
Off-Tied pausing w w' t h = ground arith
Off-Tied exited w w' t h = ground arith

module _ (serialize : Value → Text) (parse : Text → Option Value)
    (hmac_hex : Text → Text → Text) where
  leave-off :
      (o : Outcome) (w : Connector) {w' : Connector}
      → o ≢ pending
      → leave serialize parse hmac_hex o w ≡ some w'
      → w'.connection.on_drop ≡ false
  unfolding leave
  leave-off pending w n h = absurd (n refl)
  leave-off failed w n h = ap (λ v. v.connection.on_drop) (sym (some-injective _ _ h))
  leave-off succeeded w n h =
      let (w1, _, put) = >>=-eq-some (notify_connection_state serialize parse down w) _ h in
      ap (λ v. v.connection.on_drop) (sym (some-injective _ _ put))

  joins-Off :
      (b : Bool) (w : Connector)
      → OffIn (joins serialize parse hmac_hex b) (after_announce serialize parse hmac_hex b w)
  joins-Off true w = refl
  joins-Off false w = tt

  Step-Off :
      (args : WebsocketKey) (s s' : System)
      → Step serialize parse hmac_hex args s s'
      → Off s
      → Off s'
  unfolding stop
  Step-Off args s s' (reconnects parts _ _ _) h = tt
  Step-Off args s s' (refuses _ _ _) h = refl
  Step-Off args s s' (connects now ok w _ _) h = joins-Off s.stopping w
  Step-Off args s s' (receives t r w _ _ _) h = tt
  Step-Off args s s' (read_throws t _ _) h = tt
  Step-Off args s s' (write_throws t _ _) h = tt
  Step-Off args s s' (ping_pong_returns t _ _) h = tt
  Step-Off args s s' (leaves t w _ ended left) h =
      leave-off (join t) s.connector (all_ended-join t ended) left
  Step-Off args s s' (expires at _) h = subst (λ g. OffIn g s.connector) at h
  Step-Off args s s' (exits_pause at _) h = subst (λ g. OffIn g s.connector) at h
  Step-Off args s s' (exits_idle at _) h = subst (λ g. OffIn g s.connector) at h
  Step-Off args s s' stopped h = h
  Step-Off args s s' (acts a w users e) h =
      Off-Tied s.stage s.connector w (step-Tied serialize parse a s.connector users e) h

  -- In every state that the connector reaches from its start without the callback, the drop callback is set
  -- only while `reconnect` runs, so it never refers to a websocket that is gone.
  pub Reach-Off :
      (args : WebsocketKey) (w : Connector) (s : System)
      → Reach serialize parse hmac_hex args (start w) s
      → w.connection.on_drop ≡ false
      → Off s
  unfolding start
  Reach-Off args w s here h = h
  Reach-Off args w s (next {u = u} r e) h = Step-Off args u s e (Reach-Off args w u r h)
