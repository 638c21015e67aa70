-- ===== src/Ftx/Life/Protocol.antt =====
-- The channels and the coroutines of the subscriptions over whole histories of a connector:
-- src/vendor/ftx/ftx_websocket_connector_concept.cpp and upstream_subscription_impl.cpp.
use boost_connector.Base.{ℕ, Text, Bool, true, false, Option, some, >>=-eq-some, ◌≡◌, subst}
use mathlib.Core.Option.{some-injective}
use boost_connector.Json.{Value}
use boost_connector.Ftx.Connection.{up, down}
use boost_connector.Ftx.Connector.{Connector, notify_connection_state}
use boost_connector.Ftx.Credentials.{WebsocketKey}
use boost_connector.Ftx.Session.{Outcome, pending, succeeded, failed, join, leave}
use boost_connector.Ftx.Subscription.View.{
  headers, read_state-SameView, notify_connection_state-SameView,
}
use boost_connector.Ftx.Subscription.Protocol.{Refines, stays}
use boost_connector.Ftx.Subscription.Protocol.Turns.{SameView-Refines, Refines-trans}
use boost_connector.Ftx.Subscription.Protocol.Refines.{step-Refines}
use boost_connector.Ftx.Subscription.Wiring.{Wired}
use boost_connector.Ftx.Subscription.Wiring.History.{Moves-Wired}
use boost_connector.Ftx.Life.{
  System, start, stop, Step, reconnects, refuses, connects, receives, read_throws, write_throws,
  ping_pong_returns, leaves, expires, exits_pause, exits_idle, stopped, acts, Reach, here, next,
  announce, renew, make_stream, after_announce,
}

module _ (serialize : Value → Text) (parse : Text → Option Value)
    (hmac_hex : Text → Text → Text) where
  after_announce-Refines :
      (b : Bool) (w w' : Connector)
      → Refines w w'
      → Refines w (after_announce serialize parse hmac_hex b w')
  after_announce-Refines true w w' h = h
  after_announce-Refines false w w' h = h

  announce-Refines :
      (args : WebsocketKey) (now_ms : ℕ) (connected : Bool) (w : Connector) {w' : Connector}
      → announce serialize parse hmac_hex args now_ms connected w ≡ some w'
      → Refines w w'
  unfolding announce renew
  announce-Refines args now_ms connected w {w'} e =
      let w1 = renew serialize parse hmac_hex args now_ms connected w in
      SameView-Refines w1 w' (notify_connection_state-SameView serialize parse up w1 e)

  leave-Refines :
      (o : Outcome) (w : Connector) {w' : Connector}
      → leave serialize parse hmac_hex o w ≡ some w'
      → Refines w w'
  unfolding leave
  leave-Refines pending w e = subst (Refines w) (some-injective _ _ e) stays
  leave-Refines failed w e = subst (Refines w) (some-injective _ _ e) stays
  leave-Refines succeeded w e =
      let (w1, told, put) = >>=-eq-some (notify_connection_state serialize parse down w) _ e in
      subst (Refines w) (some-injective _ _ put)
        (SameView-Refines w w1 (notify_connection_state-SameView serialize parse down w told))

  Step-Refines :
      (args : WebsocketKey) (s s' : System)
      → Step serialize parse hmac_hex args s s'
      → Refines s.connector s'.connector
  unfolding stop make_stream
  Step-Refines args s s' (reconnects parts _ _ _) = stays
  Step-Refines args s s' (refuses _ _ _) = stays
  Step-Refines args s s' (connects now ok w _ e) =
      after_announce-Refines s.stopping s.connector w (announce-Refines args now ok s.connector e)
  Step-Refines args s s' (receives t r w _ _ e) =
      SameView-Refines s.connector w (read_state-SameView serialize parse r s.connector e)
  Step-Refines args s s' (read_throws t _ _) = stays
  Step-Refines args s s' (write_throws t _ _) = stays
  Step-Refines args s s' (ping_pong_returns t _ _) = stays
  Step-Refines args s s' (leaves t w _ _ left) = leave-Refines (join t) s.connector left
  Step-Refines args s s' (expires _ _) = stays
  Step-Refines args s s' (exits_pause _ _) = stays
  Step-Refines args s s' (exits_idle _ _) = stays
  Step-Refines args s s' stopped = stays
  Step-Refines args s s' (acts a w _ e) = step-Refines serialize parse a s.connector e

  -- What a connector does to its channels and to the places of its subscriptions' coroutines, from its start
  -- and in any history without a fault, with connections and their losses, frames, stops and turns in any
  -- order, is a sequence of moves of the protocol.
  pub Reach-Refines :
      (args : WebsocketKey) (w : Connector) (s : System)
      → Reach serialize parse hmac_hex args (start w) s
      → Refines w s.connector
  unfolding start
  Reach-Refines args w s here = stays
  Reach-Refines args w s (next {u = u} r e) =
      Refines-trans w u.connector s.connector (Reach-Refines args w u r) (Step-Refines args u s e)

  -- In every state that a connector reaches from its start without a fault, the callback of each channel that
  -- is acquired is that of a subscription to the channel's topic which has acquired it and has not returned,
  -- if that holds at the start.
  pub Reach-Wired :
      (args : WebsocketKey) (w : Connector) (s : System)
      → Reach serialize parse hmac_hex args (start w) s
      → Wired w.channel_states (headers w)
      → Wired s.connector.channel_states (headers s.connector)
  Reach-Wired args w s r v = Moves-Wired (Reach-Refines args w s r) v
