-- ===== src/Ftx/Life/Accounts.antt =====
-- The channels and the subscriptions' machines over whole histories of a connector:
-- src/vendor/ftx/ftx_websocket_connector_concept.cpp and upstream_subscription_impl.cpp.
use boost_connector.Base.{ℕ, Text, Bool, true, false, Option, some, >>=-eq-some, ◌≡◌, subst}
use mathlib.Core.Option.{some-injective}
use boost_connector.Json.{Value}
use boost_connector.Ftx.Connection.{up, down}
use boost_connector.Ftx.Connector.{Connector, notify_connection_state}
use boost_connector.Ftx.Credentials.{WebsocketKey}
use boost_connector.Ftx.Session.{Outcome, pending, succeeded, failed, join, leave}
use boost_connector.Ftx.Subscription.Accounting.{CountedIn}
use boost_connector.Ftx.Subscription.Accounting.Moves.{Moves-Counted}
use boost_connector.Ftx.Life.Protocol.{Reach-Refines}
use boost_connector.Ftx.Subscription.Machines.{
  AllSound, read_state-AllSound, notify_connection_state-AllSound,
}
use boost_connector.Ftx.Subscription.Machines.Turns.{step-AllSound}
use boost_connector.Ftx.Life.{
  System, start, stop, Step, reconnects, refuses, connects, receives, read_throws, write_throws,
  ping_pong_returns, leaves, expires, exits_pause, exits_idle, stopped, acts, Reach, here, next,
  announce, renew, make_stream, after_announce,
}

-- The counts of interest are exact, and every subscription's machine is well formed and fits where its
-- coroutine stands.
pub record Coherent (w : Connector) : Type 0 where
  pub counted : CountedIn w
  pub sound : AllSound w

module _ (serialize : Value → Text) (parse : Text → Option Value)
    (hmac_hex : Text → Text → Text) where
  after_announce-AllSound :
      (b : Bool) (w : Connector)
      → AllSound w
      → AllSound (after_announce serialize parse hmac_hex b w)
  after_announce-AllSound true w h = h
  after_announce-AllSound false w h = h

  announce-AllSound :
      (args : WebsocketKey) (now_ms : ℕ) (connected : Bool) (w : Connector) {w' : Connector}
      → announce serialize parse hmac_hex args now_ms connected w ≡ some w'
      → AllSound w
      → AllSound w'
  unfolding announce renew
  announce-AllSound args now_ms connected w {w'} e h =
      notify_connection_state-AllSound serialize parse up
        (renew serialize parse hmac_hex args now_ms connected w) e h

  leave-AllSound :
      (o : Outcome) (w : Connector) {w' : Connector}
      → leave serialize parse hmac_hex o w ≡ some w'
      → AllSound w
      → AllSound w'
  unfolding leave
  leave-AllSound pending w e h = subst AllSound (some-injective _ _ e) h
  leave-AllSound failed w e h = subst AllSound (some-injective _ _ e) h
  leave-AllSound succeeded w e h =
      let (w1, told, put) = >>=-eq-some (notify_connection_state serialize parse down w) _ e in
      subst AllSound (some-injective _ _ put)
        (notify_connection_state-AllSound serialize parse down w told h)

  Step-AllSound :
      (args : WebsocketKey) (s s' : System)
      → Step serialize parse hmac_hex args s s'
      → AllSound s.connector
      → AllSound s'.connector
  unfolding stop make_stream
  Step-AllSound args s s' (reconnects parts _ _ _) h = h
  Step-AllSound args s s' (refuses _ _ _) h = h
  Step-AllSound args s s' (connects now ok w _ e) h =
      after_announce-AllSound s.stopping w (announce-AllSound args now ok s.connector e h)
  Step-AllSound args s s' (receives t r w _ _ e) h =
      read_state-AllSound serialize parse r s.connector e h
  Step-AllSound args s s' (read_throws t _ _) h = h
  Step-AllSound args s s' (write_throws t _ _) h = h
  Step-AllSound args s s' (ping_pong_returns t _ _) h = h
  Step-AllSound args s s' (leaves t w _ _ left) h = leave-AllSound (join t) s.connector left h
  Step-AllSound args s s' (expires _ _) h = h
  Step-AllSound args s s' (exits_pause _ _) h = h
  Step-AllSound args s s' (exits_idle _ _) h = h
  Step-AllSound args s s' stopped h = h
  Step-AllSound args s s' (acts a w _ e) h = step-AllSound serialize parse a s.connector e h

  Reach-AllSound :
      (args : WebsocketKey) (w : Connector) (s : System)
      → Reach serialize parse hmac_hex args (start w) s
      → AllSound w
      → AllSound s.connector
  unfolding start
  Reach-AllSound args w s here h = h
  Reach-AllSound args w s (next {u = u} r e) h =
      Step-AllSound args u s e (Reach-AllSound args w u r h)

  -- In every state that a connector reaches from its start, with connections and their losses, frames, stops
  -- and the turns of its subscriptions in any order and without a fault, each topic has a channel exactly
  -- with the number of subscriptions that count for it, and each subscription's machine is well formed and
  -- fits where its coroutine stands, if that holds at the start.
  pub Reach-Coherent :
      (args : WebsocketKey) (w : Connector) (s : System)
      → Reach serialize parse hmac_hex args (start w) s
      → Coherent w
      → Coherent s.connector
  Reach-Coherent args w s r h = record {
    counted = Moves-Counted (Reach-Refines serialize parse hmac_hex args w s r) h.counted;
    sound = Reach-AllSound args w s r h.sound;
  }
