-- ===== src/Ftx/Life/Delivery.antt =====
-- Where the frames of a channel go, over whole histories of a connector:
-- src/vendor/ftx/ftx_websocket_connector_concept.cpp.
use boost_connector.Base.{ℕ, Text, Option, some, ◌≡◌, true}
use boost_connector.Json.{Value}
use boost_connector.Ftx.Event.{ChannelMarketPair, response}
use boost_connector.Ftx.Channels.{ChannelState, find}
use boost_connector.Ftx.Connector.{Connector, holding, dispatch_index, deliver}
use boost_connector.Ftx.Credentials.{WebsocketKey}
use boost_connector.Ftx.Subscription.View.{headers}
use boost_connector.Ftx.Subscription.Wiring.{Wired}
use boost_connector.Ftx.Subscription.Wiring.Delivery.{Holder, dispatch_index-Holder}
use boost_connector.Ftx.Life.{System, start, Reach}
use boost_connector.Ftx.Life.Accounts.{Coherent, Reach-Coherent}
use boost_connector.Ftx.Life.Protocol.{Reach-Wired}

module _ (serialize : Value → Text) (parse : Text → Option Value)
    (hmac_hex : Text → Text → Text) where
  -- In every state that a connector reaches from its start without a fault, a frame for a channel that is
  -- acquired is delivered to a subscription with the channel's topic, which holds the channel; where that
  -- subscription has not begun to end, no assertion fails. At the start, the callback of each acquired
  -- channel is that of a holder, the counts of interest are exact, and the machines are well formed.
  pub Reach-Holder :
      (args : WebsocketKey) (w : Connector) (s : System) (k : ChannelMarketPair) (c : ChannelState)
      (v : Value)
      → Reach serialize parse hmac_hex args (start w) s
      → Wired w.channel_states (headers w)
      → Coherent w
      → find k s.connector.channel_states ≡ some c
      → c.acquired ≡ true
      → (i : ℕ) × (h : Holder k s.connector i) × (dispatch_index serialize parse
            (some k)
            v
            s.connector
          ≡ deliver serialize parse (some i) (response v) s.connector)
        × (h.subscription.phase ≡ holding
            → (w' : Connector) × (dispatch_index serialize parse (some k) v s.connector ≡ some w'))
  Reach-Holder args w s k c v r wired coherent found held =
      dispatch_index-Holder serialize parse k c v s.connector
        (Reach-Wired serialize parse hmac_hex args w s r wired)
        (Reach-Coherent serialize parse hmac_hex args w s r coherent).sound found held
