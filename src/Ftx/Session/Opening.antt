-- ===== src/Ftx/Session/Opening.antt =====
-- `reconnect` over the websocket, up to the join of its coroutines:
-- src/vendor/ftx/ftx_websocket_connector_concept.cpp and src/util/websocket_stream_variant.cpp.
use boost_connector.Base.{
  ℕ, Text, false, Option, none, some, ◌>>=◌, ◌≡◌, refl, sym, subst, ◌∙◌, List, All, ◌⊎◌, inl, inr,
  ◌≢◌, [],
}
use boost_connector.Json.{Value}
use boost_connector.Url.{UrlParts, TransportType, tcp, tls, decode_url}
use boost_connector.Ftx.Connection.{up, down}
use boost_connector.Ftx.Connector.{Connector}
use boost_connector.Ftx.Credentials.{WebsocketKey}
use boost_connector.Ftx.Session.{establish, no_drop}
use boost_connector.Ftx.Session.Reconnect.{state_of}
use boost_connector.Stream.{Variant, Network, returns, construct, tcp_layer, is_open}
use boost_connector.Stream.Race.{accepts}
use boost_connector.Stream.Connect
use boost_connector.Stream.Connect.{try_connect, with_socket, with_endpoints, caught}
use boost_connector.Stream.Connect.Reached.{connect-refused, connect-returns}
use boost_connector.Ftx.Session.Announcing.{Runs, establish_returns}
use boost_connector.Ftx.Subscription.View.{headers}
use boost_connector.Ftx.Subscription.Wiring.{Wired}

returns-injective : {A : Type 0} (a b : A) → returns a ≡ returns b → a ≡ b
returns-injective a b h = cc

-- The websocket, and the connector whose coroutines run on it.
pub record Opened (E : Type 0) : Type 0 where
  pub stream : Variant E
  pub connector : Connector

module _ (serialize : Value → Text) (parse : Text → Option Value) (hmac_hex : Text → Text → Text)
    {E : Type 0} (net : Network E) where
  -- The stream is made for the transport of the URL, and connected to its host.
  unfoldable pub open_stream : UrlParts → Option (Variant E)
  unfolding Connect.connect construct
  open_stream parts =
      Connect.connect net parts.hostname parts.service parts.path_etc (construct parts.transport)

  abbrev open_with : UrlParts → WebsocketKey → ℕ → Connector → Option (Opened E)
  open_with parts args now_ms w = do
    v ← open_stream parts
    w' ← establish serialize parse hmac_hex args now_ms (tcp_layer v).is_open w
    some (record { stream = v; connector = w' })

  abbrev open_found : Option UrlParts → WebsocketKey → ℕ → Connector → Option (Opened E ⊎ Connector)
  open_found none args now_ms w = some (inr (no_drop serialize parse hmac_hex w))
  open_found (some parts) args now_ms w = do o ← open_with parts args now_ms w; some (inl o)

  -- The session that is opened, or the connector where the URL does not decode.
  unfoldable pub open_session : WebsocketKey → ℕ → Connector → Option (Opened E ⊎ Connector)
  unfolding open_stream tcp_layer establish decode_url
  open_session args now_ms w = open_found (decode_url args.url) args now_ms w

  -- A fresh stream is not connected.
  construct-closed :
      (t : TransportType)
      → (is_open {E = E} (construct t) ≡ false)
        × ((tcp_layer {E = E} (construct t)).is_open ≡ false)
  unfolding construct tcp_layer
  construct-closed tcp = (refl, refl)
  construct-closed tls = (refl, refl)

  -- Where no endpoint of the URL's host accepts a connection, `reconnect` goes on without a fault: the session
  -- is opened, with neither the TCP socket nor the websocket open, and the connector announces that it is up.
  -- Before, the connector says that it is down, the callback of each acquired channel is that of a holder, and
  -- no machine is closed; the URL decodes, and resolves to some endpoints.
  pub open_session-refused :
      (parts : UrlParts) (args : WebsocketKey) (now_ms : ℕ) (w : Connector) (es : List E)
      → decode_url args.url ≡ some parts
      → net.resolver parts.hostname parts.service ≡ returns es
      → es ≢ []
      → All (λ e. accepts net.attempt e ≡ false) es
      → state_of w ≡ down
      → Wired w.channel_states (headers w)
      → All Runs w.subscriptions
      → (o : Opened E) × (open_session args now_ms w ≡ some (inl o))
        × (is_open o.stream ≡ false)
        × ((tcp_layer o.stream).is_open ≡ false)
        × (state_of o.connector ≡ up)
  unfolding open_session open_stream
  open_session-refused parts args now_ms w es decoded found some_ refused offline wired runs =
      let fresh = construct parts.transport in
      let (v, connected, _) =
        connect-returns net parts.hostname parts.service parts.path_etc fresh
          (λ e. some_ (returns-injective es [] (sym found ∙ e))) in
      let same =
        connect-refused net parts.hostname parts.service parts.path_etc fresh v es found refused
          connected in
      let (w', announced, online) =
        establish_returns serialize parse hmac_hex args now_ms (tcp_layer v).is_open w offline wired
          runs in
      let closed = construct-closed parts.transport in
      (
        record { stream = v; connector = w' },
        rw (decoded, connected, announced) refl,
        subst (λ q. is_open q ≡ false) (sym same) closed.0,
        subst (λ q. (tcp_layer q).is_open ≡ false) (sym same) closed.1,
        online,
      )
