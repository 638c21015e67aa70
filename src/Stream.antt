-- ===== src/Stream.antt =====
-- The websocket over TCP or TLS: src/util/websocket_stream_variant.cpp with its header under
-- include/boost/connector/util, and src/util/websocket_message.cpp. An endpoint is of a type that asio
-- gives. The outside world, that is the resolver, the peers and the libraries' handshakes, is a record of
-- its answers.
pub mod Race
pub mod Connect
pub mod Message
use boost_connector.Base.{
  ℕ, Text, Bool, true, false, Option, none, some, List, ◌≡◌, refl, ◌⊎◌, inl, inr,
}
use boost_connector.Url.{TransportType, tcp, tls}

-- The result of an operation that returns or throws; an exception is its text.
pub data Result (A : Type 0) : Type 0 where
  returns : A → Result A
  throws : Text → Result A

pub Result-cases :
    {A : Type 0} (r : Result A) → ((a : A) × (r ≡ returns a)) ⊎ ((x : Text) × (r ≡ throws x))
Result-cases (returns a) = inl (a, refl)
Result-cases (throws x) = inr (x, refl)

pub record TcpTransportLayer (E : Type 0) : Type 0 where
  pub is_open : Bool
  pub remote_endpoint : Option E

pub record TlsTransportLayer (E : Type 0) : Type 0 where
  pub next_layer : TcpTransportLayer E
  pub host_name : Option Text
  pub is_secured : Bool

pub record WsTransportLayer (E : Type 0) : Type 0 where
  pub next_layer : TcpTransportLayer E
  pub is_open : Bool

pub record WssTransportLayer (E : Type 0) : Type 0 where
  pub next_layer : TlsTransportLayer E
  pub is_open : Bool

pub data Variant (E : Type 0) : Type 0 where
  ws : WsTransportLayer E → Variant E
  wss : WssTransportLayer E → Variant E

abbrev pub unconnected : {E : Type 0} → TcpTransportLayer E
unconnected = record { is_open = false; remote_endpoint = none }

abbrev pub connected_to : {E : Type 0} → E → TcpTransportLayer E
connected_to e = record { is_open = true; remote_endpoint = some e }

unfoldable pub construct : {E : Type 0} → TransportType → Variant E
construct tcp = ws (record { next_layer = unconnected; is_open = false })
construct tls = wss (record {
  next_layer = record { next_layer = unconnected; host_name = none; is_secured = false };
  is_open = false;
})

unfoldable pub tcp_layer : {E : Type 0} → Variant E → TcpTransportLayer E
tcp_layer (ws s) = s.next_layer
tcp_layer (wss s) = s.next_layer.next_layer

unfoldable pub is_tls : {E : Type 0} → Variant E → Bool
is_tls (ws s) = false
is_tls (wss s) = true

unfoldable pub replace_tcp : {E : Type 0} → TcpTransportLayer E → Variant E → Variant E
replace_tcp t (ws s) = ws (record s { next_layer = t })
replace_tcp t (wss s) = wss (record s { next_layer = record (s.next_layer) { next_layer = t } })

-- `close` of the websocket, which ends in both layers with the stream closed.
unfoldable pub close : {E : Type 0} → Variant E → Variant E
close (ws s) = ws (record s { is_open = false })
close (wss s) = wss (record s { is_open = false })

-- Whether the websocket's own handshake is done.
abbrev pub is_open : {E : Type 0} → Variant E → Bool
is_open (ws s) = s.is_open
is_open (wss s) = s.is_open

-- When the attempt to connect to an endpoint completes, and how.
pub record Attempt : Type 0 where
  pub at : ℕ
  pub result : Result Unit

-- The answers of the world: to `async_resolve`, `async_connect`, `SSL_set_tlsext_host_name` (with the text
-- of the library's error), and the handshakes of the TLS stream and of the websocket.
pub record Network (E : Type 0) : Type 0 where
  pub resolver : Text → Text → Result (List E)
  pub attempt : E → Attempt
  pub set_host_name : Text → Bool
  pub ssl_error : Text
  pub tls_accepts : TlsTransportLayer E → Result Unit
  pub ws_accepts : Text → Text → Variant E → Result Unit
