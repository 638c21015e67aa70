-- ===== src/Examples/Streams.antt =====
-- Runs of the websocket's connection.
use boost_connector.Base.{span}
use boost_connector.Async.Queue.{clear}
use boost_connector.Ftx.Credentials.{has_auth}
use boost_connector.Base.{span}
use boost_connector.Base.{
  ℕ, Text, codes, Bool, true, false, Option, none, some, ◌≡◌, refl, List, [], ◌∷◌, ◌==◌,
  if◌then◌else◌, inl,
}
use boost_connector.Async.Buffer.Single
use boost_connector.Json.{Value}
use boost_connector.Url.{UrlParts, tls, decode_url}
use boost_connector.Ftx.Connection
use boost_connector.Ftx.Connection.{up}
use boost_connector.Ftx.Connector.{Connector}
use boost_connector.Ftx.Credentials.{WebsocketKey}
use boost_connector.Ftx.Session.Opening.{Opened, open_session, open_session-refused}
use boost_connector.Ftx.Session.Reconnect.{state_of}
use boost_connector.Stream.{
  Variant, wss, Network, Attempt, returns, throws, construct, tcp_layer, is_tls, is_open,
  connected_to,
}
use boost_connector.Stream.Race.{Finish, connect_one, Earliest, connect_one-Earliest}
use boost_connector.Stream.Connect
use boost_connector.Examples.Deliveries.{served, served-Wired}
use boost_connector.Stream.Connect.Reached.{Connected, connect-returns, connect-Connected}

-- Three endpoints; the second accepts late, and the third soon.
abbrev attempt : ℕ → Attempt
attempt n =
    if n == 1
    then record { at = 50; result = returns tt }
    else if n == 2
    then record { at = 20; result = returns tt }
    else record { at = 10; result = throws (codes "Connection refused") }

connect_one_of_three :
    connect_one attempt (0 ∷ 1 ∷ 2 ∷ [])
    ≡ some (record { at = 20; result = returns (connected_to 2) })
unfolding connect_one
connect_one_of_three = refl

connect_one-Earliest_example :
    (r : Finish ℕ) × (connect_one attempt (0 ∷ 1 ∷ 2 ∷ []) ≡ some r)
    × Earliest attempt (0 ∷ 1 ∷ 2 ∷ []) r
connect_one-Earliest_example = connect_one-Earliest attempt 0 (1 ∷ 2 ∷ [])

abbrev network : List ℕ → Network ℕ
network es = record {
  resolver = λ host service. returns es;
  attempt = attempt;
  set_host_name = λ host. true;
  ssl_error = codes "error";
  tls_accepts = λ layer. returns tt;
  ws_accepts = λ host target stream. returns tt;
}

abbrev net : Network ℕ
net = network (0 ∷ 1 ∷ 2 ∷ [])

connect-returns_example :
    (v : Variant ℕ) × (Connect.connect net
        (codes "ftx.com")
        (codes "https")
        (codes "/ws")
        (construct tls)
      ≡ some v)
    × (is_tls v ≡ is_tls {E = ℕ} (construct tls))
connect-returns_example =
    connect-returns net (codes "ftx.com") (codes "https") (codes "/ws") (construct tls) (λ e. cc)

abbrev open_stream : Variant ℕ
open_stream = wss (record {
  next_layer = record {
    next_layer = connected_to 2;
    host_name = some (codes "ftx.com");
    is_secured = true;
  };
  is_open = true;
})

connects :
    Connect.connect net (codes "ftx.com") (codes "https") (codes "/ws") (construct tls)
    ≡ some open_stream
unfolding Connect.connect construct is_tls
connects = refl

closed : is_open {E = ℕ} (construct tls) ≡ false
unfolding construct
closed = refl

connect-Connected_example : Connected net (codes "ftx.com") (codes "https") open_stream
connect-Connected_example =
    connect-Connected net (codes "ftx.com") (codes "https") (codes "/ws") (construct tls)
      open_stream closed connects refl

abbrev serialize : Value → Text
serialize v = codes "frame"

abbrev parse : Text → Option Value
parse t = none

abbrev hmac_hex : Text → Text → Text
hmac_hex secret message = message

abbrev key : WebsocketKey
key = record {
  url = codes "wss://ftx.com/ws";
  auth = record { subaccount = []; api_key = []; api_secret = [] };
}

abbrev parts : UrlParts
parts = record {
  hostname = codes "ftx.com";
  service = codes "https";
  path_etc = codes "/ws";
  transport = tls;
}

abbrev connector : Connection.ConnectionState → Bool → Connector
connector state on_drop = record {
  connection = record {
    connection_state = state;
    write_queue = record { queue = []; waiting = 0; resumed = 0 };
    on_drop = on_drop;
    socket_open = false;
  };
  state_cv = record { waiting = 0; resumed = 0 };
  channel_states = [];
  pong_buffer = Single.make;
  subscriptions = [];
}

abbrev opened : Opened ℕ
opened = record { stream = construct tls; connector = connector up true }

opens :
    open_session serialize parse hmac_hex
      (network (0 ∷ []))
      key
      1000
      (connector Connection.down false)
    ≡ some (inl opened)
unfolding open_session span has_auth clear
opens = refl

-- With a subscription that holds its channel.
open_session-refused_example :
    (o : Opened ℕ) × (open_session serialize parse hmac_hex
        (network (0 ∷ []))
        key
        1000
        served.connector
      ≡ some (inl o))
    × (is_open o.stream ≡ false)
    × ((tcp_layer o.stream).is_open ≡ false)
    × (state_of o.connector ≡ up)
unfolding decode_url span
open_session-refused_example =
    open_session-refused serialize parse hmac_hex (network (0 ∷ [])) parts key 1000 served.connector
      (0 ∷ []) refl refl (λ e. cc) (refl, tt) refl served-Wired (refl, tt)
