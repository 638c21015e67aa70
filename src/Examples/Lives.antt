-- ===== src/Examples/Lives.antt =====
-- Runs of the life of a connector.
use boost_connector.Ftx.Channels.{find}
use boost_connector.Ftx.Connector.{read_state}
use boost_connector.Base.{span}
use boost_connector.Base.{Text, codes, Bool, true, false, Option, none, some, ◌≡◌, refl, []}
use boost_connector.Async.Buffer.Single
use boost_connector.Json.{Value}
use boost_connector.Url.{UrlParts, tls, decode_url}
use boost_connector.Ftx.Connection
use boost_connector.Ftx.Connection.{up}
use boost_connector.Ftx.Connector.{Connector, read_error}
use boost_connector.Ftx.Credentials.{WebsocketKey}
use boost_connector.Ftx.Session.{Tasks, returned, threw, all_running, join, leave}
use boost_connector.Ftx.Session.Reconnect.{state_of}
use boost_connector.Ftx.Subscription.Tally.{tally}
use boost_connector.Ftx.Life.{
  System, joined, pausing, start, make_stream, Reach, here, next, reconnects, connects, receives,
  write_throws, ping_pong_returns, leaves, announce,
}
use boost_connector.Ftx.Life.Callback.{Off, Reach-Off}
use boost_connector.Ftx.Life.History.{is_joined}
use boost_connector.Ftx.Life.Lost.{Reach-lost}
use boost_connector.Ftx.Life.Accounts.{Coherent, Reach-Coherent}

abbrev pub serialize : Value → Text
serialize v = codes "frame"

abbrev pub parse : Text → Option Value
parse t = none

abbrev pub hmac_hex : Text → Text → Text
hmac_hex secret message = message

abbrev pub key : WebsocketKey
key = record {
  url = codes "wss://ftx.com/ws";
  auth = record { subaccount = []; api_key = []; api_secret = [] };
}

abbrev parts : UrlParts
parts = record {
  hostname = codes "ftx.com";
  service = codes "https";
  path_etc = codes "/ws";
  transport = tls;
}

decoded : decode_url key.url ≡ some parts
unfolding decode_url span
decoded = refl

abbrev connector : Connection.ConnectionState → Bool → Bool → Connector
connector state on_drop socket_open = record {
  connection = record {
    connection_state = state;
    write_queue = record { queue = []; waiting = 0; resumed = 0 };
    on_drop = on_drop;
    socket_open = socket_open;
  };
  state_cv = record { waiting = 0; resumed = 0 };
  channel_states = [];
  pong_buffer = Single.make;
  subscriptions = [];
}

abbrev pub fresh : Connector
fresh = connector Connection.down false false

abbrev connected : Connector
connected = connector up true true

abbrev lost_tasks : Tasks
lost_tasks = record { read = returned; write = threw; ping_pong = returned }

abbrev lost : System
lost = record { stage = pausing; stopping = false; connector = connector up false true }

abbrev in_session : System
in_session = record { stage = joined all_running; stopping = false; connector = connected }

-- Connected, and then a read error, which ends the session.
begins : Reach serialize parse hmac_hex key (start fresh) in_session
unfolding start announce make_stream
begins =
    next (next here (reconnects parts refl refl decoded)) (connects 1000 true connected refl refl)

loses : Reach serialize parse hmac_hex key in_session lost
unfolding read_state leave join
loses =
    next
      (next
        (next (next here (receives all_running (read_error 1) connected refl refl refl))
          (write_throws _ refl refl))
        (ping_pong_returns _ refl refl))
      (leaves lost_tasks _ refl refl refl)

-- The whole history up to the loss.
begins_and_loses : Reach serialize parse hmac_hex key (start fresh) lost
unfolding read_state leave join
begins_and_loses =
    next
      (next
        (next (next begins (receives all_running (read_error 1) connected refl refl refl))
          (write_throws _ refl refl))
        (ping_pong_returns _ refl refl))
      (leaves lost_tasks _ refl refl refl)

Reach-Off_example : Off lost
Reach-Off_example = Reach-Off serialize parse hmac_hex key fresh lost begins_and_loses refl

Reach-lost_example : (state_of lost.connector ≡ up) × (is_joined lost.stage ≡ false)
Reach-lost_example =
    Reach-lost serialize parse hmac_hex key fresh in_session lost lost all_running begins refl loses
      refl here

pub fresh-Coherent : Coherent fresh
unfolding tally find
fresh-Coherent = record {
  counted = record { unique = tt; exact = λ k. refl; positive = λ k. tt };
  sound = tt;
}

Reach-Coherent_example : Coherent in_session.connector
Reach-Coherent_example =
    Reach-Coherent serialize parse hmac_hex key fresh in_session begins fresh-Coherent
