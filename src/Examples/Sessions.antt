-- ===== src/Examples/Sessions.antt =====
-- Runs of the life of a connection, and of its pings.
use boost_connector.Base.{ℕ}
use boost_connector.Async.Queue.{cancel_one}
use boost_connector.Ftx.Credentials.{ftx_auth_frame}
use boost_connector.Ftx.Credentials.{has_auth}
use boost_connector.Base.{
  Text, codes, Bool, true, false, Option, none, some, ◌≡◌, ◌≢◌, refl, List, [], ◌∷◌,
}
use boost_connector.Async.Queue
use boost_connector.Async.Queue.{AsyncQueue}
use boost_connector.Async.Buffer.Single
use boost_connector.Json.{Value}
use boost_connector.Ftx.Connection
use boost_connector.Ftx.Credentials.{WebsocketKey}
use boost_connector.Ftx.Connector.{Connector}
use boost_connector.Ftx.Session.{
  Tasks, join, succeeded, threw, running, all_running, establish, leave, write_throws,
}
use boost_connector.Ftx.Session.Joins.{Later, here, next, never_succeeds}
use boost_connector.Ftx.Session.Reconnect.{establish-leave-establish}
use boost_connector.Ftx.PingPong
use boost_connector.Ftx.PingPong.{Signal, pong, timer, awaiting_timer, ping, wake}

abbrev serialize : Value → Text
serialize v = codes "frame"

abbrev parse : Text → Option Value
parse t = none

abbrev hmac_hex : Text → Text → Text
hmac_hex secret message = message

abbrev key : WebsocketKey
key = record {
  url = codes "wss://ftx.com/ws";
  auth = record { subaccount = []; api_key = codes "k"; api_secret = codes "s" };
}

abbrev connector : Connection.ConnectionState → Bool → Bool → List Text → Connector
connector state on_drop socket_open queue = record {
  connection = record {
    connection_state = state;
    write_queue = record { queue = queue; waiting = 0; resumed = 0 };
    on_drop = on_drop;
    socket_open = socket_open;
  };
  state_cv = record { waiting = 0; resumed = 0 };
  channel_states = [];
  pong_buffer = Single.make;
  subscriptions = [];
}

abbrev established : Connector
established = connector Connection.up true true (codes "frame" ∷ [])

abbrev left : Connector
left = connector Connection.up false true (codes "frame" ∷ [])

abbrev write_failed : Tasks
write_failed = record { read = running; write = threw; ping_pong = running }

write_failed-Later : Later all_running write_failed
write_failed-Later = next here (write_throws all_running refl)

write_failed_fails : join write_failed ≢ succeeded
write_failed_fails = never_succeeds write_failed-Later

establishes :
    establish serialize parse hmac_hex key 1000 true (connector Connection.down false false [])
    ≡ some established
unfolding establish has_auth Queue.push Queue.clear ftx_auth_frame
establishes = refl

leaves : leave serialize parse hmac_hex (join write_failed) established ≡ some left
unfolding leave join
leaves = refl

establishes_again : establish serialize parse hmac_hex key 7000 true left ≡ none
establishes_again =
    establish-leave-establish serialize parse hmac_hex key 1000 7000 true true
      (connector Connection.down false false []) established left write_failed establishes
      write_failed-Later leaves

abbrev queue : AsyncQueue Text
queue = record { queue = codes "login" ∷ []; waiting = 0; resumed = 0 }

-- A pong in time, a signal of the timer before its expiry and one after, and the next pong.
abbrev signals : List (ℕ × Signal)
signals = (101, pong) ∷ (110, timer) ∷ (116, timer) ∷ (120, pong) ∷ []

signals-run : PingPong.run signals (PingPong.start 100 queue) ≡ (
  record { next_ping = 130; expires_at = 130; stage = awaiting_timer },
  record queue { queue = codes "login" ∷ ping ∷ ping ∷ [] },
)
unfolding PingPong.run PingPong.start wake Queue.push cancel_one
signals-run = refl
