-- ===== src/Ftx/Session.antt =====
-- The life of one connection: `reconnect` of
-- src/vendor/ftx/ftx_websocket_connector_concept.cpp. The three coroutines that it joins are tasks that
-- end by returning or by throwing.
pub mod Joins
pub mod Reconnect
pub mod Announcing
pub mod Opening
use boost_connector.Base.{
  ℕ, ◌≡◌, Text, codes, Bool, true, false, Option, none, some, ◌>>=◌, List, [], ◌∷◌, if◌then◌else◌,
}
use boost_connector.Async.Queue
use boost_connector.Async.Buffer.Single
use boost_connector.Json.{Value}
use boost_connector.Url.{UrlParts, decode_url}
use boost_connector.Ftx.Connection.{Connection, down, up}
use boost_connector.Ftx.Credentials.{Credentials, WebsocketKey, has_auth, ftx_auth_frame}
use boost_connector.Ftx.Connector.{Connector, ReadResult, read_state, notify_connection_state}
use boost_connector.Ftx.Channels.{ChannelStateMap}

pub data Status : Type 0 where
  running returned threw : Status

pub record Tasks : Type 0 where
  pub read : Status
  pub write : Status
  pub ping_pong : Status

-- `a && b && c` of asio: it throws once one operand has thrown, which cancels the others, and returns once
-- all have returned.
pub data Outcome : Type 0 where
  pending succeeded failed : Outcome

abbrev both : Outcome → Outcome → Outcome
both failed y = failed
both x failed = failed
both pending y = pending
both succeeded y = y

abbrev outcome : Status → Outcome
outcome running = pending
outcome returned = succeeded
outcome threw = failed

unfoldable pub join : Tasks → Outcome
join t = both (both (outcome t.read) (outcome t.write)) (outcome t.ping_pong)

-- How a task that still runs may end. `read_state` returns on a read error, and passes other exceptions
-- on; `ftx_write_state` loops until a write throws; `run_ping_pong` catches what it throws.
pub data Ends : Tasks → Tasks → Type 0 where
  read_returns : (t : Tasks) → t.read ≡ running → Ends t (record t { read = returned })
  read_throws : (t : Tasks) → t.read ≡ running → Ends t (record t { read = threw })
  write_throws : (t : Tasks) → t.write ≡ running → Ends t (record t { write = threw })
  ping_pong_returns :
      (t : Tasks) → t.ping_pong ≡ running → Ends t (record t { ping_pong = returned })

abbrev pub all_running : Tasks
all_running = record { read = running; write = running; ping_pong = running }

-- What stands outside the program: the serialiser, the parser, the HMAC and the system clock.
module _ (serialize : Value → Text) (parse : Text → Option Value)
    (hmac_hex : Text → Text → Text) where
  -- The websocket is there, the buffer of pongs is fresh, and the write queue holds at most the login. The
  -- result of connecting is `connected`: since `websocket_stream_variant::connect` catches every
  -- exception, the code goes on in both cases.
  unfoldable pub prepare : WebsocketKey → ℕ → Bool → Connector → Connector
  prepare args now_ms connected w =
      let q = Queue.clear w.connection.write_queue in
      let q' =
        if has_auth args.auth
        then Queue.push (ftx_auth_frame hmac_hex serialize args.auth now_ms) q
        else q in
      record w {
        connection = record (w.connection) {
          on_drop = true;
          socket_open = connected;
          write_queue = q';
        };
        pong_buffer = Single.make;
      }

  -- `reconnect` up to the join, for a URL that decodes.
  unfoldable pub establish : WebsocketKey → ℕ → Bool → Connector → Option Connector
  unfolding prepare notify_connection_state
  establish args now_ms connected w =
      notify_connection_state serialize parse up (prepare args now_ms connected w)

  abbrev pub no_drop : Connector → Connector
  no_drop w = record w { connection = record (w.connection) { on_drop = false } }

  -- The way out of `reconnect`, by what the join gives; `pending` waits.
  unfoldable pub leave : Outcome → Connector → Option Connector
  unfolding notify_connection_state
  leave pending w = some w
  leave failed w = some (no_drop w)
  leave succeeded w = do w' ← notify_connection_state serialize parse down w; some (no_drop w')

  begin_with :
      Option UrlParts → WebsocketKey → ℕ → Bool → Connector → Option (Option Tasks × Connector)
  unfolding establish
  begin_with none args now_ms connected w = some (none, no_drop w)
  begin_with (some parts) args now_ms connected w = do
    w' ← establish args now_ms connected w
    some (some all_running, w')

  -- The beginning of `reconnect`: the tasks that run, or none where the URL does not decode.
  unfoldable pub begin : WebsocketKey → ℕ → Bool → Connector → Option (Option Tasks × Connector)
  unfolding begin_with decode_url
  begin args now_ms connected w = begin_with (decode_url args.url) args now_ms connected w
