-- ===== src/Ftx/Life.antt =====
-- A connector with its coroutine `run`: `start`, `stop`, `run` and `reconnect` of
-- src/vendor/ftx/ftx_websocket_connector_concept.cpp, together with the subscriptions. What happens next
-- is chosen by the network, the timers and the program that uses the connector.
pub mod Tied
pub mod Callback
pub mod History
pub mod Lost
pub mod Accounts
pub mod Protocol
pub mod Delivery
use boost_connector.Base.{
  ℕ, Text, [], Bool, true, false, Option, none, some, ◌≡◌, ◌&&◌, if◌then◌else◌,
}
use boost_connector.Async.Queue
use boost_connector.Async.Buffer.Single
use boost_connector.Json.{Value}
use boost_connector.Url.{UrlParts, decode_url}
use boost_connector.Ftx.Connection.{Connection, up, down}
use boost_connector.Ftx.Credentials.{WebsocketKey, has_auth, ftx_auth_frame}
use boost_connector.Ftx.Connector.{
  Connector, ReadResult, read_error, binary, text, read_state, notify_connection_state,
}
use boost_connector.Ftx.Session.{
  Status, running, returned, threw, Tasks, Outcome, join, all_running, leave, failed,
}
use boost_connector.Ftx.Subscription.{Action, starts, stops, resumes, reads, notifies, drops}
use boost_connector.Ftx.Subscription

-- Where `run` stands. `exited` is its end by an exception.
pub data Stage : Type 0 where
  -- about to call `reconnect`
  idle : Stage
  -- in `connect` of the websocket
  connecting : Stage
  -- in the join of the three coroutines
  joined : Tasks → Stage
  -- in the wait of five seconds
  pausing : Stage
  exited : Stage

-- `stopping` says that the stop signal has been emitted: it is the cancellation state of the coroutine,
-- which makes each further wait throw.
pub record System : Type 0 where
  pub stage : Stage
  pub stopping : Bool
  pub connector : Connector

-- The constructor, and the initialisers of the members.
unfoldable pub make : Connector
unfolding Queue.make Single.make
make = record {
  connection = record {
    connection_state = down;
    write_queue = Queue.make;
    on_drop = false;
    socket_open = false;
  };
  state_cv = record { waiting = 0; resumed = 0 };
  channel_states = [];
  pong_buffer = Single.make;
  subscriptions = [];
}

unfoldable pub start : Connector → System
start w = record { stage = idle; stopping = false; connector = w }

unfoldable pub stop : System → System
stop s = record s { stopping = true }

-- The websocket is there, and the callback that refers to it.
unfoldable pub make_stream : Connector → Connector
make_stream w = record w {
  connection = record (w.connection) { on_drop = true; socket_open = false };
}

abbrev pub forget_stream : Connector → Connector
forget_stream w = record w { connection = record (w.connection) { on_drop = false } }

-- A read error ends the coroutine `read_state`.
abbrev pub after_read : ReadResult → Tasks → Tasks
after_read (read_error ec) t = record t { read = returned }
after_read binary t = t
after_read (text s) t = t

abbrev has_ended : Status → Bool
has_ended running = false
has_ended returned = true
has_ended threw = true

-- The join completes after its three coroutines have.
abbrev pub all_ended : Tasks → Bool
all_ended t = has_ended t.read && (has_ended t.write && has_ended t.ping_pong)

-- What the users of the connector and the executor do, apart from `run`.
abbrev pub is_users : Action → Bool
is_users (reads r) = false
is_users (notifies s) = false
is_users _ = true

abbrev move_to : Stage → System → Connector → System
move_to g s w = record s { stage = g; connector = w }

module _ (serialize : Value → Text) (parse : Text → Option Value)
    (hmac_hex : Text → Text → Text) where
  -- `reconnect` from the return of `connect`: the buffer of pongs is fresh, and the write queue holds at most
  -- the login.
  unfoldable pub renew : WebsocketKey → ℕ → Bool → Connector → Connector
  unfolding Queue.push Queue.clear has_auth ftx_auth_frame
  renew args now_ms connected w =
      let q = Queue.clear w.connection.write_queue in
      let q' =
        if has_auth args.auth
        then Queue.push (ftx_auth_frame hmac_hex serialize args.auth now_ms) q
        else q in
      record w {
        connection = record (w.connection) { socket_open = connected; write_queue = q' };
        pong_buffer = Single.make;
      }

  unfoldable pub announce : WebsocketKey → ℕ → Bool → Connector → Option Connector
  unfolding renew notify_connection_state
  announce args now_ms connected w =
      notify_connection_state serialize parse up (renew args now_ms connected w)

  -- After a stop the join throws at once.
  abbrev pub joins : Bool → Stage
  joins true = pausing
  joins false = joined all_running

  abbrev pub after_announce : Bool → Connector → Connector
  after_announce true w = forget_stream w
  after_announce false w = w

  -- One step of the system; a fault has none.
  pub data Step (args : WebsocketKey) (s : System) : System → Type 0 where
    reconnects :
        (parts : UrlParts)
        → s.stage ≡ idle
        → s.stopping ≡ false
        → decode_url args.url ≡ some parts
        → Step args s (move_to connecting s (make_stream s.connector))
    refuses :
        s.stage ≡ idle
        → s.stopping ≡ false
        → decode_url args.url ≡ none
        → Step args s (move_to pausing s (forget_stream s.connector))
    connects :
        (now_ms : ℕ) (connected : Bool) (w : Connector)
        → s.stage ≡ connecting
        → announce args now_ms connected s.connector ≡ some w
        → Step args s (move_to (joins s.stopping) s (after_announce s.stopping w))
    receives :
        (t : Tasks) (r : ReadResult) (w : Connector)
        → s.stage ≡ joined t
        → t.read ≡ running
        → read_state serialize parse r s.connector ≡ some w
        → Step args s (move_to (joined (after_read r t)) s w)
    read_throws :
        (t : Tasks)
        → s.stage ≡ joined t
        → t.read ≡ running
        → Step args s (record s { stage = joined (record t { read = threw }) })
    write_throws :
        (t : Tasks)
        → s.stage ≡ joined t
        → t.write ≡ running
        → Step args s (record s { stage = joined (record t { write = threw }) })
    ping_pong_returns :
        (t : Tasks)
        → s.stage ≡ joined t
        → t.ping_pong ≡ running
        → Step args s (record s { stage = joined (record t { ping_pong = returned }) })
    leaves :
        (t : Tasks) (w : Connector)
        → s.stage ≡ joined t
        → all_ended t ≡ true
        → leave serialize parse hmac_hex (join t) s.connector ≡ some w
        → Step args s (move_to pausing s w)
    expires : s.stage ≡ pausing → s.stopping ≡ false → Step args s (record s { stage = idle })
    exits_pause : s.stage ≡ pausing → s.stopping ≡ true → Step args s (record s { stage = exited })
    exits_idle : s.stage ≡ idle → s.stopping ≡ true → Step args s (record s { stage = exited })
    stopped : Step args s (stop s)
    acts :
        (a : Action) (w : Connector)
        → is_users a ≡ true
        → Subscription.step serialize parse a s.connector ≡ some w
        → Step args s (record s { connector = w })

  pub data Reach (args : WebsocketKey) (s : System) : System → Type 0 where
    here : Reach args s s
    next : {u v : System} → Reach args s u → Step args u v → Reach args s v
