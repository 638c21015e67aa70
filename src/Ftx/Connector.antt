-- ===== src/Ftx/Connector.antt =====
-- The connector: src/vendor/ftx/ftx_websocket_connector_concept.cpp and its header under
-- include/boost/connector/vendor/ftx/interface, with the subscriptions that its callbacks reach. `none` is
-- a fault: an assertion that fails, or an empty callback that is called.
use boost_connector.Base.{
  ℕ, ◌+◌, Text, codes, text_eq, Bool, true, false, Option, none, some, ◌>>=◌, List, [], ◌∷◌,
  get_elem?, set, if◌then◌else◌,
}
use boost_connector.Async.Latch.{AsyncLatch}
use boost_connector.Async.Buffer.Waits.{Waits, suspend}
use boost_connector.Async.Buffer.Single
use boost_connector.Async.Buffer.Single.{Single}
use boost_connector.Json.{Value, Fields, if_object, if_string, if_contains}
use boost_connector.Ftx.Event.{
  ChannelMarketPair, ChannelEvent, connection_down, connection_up, response,
}
use boost_connector.Ftx.Connection
use boost_connector.Ftx.Connection.{Connection, ConnectionState, down, up, drop}
use boost_connector.Ftx.Machine.{StateMachine, process_event}
use boost_connector.Ftx.Channels.{ChannelState, ChannelStateMap, find}

-- Where the coroutine `run` of a subscription stands.
pub data Phase : Type 0 where
  -- spawned, and not yet run
  created : Phase
  -- suspended on the stop latch or the channel's timer
  waiting : Phase
  -- the channel's timer has been cancelled for it, and the coroutine is about to go on
  woken : Phase
  -- suspended on the stop latch, with the channel acquired
  holding : Phase
  -- suspended on the closed latch
  closing : Phase
  -- returned after releasing the channel
  finished : Phase
  -- returned while waiting for the channel
  abandoned : Phase

-- `machine.connection` stands for the reference to the connector: it is set when the machine runs.
pub record Subscription : Type 0 where
  pub topic : ChannelMarketPair
  pub phase : Phase
  pub stop_latch : AsyncLatch
  pub machine : StateMachine

pub record Connector : Type 0 where
  pub connection : Connection
  pub state_cv : Waits
  pub channel_states : ChannelStateMap
  pub pong_buffer : Single Value
  pub subscriptions : List Subscription

unfoldable pub is_up : Connector → Bool
is_up w = Connection.is_up w.connection

unfoldable pub send : Text → Connector → Connector
send payload w = record w { connection = Connection.send payload w.connection }

-- `connection_state_cv_.cancel()` resumes every coroutine that waits.
unfoldable pub cancel : Waits → Waits
cancel c = record { waiting = 0; resumed = c.resumed + c.waiting }

-- One turn of the loop of `wait_ready` and of `wait_down`: whether it returns, or suspends.
unfoldable pub wait_ready : Connector → Bool × Connector
unfolding suspend
wait_ready w = if is_up w then (true, w) else (false, record w { state_cv = suspend w.state_cv })

unfoldable pub wait_down : Connector → Bool × Connector
unfolding suspend
wait_down w = if is_up w then (false, record w { state_cv = suspend w.state_cv }) else (true, w)

abbrev pub set_machine : ℕ → Subscription → StateMachine → Connector → Connector
set_machine i s m w = record w {
  connection = m.connection;
  subscriptions = set w.subscriptions i (record s { machine = m });
}

abbrev pub event_of : ConnectionState → ChannelEvent
event_of up = connection_up
event_of down = connection_down

abbrev pub same_state : ConnectionState → ConnectionState → Bool
same_state up up = true
same_state down down = true
same_state _ _ = false

-- The result of `async_read`.
pub data ReadResult : Type 0 where
  read_error : ℕ → ReadResult
  binary : ReadResult
  text : Text → ReadResult

abbrev close_socket : Connector → Connector
close_socket w = record w { connection = record (w.connection) { socket_open = false } }

unfoldable pub frame_index : Fields → Option ChannelMarketPair
frame_index o = do
  channel ← if_contains (codes "channel") o >>= if_string
  market ← if_contains (codes "market") o >>= if_string
  some (record { channel = channel; market = market })

-- A text frame as an object with its type; `none` where the parser or an accessor throws.
unfoldable pub parse_frame : (Text → Option Value) → Text → Option (Value × Fields × Text)
parse_frame parse t = do
  jframe ← parse t
  o ← if_object jframe
  type ← if_contains (codes "type") o
  s ← if_string type
  some (jframe, o, s)

-- `boost::json::serialize` and `boost::json::parse`, which are not part of the program; a text that does
-- not parse gives `none`.
module _ (serialize : Value → Text) (parse : Text → Option Value) where
  -- The call of a channel's `on_event`: the machine runs on the connector's connection.
  unfoldable pub deliver : Option ℕ → ChannelEvent → Connector → Option Connector
  deliver none e w = none
  deliver (some i) e w = do
    s ← get_elem? w.subscriptions i
    m ← process_event serialize e (record s.machine { connection = w.connection })
    some (set_machine i s m w)

  -- The loops over the channels, in the order of the map.
  unfoldable pub notify_channels : ChannelEvent → ChannelStateMap → Connector → Option Connector
  notify_channels e [] w = some w
  notify_channels e ((k, c) ∷ m) w =
      (if c.acquired then deliver c.on_event e w else some w) >>= notify_channels e m

  unfoldable pub notify_connection_state : ConnectionState → Connector → Option Connector
  unfolding notify_channels cancel
  notify_connection_state s w =
      if same_state s w.connection.connection_state
      then none
      else notify_channels (event_of s) w.channel_states (record w {
        connection = record (w.connection) { connection_state = s };
        state_cv = cancel w.state_cv;
      })

  -- The calling of an empty `std::function` is one of the exceptions that close the socket.
  unfoldable pub call_on_event : ChannelState → Value → Connector → Option Connector
  unfolding deliver
  call_on_event c v w = elim c.on_event [
    | none ↦ some (close_socket w)
    | some i ↦ deliver (some i) (response v) w
  ]

  unfoldable pub dispatch_found : Option ChannelState → Value → Connector → Option Connector
  unfolding call_on_event
  dispatch_found none v w = some w
  dispatch_found (some c) v w = if c.acquired then call_on_event c v w else some w

  unfoldable pub dispatch_index : Option ChannelMarketPair → Value → Connector → Option Connector
  unfolding dispatch_found
  dispatch_index none v w = some (close_socket w)
  dispatch_index (some k) v w = dispatch_found (find k w.channel_states) v w

  unfoldable pub dispatch_frame : Option (Value × Fields × Text) → Connector → Option Connector
  unfolding dispatch_index frame_index
  dispatch_frame none w = some (close_socket w)
  dispatch_frame (some (v, o, type)) w =
      if text_eq type (codes "pong")
      then some (record w { pong_buffer = Single.push v w.pong_buffer })
      else dispatch_index (frame_index o) v w

  -- One turn of the loop of `read_state`. After a read error the coroutine returns.
  unfoldable pub read_state : ReadResult → Connector → Option Connector
  unfolding notify_channels dispatch_frame parse_frame
  read_state (read_error ec) w = notify_channels connection_down w.channel_states w
  read_state binary w = some w
  read_state (text t) w = dispatch_frame (parse_frame parse t) w
