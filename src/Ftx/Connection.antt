-- ===== src/Ftx/Connection.antt =====
-- What a subscription sees of ftx_websocket_connector_concept.hpp: `send`, `is_up` and `drop`. All calls
-- are made on the connector's executor, so they do not overlap.
use boost_connector.Base.{Text, Bool, true, false, if◌then◌else◌}
use boost_connector.Async.Queue.{AsyncQueue}
use boost_connector.Async.Queue

pub data ConnectionState : Type 0 where
  down up : ConnectionState

-- `on_drop` says that the callback is set. It closes the TCP socket of the current websocket.
pub record Connection : Type 0 where
  pub connection_state : ConnectionState
  pub write_queue : AsyncQueue Text
  pub on_drop : Bool
  pub socket_open : Bool

abbrev pub state_is_up : ConnectionState → Bool
state_is_up up = true
state_is_up down = false

unfoldable pub is_up : Connection → Bool
is_up c = state_is_up c.connection_state

unfoldable pub send : Text → Connection → Connection
send payload c = record c { write_queue = Queue.push payload c.write_queue }

unfoldable pub drop : Connection → Connection
drop c = if c.on_drop then record c { on_drop = false; socket_open = false } else c
