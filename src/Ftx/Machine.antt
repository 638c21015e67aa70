-- ===== src/Ftx/Machine.antt =====
-- The state machine of a subscription: `upstream_subscription_impl::state_machine` in
-- include/boost/connector/vendor/ftx/upstream_subscription_impl.hpp and
-- src/vendor/ftx/upstream_subscription_impl.cpp. Logging is left out. `none` is an assertion that fails.
pub mod Diagram
pub mod Invariant
pub mod Output
pub mod Closing
use boost_connector.Base.{
  ℕ, Text, codes, text_eq, Bool, true, false, Option, none, some, ◌>>=◌, ◌==◌, if◌then◌else◌,
}
use boost_connector.Async.Latch
use boost_connector.Async.Latch.{AsyncLatch}
use boost_connector.Json.{
  Value, Fields, object, string, field, end, if_object, if_string, if_int64, if_contains,
}
use boost_connector.Ftx.Event.{
  ChannelMarketPair, ChannelEvent, is_down, is_up, is_subscribed, get_response,
}
use boost_connector.Ftx.Connection
use boost_connector.Ftx.Connection.{Connection, send, drop}

-- `open` is a reserved word here.
pub data StateType : Type 0 where
  down opening opened closing closed : StateType

-- The machine with what it refers to: the key of its channel, the connection and the latch.
pub record StateMachine : Type 0 where
  pub topic : ChannelMarketPair
  pub connection : Connection
  pub closed_latch : AsyncLatch
  pub state : StateType
  pub close_requested : Bool

unfoldable pub enter_closed_state : StateMachine → StateMachine
enter_closed_state m = record m { state = closed; closed_latch = Latch.set m.closed_latch }

unfoldable pub drop_connection : StateMachine → StateMachine
drop_connection m = record m { connection = drop m.connection }

is_restart_code : Option ℕ → Bool
is_restart_code none = false
is_restart_code (some n) = n == 20001

unfoldable pub handle_info : Fields → StateMachine → StateMachine
unfolding is_restart_code drop_connection
handle_info o m =
    if is_restart_code (if_contains (codes "code") o >>= if_int64) then drop_connection m else m

-- The handlers of `partial` and `update` only log.
unfoldable pub handle_partial : Fields → StateMachine → StateMachine
handle_partial o m = m

unfoldable pub handle_update : Fields → StateMachine → StateMachine
handle_update o m = m

unfoldable pub handle_error : Fields → StateMachine → StateMachine
unfolding drop_connection
handle_error o m = drop_connection m

-- The object of a response and its type; `none` where an accessor throws.
unfoldable pub typed_response : ChannelEvent → Option (Fields × Text)
typed_response e = do
  v ← get_response e
  o ← if_object v
  type ← if_contains (codes "type") o
  s ← if_string type
  some (o, s)

open_response : Option (Fields × Text) → StateMachine → StateMachine
unfolding handle_info handle_partial handle_update handle_error drop_connection
open_response none m = drop_connection m
open_response (some (o, type)) m =
    if text_eq type (codes "info")
    then handle_info o m
    else if text_eq type (codes "partial")
    then handle_partial o m
    else if text_eq type (codes "update")
    then handle_update o m
    else handle_error o m

unfoldable pub process_open_event : ChannelEvent → StateMachine → StateMachine
unfolding open_response
process_open_event e m =
    if is_down e
    then record m { state = down }
    else if is_up e
    then m
    else open_response (typed_response e) m

closing_response : Option (Fields × Text) → StateMachine → StateMachine
unfolding handle_info handle_partial handle_update handle_error drop_connection enter_closed_state
closing_response none m = drop_connection m
closing_response (some (o, type)) m =
    if text_eq type (codes "info")
    then handle_info o m
    else if text_eq type (codes "partial")
    then handle_partial o m
    else if text_eq type (codes "update")
    then handle_update o m
    else if text_eq type (codes "unsubscribed")
    then enter_closed_state m
    else handle_error o m

unfoldable pub process_closing_event : ChannelEvent → StateMachine → StateMachine
unfolding closing_response enter_closed_state
process_closing_event e m =
    if is_down e
    then enter_closed_state m
    else if is_up e
    then m
    else closing_response (typed_response e) m

-- `assert(!"logic error - event seen when closed")`
unfoldable pub process_closed_event : ChannelEvent → StateMachine → Option StateMachine
process_closed_event e m = none

-- `boost::json::serialize`, which is not part of the program.
module _ (serialize : Value → Text) where
  unfoldable pub make_subscribe_message : Text → ChannelMarketPair → Text
  make_subscribe_message action topic = serialize (
      object (
        field (codes "channel") (string topic.channel)
          (field (codes "market") (string topic.market) (field (codes "op") (string action) end))))

  unfoldable pub enter_closing_state : StateMachine → StateMachine
  enter_closing_state m = record m {
    state = closing;
    connection = send (make_subscribe_message (codes "unsubscribe") m.topic) m.connection;
  }

  close_in : StateType → StateMachine → StateMachine
  unfolding enter_closed_state enter_closing_state
  close_in down m = enter_closed_state m
  close_in opened m = enter_closing_state m
  close_in _ m = m

  unfoldable pub close : StateMachine → StateMachine
  unfolding close_in
  close m = if m.close_requested then m else close_in m.state (record m { close_requested = true })

  unfoldable pub process_down_event : ChannelEvent → StateMachine → Option StateMachine
  unfolding drop_connection
  process_down_event e m =
      if is_up e
      then (if Connection.is_up m.connection
          then some (record m {
            state = opening;
            connection = send (make_subscribe_message (codes "subscribe") m.topic) m.connection;
          })
          else none)
      else some (drop_connection m)

  unfoldable pub process_opening_event : ChannelEvent → StateMachine → StateMachine
  unfolding drop_connection enter_closing_state
  process_opening_event e m =
      if is_down e
      then record m { state = down }
      else if is_subscribed e
      then (if m.close_requested then enter_closing_state m else record m { state = opened })
      else drop_connection m

  process_in : StateType → ChannelEvent → StateMachine → Option StateMachine
  unfolding process_down_event process_opening_event process_open_event process_closing_event
      process_closed_event
  process_in down e m = process_down_event e m
  process_in opening e m = some (process_opening_event e m)
  process_in opened e m = some (process_open_event e m)
  process_in closing e m = some (process_closing_event e m)
  process_in closed e m = process_closed_event e m

  unfoldable pub process_event : ChannelEvent → StateMachine → Option StateMachine
  unfolding process_in
  process_event e m = process_in m.state e m
