-- ===== src/Ftx/Machine/Invariant.antt =====
-- What holds of a subscription's machine between two calls.
use boost_connector.Base.{Text, Bool, true, false, not, some, ◌≡◌, arith}
use boost_connector.Async.Latch.{is_set}
use boost_connector.Async.Latch
use boost_connector.Json.{Value}
use boost_connector.Ftx.Event.{ChannelEvent}
use boost_connector.Ftx.Machine.{
  StateMachine, StateType, opened, closing, closed, close, process_event,
}

abbrev pub is_closed : StateType → Bool
is_closed closed = true
is_closed _ = false

-- Whether a machine in a state may have been asked to close, or not.
abbrev pub admits : StateType → Bool → Bool
admits opened requested = not requested
admits closing requested = requested
admits closed requested = requested
admits _ _ = true

-- The latch that ends the coroutine is set in the closed state alone, which is reached on request only,
-- and an open machine has not been asked to close.
pub record Inv (m : StateMachine) : Type 0 where
  pub latched : is_set m.closed_latch ≡ is_closed m.state
  pub requested : admits m.state m.close_requested ≡ true

module _ (serialize : Value → Text) where
  -- A call of `close` keeps the invariant of a machine, whatever its state.
  pub close-Inv : (m : StateMachine) → Inv m → Inv (close serialize m)
  unfolding close is_set Latch.set
  close-Inv m v = ground arith

  -- An event that a machine accepts keeps its invariant, whatever its state.
  pub process_event-Inv :
      (e : ChannelEvent) (m m' : StateMachine)
      → process_event serialize e m ≡ some m'
      → Inv m
      → Inv m'
  unfolding process_event is_set Latch.set
  process_event-Inv e m m' h v = ground arith
