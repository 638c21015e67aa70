-- ===== src/Ftx/Machine/Output.antt =====
-- What a subscription's machine sends, and when one of its assertions fails.
use mathlib.Core.List.{append-nil}
use boost_connector.Base.{
  Text, codes, true, false, none, some, ◌≡◌, ◌⊎◌, arith, List, [], ◌∷◌, ◌++◌, ◌↔◌,
}
use boost_connector.Async.Queue
use boost_connector.Json.{Value}
use boost_connector.Ftx.Event.{ChannelMarketPair, ChannelEvent, is_up}
use boost_connector.Ftx.Connection
use boost_connector.Ftx.Connection.{send, drop}
use boost_connector.Ftx.Machine.{
  StateMachine, StateType, down, opening, opened, closing, closed, close, process_event,
  make_subscribe_message,
}

module _ (serialize : Value → Text) where
  -- The messages that belong to a change of state.
  abbrev pub messages : ChannelMarketPair → StateType → StateType → List Text
  messages topic down opening = make_subscribe_message serialize (codes "subscribe") topic ∷ []
  messages topic opening closing = make_subscribe_message serialize (codes "unsubscribe") topic ∷ []
  messages topic opened closing = make_subscribe_message serialize (codes "unsubscribe") topic ∷ []
  messages topic _ _ = []

  abbrev pub Sends : StateMachine → StateMachine → Type 0
  Sends m m' =
      (m'.connection.write_queue.queue
        ≡ m.connection.write_queue.queue ++ messages m.topic m.state m'.state)
      × (m'.topic ≡ m.topic)
      × (m'.connection.connection_state ≡ m.connection.connection_state)

  -- An accepted event appends the message of the change of state to the write queue, and nothing else:
  -- one `subscribe` on the way from down to opening, one `unsubscribe` on the way to closing. The topic
  -- and the connection's state stay.
  pub process_event-Sends :
      (e : ChannelEvent) (m m' : StateMachine) → process_event serialize e m ≡ some m' → Sends m m'
  unfolding process_event send Queue.push drop
  process_event-Sends e m m' h = ground (arith, append-nil m.connection.write_queue.queue)

  -- A call of `close` appends the message of the change of state to the write queue, and nothing else: one
  -- `unsubscribe` where the machine goes from open to closing. The topic and the connection's state stay.
  pub close-Sends : (m : StateMachine) → Sends m (close serialize m)
  unfolding close send Queue.push
  close-Sends m = ground (arith, append-nil m.connection.write_queue.queue)

  -- An assertion fails exactly on an event in the closed state, and on an `up` in the down state while
  -- the connector does not say that it is up.
  pub process_event-none :
      (e : ChannelEvent) (m : StateMachine)
      → (process_event serialize e m ≡ none) ↔ (
          (m.state ≡ closed)
          ⊎ ((m.state ≡ down) × (is_up e ≡ true) × (Connection.is_up m.connection ≡ false)))
  unfolding process_event
  process_event-none e m = ground arith
