-- ===== src/Examples/Machines.antt =====
-- Runs of the state machine of a subscription, src/vendor/ftx/upstream_subscription_impl.cpp.
use boost_connector.Ftx.Event.{is_down}
use boost_connector.Base.{Text, codes, true, false, none, some, ◌≡◌, ◌↔◌, ◌⊎◌, inl, refl, [], ◌∷◌}
use boost_connector.Async.Latch
use boost_connector.Async.Latch.{is_set}
use boost_connector.Async.Queue
use boost_connector.Json.{Value, string, object, field, end}
use boost_connector.Ftx.Event.{
  ChannelMarketPair, ChannelEvent, connection_down, connection_up, response, is_subscribed, is_up,
}
use boost_connector.Ftx.Connection
use boost_connector.Ftx.Connection.{Connection}
use boost_connector.Ftx.Machine
use boost_connector.Ftx.Machine.{
  StateMachine, StateType, process_event, close, opening, opened, closing, closed,
}
use boost_connector.Ftx.Machine.Diagram.{Edge, process_event-Edge}
use boost_connector.Ftx.Machine.Invariant.{Inv, close-Inv, process_event-Inv}
use boost_connector.Ftx.Machine.Output.{Sends, process_event-Sends, close-Sends, process_event-none}
use boost_connector.Ftx.Machine.Closing.{feed, close-completes}

abbrev topic : ChannelMarketPair
topic = record { channel = codes "orderbook"; market = codes "BTC/USD" }

-- A stand-in for the serialiser.
abbrev serialize : Value → Text
serialize v = codes "frame"

abbrev online : Connection
online = record {
  connection_state = Connection.up;
  write_queue = record { queue = []; waiting = 0; resumed = 0 };
  on_drop = true;
  socket_open = true;
}

abbrev machine : StateType → StateMachine
machine s = record {
  topic = topic;
  connection = online;
  closed_latch = Latch.make false;
  state = s;
  close_requested = false;
}

abbrev typed : Text → ChannelEvent
typed t = response (object (field (codes "type") (string t) end))

opening-Inv : Inv (machine opening)
unfolding is_set Latch.make
opening-Inv = record { latched = refl; requested = refl }

subscribed : is_subscribed (typed (codes "subscribed")) ≡ true
unfolding is_subscribed
subscribed = refl

close-completes_example :
    (m' : StateMachine) × (feed serialize
        (typed (codes "subscribed") ∷ connection_down ∷ [])
        (close serialize (machine opening))
      ≡ some m')
    × (m'.state ≡ closed)
    × (is_set m'.closed_latch ≡ true)
close-completes_example =
    close-completes serialize (typed (codes "subscribed")) connection_down (machine opening)
      opening-Inv refl subscribed (inl refl)

confirms :
    process_event serialize (typed (codes "subscribed")) (machine opening) ≡ some (machine opened)
unfolding process_event is_down is_subscribed
confirms = refl

process_event-Edge_example : Edge (typed (codes "subscribed")) opening opened
process_event-Edge_example =
    process_event-Edge serialize (typed (codes "subscribed")) (machine opening) (machine opened)
      confirms

opened-Inv : Inv (machine opened)
opened-Inv =
    process_event-Inv serialize (typed (codes "subscribed")) (machine opening) (machine opened)
      confirms opening-Inv

close_sound : Inv (close serialize (machine opening))
close_sound = close-Inv serialize (machine opening) opening-Inv

abbrev subscribing : StateMachine
subscribing = record (machine opening) {
  connection = record online {
    write_queue = record { queue = codes "frame" ∷ []; waiting = 0; resumed = 0 };
  };
}

subscribes : process_event serialize connection_up (machine Machine.down) ≡ some subscribing
unfolding process_event is_up Connection.is_up Connection.send Queue.push
    Machine.make_subscribe_message
subscribes = refl

process_event-Sends_example : Sends serialize (machine Machine.down) subscribing
process_event-Sends_example =
    process_event-Sends serialize connection_up (machine Machine.down) subscribing subscribes

opened-Sends : Sends serialize (machine opened) (close serialize (machine opened))
opened-Sends = close-Sends serialize (machine opened)

closed-none : (process_event serialize connection_up (machine closed) ≡ none) ↔ (
    (closed ≡ closed)
    ⊎ ((closed ≡ Machine.down) × (is_up connection_up ≡ true) × (Connection.is_up online ≡ false)))
closed-none = process_event-none serialize connection_up (machine closed)
