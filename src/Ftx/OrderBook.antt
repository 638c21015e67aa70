-- ===== src/Ftx/OrderBook.antt =====
-- The order book: src/vendor/ftx/order_book_impl.cpp, with the handle of src/order_book.cpp.
pub mod Unsubscription
pub mod Handles
use boost_connector.Base.{
  ℕ, Text, codes, text_eq, Bool, true, false, Option, none, some, ◌>>=◌, List, [], ◌∷◌,
  if◌then◌else◌,
}
use boost_connector.Json.{Value, Fields, if_object, if_string, if_contains}
use boost_connector.Ftx.Event.{ChannelMarketPair}
use boost_connector.Ftx.Connection.{Connection}
use boost_connector.Ftx.Connector.{Subscription}
use boost_connector.Ftx.Subscription

unfoldable pub topic_of : Text → ChannelMarketPair
topic_of market = record { channel = codes "orderbook"; market = market }

-- The constructor of `order_book_impl`, whose base class is the subscription.
unfoldable pub make : Text → Connection → Subscription
unfolding topic_of Subscription.make
make market c = Subscription.make (topic_of market) c

-- What `wait_down() || pop()` gives.
pub data Wake : Type 0 where
  went_down : Wake
  popped : Value → Wake

-- `none` where an accessor throws.
unfoldable pub frame_type : Value → Option Text
frame_type v = do o ← if_object v; type ← if_contains (codes "type") o; if_string type

-- The loop over what wakes the coroutine: whether it has returned, and what it has not taken. An exception
-- is caught, and ends it too.
unfoldable pub wait_for_unsub_confirmation : List Wake → Bool × List Wake
unfolding frame_type
wait_for_unsub_confirmation [] = (false, [])
wait_for_unsub_confirmation (went_down ∷ ws) = (true, ws)
wait_for_unsub_confirmation (popped v ∷ ws) =
    let rest = wait_for_unsub_confirmation ws in
    elim (frame_type v) [
      | none ↦ (true, ws)
      | some type ↦ if text_eq type (codes "unsubscribed") then (true, ws) else rest
    ]
