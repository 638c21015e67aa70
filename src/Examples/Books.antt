-- ===== src/Examples/Books.antt =====
-- Runs of the order book.
use boost_connector.Base.{codes, false, ◌≡◌, refl, List, [], ◌∷◌}
use boost_connector.Async.Latch
use boost_connector.Async.Latch.{is_set}
use boost_connector.Async.Buffer.Single
use boost_connector.Json.{null}
use boost_connector.Entity.Lifetime.{Implementation, copies, resets, make_lifetime_ptr}
use boost_connector.Ftx.Connection
use boost_connector.Ftx.Connector.{Connector}
use boost_connector.Ftx.OrderBook
use boost_connector.Ftx.OrderBook.{Wake, went_down, popped, wait_for_unsub_confirmation}
use boost_connector.Ftx.OrderBook.Unsubscription.{any_ends, wait_for_unsub_confirmation-any_ends}
use boost_connector.Ftx.OrderBook.Handles.{run_books, StopsWithLast, run_books-make_lifetime_ptr}

abbrev pending : List Wake
pending = popped null ∷ went_down ∷ []

wait_for_unsub_confirmation-any_ends_example :
    (wait_for_unsub_confirmation pending).0 ≡ any_ends pending
wait_for_unsub_confirmation-any_ends_example = wait_for_unsub_confirmation-any_ends pending

abbrev connection : Connection.Connection
connection = record {
  connection_state = Connection.down;
  write_queue = record { queue = []; waiting = 0; resumed = 0 };
  on_drop = false;
  socket_open = false;
}

abbrev connector : Connector
connector = record {
  connection = connection;
  state_cv = record { waiting = 0; resumed = 0 };
  channel_states = [];
  pong_buffer = Single.make;
  subscriptions = OrderBook.make (codes "BTC/USD") connection ∷ [];
}

abbrev implementation : Implementation
implementation = record { started = 0; stopped = 0 }

unset : is_set (OrderBook.make (codes "BTC/USD") connection).stop_latch ≡ false
unfolding OrderBook.make is_set Latch.make
unset = refl

run_books-make_lifetime_ptr_example : StopsWithLast (
    run_books (copies ∷ resets ∷ resets ∷ []) (record {
      lifetime = make_lifetime_ptr false implementation;
      index = 0;
      connector = connector;
    }))
run_books-make_lifetime_ptr_example =
    run_books-make_lifetime_ptr (copies ∷ resets ∷ resets ∷ []) implementation 0 connector
      (OrderBook.make (codes "BTC/USD") connection) refl unset
