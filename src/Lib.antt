-- ===== src/Lib.antt =====
-- A verification library for boost_connector, a C++ library that keeps connections to trading venues and
-- hands the entities that stand on them to their clients.
--
-- The program has three layers. At the bottom are data: documents and the paths into them
-- (src/jsonext.cpp), keys of entities (src/entity), property and dependency maps, snapshots, and the
-- price ladder (src/types). In the middle are the asynchronous primitives: a latch, a queue and a
-- circular buffer, each a container with a timer as its condition variable (src/util and
-- include/boost/connector/util). On top is the connector to the FTX venue (src/vendor/ftx): one coroutine
-- connects, logs in and then joins a reader, a writer and a ping pong; subscriptions share its channels,
-- each meant for one holder at a time, and each holder runs a state machine on the events that the
-- connector hands to it.
--
-- Files and the code that they model:
--   Async/Latch       src/util/async_latch.cpp, its class under include/boost/connector/util
--   Async/Queue       include/boost/connector/util/async_queue.hpp
--   Async/Buffer      include/boost/connector/util/async_circular_buffer.hpp: Circular is the general
--                     template, Single the specialisation, Waits their condition variable
--   Json              the values of boost::json with the accessors that are called; Json/Path, Json/Find
--                     and Json/Digest are the three parts of src/jsonext.cpp
--   Keys              src/entity/key_base.cpp, mutable_key.cpp and immutable_key.cpp; Printing: operator<<
--   Entity            Key: src/entity/entity_key.cpp and its header; Lifetime:
--                     include/boost/connector/entity/lifetime_ptr.hpp; Snapshot:
--                     src/snapshot/snapshot.cpp; Sha256Digest: src/sha256_digest.cpp; Context:
--                     include/boost/connector/entity/entity_cache.hpp
--   Property          Value: src/property_value.cpp and its header; Map: property_map.hpp; Dependency:
--                     src/dependency/dependency_map.cpp
--   Url               src/util/url.cpp; Url/Match is its regular expression
--   Ladder            src/types/bid_ladder.cpp
--   Ftx/Event         channel_event.hpp and channel_market_pair.hpp of include/boost/connector/vendor/ftx
--   Ftx/Connection    what a subscription sees of the connector: send, drop, is_up
--   Ftx/Machine       the state machine of src/vendor/ftx/upstream_subscription_impl.cpp, a function for
--                     each handler
--   Ftx/Channels      channel_state.hpp, locate_channel and release_channel
--   Ftx/Connector     read_state, notify_connection_state and the waits of
--                     src/vendor/ftx/ftx_websocket_connector_concept.cpp
--   Ftx/Subscription  run, start and stop of src/vendor/ftx/upstream_subscription_impl.cpp, and the actions
--                     that the executor chooses from; Tally counts the subscriptions of a topic, Accounting
--                     is about the count of interest, Exclusion about who holds a channel, Machines about
--                     the machines, Races about two holders of one channel, Protocol is the specification
--                     of how subscriptions share channels, Wiring about whom a channel's events reach,
--                     Handover about the next holder, Ending about the
--                     way from a stop to it
--   Ftx/Session       reconnect; Opening: reconnect over the websocket; Ftx/Credentials: the login;
--                     Announcing: the news that the connector is up;
--                     Ftx/PingPong: src/vendor/ftx/detail/ping_pong.cpp
--   Ftx/Life          run, start and stop of the connector, as a step relation of the whole system
--   Ftx/Handle        src/vendor/ftx/websocket_connector.cpp
--   Ftx/OrderBook     src/vendor/ftx/order_book_impl.cpp and src/order_book.cpp
--   Stream            src/util/websocket_stream_variant.cpp: Race is the race for a connection, Connect the
--                     handshakes, Message the reading, with src/util/websocket_message.cpp
--   Util              Describe and Enumerators: describe_operators.hpp, equals.hpp and hash_value.hpp of
--                     include/boost/connector/util; Executor: src/util/check_executor.cpp; Timestamp:
--                     include/boost/connector/types/timestamp.hpp
--   AnySet            the sets of values by type of example/spot-book/main.cpp
--   Base              lists, texts, tests and dictionaries that the others share
--   Examples          the theorems at concrete inputs, and runs of the definitions
--
-- State is passed explicitly. A coroutine is the place where it is suspended, and one turn of it is a
-- function; the executor is the order of a list of actions, since the connector and its subscriptions run on
-- one executor and never overlap. An exception or a failed assertion is `none`. Machine integers occur as
-- 64-bit values of JSON numbers, of which the bytes are taken, and in `strtoul`, with its clamping and its
-- wrap-around; the interest of a channel is counted without a bound. Doubles are compared by parameters
-- with the laws of an order, which NaN does not obey.
--
-- Fuel: `dissect` has one round for each character, and any more gives the same; `trim` has one for each
-- level; `digits` one more than the number. All else is by structure.
--
-- `std::lower_bound` is a scan from the front: its contract gives that place on levels in order, as `set` keeps
-- them. The clock of the pings is the time of each signal: a wait on a timer is done at its expiry or later.
--
-- Parameters stand for the serialiser and the parser of boost::json, SHA-256, HMAC, the clock, the
-- equality and hash of contained types, and the order of prices.
--
-- The network is a record of answers: of the resolver, of each endpoint with the time that its attempt
-- takes, and of the handshakes. `a || b` of asio gives the first operand that succeeds, and `a && b` ends with
-- the first that fails. Every operation is answered: the code sets no time limit on connecting, and a peer
-- that never answers keeps `connect` waiting. The stop signal is a flag of the system: once it is set, each
-- further wait of `run` throws, as asio's coroutines do after a cancellation.
--
-- Not modelled: logging; write and get_executor of the websocket, which pass on a call; the entity cache,
-- which is declared only; async_void and hash_any; the mains of the examples, which are scripts of calls.
mod Base
pub mod Async
pub mod Json
pub mod Keys
pub mod Entity
pub mod Property
pub mod Stream
pub mod AnySet
pub mod Util
pub mod Url
pub mod Ladder
pub mod Ftx
mod Examples
