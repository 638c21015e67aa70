-- ===== src/Ftx.antt =====
-- The connector to the FTX venue: include/boost/connector/vendor/ftx and src/vendor/ftx.
pub mod Event
pub mod Connection
pub mod Machine
pub mod Channels
pub mod Connector
pub mod Subscription
pub mod Credentials
pub mod PingPong
pub mod Session
pub mod Life
pub mod Handle
pub mod OrderBook
