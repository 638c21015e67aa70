-- ===== src/Ftx/Handle.antt =====
-- The handle of a connector: src/vendor/ftx/websocket_connector.cpp. It holds a lifetime pointer, or an
-- empty one after it was moved from; `none` is an assertion that fails.
use boost_connector.Base.{Text, Bool, Option, some, ◌>>=◌}
use boost_connector.Ftx.Connection.{drop}
use boost_connector.Ftx.Connector
use boost_connector.Ftx.Connector.{Connector}

pub record WebsocketConnector : Type 0 where
  pub lifetime : Option Connector

-- `get_impl`, and the assertion of every other function.
unfoldable pub get_impl : WebsocketConnector → Option Connector
get_impl h = h.lifetime

abbrev with_impl : Connector → WebsocketConnector
with_impl w = record { lifetime = some w }

unfoldable pub drop_connection : WebsocketConnector → Option WebsocketConnector
unfolding get_impl
drop_connection h = do
  w ← get_impl h
  some (with_impl (record w { connection = drop w.connection }))

unfoldable pub send : Text → WebsocketConnector → Option WebsocketConnector
unfolding get_impl Connector.send
send payload h = do w ← get_impl h; some (with_impl (Connector.send payload w))

-- Whether the wait returns at once, and the handle.
unfoldable pub wait_ready : WebsocketConnector → Option (Bool × WebsocketConnector)
unfolding get_impl Connector.wait_ready
wait_ready h = do
  w ← get_impl h
  let (returned, w') = Connector.wait_ready w
  some (returned, with_impl w')

unfoldable pub wait_down : WebsocketConnector → Option (Bool × WebsocketConnector)
unfolding get_impl Connector.wait_down
wait_down h = do
  w ← get_impl h
  let (returned, w') = Connector.wait_down w
  some (returned, with_impl w')

unfoldable pub get_executor : {E : Type 0} → (Connector → E) → WebsocketConnector → Option E
unfolding get_impl
get_executor executor h = do w ← get_impl h; some (executor w)
