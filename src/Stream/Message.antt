-- ===== src/Stream/Message.antt =====
-- A message of the websocket, its reading and its printing: src/util/websocket_message.cpp, and
-- src/util/websocket_stream_variant.cpp with its header under include/boost/connector/util.
use boost_connector.Base.{
  ℕ, Text, codes, Bool, false, Option, none, some, [], ◌++◌, ◌==◌, length, if◌then◌else◌, ◌≡◌, ◌↔◌,
  arith,
}
use boost_connector.Ftx.Credentials.{to_string}
use boost_connector.Ftx.Connector.{ReadResult, read_error, binary, text}

pub record WebsocketMessage : Type 0 where
  pub buf : Text
  pub is_binary : Bool

unfoldable pub make : WebsocketMessage
make = record { buf = []; is_binary = false }

unfoldable pub as_string : WebsocketMessage → Text
as_string m = m.buf

unfoldable pub set_binary : Bool → WebsocketMessage → WebsocketMessage
set_binary b m = record m { is_binary = b }

-- What `async_read` of the library gives: an error code, 0 for none, the bytes that it has put into the
-- buffer, and what `got_binary` says afterwards.
pub record Received : Type 0 where
  pub ec : ℕ
  pub data_ : Text
  pub got_binary : Bool

abbrev filled : Received → WebsocketMessage
filled r = record { buf = r.data_; is_binary = false }

-- `none` is the exception.
unfoldable pub read : Received → Option WebsocketMessage
unfolding set_binary
read r = if r.ec == 0 then some (set_binary r.got_binary (filled r)) else none

unfoldable pub async_read : Received → ℕ × WebsocketMessage
unfolding set_binary
async_read r = (r.ec, if r.ec == 0 then set_binary r.got_binary (filled r) else filled r)

-- The branches of `read_state` on what `async_read` gives.
unfoldable pub read_result : ℕ × WebsocketMessage → ReadResult
unfolding as_string
read_result (ec, m) =
    if ec == 0 then (if m.is_binary then binary else text (as_string m)) else read_error ec

unfoldable pub print : WebsocketMessage → Text
unfolding as_string to_string
print m =
    if m.is_binary
    then codes "[binary length=" ++ to_string (length (as_string m)) ++ codes "]"
    else codes "[text " ++ as_string m ++ codes "]"

-- The two ways of reading agree: `read` gives a message exactly where `async_read` gives it without an error.
pub read-async_read :
    (r : Received) (m : WebsocketMessage) → (read r ≡ some m) ↔ (async_read r ≡ (0, m))
unfolding read async_read
read-async_read r m = ground arith
