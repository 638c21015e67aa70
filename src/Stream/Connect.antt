-- ===== src/Stream/Connect.antt =====
-- `connect` of the websocket with `tls_handshake`: src/util/websocket_stream_variant.cpp. What a function
-- returns carries the stream as it is left, since an exception does not undo what was done. Each
-- operation of the network is one that completes, with a result or an exception.
pub mod Reached
use boost_connector.Base.{
  ℕ, Text, Bool, true, false, Option, none, some, ◌>>=◌, List, [], ◌∷◌, if◌then◌else◌,
}
use boost_connector.Stream.{
  Result, returns, throws, TcpTransportLayer, TlsTransportLayer, Variant, ws, wss, is_tls,
  replace_tcp, Network,
}
use boost_connector.Stream.Race.{Finish, connect_one}

abbrev pub set_open : {E : Type 0} → Variant E → Variant E
set_open (ws s) = ws (record s { is_open = true })
set_open (wss s) = wss (record s { is_open = true })

-- `get<wss_transport_layer>` of a stream, where the precondition holds.
abbrev pub set_tls : {E : Type 0} → TlsTransportLayer E → Variant E → Variant E
set_tls t (ws s) = ws s
set_tls t (wss s) = wss (record s { next_layer = t })

abbrev pub Outcome : Type 0 → Type 0
Outcome E = Result Unit × Variant E

-- The next step of a function, if the one before has not thrown.
abbrev pub and_then : {E : Type 0} → Outcome E → (Variant E → Outcome E) → Outcome E
and_then (returns u, v) f = f v
and_then (throws x, v) f = (throws x, v)

module _ {E : Type 0} (net : Network E) where
  abbrev secure : Text → TlsTransportLayer E → Variant E → Outcome E
  secure host t v = elim (net.tls_accepts t) [
    | returns u ↦ (returns tt, set_tls (record t { is_secured = true }) v)
    | throws x ↦ (throws x, set_tls t v)
  ]

  abbrev handshake_layer : Text → TlsTransportLayer E → Variant E → Outcome E
  handshake_layer host t v =
      if net.set_host_name host
      then secure host (record t { host_name = some host }) v
      else (throws net.ssl_error, v)

  -- The precondition is that the stream has a TLS layer.
  unfoldable pub tls_handshake : Text → Variant E → Outcome E
  tls_handshake host (ws s) = (returns tt, ws s)
  tls_handshake host (wss s) = handshake_layer host s.next_layer (wss s)

  unfoldable pub ws_handshake : Text → Text → Variant E → Outcome E
  ws_handshake host target v = elim (net.ws_accepts host target v) [
    | returns u ↦ (returns tt, set_open v)
    | throws x ↦ (throws x, v)
  ]

  -- From the connected socket on.
  unfoldable pub upgrade : Text → Text → Variant E → Outcome E
  unfolding tls_handshake ws_handshake
  upgrade host target v =
      and_then (if is_tls v then tls_handshake host v else (returns tt, v))
        (λ v'. ws_handshake host target v')

  abbrev pub with_socket : Text → Text → Variant E → Result (TcpTransportLayer E) → Outcome E
  with_socket host target v (returns t) = upgrade host target (replace_tcp t v)
  with_socket host target v (throws x) = (throws x, v)

  abbrev pub with_endpoints : Text → Text → Variant E → Result (List E) → Option (Outcome E)
  with_endpoints host target v (throws x) = some (throws x, v)
  with_endpoints host target v (returns es) = do
    r ← connect_one net.attempt es
    some (with_socket host target v r.result)

  -- The body of `connect`; `none` where the assertion of `connect_range` fails.
  unfoldable pub try_connect : Text → Text → Text → Variant E → Option (Outcome E)
  unfolding upgrade connect_one replace_tcp
  try_connect host service target v = with_endpoints host target v (net.resolver host service)

  abbrev pub caught : Outcome E → Variant E
  caught o = o.1

  -- Every exception is caught.
  unfoldable pub connect : Text → Text → Text → Variant E → Option (Variant E)
  unfolding try_connect
  connect host service target v = do o ← try_connect host service target v; some (caught o)
