-- ===== src/Stream/Connect/Reached.antt =====
-- What `connect` of the websocket leaves: src/util/websocket_stream_variant.cpp.
use mathlib.Core.Option.{some-injective}
use boost_connector.Base.{
  ℕ, Text, true, false, some, ◌>>=◌, ◌≡◌, ◌≢◌, refl, sym, ap, subst, ◌∙◌, List, [], ◌∷◌, get_elem?,
  arith, inl, inr, All, All-get_elem?,
}
use boost_connector.Stream.{
  Result, returns, throws, Result-cases, TcpTransportLayer, Variant, ws, wss, connected_to,
  tcp_layer, is_tls, is_open, replace_tcp, Network,
}
use boost_connector.Stream.Race.{Finish, connect_one-Earliest, accepts, Earliest, EarliestAt}
use boost_connector.Stream.Connect.{
  tls_handshake, ws_handshake, upgrade, with_socket, with_endpoints, try_connect, connect, caught,
}

-- The TLS layer, where there is one, has done its handshake for the host.
abbrev pub IsSecuredFor : {E : Type 0} → Text → Variant E → Type 0
IsSecuredFor host (ws s) = Unit
IsSecuredFor host (wss s) = (s.next_layer.is_secured ≡ true) × (s.next_layer.host_name ≡ some host)

module _ {E : Type 0} (net : Network E) where
  -- What is left behind by the handshakes keeps the kind of the stream and its socket.
  abbrev Kept : Variant E → Variant E → Type 0
  Kept v v' = (is_tls v' ≡ is_tls v) × (tcp_layer v' ≡ tcp_layer v)

  ws_handshake-Kept :
      (host target : Text) (v : Variant E) → Kept v (ws_handshake net host target v).1
  unfolding ws_handshake is_tls tcp_layer
  ws_handshake-Kept host target (ws s) = ground arith
  ws_handshake-Kept host target (wss s) = ground arith

  upgrade-Kept : (host target : Text) (v : Variant E) → Kept v (upgrade net host target v).1
  unfolding upgrade is_tls tcp_layer tls_handshake ws_handshake
  upgrade-Kept host target (ws s) = ground arith
  upgrade-Kept host target (wss s) = ground arith

  upgrade-IsSecuredFor :
      (host target : Text) (v : Variant E)
      → is_open v ≡ false
      → is_open (upgrade net host target v).1 ≡ true
      → IsSecuredFor host (upgrade net host target v).1
  unfolding upgrade is_tls tls_handshake ws_handshake
  upgrade-IsSecuredFor host target (ws s) h k = ground arith
  upgrade-IsSecuredFor host target (wss s) h k = ground arith

  replace_tcp-laws :
      (t : TcpTransportLayer E) (v : Variant E)
      → (is_tls (replace_tcp t v) ≡ is_tls v)
        × (tcp_layer (replace_tcp t v) ≡ t)
        × (is_open (replace_tcp t v) ≡ is_open v)
  unfolding replace_tcp is_tls tcp_layer
  replace_tcp-laws t (ws s) = (refl, refl, refl)
  replace_tcp-laws t (wss s) = (refl, refl, refl)

  -- The stream's socket is connected to an endpoint that the resolver has given for the host and the service
  -- and that accepts, and the TLS layer is secured for the host.
  abbrev pub Connected : Text → Text → Variant E → Type 0
  Connected host service v =
      (e : E) × (es : List E) × (i : ℕ) × (net.resolver host service ≡ returns es)
      × (get_elem? es i ≡ some e)
      × (accepts net.attempt e ≡ true)
      × (tcp_layer v ≡ connected_to e)
      × IsSecuredFor host v

  with_socket-Connected :
      (host service target : Text) (v : Variant E) (es : List E) (r : Finish E)
      → net.resolver host service ≡ returns es
      → Earliest net.attempt es r
      → is_open v ≡ false
      → is_open (with_socket net host target v r.result).1 ≡ true
      → Connected host service (with_socket net host target v r.result).1
  with_socket-Connected host service target v es r found best fresh opened =
      elim (Result-cases r.result) [
        | inr (x, no_peer) ↦ ground (arith, no_peer)
        | inl (t, peer) ↦
            let (e, i, there, taken, same, _, _) =
              subst (λ q. EarliestAt net.attempt es r.at q) peer best in
            let (_, socket, still) = replace_tcp-laws t v in
            rw peer (
              e,
              es,
              i,
              found,
              there,
              taken,
              (upgrade-Kept host target (replace_tcp t v)).1 ∙ socket ∙ same,
              upgrade-IsSecuredFor host target (replace_tcp t v) (still ∙ fresh)
                  (rw peer at opened),
            )
      ]

  -- `connect` of the websocket returns, whatever the network answers to each operation, if every operation is
  -- answered and the resolver does not answer with an empty range, and the stream is over TLS afterwards if it was before.
  pub connect-returns :
      (host service target : Text) (v : Variant E)
      → net.resolver host service ≢ returns []
      → (v' : Variant E) × (connect net host service target v ≡ some v') × (is_tls v' ≡ is_tls v)
  unfolding connect try_connect
  connect-returns host service target v answers = elim (Result-cases (net.resolver host service)) [
    | inr (x, unknown) ↦ rw unknown (v, refl, refl)
    | inl (es, found) ↦ go es found
  ]
    where
      kind :
          (r : Result (TcpTransportLayer E)) → is_tls (with_socket net host target v r).1 ≡ is_tls v
      kind (returns t) = (upgrade-Kept host target (replace_tcp t v)).0 ∙ (replace_tcp-laws t v).0
      kind (throws x) = refl

      go :
          (es : List E)
          → net.resolver host service ≡ returns es
          → (v' : Variant E) × (connect net host service target v ≡ some v')
            × (is_tls v' ≡ is_tls v)
      go [] found = absurd (answers found)
      go (e ∷ es) found =
          let (r, raced, _) = connect_one-Earliest net.attempt e es in
          rw (found, raced) ((with_socket net host target v r.result).1, refl, kind r.result)

  -- After `connect` of a fresh stream the websocket is open only on a socket that is connected to an endpoint
  -- of the host that accepts, and, over TLS, only after the TLS handshake with the host's name.
  pub connect-Connected :
      (host service target : Text) (v v' : Variant E)
      → is_open v ≡ false
      → connect net host service target v ≡ some v'
      → is_open v' ≡ true
      → Connected host service v'
  unfolding connect try_connect
  connect-Connected host service target v v' fresh e opened =
      elim (Result-cases (net.resolver host service)) [
        | inr (x, unknown) ↦ ground (arith, rw unknown at e)
        | inl (es, found) ↦ go es found (rw found at e)
      ]
    where
      go :
          (es : List E)
          → net.resolver host service ≡ returns es
          → (with_endpoints net host target v (returns es) >>= λ o. some (caught net o)) ≡ some v'
          → Connected host service v'
      go [] found e' = cc
      go (x ∷ es) found e' =
          let (r, raced, best) = connect_one-Earliest net.attempt x es in
          let last : (with_socket net host target v r.result).1 ≡ v' =
            some-injective _ _ (rw raced at e') in
          subst (Connected host service) last (
            with_socket-Connected host service target v (x ∷ es) r found best fresh
              (ap is_open last ∙ opened))

  -- Where no endpoint of the host accepts, the stream stays as it is.
  pub connect-refused :
      (host service target : Text) (v v' : Variant E) (es : List E)
      → net.resolver host service ≡ returns es
      → All (λ e. accepts net.attempt e ≡ false) es
      → connect net host service target v ≡ some v'
      → v' ≡ v
  unfolding connect try_connect
  connect-refused host service target v v' [] found refused e = cc
  connect-refused host service target v v' (x ∷ es) found refused e =
      let (r, raced, best) = connect_one-Earliest net.attempt x es in
      let last : (with_socket net host target v r.result).1 ≡ v' =
        some-injective _ _ (rw (found, raced) at e) in
      elim (Result-cases r.result) [
        | inl (t, peer) ↦
            let (w, i, there, taken, _, _, _) =
              subst (λ q. EarliestAt net.attempt (x ∷ es) r.at q) peer best in
            absurd (
              true-false (
                sym taken
                ∙ All-get_elem? (λ f. accepts net.attempt f ≡ false) (x ∷ es) i w there refused))
        | inr (y, no_peer) ↦ sym last ∙ ap (λ q. (with_socket net host target v q).1) no_peer
      ]
    where
      true-false : true ≡ false → ⊥
      true-false h = cc
