-- ===== src/Ftx/Session/Announcing.antt =====
-- The announcement that the connector is up: `notify_connection_state` of
-- src/vendor/ftx/ftx_websocket_connector_concept.cpp, with the machines of
-- src/vendor/ftx/upstream_subscription_impl.cpp that it reaches.
use boost_connector.Base.{
  ℕ, Text, Bool, true, false, Option, none, some, ◌≡◌, refl, sym, ap, subst, ◌∙◌, inl, inr, List,
  [], ◌∷◌, get_elem?, get_elem?-map_back, All, All-get_elem?, All-set, if◌then◌else◌, Bool-cases,
  Option-cases, arith,
}
use boost_connector.Json.{Value}
use boost_connector.Ftx.Event
use boost_connector.Ftx.Event.{
  ChannelMarketPair, connection_up, pair_eq, pair_eq_sound, pair_eq_refl, is_down, is_subscribed,
  get_response,
}
use boost_connector.Ftx.Connection
use boost_connector.Ftx.Connection.{up, down}
use boost_connector.Ftx.Machine.{
  StateMachine, process_event, process_down_event, process_opening_event, process_open_event,
  process_closing_event,
}
use boost_connector.Ftx.Machine.Invariant.{is_closed}
use boost_connector.Ftx.Machine.Output.{process_event-none}
use boost_connector.Ftx.Channels.{ChannelState, ChannelStateMap, find}
use boost_connector.Ftx.Channels.Laws.{NoDuplicates}
use boost_connector.Ftx.Connector.{
  Connector, Subscription, deliver, set_machine, notify_channels, notify_connection_state, cancel,
}
use boost_connector.Ftx.Credentials.{WebsocketKey}
use boost_connector.Ftx.Session.{establish, prepare}
use boost_connector.Ftx.Session.Reconnect.{state_of, deliver-state, notify_connection_state-state}
use boost_connector.Ftx.Subscription.View.{Header, header, headers, deliver-SameView}
use boost_connector.Ftx.Subscription.Wiring.{TargetOf, WiredAt, Wired}

-- The machine of the subscription has not come to its end.
abbrev pub Runs : Subscription → Type 0
Runs s = is_closed s.machine.state ≡ false

-- The callback of the channel is that of a subscription, where the channel is acquired.
abbrev Answered : List Header → ChannelMarketPair × ChannelState → Type 0
Answered hs (k, c) =
    c.acquired ≡ true → (i : ℕ) × (x : Header) × (c.on_event ≡ some i) × (get_elem? hs i ≡ some x)

TargetOf-Answered :
    (k : ChannelMarketPair) (c : ChannelState) (hs : List Header)
    → TargetOf k hs c.acquired c.on_event
    → Answered hs (k, c)
TargetOf-Answered k c hs v held = go c.on_event (subst (λ b. TargetOf k hs b c.on_event) held v)
  where
    go :
        (o : Option ℕ)
        → TargetOf k hs true o
        → (i : ℕ) × (x : Header) × (o ≡ some i) × (get_elem? hs i ≡ some x)
    go none w = absurd w
    go (some i) (p, there, _) = (i, (k, p), refl, there)

entries-Answered :
    (m : ChannelStateMap) (hs : List Header)
    → NoDuplicates m
    → ((k : ChannelMarketPair) → WiredAt k hs (find k m))
    → All (Answered hs) m
unfolding find
entries-Answered [] hs d v = tt
entries-Answered ((k, c) ∷ m) hs d v = (
  TargetOf-Answered k c hs
      (subst (λ b. WiredAt k hs (if b then some c else find k m)) (pair_eq_refl k) (v k)),
  entries-Answered m hs d.1 (λ j. elim (Bool-cases (pair_eq k j)) [
    | inl same ↦
        subst (λ o. WiredAt j hs o) (sym (ap (λ l. find l m) (sym (pair_eq_sound k j same)) ∙ d.0))
          tt
    | inr other ↦ subst (λ b. WiredAt j hs (if b then some c else find j m)) other (v j)
  ]),
)

up-Runs :
    (serialize : Value → Text) (m m' : StateMachine)
    → is_closed m.state ≡ false
    → process_event serialize connection_up m ≡ some m'
    → is_closed m'.state ≡ false
unfolding process_event process_down_event process_opening_event process_open_event
    process_closing_event Event.is_up is_down is_subscribed get_response
up-Runs serialize m m' h e = ground arith

up_returns :
    (serialize : Value → Text) (m : StateMachine)
    → is_closed m.state ≡ false
    → Connection.is_up m.connection ≡ true
    → (m' : StateMachine) × (process_event serialize connection_up m ≡ some m')
up_returns serialize m h online = elim (Option-cases (process_event serialize connection_up m)) [
  | inr accepted ↦ accepted
  | inl refused ↦ absurd (ground (arith, (process_event-none serialize connection_up m).0 refused))
]

online_is_up : (w : Connector) → state_of w ≡ up → Connection.is_up w.connection ≡ true
unfolding Connection.is_up
online_is_up w h = rw h refl

module _ (serialize : Value → Text) (parse : Text → Option Value) where
  -- One call of a channel's callback.
  deliver_up :
      (i : ℕ) (x : Header) (w : Connector)
      → get_elem? (headers w) i ≡ some x
      → state_of w ≡ up
      → All Runs w.subscriptions
      → (w' : Connector) × (deliver serialize parse (some i) connection_up w ≡ some w')
        × All Runs w'.subscriptions
  unfolding deliver
  deliver_up i x w there online runs =
      let (s, at, _) = get_elem?-map_back header w.subscriptions i x there in
      let m0 = record (s.machine) { connection = w.connection } in
      let alive = All-get_elem? Runs w.subscriptions i s at runs in
      let (m, accepted) = up_returns serialize m0 alive (online_is_up w online) in
      (
        set_machine i s m w,
        rw (at, accepted) refl,
        All-set Runs w.subscriptions i (record s { machine = m })
            (up-Runs serialize m0 m alive accepted) runs,
      )

  notify_channels_up :
      (m : ChannelStateMap) (w : Connector)
      → All (Answered (headers w)) m
      → state_of w ≡ up
      → All Runs w.subscriptions
      → (w' : Connector) × (notify_channels serialize parse connection_up m w ≡ some w')
  unfolding notify_channels
  notify_channels_up [] w answered online runs = (w, refl)
  notify_channels_up ((k, c) ∷ m) w answered online runs = elim (Bool-cases c.acquired) [
    | inr free ↦
        let (w', told) = notify_channels_up m w answered.1 online runs in (w', rw free told)
    | inl held ↦
        let (i, x, set_, there) = answered.0 held in
        let (w1, told, runs1) = deliver_up i x w there online runs in
        let same = (deliver-SameView serialize parse (some i) connection_up w told).1 in
        let (w', rest) =
          notify_channels_up m w1 (subst (λ hs. All (Answered hs) m) (sym same) answered.1)
            (deliver-state serialize parse (some i) connection_up w told ∙ online) runs1 in
        (w', rw (held, set_, told) rest)
  ]

  -- A connector that says it is down announces that it is up without a fault, where the callback of each
  -- acquired channel is that of a holder, and no machine is closed.
  pub notify_connection_state_up :
      (w : Connector)
      → state_of w ≡ down
      → Wired w.channel_states (headers w)
      → All Runs w.subscriptions
      → (w' : Connector) × (notify_connection_state serialize parse up w ≡ some w')
  unfolding notify_connection_state
  notify_connection_state_up w offline wired runs =
      let w0 = record w {
        connection = record (w.connection) { connection_state = up };
        state_cv = cancel w.state_cv;
      } in
      let (w', told) =
        notify_channels_up w.channel_states w0
          (entries-Answered w.channel_states (headers w) wired.unique wired.target) refl runs in
      (w', rw offline told)

  pub establish_returns :
      (hmac_hex : Text → Text → Text) (args : WebsocketKey) (now_ms : ℕ) (connected : Bool)
      (w : Connector)
      → state_of w ≡ down
      → Wired w.channel_states (headers w)
      → All Runs w.subscriptions
      → (w' : Connector) × (establish serialize parse hmac_hex args now_ms connected w ≡ some w')
        × (state_of w' ≡ up)
  unfolding establish prepare
  establish_returns hmac_hex args now_ms connected w offline wired runs =
      let w0 = prepare serialize parse hmac_hex args now_ms connected w in
      let (w', told) = notify_connection_state_up w0 offline wired runs in
      (w', told, notify_connection_state-state serialize parse up w0 told)
