-- ===== src/Ftx/Subscription/View.antt =====
-- The connector seen as its channel map and where each subscription's coroutine stands, and what arrives
-- from the network.
use boost_connector.Base.{
  ℕ, Text, Bool, true, false, Option, none, some, >>=-eq-some, ◌≡◌, refl, ◌∙◌, List, [], ◌∷◌, map,
  get_elem?, set, set_self, map-set, get_elem?-map, arith, if◌then◌else◌, Bool-cases, Option-cases,
  text_eq, codes, inl, inr,
}
use boost_connector.Json.{Value, Fields}
use boost_connector.Ftx.Event.{ChannelMarketPair, ChannelEvent}
use boost_connector.Ftx.Connection.{ConnectionState}
use boost_connector.Ftx.Machine.{StateMachine, process_event}
use boost_connector.Ftx.Channels.{ChannelState, ChannelStateMap, find}
use boost_connector.Ftx.Connector.{
  Connector, Subscription, Phase, ReadResult, read_error, binary, text, deliver, notify_channels,
  read_state, notify_connection_state, set_machine, same_state, event_of, call_on_event,
  dispatch_found, dispatch_index, dispatch_frame, frame_index, parse_frame,
}

abbrev pub Header : Type 0
Header = ChannelMarketPair × Phase

abbrev pub header : Subscription → Header
header s = (s.topic, s.phase)

abbrev pub headers : Connector → List Header
headers w = map header w.subscriptions

abbrev pub At : Connector → ℕ → Subscription → Type 0
At w i s = get_elem? w.subscriptions i ≡ some s

pub header-At :
    (w : Connector) (i : ℕ) (s : Subscription)
    → At w i s
    → get_elem? (headers w) i ≡ some (header s)
header-At w i s h = get_elem?-map header w.subscriptions i s h

pub headers-set :
    (w : Connector) (i : ℕ) (s : Subscription)
    → map header (set w.subscriptions i s) ≡ set (headers w) i (header s)
headers-set w i s = map-set header w.subscriptions i s

-- The two connectors have the same channels, and their coroutines stand at the same places.
abbrev pub SameView : Connector → Connector → Type 0
SameView w w' = (w'.channel_states ≡ w.channel_states) × (headers w' ≡ headers w)

SameView-trans : (a b c : Connector) → SameView a b → SameView b c → SameView a c
SameView-trans a b c p q = (q.0 ∙ p.0, q.1 ∙ p.1)

set_machine-SameView :
    (i : ℕ) (s : Subscription) (m : StateMachine) (w : Connector)
    → get_elem? w.subscriptions i ≡ some s
    → SameView w (set_machine i s m w)
set_machine-SameView i s m w h = (
  refl,
  headers-set w i (record s { machine = m })
      ∙ set_self (headers w) i (header s) (header-At w i s h),
)

module _ (serialize : Value → Text) (parse : Text → Option Value) where
  pub deliver-SameView :
      (o : Option ℕ) (e : ChannelEvent) (w : Connector) {w' : Connector}
      → deliver serialize parse o e w ≡ some w'
      → SameView w w'
  unfolding deliver
  deliver-SameView none e w h = cc
  deliver-SameView (some i) e w {w'} h =
      let (s, found, rest) = >>=-eq-some (get_elem? w.subscriptions i) _ h in
      let (m, moved, last) = >>=-eq-some (process_event serialize e _) _ rest in
      ground (arith, set_machine-SameView i s m w found)

  -- The guarded call, as the loops and the reader make it.
  pub guarded-SameView :
      (b : Bool) (o : Option ℕ) (e : ChannelEvent) (w : Connector) {w' : Connector}
      → (if b then deliver serialize parse o e w else some w) ≡ some w'
      → SameView w w'
  guarded-SameView true o e w h = deliver-SameView o e w h
  guarded-SameView false o e w h = ground arith

  pub notify_channels-SameView :
      (e : ChannelEvent) (m : ChannelStateMap) (w : Connector) {w' : Connector}
      → notify_channels serialize parse e m w ≡ some w'
      → SameView w w'
  unfolding notify_channels
  notify_channels-SameView e [] w h = ground arith
  notify_channels-SameView e ((k, c) ∷ m) w {w'} h =
      let (v, first, rest) =
        >>=-eq-some (if c.acquired then deliver serialize parse c.on_event e w else some w) _ h in
      SameView-trans w v w' (guarded-SameView c.acquired c.on_event e w first)
        (notify_channels-SameView e m v rest)

  pub notify_connection_state-SameView :
      (s : ConnectionState) (w : Connector) {w' : Connector}
      → notify_connection_state serialize parse s w ≡ some w'
      → SameView w w'
  unfolding notify_connection_state
  notify_connection_state-SameView s w h =
      elim (Bool-cases (same_state s w.connection.connection_state)) [
        | inl same ↦ absurd (ground arith)
        | inr other ↦ notify_channels-SameView (event_of s) w.channel_states _ (rw other at h)
      ]

  call_on_event-SameView :
      (c : ChannelState) (v : Value) (w : Connector) {w' : Connector}
      → call_on_event serialize parse c v w ≡ some w'
      → SameView w w'
  unfolding call_on_event
  call_on_event-SameView c v w h = elim (Option-cases c.on_event) [
    | inl gone ↦ ground arith
    | inr (i, there) ↦ deliver-SameView (some i) _ w (rw there at h)
  ]

  dispatch_found-SameView :
      (c : Option ChannelState) (v : Value) (w : Connector) {w' : Connector}
      → dispatch_found serialize parse c v w ≡ some w'
      → SameView w w'
  unfolding dispatch_found
  dispatch_found-SameView none v w h = ground arith
  dispatch_found-SameView (some c) v w h = elim (Bool-cases c.acquired) [
    | inl held ↦ call_on_event-SameView c v w (rw held at h)
    | inr free ↦ ground arith
  ]

  dispatch_index-SameView :
      (k : Option ChannelMarketPair) (v : Value) (w : Connector) {w' : Connector}
      → dispatch_index serialize parse k v w ≡ some w'
      → SameView w w'
  unfolding dispatch_index
  dispatch_index-SameView none v w h = ground arith
  dispatch_index-SameView (some k) v w h = dispatch_found-SameView (find k w.channel_states) v w h

  dispatch_frame-SameView :
      (f : Option (Value × Fields × Text)) (w : Connector) {w' : Connector}
      → dispatch_frame serialize parse f w ≡ some w'
      → SameView w w'
  unfolding dispatch_frame
  dispatch_frame-SameView none w h = ground arith
  dispatch_frame-SameView (some (v, o, type)) w h =
      elim (Bool-cases (text_eq type (codes "pong"))) [
        | inl pong ↦ ground arith
        | inr other ↦ dispatch_index-SameView (frame_index o) v w (rw other at h)
      ]

  pub read_state-SameView :
      (r : ReadResult) (w : Connector) {w' : Connector}
      → read_state serialize parse r w ≡ some w'
      → SameView w w'
  unfolding read_state
  read_state-SameView (read_error ec) w h = notify_channels-SameView _ w.channel_states w h
  read_state-SameView binary w h = ground arith
  read_state-SameView (text t) w h = dispatch_frame-SameView (parse_frame parse t) w h
