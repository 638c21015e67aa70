-- ===== src/Ftx/Life/Tied.antt =====
-- What the subscriptions and the reader do to the connection's state and its drop callback:
-- src/vendor/ftx/ftx_websocket_connector_concept.cpp and upstream_subscription_impl.cpp.
pub mod Turns
use mathlib.Core.Option.{some-injective}
use boost_connector.Base.{
  ℕ, Text, Bool, true, false, Option, none, some, ◌>>=◌, >>=-eq-some, ◌≡◌, refl, sym, subst, ◌∙◌,
  ◌⊎◌, inl, inr, [], ◌∷◌, get_elem?, Bool-cases, Option-cases, arith, if◌then◌else◌, codes, text_eq,
}
use boost_connector.Json.{Value, Fields}
use boost_connector.Async.Queue
use boost_connector.Ftx.Event.{ChannelMarketPair, ChannelEvent}
use boost_connector.Ftx.Connection.{Connection, send, drop}
use boost_connector.Ftx.Machine.{StateMachine, process_event, close}
use boost_connector.Ftx.Channels.{ChannelState, ChannelStateMap, find}
use boost_connector.Ftx.Connector.{
  Connector, Subscription, ReadResult, read_error, binary, text, deliver, notify_channels,
  read_state, set_machine, call_on_event, dispatch_found, dispatch_index, dispatch_frame,
  frame_index, parse_frame,
}

-- The state is the same, and the callback is not set anew.
abbrev pub Tied : Connection → Connection → Type 0
Tied c c' =
    (c'.connection_state ≡ c.connection_state) × ((c'.on_drop ≡ c.on_drop) ⊎ (c'.on_drop ≡ false))

abbrev pub TiedIn : Connector → Connector → Type 0
TiedIn w w' = Tied w.connection w'.connection

pub Tied-refl : (c : Connection) → Tied c c
Tied-refl c = (refl, inl refl)

pub Tied-trans : (a b c : Connection) → Tied a b → Tied b c → Tied a c
Tied-trans a b c p q = (q.0 ∙ p.0, ground arith)

-- A result that is given is tied if the value is.
pub Tied-some : (w : Connector) {w1 w2 : Connector} → some w1 ≡ some w2 → TiedIn w w1 → TiedIn w w2
Tied-some w e h = subst (TiedIn w) (some-injective _ _ e) h

pub process_event-Tied :
    (serialize : Value → Text) (e : ChannelEvent) (m m' : StateMachine)
    → process_event serialize e m ≡ some m'
    → Tied m.connection m'.connection
unfolding process_event send drop
process_event-Tied serialize e m m' h = ground arith

pub close-Tied :
    (serialize : Value → Text) (m : StateMachine) → Tied m.connection (close serialize m).connection
unfolding close send
close-Tied serialize m = ground arith

module _ (serialize : Value → Text) (parse : Text → Option Value) where
  deliver-Tied :
      (o : Option ℕ) (e : ChannelEvent) (w : Connector) {w' : Connector}
      → deliver serialize parse o e w ≡ some w'
      → TiedIn w w'
  unfolding deliver
  deliver-Tied none e w h = cc
  deliver-Tied (some i) e w h =
      let (s, _, rest) = >>=-eq-some (get_elem? w.subscriptions i) _ h in
      let (m, moved, put) = >>=-eq-some (process_event serialize e _) _ rest in
      Tied-some w put (process_event-Tied serialize e _ m moved)

  pub guarded-Tied :
      (b : Bool) (o : Option ℕ) (e : ChannelEvent) (w : Connector) {w' : Connector}
      → (if b then deliver serialize parse o e w else some w) ≡ some w'
      → TiedIn w w'
  guarded-Tied true o e w h = deliver-Tied o e w h
  guarded-Tied false o e w h = Tied-some w h (Tied-refl w.connection)

  pub notify_channels-Tied :
      (e : ChannelEvent) (m : ChannelStateMap) (w : Connector) {w' : Connector}
      → notify_channels serialize parse e m w ≡ some w'
      → TiedIn w w'
  unfolding notify_channels
  notify_channels-Tied e [] w h = Tied-some w h (Tied-refl w.connection)
  notify_channels-Tied e ((k, c) ∷ m) w {w'} h =
      let (v, first, rest) =
        >>=-eq-some (if c.acquired then deliver serialize parse c.on_event e w else some w) _ h in
      Tied-trans w.connection v.connection w'.connection
        (guarded-Tied c.acquired c.on_event e w first) (notify_channels-Tied e m v rest)

  call_on_event-Tied :
      (c : ChannelState) (v : Value) (w : Connector) {w' : Connector}
      → call_on_event serialize parse c v w ≡ some w'
      → TiedIn w w'
  unfolding call_on_event
  call_on_event-Tied c v w h = elim (Option-cases c.on_event) [
    | inl gone ↦ Tied-some w (rw gone at h) (refl, inl refl)
    | inr (i, there) ↦ deliver-Tied (some i) _ w (rw there at h)
  ]

  dispatch_found-Tied :
      (c : Option ChannelState) (v : Value) (w : Connector) {w' : Connector}
      → dispatch_found serialize parse c v w ≡ some w'
      → TiedIn w w'
  unfolding dispatch_found
  dispatch_found-Tied none v w h = Tied-some w h (refl, inl refl)
  dispatch_found-Tied (some c) v w h = elim (Bool-cases c.acquired) [
    | inl held ↦ call_on_event-Tied c v w (rw held at h)
    | inr free ↦ Tied-some w (rw free at h) (refl, inl refl)
  ]

  dispatch_index-Tied :
      (k : Option ChannelMarketPair) (v : Value) (w : Connector) {w' : Connector}
      → dispatch_index serialize parse k v w ≡ some w'
      → TiedIn w w'
  unfolding dispatch_index
  dispatch_index-Tied none v w h = Tied-some w h (refl, inl refl)
  dispatch_index-Tied (some k) v w h = dispatch_found-Tied (find k w.channel_states) v w h

  dispatch_frame-Tied :
      (f : Option (Value × Fields × Text)) (w : Connector) {w' : Connector}
      → dispatch_frame serialize parse f w ≡ some w'
      → TiedIn w w'
  unfolding dispatch_frame
  dispatch_frame-Tied none w h = Tied-some w h (refl, inl refl)
  dispatch_frame-Tied (some (v, o, type)) w h = elim (Bool-cases (text_eq type (codes "pong"))) [
    | inl pong ↦ Tied-some w (rw pong at h) (refl, inl refl)
    | inr other ↦ dispatch_index-Tied (frame_index o) v w (rw other at h)
  ]

  pub read_state-Tied :
      (r : ReadResult) (w : Connector) {w' : Connector}
      → read_state serialize parse r w ≡ some w'
      → TiedIn w w'
  unfolding read_state
  read_state-Tied (read_error ec) w h = notify_channels-Tied _ w.channel_states w h
  read_state-Tied binary w h = Tied-some w h (refl, inl refl)
  read_state-Tied (text t) w h = dispatch_frame-Tied (parse_frame parse t) w h
