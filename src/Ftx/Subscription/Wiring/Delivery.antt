-- ===== src/Ftx/Subscription/Wiring/Delivery.antt =====
-- The frames of a channel: `on_text_frame` of src/vendor/ftx/ftx_websocket_connector_concept.cpp.
use boost_connector.Base.{inl, inr, not}
use boost_connector.Base.{Option-cases}
use boost_connector.Base.{All-get_elem?}
use boost_connector.Ftx.Connector.{set_machine}
use boost_connector.Ftx.Machine.Invariant.{admits}
use boost_connector.Base.{ℕ}
use boost_connector.Ftx.Subscription.Machines.{AllSound}
use boost_connector.Ftx.Machine.{StateType}
use boost_connector.Base.{
  Text, true, false, Bool, Option, none, some, ◌≡◌, refl, ap, subst, ◌∙◌, List, get_elem?-map_back,
  arith,
}
use boost_connector.Json.{Value}
use boost_connector.Ftx.Event.{ChannelMarketPair, response, is_up}
use boost_connector.Ftx.Machine.{StateMachine, process_event}
use boost_connector.Ftx.Machine.Invariant.{is_closed}
use boost_connector.Ftx.Channels.{ChannelState, find}
use boost_connector.Ftx.Connector.{
  Connector, Subscription, holding, deliver, dispatch_index, dispatch_found, call_on_event,
}
use boost_connector.Ftx.Subscription.View.{Header, header, headers}
use boost_connector.Ftx.Subscription.View.{At}
use boost_connector.Ftx.Subscription.Exclusion.{is_holder}
use boost_connector.Ftx.Subscription.Machines.{Sound, fits}
use boost_connector.Ftx.Subscription.Wiring.{TargetOf, HoldsAt, WiredAt, Wired}

-- The subscription at a place, where it has the topic and holds its channel.
pub record Holder (k : ChannelMarketPair) (w : Connector) (place : ℕ) : Type 0 where
  pub subscription : Subscription
  pub there : At w place subscription
  pub same_topic : subscription.topic ≡ k
  pub holds : is_holder subscription.phase ≡ true

HoldsAt-Holder :
    (k : ChannelMarketPair) (w : Connector) (i : ℕ) → HoldsAt k (headers w) i → Holder k w i
HoldsAt-Holder k w i (p, h, held) =
    let (s, at, same) = get_elem?-map_back header w.subscriptions i (k, p) h in
    record {
      subscription = s;
      there = at;
      same_topic = ap (λ x. x.0) same;
      holds = ap (λ x. is_holder x.1) same ∙ held;
    }

TargetOf-some :
    (k : ChannelMarketPair) (hs : List Header) (o : Option ℕ)
    → TargetOf k hs true o
    → (i : ℕ) × (o ≡ some i) × HoldsAt k hs i
TargetOf-some k hs none v = absurd v
TargetOf-some k hs (some i) v = (i, refl, v)

-- A machine that is not closed accepts a response.
refused-closed :
    (serialize : Value → Text) (v : Value) (m : StateMachine)
    → process_event serialize (response v) m ≡ none
    → is_closed m.state ≡ true
unfolding process_event is_up
refused-closed serialize v m h = ground arith

accepts_response :
    (serialize : Value → Text) (v : Value) (m : StateMachine)
    → is_closed m.state ≡ false
    → (m' : StateMachine) × (process_event serialize (response v) m ≡ some m')
accepts_response serialize v m h = elim (Option-cases (process_event serialize (response v) m)) [
  | inr accepted ↦ accepted
  | inl refused ↦ absurd (cc (refused-closed serialize v m refused))
]

open_phase : (t : StateType) (b : Bool) → admits t b ≡ true → not b ≡ true → is_closed t ≡ false
open_phase t b h n = ground arith

-- The machine of a subscription that has not been asked to end is not closed.
holding-open : (s : Subscription) → s.phase ≡ holding → Sound s → is_closed s.machine.state ≡ false
unfolding fits
holding-open s h v =
    open_phase s.machine.state s.machine.close_requested v.inv.requested
      (subst (λ p. fits p s.machine ≡ true) h v.fitting)

module _ (serialize : Value → Text) (parse : Text → Option Value) where
  deliver-response :
      (i : ℕ) (s : Subscription) (v : Value) (w : Connector)
      → At w i s
      → is_closed s.machine.state ≡ false
      → (w' : Connector) × (deliver serialize parse (some i) (response v) w ≡ some w')
  unfolding deliver
  deliver-response i s v w h open_ =
      let (m, accepted) =
        accepts_response serialize v (record (s.machine) { connection = w.connection }) open_ in
      (set_machine i s m w, rw (h, accepted) refl)

  pub dispatch_index-deliver :
      (k : ChannelMarketPair) (c : ChannelState) (i : ℕ) (v : Value) (w : Connector)
      → find k w.channel_states ≡ some c
      → c.acquired ≡ true
      → c.on_event ≡ some i
      → dispatch_index serialize parse (some k) v w
        ≡ deliver serialize parse (some i) (response v) w
  unfolding dispatch_index dispatch_found call_on_event
  dispatch_index-deliver k c i v w found held set_ = rw (found, held, set_) refl

  -- A frame for an acquired channel goes to a subscription that holds it, and without a fault where that one
  -- has not begun to end.
  pub dispatch_index-Holder :
      (k : ChannelMarketPair) (c : ChannelState) (v : Value) (w : Connector)
      → Wired w.channel_states (headers w)
      → AllSound w
      → find k w.channel_states ≡ some c
      → c.acquired ≡ true
      → (i : ℕ) × (h : Holder k w i) × (dispatch_index serialize parse (some k) v w
          ≡ deliver serialize parse (some i) (response v) w)
        × (h.subscription.phase ≡ holding
            → (w' : Connector) × (dispatch_index serialize parse (some k) v w ≡ some w'))
  dispatch_index-Holder k c v w wired sound found held =
      let (i, set_, place) = TargetOf-some k (headers w) c.on_event (
        subst (λ b. TargetOf k (headers w) b c.on_event) held
          (subst (WiredAt k (headers w)) found (wired.target k))) in
      let h = HoldsAt-Holder k w i place in
      let same = dispatch_index-deliver k c i v w found held set_ in
      (
        i,
        h,
        same,
        λ p.
            let own = All-get_elem? Sound w.subscriptions i h.subscription h.there sound in
            let (w', told) =
              deliver-response i h.subscription v w h.there (holding-open h.subscription p own) in
            (w', same ∙ told),
      )
