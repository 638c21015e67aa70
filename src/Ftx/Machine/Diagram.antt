-- ===== src/Ftx/Machine/Diagram.antt =====
-- The transition diagram of a subscription, without what it sends.
use mathlib.Core.Option.{some-injective}
use boost_connector.Base.{
  Text, Bool-cases, text_eq, text_eq_sound, ap, subst, codes, true, Option, none, some, ◌≡◌, refl,
  ◌⊎◌, inl, inr, arith,
}
use boost_connector.Json.{Value, Fields}
use boost_connector.Ftx.Event.{
  ChannelEvent, connection_down, connection_up, is_down, is_up, is_subscribed,
}
use boost_connector.Ftx.Machine.{
  StateMachine, StateType, down, opening, opened, closing, closed, process_event, process_in,
  process_down_event, process_opening_event, process_open_event, process_closing_event,
  typed_response, closing_response,
}

-- The edges that an event may take, each with the events that take it.
pub data Edge (e : ChannelEvent) : StateType → StateType → Type 0 where
  stay : {s : StateType} → Edge e s s
  subscribe : e ≡ connection_up → Edge e down opening
  lost_opening : e ≡ connection_down → Edge e opening down
  confirmed : is_subscribed e ≡ true → Edge e opening opened
  confirmed_late : is_subscribed e ≡ true → Edge e opening closing
  lost_open : e ≡ connection_down → Edge e opened down
  lost_closing : e ≡ connection_down → Edge e closing closed
  unsubscribed :
      (o : Fields) → typed_response e ≡ some (o, codes "unsubscribed") → Edge e closing closed

is_down-eq : (e : ChannelEvent) → is_down e ≡ true → e ≡ connection_down
unfolding is_down
is_down-eq e h = ground arith

is_up-eq : (e : ChannelEvent) → is_up e ≡ true → e ≡ connection_up
unfolding is_up
is_up-eq e h = ground arith

-- What a response does to the state: it leaves it alone, or it confirms the unsubscription.
closing_response-cases :
    (r : Option (Fields × Text)) (m : StateMachine)
    → ((closing_response r m).state ≡ m.state)
      ⊎ ((o : Fields) × (r ≡ some (o, codes "unsubscribed"))
          × ((closing_response r m).state ≡ closed))
unfolding closing_response text_eq
closing_response-cases none m = inl (ground arith)
closing_response-cases (some (o, type)) m =
    elim (Bool-cases (text_eq type (codes "unsubscribed"))) [
      | inr other ↦ inl (ground arith)
      | inl hit ↦ inr (
        o,
        ap (λ t. some (o, t)) (text_eq_sound type (codes "unsubscribed") hit),
        rw (text_eq_sound type (codes "unsubscribed") hit) refl,
      )
    ]

closing-Edge :
    (e : ChannelEvent) (m : StateMachine)
    → m.state ≡ closing
    → Edge e closing (process_closing_event e m).state
unfolding process_closing_event
closing-Edge e m s = elim (closing_response-cases (typed_response e) m) [
  | inl same ↦ grind (arith, stay, lost_closing, is_down-eq)
  | inr (o, typed, done) ↦ grind (arith, stay, lost_closing, is_down-eq, unsubscribed o typed)
]

open-Edge :
    (e : ChannelEvent) (m : StateMachine)
    → m.state ≡ opened
    → Edge e opened (process_open_event e m).state
unfolding process_open_event
open-Edge e m s = grind (arith, stay, lost_open, is_down-eq)

Edge-some :
    {e : ChannelEvent} {s : StateType} {n m' : StateMachine}
    → some n ≡ some m'
    → Edge e s n.state
    → Edge e s m'.state
Edge-some {e} {s} h d = subst (λ (k : StateMachine). Edge e s k.state) (some-injective _ _ h) d

module _ (serialize : Value → Text) where
  opening-Edge :
      (e : ChannelEvent) (m : StateMachine)
      → m.state ≡ opening
      → Edge e opening (process_opening_event serialize e m).state
  unfolding process_opening_event
  opening-Edge e m s = grind (arith, stay, lost_opening, confirmed, confirmed_late, is_down-eq)

  process_in-Edge :
      (s : StateType) (e : ChannelEvent) (m m' : StateMachine)
      → m.state ≡ s
      → process_in serialize s e m ≡ some m'
      → Edge e s m'.state
  unfolding process_in
  process_in-Edge down e m m' i h =
      unfold process_down_event in grind (arith, stay, subscribe, is_up-eq)
  process_in-Edge opening e m m' i h = Edge-some h (opening-Edge e m i)
  process_in-Edge opened e m m' i h = Edge-some h (open-Edge e m i)
  process_in-Edge closing e m m' i h = Edge-some h (closing-Edge e m i)
  process_in-Edge closed e m m' i h = cc

  -- An event that the machine accepts leaves its state alone or moves it along an edge of the diagram.
  pub process_event-Edge :
      (e : ChannelEvent) (m m' : StateMachine)
      → process_event serialize e m ≡ some m'
      → Edge e m.state m'.state
  unfolding process_event
  process_event-Edge e m m' h = process_in-Edge m.state e m m' refl h
