-- ===== src/Ftx/Machine/Closing.antt =====
-- How a subscription's machine comes to an end.
use boost_connector.Base.{
  Text, codes, text_eq, true, false, Option, some, ◌>>=◌, ◌≡◌, refl, ◌⊎◌, inl, inr, arith, List, [],
  ◌∷◌,
}
use boost_connector.Async.Latch
use boost_connector.Async.Latch.{is_set}
use boost_connector.Json.{Value, Fields}
use boost_connector.Ftx.Event.{
  ChannelEvent, connection_down, get_response, is_up, is_down, is_subscribed,
}
use boost_connector.Ftx.Connection
use boost_connector.Ftx.Connection.{Connection}
use boost_connector.Ftx.Machine.{
  StateMachine, StateType, down, opening, opened, closing, closed, close, process_event,
  typed_response, process_closing_event, enter_closed_state, enter_closing_state,
}
use boost_connector.Ftx.Machine.Invariant.{Inv}

-- What ends the closing state: the connection goes down, or the unsubscription is confirmed.
abbrev pub Ends : ChannelEvent → Type 0
Ends e =
    (e ≡ connection_down) ⊎ ((o : Fields) × (typed_response e ≡ some (o, codes "unsubscribed")))

-- A typed response is no connection event.
typed_response-neither :
    (e : ChannelEvent) {r : Fields × Text}
    → typed_response e ≡ some r
    → (is_down e ≡ false) × (is_up e ≡ false)
unfolding typed_response is_down is_up get_response
typed_response-neither e h = ground arith

is_subscribed-not_down : (e : ChannelEvent) → is_subscribed e ≡ true → is_down e ≡ false
unfolding is_subscribed is_down get_response
is_subscribed-not_down e h = ground arith

pub closing-Ends :
    (e : ChannelEvent) (m : StateMachine)
    → Ends e
    → process_closing_event e m ≡ enter_closed_state m
unfolding process_closing_event is_down text_eq
closing-Ends e m (inl p) = rw p
closing-Ends e m (inr (o, t)) =
    rw ((typed_response-neither e t).0, (typed_response-neither e t).1, t)

module _ (serialize : Value → Text) where
  unfoldable pub feed : List ChannelEvent → StateMachine → Option StateMachine
  feed [] m = some m
  feed (e ∷ es) m = process_event serialize e m >>= feed es

  -- The events that a machine asked to close still has to see, by its state.
  abbrev pub script : ChannelEvent → ChannelEvent → StateType → List ChannelEvent
  script confirm end down = []
  script confirm end opening = confirm ∷ end ∷ []
  script confirm end opened = end ∷ []
  script confirm end closing = end ∷ []
  script confirm end closed = []

  ending :
      (e : ChannelEvent) (m : StateMachine)
      → Ends e
      → m.state ≡ closing
      → feed (e ∷ []) m ≡ some (enter_closed_state m)
  unfolding feed process_event
  ending e m d s = ground (arith, closing-Ends e m d)

  confirming :
      (c e : ChannelEvent) (m : StateMachine)
      → is_subscribed c ≡ true
      → is_down c ≡ false
      → Ends e
      → m.state ≡ opening
      → m.close_requested ≡ true
      → feed (c ∷ e ∷ []) m ≡ some (enter_closed_state (enter_closing_state serialize m))
  unfolding feed process_event
  confirming c e m sub up d s r = ground (arith, closing-Ends e (enter_closing_state serialize m) d)

  close_in_state :
      (s : StateType) (c e : ChannelEvent) (m : StateMachine)
      → m.state ≡ s
      → Inv m
      → m.close_requested ≡ false
      → is_subscribed c ≡ true
      → Ends e
      → (m' : StateMachine) × (feed (script c e s) (close serialize m) ≡ some m')
        × (m'.state ≡ closed)
        × (is_set m'.closed_latch ≡ true)
  unfolding close feed is_set Latch.set
  close_in_state down c e m s v r sub d =
      (enter_closed_state (record m { close_requested = true }), ground arith, refl, refl)
  close_in_state opening c e m s v r sub d =
      let n : StateMachine = record m { close_requested = true } in
      (
        enter_closed_state (enter_closing_state serialize n),
        ground (arith, confirming c e n sub (is_subscribed-not_down c sub) d s refl),
        refl,
        refl,
      )
  close_in_state opened c e m s v r sub d =
      let n : StateMachine = enter_closing_state serialize (record m { close_requested = true }) in
      (enter_closed_state n, ground (arith, ending e n d refl), refl, refl)
  close_in_state closing c e m s v r sub d = absurd (ground arith)
  close_in_state closed c e m s v r sub d = absurd (ground arith)

  -- A machine that is asked to close for the first time, in whatever state it is, ends in the closed
  -- state with its latch set, once it has seen the confirmation of a subscription under way and then
  -- the connection's end or the confirmation of the unsubscription.
  pub close-completes :
      (c e : ChannelEvent) (m : StateMachine)
      → Inv m
      → m.close_requested ≡ false
      → is_subscribed c ≡ true
      → Ends e
      → (m' : StateMachine) × (feed (script c e m.state) (close serialize m) ≡ some m')
        × (m'.state ≡ closed)
        × (is_set m'.closed_latch ≡ true)
  close-completes c e m v r sub d = close_in_state m.state c e m refl v r sub d

  abbrev pub NoUp : List ChannelEvent → Type 0
  NoUp [] = Unit
  NoUp (e ∷ es) = (is_up e ≡ false) × NoUp es

  abbrev lost_close : StateMachine → StateMachine
  lost_close m = record m { state = down; close_requested = true }
