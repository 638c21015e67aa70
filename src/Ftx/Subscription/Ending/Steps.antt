-- ===== src/Ftx/Subscription/Ending/Steps.antt =====
-- The first steps of the end of a subscription: its stop, and the confirmation that its topic is unsubscribed.
-- src/vendor/ftx/upstream_subscription_impl.cpp.
use boost_connector.Ftx.Subscription.{Connection}
use boost_connector.Base.{
  ℕ, Text, codes, text_eq, true, false, Option, some, ◌≡◌, ◌≢◌, refl, sym, ap, ◌∙◌, inr, get_elem?,
  set, get_elem?-set_self, get_elem?-set_ne, arith, >>=-eq-some,
}
use boost_connector.Async.Latch
use boost_connector.Async.Latch.{is_set, AsyncLatch}
use mathlib.Core.Option.{some-injective}
use boost_connector.Json.{Value, Fields, if_object, if_string, if_contains}
use boost_connector.Ftx.Event.{ChannelMarketPair, ChannelEvent, response, get_response}
use boost_connector.Ftx.Machine
use boost_connector.Ftx.Machine.{
  StateMachine, process_event, typed_response, enter_closed_state, enter_closing_state,
}
use boost_connector.Ftx.Machine.Closing.{Ends, closing-Ends}
use boost_connector.Ftx.Channels.{ChannelState, find}
use boost_connector.Ftx.Connector.{
  Connector, Subscription, holding, closing, deliver, set_machine, text, read_state, dispatch_frame,
  parse_frame, frame_index,
}
use boost_connector.Ftx.Subscription.View.{At}
use boost_connector.Ftx.Subscription.{stop, stop_found, close_down, resume_in, resume}
use boost_connector.Ftx.Subscription.Races.{resume_phase}
use boost_connector.Ftx.Subscription.Wiring.Delivery.{dispatch_index-deliver}

-- The frame confirms that the topic is unsubscribed.
pub record Confirms (parse : Text → Option Value) (k : ChannelMarketPair) (t : Text) : Type 0 where
  pub value : Value
  pub fields : Fields
  pub parsed : parse_frame parse t ≡ some (value, fields, codes "unsubscribed")
  pub index : frame_index fields ≡ some k

module _ (serialize : Value → Text) (parse : Text → Option Value) where
  abbrev pub stopped_ : Subscription → Subscription
  stopped_ s = record s { stop_latch = Latch.set s.stop_latch }

  typed_parts :
      (j f : Value) (o : Fields) (type : Text)
      → if_object j ≡ some o
      → if_contains (codes "type") o ≡ some f
      → if_string f ≡ some type
      → typed_response (response j) ≡ some (o, type)
  unfolding typed_response get_response
  typed_parts j f o type a b c = rw (a, b, c) refl

  confirmed :
      (t : Text) (v : Value) (o : Fields) (type : Text)
      → parse_frame parse t ≡ some (v, o, type)
      → typed_response (response v) ≡ some (o, type)
  unfolding parse_frame
  confirmed t v o type h =
      let (j, parsed, h1) = >>=-eq-some (parse t) _ h in
      let (fields, object_, h2) = >>=-eq-some (if_object j) _ h1 in
      let (field_, there, h3) = >>=-eq-some (if_contains (codes "type") fields) _ h2 in
      let (name, string_, h4) = >>=-eq-some (if_string field_) _ h3 in
      let same = some-injective _ _ h4 in
      sym (ap (λ r. typed_response (response r.0)) same)
      ∙ typed_parts j field_ fields name object_ there string_
      ∙ ap (λ r. some (r.1, r.2)) same

  -- The machine asked to close while it is open.
  abbrev pub asked : StateMachine → StateMachine
  asked m = enter_closing_state serialize (record m { close_requested = true })

  close-asked :
      (m : StateMachine)
      → m.state ≡ Machine.opened
      → m.close_requested ≡ false
      → Machine.close serialize m ≡ asked m
  unfolding Machine.close
  close-asked m h r = rw (r, h) refl

  -- The subscription after its turn, in the connector after.
  pub record Asked (i : ℕ) (s : Subscription) (w w' : Connector) : Type 0 where
    pub connection : Connection
    pub there : At w' i (record (stopped_ s) {
      phase = closing;
      machine = asked (record (s.machine) { connection = connection });
    })
    pub channels : w'.channel_states ≡ w.channel_states
    pub others : (j : ℕ) → i ≢ j → get_elem? w'.subscriptions j ≡ get_elem? w.subscriptions j

  -- A holder with an open machine that is stopped asks for the end of its subscription at its next turn.
  pub stops-Asked :
      (i : ℕ) (s : Subscription) (w : Connector)
      → At w i s
      → s.phase ≡ holding
      → s.machine.state ≡ Machine.opened
      → s.machine.close_requested ≡ false
      → is_set s.machine.closed_latch ≡ false
      → (w' : Connector) × (resume serialize parse i (stop i w) ≡ some w') × Asked i s w w'
  unfolding stop stop_found resume_in close_down is_set Latch.set enter_closing_state
  stops-Asked i s w h p opened_ fresh unset =
      let s1 = stopped_ s in
      let w1 = record w { subscriptions = set w.subscriptions i s1 } in
      let at1 : At w1 i s1 = get_elem?-set_self w.subscriptions i s1 s h in
      let stopped : stop i w ≡ w1 = rw h refl in
      let m = record (s.machine) { connection = w.connection } in
      let s2 = record s1 { phase = closing; machine = asked m } in
      let w2 = record w1 {
        connection = (asked m).connection;
        subscriptions = set w1.subscriptions i s2;
      } in
      (
        w2,
        ap (resume serialize parse i) stopped
            ∙ resume_phase serialize parse holding i s1 w1 at1 p
            ∙ rw (close-asked m opened_ fresh, unset) refl,
        record {
          connection = w.connection;
          there = get_elem?-set_self w1.subscriptions i s2 s1 at1;
          channels = refl;
          others = λ j ne.
              get_elem?-set_ne w1.subscriptions i j s2 ne
              ∙ get_elem?-set_ne w.subscriptions i j s1 ne;
        },
      )

  closing_handled :
      (e : ChannelEvent) (m : StateMachine)
      → m.state ≡ Machine.closing
      → Ends e
      → process_event serialize e m ≡ some (enter_closed_state m)
  unfolding process_event
  closing_handled e m p d = ground (arith, closing-Ends e m d)

  -- The confirmation closes the machine.
  pub record Ended (i : ℕ) (s : Subscription) (w w' : Connector) : Type 0 where
    pub machine : StateMachine
    pub latched : is_set machine.closed_latch ≡ true
    pub there : At w' i (record s { machine = machine })
    pub channels : w'.channel_states ≡ w.channel_states
    pub others : (j : ℕ) → i ≢ j → get_elem? w'.subscriptions j ≡ get_elem? w.subscriptions j

  pub reads-Ended :
      (i : ℕ) (s : Subscription) (c : ChannelState) (t : Text) (w : Connector)
      → At w i s
      → s.machine.state ≡ Machine.closing
      → Confirms parse s.topic t
      → find s.topic w.channel_states ≡ some c
      → c.acquired ≡ true
      → c.on_event ≡ some i
      → (w' : Connector) × (read_state serialize parse (text t) w ≡ some w') × Ended i s w w'
  unfolding read_state dispatch_frame deliver text_eq is_set Latch.set enter_closed_state
  reads-Ended i s c t w h p f found held set_ =
      let m = record (s.machine) { connection = w.connection } in
      let s1 = record s { machine = enter_closed_state m } in
      let e = response f.value in
      let handled : process_event serialize e m ≡ some (enter_closed_state m) =
        closing_handled e m p (inr (f.fields, confirmed t f.value f.fields _ f.parsed)) in
      (
        set_machine i s (enter_closed_state m) w,
        rw (f.parsed, f.index)
            (dispatch_index-deliver serialize parse s.topic c i f.value w found held set_
              ∙ rw (h, handled) refl),
        record {
          machine = enter_closed_state m;
          latched = refl;
          there = get_elem?-set_self w.subscriptions i s1 s h;
          channels = refl;
          others = λ j ne. get_elem?-set_ne w.subscriptions i j s1 ne;
        },
      )
