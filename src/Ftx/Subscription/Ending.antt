-- ===== src/Ftx/Subscription/Ending.antt =====
-- A subscription from its stop to the next holder of its channel:
-- src/vendor/ftx/upstream_subscription_impl.cpp.
pub mod Steps
use boost_connector.Ftx.Subscription.{Connection}
use boost_connector.Base.{
  ℕ, Text, codes, text_eq, ◌<◌, true, false, Option, some, ◌≡◌, ◌≢◌, refl, sym, ap, subst, ◌∙◌, inr,
  List, [], ◌∷◌, get_elem?, set, get_elem?-set_self, get_elem?-set_ne, arith, >>=-eq-some,
}
use boost_connector.Async.Latch
use boost_connector.Async.Latch.{is_set, AsyncLatch}
use mathlib.Core.Option.{some-injective}
use boost_connector.Json.{Value, Fields, if_object, if_string, if_contains}
use boost_connector.Ftx.Event.{ChannelMarketPair, ChannelEvent, response, get_response}
use boost_connector.Ftx.Machine
use boost_connector.Ftx.Machine.{
  StateMachine, process_event, typed_response, enter_closed_state, enter_closing_state,
}
use boost_connector.Ftx.Machine.Closing.{Ends, closing-Ends}
use boost_connector.Ftx.Channels.{ChannelState, find}
use boost_connector.Ftx.Channels.Laws.{NoDuplicates}
use boost_connector.Ftx.Connector.{
  Connector, Subscription, waiting, holding, closing, finished, deliver, set_machine, text,
  read_state, dispatch_frame, parse_frame, frame_index,
}
use boost_connector.Ftx.Subscription.View.{At}
use boost_connector.Ftx.Subscription.{
  stops, resumes, reads, stop, stop_found, close_down, resume_in, resume, step, run,
}
use boost_connector.Ftx.Subscription.Races.{resume_phase}
use boost_connector.Ftx.Subscription.Handover.{passed_to, run-passed_to}
use boost_connector.Ftx.Subscription.Wiring.Delivery.{dispatch_index-deliver}
use boost_connector.Ftx.Subscription.Ending.Steps.{
  Confirms, Asked, Ended, stopped_, asked, stops-Asked, reads-Ended,
}

module _ (serialize : Value → Text) (parse : Text → Option Value) where
  -- The subscription that holds a channel, with an open machine, is asked to stop. Once the confirmation of
  -- its unsubscription has been read, its next turn ends it and releases the channel, and the first that waits
  -- for the channel holds it after its own next turn, with one consumer less, and none of these faults. The
  -- waiter is not stopped, its machine has not begun, and the channel calls back its holder.
  pub run-Confirms :
      (i j : ℕ) (js : List ℕ) (s t : Subscription) (c : ChannelState) (x : Text) (w : Connector)
      → i ≢ j
      → At w i s
      → At w j t
      → s.phase ≡ holding
      → s.machine.state ≡ Machine.opened
      → s.machine.close_requested ≡ false
      → is_set s.machine.closed_latch ≡ false
      → t.phase ≡ waiting
      → is_set t.stop_latch ≡ false
      → t.machine.state ≡ Machine.down
      → t.topic ≡ s.topic
      → NoDuplicates w.channel_states
      → find s.topic w.channel_states ≡ some c
      → c.acquired ≡ true
      → c.on_event ≡ some i
      → c.cv ≡ j ∷ js
      → 1 < c.interest
      → Confirms parse s.topic x
      → (w' : Connector) × (run serialize parse
            (stops i ∷ resumes i ∷ reads (text x) ∷ resumes i ∷ resumes j ∷ [])
            w
          ≡ some w')
        × ((s' : Subscription) × At w' i s' × (s'.phase ≡ finished))
        × ((m : StateMachine) × At w' j (record t { phase = holding; machine = m }))
        × (find s.topic w'.channel_states ≡ some (passed_to j c))
  unfolding run step enter_closing_state
  run-Confirms i j js s t c x w ne hi hj ps opened_ fresh unset pt ut idle same d found held set_
        queue more f =
      let (w1, asks, a) = stops-Asked serialize parse i s w hi ps opened_ fresh unset in
      let s1 = record (stopped_ serialize parse s) {
        phase = closing;
        machine = asked serialize parse (record (s.machine) { connection = a.connection });
      } in
      let (w2, reads_, b) =
        reads-Ended serialize parse i s1 c x w1 a.there refl f
          (ap (find s.topic) a.channels ∙ found) held set_ in
      let kept = b.channels ∙ a.channels in
      let s2 = record s1 { machine = b.machine } in
      let (w3, ran, at_i, at_j, passed) =
        run-passed_to serialize parse i j js s2 t c w2 ne b.there
          (b.others j ne ∙ a.others j ne ∙ hj) refl b.latched pt ut idle same
          (subst NoDuplicates (sym kept) d) (ap (find s.topic) kept ∙ found) held queue more in
      (w3, rw (asks, reads_) ran, (record s2 { phase = finished }, at_i, refl), at_j, passed)
