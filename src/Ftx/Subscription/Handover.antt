-- ===== src/Ftx/Subscription/Handover.antt =====
-- A channel that passes from a subscription that ends to the first that waits for it:
-- src/vendor/ftx/upstream_subscription_impl.cpp.
use boost_connector.Base.{
  ℕ, Text, ◌<◌, ◌==◌, ==_iff, true, false, Option, none, some, ◌≡◌, ◌≢◌, refl, sym, ap, ◌∙◌, inl,
  inr, List, [], ◌∷◌, get_elem?, set, get_elem?-set_self, get_elem?-set_ne, if◌then◌else◌, arith,
  Bool-cases, Option-cases,
}
use boost_connector.Async.Latch.{is_set}
use boost_connector.Json.{Value}
use boost_connector.Ftx.Event
use boost_connector.Ftx.Event.{ChannelMarketPair, connection_up, pair_eq_refl}
use boost_connector.Ftx.Connection
use boost_connector.Ftx.Machine
use boost_connector.Ftx.Machine.{StateMachine, process_event, process_down_event}
use boost_connector.Ftx.Channels.{ChannelState, find, assign, first_waiter}
use boost_connector.Ftx.Channels.Laws.{NoDuplicates, release_channel-find, left_by, released}
use boost_connector.Ftx.Connector.{
  Connector, Subscription, waiting, woken, holding, closing, finished, deliver, set_machine, is_up,
}
use boost_connector.Ftx.Subscription.View.{At}
use boost_connector.Ftx.Subscription.{
  set_subscription, wake, wake_one, finish, resumes, take_channel, await_stop, acquire, resume_in,
  resume, step, run,
}
use boost_connector.Ftx.Subscription.Races.{find-assign_same, resume_phase}

-- The channel after its release by one of several consumers.
released_last : (c : ChannelState) → 1 < c.interest → left_by c ≡ some (released c)
released_last c h = ground (arith, ==_iff c.interest 1)

-- The channel when its first waiter has taken it.
abbrev pub passed_to : ℕ → ChannelState → ChannelState
passed_to j c = record (released c) { acquired = true; on_event = some j }

module _ (serialize : Value → Text) (parse : Text → Option Value) where
  -- A machine that has not begun accepts the news that the connector is up.
  begins_up :
      (m : StateMachine)
      → m.state ≡ Machine.down
      → Connection.is_up m.connection ≡ true
      → (m' : StateMachine) × (process_event serialize connection_up m ≡ some m')
  unfolding process_event process_down_event Event.is_up
  begins_up m h up_ = elim (Option-cases (process_event serialize connection_up m)) [
    | inr accepted ↦ accepted
    | inl refused ↦ absurd (ground arith)
  ]

  -- The subscription after it has taken its channel.
  record Taken (i : ℕ) (s : Subscription) (c : ChannelState) (w w' : Connector) : Type 0 where
    machine : StateMachine
    there : At w' i (record s { phase = holding; machine = machine })
    channels : w'.channel_states ≡ (take_channel i s c w).channel_states
    others : (j : ℕ) → i ≢ j → get_elem? w'.subscriptions j ≡ get_elem? w.subscriptions j

  -- A subscription whose machine has not begun, and which is not stopped, takes its channel.
  acquire-Taken :
      (i : ℕ) (s : Subscription) (c : ChannelState) (w : Connector)
      → At w i s
      → find s.topic w.channel_states ≡ some c
      → s.machine.state ≡ Machine.down
      → is_set s.stop_latch ≡ false
      → (w' : Connector) × (acquire serialize parse i s w ≡ some w') × Taken i s c w w'
  unfolding acquire await_stop is_up deliver
  acquire-Taken i s c w h found idle unset =
      let s1 = record s { phase = holding } in
      let w1 = take_channel i s c w in
      let at1 : At w1 i s1 = get_elem?-set_self w.subscriptions i s1 s h in
      elim (Bool-cases (Connection.is_up w.connection)) [
        | inr offline ↦ (
          w1,
          rw (found, offline, at1, unset) refl,
          record {
            machine = s.machine;
            there = at1;
            channels = refl;
            others = λ j ne. get_elem?-set_ne w.subscriptions i j s1 ne;
          },
        )
        | inl online ↦
            let (m, accepted) =
              begins_up (record (s.machine) { connection = w.connection }) idle online in
            let s2 = record s1 { machine = m } in
            let at2 : get_elem? (set w1.subscriptions i s2) i ≡ some s2 =
              get_elem?-set_self w1.subscriptions i s2 s1 at1 in
            (
              set_machine i s1 m w1,
              rw (found, online, at1, accepted, at2, unset) refl,
              record {
                machine = m;
                there = at2;
                channels = refl;
                others = λ j ne.
                    get_elem?-set_ne w1.subscriptions i j s2 ne
                    ∙ get_elem?-set_ne w.subscriptions i j s1 ne;
              },
            )
      ]

  -- The turn of a subscription whose machine is closed, with a waiter for its channel.
  finish-woken :
      (i j : ℕ) (js : List ℕ) (s t : Subscription) (c : ChannelState) (w : Connector)
      → i ≢ j
      → At w i s
      → At w j t
      → t.phase ≡ waiting
      → is_set t.stop_latch ≡ false
      → NoDuplicates w.channel_states
      → find s.topic w.channel_states ≡ some c
      → c.acquired ≡ true
      → c.cv ≡ j ∷ js
      → 1 < c.interest
      → (w' : Connector) × (finish i s w ≡ some w')
        × At w' i (record s { phase = finished })
        × At w' j (record t { phase = woken })
        × (find s.topic w'.channel_states ≡ some (released c))
  unfolding finish wake wake_one
  finish-woken i j js s t c w ne hi hj pt ut d found held queue more =
      let (m', released_, after) =
        release_channel-find s.topic c w.channel_states d found held (omega arith) in
      let woken_next : (if c.interest == 1 then none else first_waiter c.cv) ≡ some j =
        ground (arith, ==_iff c.interest 1, ap first_waiter queue) in
      let s1 = record s { phase = finished } in
      let t1 = record t { phase = woken } in
      let w0 = record w { channel_states = m'; subscriptions = set w.subscriptions i s1 } in
      let there : At w0 j t = get_elem?-set_ne w.subscriptions i j s1 ne ∙ hj in
      let ends : finish i s w ≡ some (wake (some j) w0) =
        rw (released_ ∙ ap (λ o. some (m', o)) woken_next) refl in
      (
        set_subscription j t1 w0,
        ends ∙ rw (there, pt, ut) refl,
        get_elem?-set_ne w0.subscriptions j i t1 (λ e. ne (sym e))
            ∙ get_elem?-set_self w.subscriptions i s1 s hi,
        get_elem?-set_self w0.subscriptions j t1 t there,
        after s.topic ∙ rw (pair_eq_refl s.topic) (released_last c more),
      )

  -- A subscription whose machine is closed releases its channel at its next turn, and the first that waits
  -- for the channel holds it after its own next turn, with one consumer less; neither turn faults, where the
  -- waiter is not stopped and its machine has not begun, whether the connection is up or down.
  pub run-passed_to :
      (i j : ℕ) (js : List ℕ) (s t : Subscription) (c : ChannelState) (w : Connector)
      → i ≢ j
      → At w i s
      → At w j t
      → s.phase ≡ closing
      → is_set s.machine.closed_latch ≡ true
      → t.phase ≡ waiting
      → is_set t.stop_latch ≡ false
      → t.machine.state ≡ Machine.down
      → t.topic ≡ s.topic
      → NoDuplicates w.channel_states
      → find s.topic w.channel_states ≡ some c
      → c.acquired ≡ true
      → c.cv ≡ j ∷ js
      → 1 < c.interest
      → (w' : Connector) × (run serialize parse (resumes i ∷ resumes j ∷ []) w ≡ some w')
        × At w' i (record s { phase = finished })
        × ((m : StateMachine) × At w' j (record t { phase = holding; machine = m }))
        × (find s.topic w'.channel_states ≡ some (passed_to j c))
  unfolding run step resume_in
  run-passed_to i j js s t c w ne hi hj ps closed_ pt ut idle same d found held queue more =
      let (w1, ends, at_i, at_j, free) =
        finish-woken i j js s t c w ne hi hj pt ut d found held queue more in
      let first : resume serialize parse i w ≡ some w1 =
        resume_phase serialize parse closing i s w hi ps ∙ rw closed_ ends in
      let t1 = record t { phase = woken } in
      let (w2, taken, after) =
        acquire-Taken j t1 (released c) w1 at_j (ap (λ k. find k w1.channel_states) same ∙ free)
          idle ut in
      let second : resume serialize parse j w1 ≡ some w2 =
        resume_phase serialize parse woken j t1 w1 at_j refl ∙ taken in
      (
        w2,
        rw (first, second) refl,
        after.others i (λ e. ne (sym e)) ∙ at_i,
        (after.machine, after.there),
        ap (find s.topic) after.channels
            ∙ ap (λ k. find s.topic (assign k (passed_to j c) w1.channel_states)) same
            ∙ find-assign_same s.topic (passed_to j c) w1.channel_states,
      )
