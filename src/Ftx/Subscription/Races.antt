-- ===== src/Ftx/Subscription/Races.antt =====
-- Two subscriptions to one topic that go on after its channel was released:
-- src/vendor/ftx/upstream_subscription_impl.cpp.
use boost_connector.Base.{
  ℕ, Text, true, false, Option, some, ◌≡◌, ◌≢◌, refl, sym, ap, ◌∙◌, [], ◌∷◌, get_elem?,
  get_elem?-set_self, get_elem?-set_ne, if_false,
}
use boost_connector.Async.Latch.{is_set}
use boost_connector.Json.{Value}
use boost_connector.Ftx.Event.{ChannelMarketPair, pair_eq_refl}
use boost_connector.Ftx.Connection
use boost_connector.Ftx.Channels.{
  ChannelState, ChannelStateMap, find, assign, located, locate_channel,
}
use boost_connector.Ftx.Channels.Laws.{find-assign}
use boost_connector.Ftx.Connector.{Connector, Subscription, Phase, created, woken, holding, is_up}
use boost_connector.Ftx.Subscription.{
  resumes, take_channel, await_stop, acquire, begin, resume_in, resume_found, resume, step, run,
}

pub find-assign_same :
    (k : ChannelMarketPair) (c : ChannelState) (m : ChannelStateMap)
    → find k (assign k c m) ≡ some c
find-assign_same k c m = find-assign k k c m ∙ rw (pair_eq_refl k)

module _ (serialize : Value → Text) (parse : Text → Option Value) where
  -- A free channel is taken at once while the connection is down and the subscription is not stopped.
  acquire_down :
      (i : ℕ) (s : Subscription) (c : ChannelState) (w : Connector)
      → get_elem? w.subscriptions i ≡ some s
      → find s.topic w.channel_states ≡ some c
      → Connection.is_up w.connection ≡ false
      → is_set s.stop_latch ≡ false
      → acquire serialize parse i s w ≡ some (take_channel i s c w)
  unfolding acquire await_stop is_up
  acquire_down i s c w h found offline unset =
      rw
        (
          found,
          offline,
          get_elem?-set_self w.subscriptions i (record s { phase = holding }) s h,
          unset,
        )
        refl

  -- The connector in which a new consumer has been counted.
  abbrev counted : Subscription → Connector → Connector
  counted s w = record w { channel_states = locate_channel s.topic w.channel_states }

  begin_down :
      (i : ℕ) (s : Subscription) (c : ChannelState) (w : Connector)
      → get_elem? w.subscriptions i ≡ some s
      → find s.topic w.channel_states ≡ some c
      → c.acquired ≡ false
      → Connection.is_up w.connection ≡ false
      → is_set s.stop_latch ≡ false
      → begin serialize parse i s w
        ≡ some (take_channel i s (located s.topic w.channel_states) (counted s w))
  unfolding begin locate_channel
  begin_down i s c w h found free offline unset =
      let unheld : (located s.topic w.channel_states).acquired ≡ false =
        unfold located in rw found free in
      if_false _ _ _ unheld
      ∙ acquire_down i s (located s.topic w.channel_states) (counted s w) h
          (find-assign_same s.topic (located s.topic w.channel_states) w.channel_states) offline
          unset

  pub resume_phase :
      (p : Phase) (i : ℕ) (s : Subscription) (w : Connector)
      → get_elem? w.subscriptions i ≡ some s
      → s.phase ≡ p
      → resume serialize parse i w ≡ resume_in serialize parse p i s w
  unfolding resume resume_found
  resume_phase p i s w h e = rw h (ap (λ q. resume_in serialize parse q i s w) e)

  -- After the release of a channel, while the waiter that the release has woken has not gone on yet, another
  -- subscription to the topic that begins takes the channel; and then the waiter takes it too. Both hold it,
  -- where neither is stopped and the connection is down.
  pub run-both_hold :
      (i j : ℕ) (s t : Subscription) (c : ChannelState) (w : Connector)
      → i ≢ j
      → get_elem? w.subscriptions i ≡ some s
      → get_elem? w.subscriptions j ≡ some t
      → s.phase ≡ created
      → t.phase ≡ woken
      → t.topic ≡ s.topic
      → find s.topic w.channel_states ≡ some c
      → c.acquired ≡ false
      → is_set s.stop_latch ≡ false
      → is_set t.stop_latch ≡ false
      → Connection.is_up w.connection ≡ false
      → (w' : Connector) × (run serialize parse (resumes i ∷ resumes j ∷ []) w ≡ some w')
        × (get_elem? w'.subscriptions i ≡ some (record s { phase = holding }))
        × (get_elem? w'.subscriptions j ≡ some (record t { phase = holding }))
  unfolding run step resume_in
  run-both_hold i j s t c w ne hi hj ps pt same found free us ut offline =
      let c1 = located s.topic w.channel_states in
      let s1 = record s { phase = holding } in
      let t1 = record t { phase = holding } in
      let c2 : ChannelState = record c1 { acquired = true; on_event = some i } in
      let w1 = take_channel i s c1 (counted s w) in
      let first : resume serialize parse i w ≡ some w1 =
        resume_phase created i s w hi ps ∙ begin_down i s c w hi found free offline us in
      let there : get_elem? w1.subscriptions j ≡ some t =
        get_elem?-set_ne w.subscriptions i j s1 ne ∙ hj in
      let taken : find t.topic w1.channel_states ≡ some c2 =
        ap (λ k. find k w1.channel_states) same
        ∙ find-assign_same s.topic c2 (locate_channel s.topic w.channel_states) in
      let w2 = take_channel j t c2 w1 in
      let second : resume serialize parse j w1 ≡ some w2 =
        resume_phase woken j t w1 there pt ∙ acquire_down j t c2 w1 there taken offline ut in
      (
        w2,
        rw (first, second) refl,
        get_elem?-set_ne w1.subscriptions j i t1 (λ e. ne (sym e))
            ∙ get_elem?-set_self w.subscriptions i s1 s hi,
        get_elem?-set_self w1.subscriptions j t1 t there,
      )
