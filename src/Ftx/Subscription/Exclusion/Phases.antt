-- ===== src/Ftx/Subscription/Exclusion/Phases.antt =====
-- Who holds a channel over the turns of a subscription's coroutine:
-- src/vendor/ftx/upstream_subscription_impl.cpp.
use mathlib.Core.Option.{some-injective}
use boost_connector.Base.{
  ℕ, ◌++◌, ◌==◌, ◌∷◌, [], Text, true, false, Option, none, some, ◌≡◌, refl, sym, ap, subst, ◌∙◌,
  inl, inr, List, get_elem?, set, get_elem?-set_self, arith, if◌then◌else◌, Bool-cases,
  Option-cases, >>=-eq-some, All, All-append,
}
use boost_connector.Async.Latch.{is_set}
use boost_connector.Json.{Value}
use boost_connector.Ftx.Event.{ChannelMarketPair, connection_up, pair_eq_refl}
use boost_connector.Ftx.Machine
use boost_connector.Ftx.Channels.{
  ChannelState, ChannelStateMap, find, assign, located, locate_channel,
}
use boost_connector.Ftx.Channels.Laws.{find-assign}
use boost_connector.Ftx.Connector.{
  Connector, Subscription, created, waiting, holding, closing, abandoned, deliver, is_up,
}
use boost_connector.Ftx.Subscription.View.{Header, header, headers, SameView, guarded-SameView}
use boost_connector.Ftx.Subscription.{
  give_up, take_channel, close_down, await_stop, acquire, begin, remove,
}
use boost_connector.Ftx.Subscription.View.{At, header-At, headers-set}
use boost_connector.Ftx.Subscription.Tally.{one}
use boost_connector.Ftx.Subscription.Exclusion.{
  Exclusive, HasTopic, is_holder, is_next, is_acquired, waiters_of, successors, shift-Exclusive,
  assign-Exclusive,
}
use boost_connector.Ftx.Subscription.Exclusion.Moves.{take-Exclusive}
use boost_connector.Ftx.Subscription.Exclusion.Turns.{
  ExclusiveIn, SameView-Exclusive, phase-Exclusive, finish-Exclusive,
}

located-acquired :
    (k : ChannelMarketPair) (m : ChannelStateMap) → (located k m).acquired ≡ is_acquired (find k m)
unfolding located
located-acquired k m = ground arith

located-cv :
    (k : ChannelMarketPair) (m : ChannelStateMap) → (located k m).cv ≡ waiters_of (find k m)
unfolding located
located-cv k m = ground arith

-- A consumer that expresses interest changes nothing else.
located-Exclusive :
    (k : ChannelMarketPair) (m : ChannelStateMap) (hs : List Header)
    → Exclusive m hs
    → Exclusive (locate_channel k m) hs
unfolding locate_channel
located-Exclusive k m hs v =
    assign-Exclusive k (located k m) m hs (located-acquired k m)
      (subst (All (HasTopic k hs)) (sym (located-cv k m)) (v.parked k)) v

pub find-locate_channel :
    (k : ChannelMarketPair) (m : ChannelStateMap) → find k (locate_channel k m) ≡ some (located k m)
unfolding locate_channel
find-locate_channel k m = ground (arith, find-assign k k (located k m) m, pair_eq_refl k)

-- It then joins the waiters.
parked-Exclusive :
    (k : ChannelMarketPair) (i : ℕ) (c : ChannelState) (m : ChannelStateMap) (hs : List Header)
    → get_elem? hs i ≡ some (k, created)
    → c.acquired ≡ (located k m).acquired
    → c.cv ≡ (located k m).cv ++ i ∷ []
    → Exclusive m hs
    → Exclusive (assign k c (locate_channel k m)) (set hs i (k, waiting))
parked-Exclusive k i c m hs h same more v =
    let v1 =
      shift-Exclusive k created waiting i (locate_channel k m) hs h refl refl
        (located-Exclusive k m hs v) in
    let found = find-locate_channel k m in
    let own =
      subst (λ o. All (HasTopic k (set hs i (k, waiting))) (waiters_of o)) found (v1.parked k) in
    assign-Exclusive k c (locate_channel k m) (set hs i (k, waiting))
      (same ∙ ap is_acquired (sym found))
      (subst (All (HasTopic k (set hs i (k, waiting)))) (sym more) (
        All-append (HasTopic k (set hs i (k, waiting))) (located k m).cv (i ∷ []) own
          ((waiting, get_elem?-set_self hs i (k, waiting) (k, created) h), tt)))
      v1

All-remove : (P : ℕ → Type 0) (i : ℕ) (ns : List ℕ) → All P ns → All P (remove i ns)
unfolding remove
All-remove P i [] h = tt
All-remove P i (n ∷ ns) h = elim (Bool-cases (n == i)) [
  | inl same ↦ rw same (All-remove P i ns h.1)
  | inr other ↦ rw other (h.0, All-remove P i ns h.1)
]

module _ (serialize : Value → Text) (parse : Text → Option Value) where
  pub close_down-Exclusive :
      (i : ℕ) (s : Subscription) (w : Connector) {w' : Connector}
      → At w i s
      → is_holder s.phase ≡ true
      → is_next s.phase ≡ false
      → close_down serialize parse i s w ≡ some w'
      → ExclusiveIn w
      → ExclusiveIn w'
  unfolding close_down
  close_down-Exclusive i s w {w'} h held last e v =
      let m = Machine.close serialize (record (s.machine) { connection = w.connection }) in
      let s' = record s { phase = closing; machine = m } in
      let w1 = record w { connection = m.connection; subscriptions = set w.subscriptions i s' } in
      let v1 : ExclusiveIn w1 =
        subst (Exclusive w.channel_states) (sym (headers-set w i s'))
          (phase-Exclusive w i s closing h held last v) in
      elim (Bool-cases (is_set m.closed_latch)) [
        | inl ended ↦
            finish-Exclusive i s' w1 (get_elem?-set_self w.subscriptions i s' s h) refl
              (rw ended at e) v1
        | inr waits ↦ subst ExclusiveIn (some-injective _ _ (rw waits at e)) v1
      ]

  await_stop-Exclusive :
      (i : ℕ) (o : Option Subscription) (w : Connector) {w' : Connector}
      → get_elem? w.subscriptions i ≡ o
      → ((s : Subscription) → o ≡ some s → s.phase ≡ holding)
      → await_stop serialize parse i o w ≡ some w'
      → ExclusiveIn w
      → ExclusiveIn w'
  unfolding await_stop
  await_stop-Exclusive i none w h held e v = cc
  await_stop-Exclusive i (some s) w {w'} h held e v = elim (Bool-cases (is_set s.stop_latch)) [
    | inl stopped ↦
        close_down-Exclusive i s w h (ap is_holder (held s refl)) (ap is_next (held s refl))
          (rw stopped at e) v
    | inr waits ↦ subst ExclusiveIn (some-injective _ _ (rw waits at e)) v
  ]

  -- After the channel is taken and the machine told, the subscription still holds it.
  pub holds_after :
      (i : ℕ) (s s' : Subscription) (c : ChannelState) (w w' : Connector)
      → At w i s
      → SameView (take_channel i s c w) w'
      → At w' i s'
      → s'.phase ≡ holding
  holds_after i s s' c w w' h same there =
      let e : some (header s') ≡ some (s.topic, holding) =
        sym (header-At w' i s' there)
        ∙ ap (λ hs. get_elem? hs i) (same.1 ∙ headers-set w i _)
        ∙ get_elem?-set_self (headers w) i (s.topic, holding) (header s) (header-At w i s h) in
      ground arith

  -- A channel that is free, but for its successor, is acquired by it or where there is none.
  pub acquire-Exclusive :
      (i : ℕ) (s : Subscription) (w : Connector) {w' : Connector}
      → At w i s
      → is_holder s.phase ≡ false
      → is_acquired (find s.topic w.channel_states) ≡ false
      → successors s.topic (headers w) ≡ one (is_next s.phase)
      → acquire serialize parse i s w ≡ some w'
      → ExclusiveIn w
      → ExclusiveIn w'
  unfolding acquire
  acquire-Exclusive i s w {w'} h idle free last e v =
      let (c, found, rest) = >>=-eq-some (find s.topic w.channel_states) _ e in
      let w1 = take_channel i s c w in
      let (w2, told, end) =
        >>=-eq-some
          (if is_up w1 then deliver serialize parse (some i) connection_up w1 else some w1) _
          rest in
      let same = guarded-SameView serialize parse (is_up w1) (some i) connection_up w1 told in
      let taken : ExclusiveIn w1 = subst (Exclusive w1.channel_states) (sym (headers-set w i _)) (
        take-Exclusive s.topic s.phase i (record c { acquired = true; on_event = some i })
          w.channel_states (headers w) (header-At w i s h) idle free last refl
          (ap waiters_of (sym found)) v) in
      await_stop-Exclusive i (get_elem? w2.subscriptions i) w2 refl
        (λ s' there. holds_after i s s' c w w2 h same there) end
        (SameView-Exclusive w1 w2 same taken)

  -- A new subscription to a topic without successor.
  pub begin-Exclusive :
      (i : ℕ) (s : Subscription) (w : Connector) {w' : Connector}
      → At w i s
      → s.phase ≡ created
      → (is_acquired (find s.topic w.channel_states) ≡ false → successors s.topic (headers w) ≡ 0)
      → begin serialize parse i s w ≡ some w'
      → ExclusiveIn w
      → ExclusiveIn w'
  unfolding begin
  begin-Exclusive i s w {w'} h new calm e v =
      let there : get_elem? (headers w) i ≡ some (s.topic, created) =
        header-At w i s h ∙ ap (λ p. some (s.topic, p)) new in
      let v1 = located-Exclusive s.topic w.channel_states (headers w) v in
      elim (Bool-cases (located s.topic w.channel_states).acquired) [
        | inr free ↦
            acquire-Exclusive i s
              (record w { channel_states = locate_channel s.topic w.channel_states }) h
              (ap is_holder new)
              (ap is_acquired (find-locate_channel s.topic w.channel_states) ∙ free)
              (calm (sym (located-acquired s.topic w.channel_states) ∙ free)
                ∙ ap (λ p. one (is_next p)) (sym new))
              (rw free at e) v1
        | inl held ↦ elim (Bool-cases (is_set s.stop_latch)) [
          | inl stopped ↦ subst ExclusiveIn (some-injective _ _ (rw (held, stopped) at e)) (
              subst (Exclusive (locate_channel s.topic w.channel_states)) (sym (headers-set w i _))
                (shift-Exclusive s.topic created abandoned i _ (headers w) there refl refl v1))
          | inr waits ↦ subst ExclusiveIn (some-injective _ _ (rw (held, waits) at e)) (
              subst (Exclusive _) (sym (headers-set w i _)) (
                parked-Exclusive s.topic i
                  (record (located s.topic w.channel_states) {
                    acquired = true;
                    cv = (located s.topic w.channel_states).cv ++ i ∷ [];
                  })
                  w.channel_states (headers w) there (sym held) refl v))
        ]
      ]

  pub give_up-Exclusive :
      (i : ℕ) (s : Subscription) (w : Connector)
      → At w i s
      → s.phase ≡ waiting
      → ExclusiveIn w
      → ExclusiveIn (give_up i s w)
  unfolding give_up
  give_up-Exclusive i s w h waits v =
      let v1 = phase-Exclusive w i s abandoned h (ap is_holder waits) (ap is_next waits) v in
      elim (Option-cases (find s.topic w.channel_states)) [
        | inl gone ↦ rw gone (subst (Exclusive w.channel_states) (sym (headers-set w i _)) v1)
        | inr (c, found) ↦ rw found (
            subst (Exclusive _) (sym (headers-set w i _)) (
              assign-Exclusive s.topic _ w.channel_states _ (ap is_acquired (sym found))
                (All-remove (HasTopic s.topic (set (headers w) i (s.topic, abandoned))) i c.cv (
                  subst
                    (λ o.
                      All (HasTopic s.topic (set (headers w) i (s.topic, abandoned)))
                        (waiters_of o))
                    found (v1.parked s.topic)))
                v1))
      ]
