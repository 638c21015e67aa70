-- ===== src/Ftx/Subscription/Exclusion/Turns.antt =====
-- Who holds a channel at the end of a subscription, and at the wake-up of the next:
-- src/vendor/ftx/upstream_subscription_impl.cpp.
use mathlib.Core.Option.{some-injective}
use boost_connector.Base.{
  ℕ, ◌+◌, true, false, Option, none, some, ◌≡◌, refl, sym, ap, subst, ◌∙◌, inl, inr, get_elem?, set,
  Bool-cases, Option-cases, >>=-eq-some, All,
}
use boost_connector.Async.Latch.{is_set}
use boost_connector.Ftx.Event.{ChannelMarketPair}
use boost_connector.Ftx.Channels.{release_channel}
use boost_connector.Ftx.Connector.{Connector, Subscription, Phase, waiting, finished}
use boost_connector.Ftx.Subscription.View.{headers, SameView}
use boost_connector.Ftx.Subscription.{wake, wake_one, is_waiting, finish}
use boost_connector.Ftx.Subscription.View.{At, header-At, headers-set}
use boost_connector.Ftx.Subscription.Exclusion.{
  Exclusive, HasTopic, is_holder, is_next, holders, successors, shift-Exclusive,
}
use boost_connector.Ftx.Subscription.Exclusion.Moves.{
  promote-Exclusive, release-Exclusive, gone-vacant, listed,
}

abbrev pub ExclusiveIn : Connector → Type 0
ExclusiveIn w = Exclusive w.channel_states (headers w)

pub SameView-Exclusive : (w w' : Connector) → SameView w w' → ExclusiveIn w → ExclusiveIn w'
SameView-Exclusive w w' same v =
    subst (λ m. Exclusive m (headers w')) (sym same.0)
      (subst (Exclusive w.channel_states) (sym same.1) v)

pub phase-Exclusive :
    (w : Connector) (i : ℕ) (s : Subscription) (p : Phase)
    → At w i s
    → is_holder s.phase ≡ is_holder p
    → is_next s.phase ≡ is_next p
    → ExclusiveIn w
    → Exclusive w.channel_states (set (headers w) i (s.topic, p))
phase-Exclusive w i s p h same_holder same_next v =
    shift-Exclusive s.topic s.phase p i w.channel_states (headers w) (header-At w i s h) same_holder
      same_next v

is_waiting-idle : (p : Phase) → is_waiting p ≡ true → is_holder p ≡ false
is_waiting-idle waiting h = refl
is_waiting-idle _ h = cc

-- The header at a place where the topic is known.
HasTopic-At :
    (k : ChannelMarketPair) (w : Connector) (j : ℕ) (s : Subscription)
    → At w j s
    → HasTopic k (headers w) j
    → s.topic ≡ k
HasTopic-At k w j s h (p, t) = ap (λ x. x.0) (some-injective _ _ (sym (header-At w j s h) ∙ t))

woken-Exclusive :
    (k : ChannelMarketPair) (j : ℕ) (s : Subscription) (w : Connector)
    → At w j s
    → s.topic ≡ k
    → holders k (headers w) + successors k (headers w) ≡ 0
    → ExclusiveIn w
    → ExclusiveIn (wake_one j (some s) w)
unfolding wake_one
woken-Exclusive k j s w h same vacant v = elim (Bool-cases (is_waiting s.phase)) [
  | inr busy ↦ rw busy v
  | inl waits ↦ elim (Bool-cases (is_set s.stop_latch)) [
    | inl stopped ↦ rw (waits, stopped) v
    | inr open_ ↦
        rw (waits, open_)
          (subst (Exclusive w.channel_states) (sym (headers-set w j _)) (
            promote-Exclusive s.topic s.phase j w.channel_states (headers w) (header-At w j s h)
              (is_waiting-idle s.phase waits)
              (subst (λ l. holders l (headers w) + successors l (headers w) ≡ 0) (sym same) vacant)
              v))
  ]
]

wake-Exclusive :
    (k : ChannelMarketPair) (o : Option ℕ) (w : Connector)
    → All (HasTopic k (headers w)) (listed o)
    → holders k (headers w) + successors k (headers w) ≡ 0
    → ExclusiveIn w
    → ExclusiveIn (wake o w)
unfolding wake
wake-Exclusive k none w t vacant v = v
wake-Exclusive k (some j) w t vacant v = elim (Option-cases (get_elem? w.subscriptions j)) [
  | inl gone ↦ rw (gone, wake_one) v
  | inr (s, there) ↦
      rw there (woken-Exclusive k j s w there (HasTopic-At k w j s there t.0) vacant v)
]

pub finish-Exclusive :
    (i : ℕ) (s : Subscription) (w : Connector) {w' : Connector}
    → At w i s
    → is_holder s.phase ≡ true
    → finish i s w ≡ some w'
    → ExclusiveIn w
    → ExclusiveIn w'
unfolding finish
finish-Exclusive i s w {w'} h held e v =
    let (r, released, rest) = >>=-eq-some (release_channel s.topic w.channel_states) _ e in
    let there = header-At w i s h in
    let moved = sym (headers-set w i (record s { phase = finished })) in
    let (kept, first) =
      release-Exclusive i s.topic s.phase w.channel_states (headers w) r there held released v in
    subst ExclusiveIn (some-injective _ _ rest) (
      wake-Exclusive s.topic r.1 _
        (subst (λ hs. All (HasTopic s.topic hs) (listed r.1)) moved first)
        (subst (λ hs. holders s.topic hs + successors s.topic hs ≡ 0) moved
          (gone-vacant s.topic s.phase i w.channel_states (headers w) there held v))
        (subst (Exclusive r.0) moved kept))
