-- ===== src/Ftx/Subscription/Exclusion/History.antt =====
-- Who holds a channel along histories of the connector in which no subscription begins between the wake-up
-- of a waiter of its channel and that waiter's next turn:
-- src/vendor/ftx/upstream_subscription_impl.cpp.
use mathlib.Core.Option.{some-injective}
use mathlib.Core.List.{map-append}
use boost_connector.Base.{
  ℕ, ◌||◌, ◌==◌, ==_iff, Bool, true, false, Text, Option, none, some, ◌≡◌, refl, sym, ap, subst,
  ◌∙◌, inl, inr, List, get_elem?, set_self, Bool-cases, arith,
}
use boost_connector.Async.Latch.{is_set}
use boost_connector.Json.{Value}
use boost_connector.Ftx.Event.{ChannelMarketPair}
use boost_connector.Ftx.Channels.{ChannelStateMap, find}
use boost_connector.Ftx.Connector.{
  Connector, Subscription, Phase, created, waiting, woken, holding, closing, finished, abandoned,
}
use boost_connector.Ftx.Subscription.View.{
  Header, header, headers, read_state-SameView, notify_connection_state-SameView,
}
use boost_connector.Ftx.Subscription.{
  make, resume, resume_in, resume_found, stop, stop_found, step, Action, starts, stops, resumes,
  reads, notifies, drops,
}
use boost_connector.Ftx.Subscription.Tally.{one, tally-get_elem?}
use boost_connector.Ftx.Subscription.View.{At, header-At, headers-set}
use boost_connector.Ftx.Subscription.Exclusion.{
  Exclusive, is_holder, is_next, is_acquired, successors, enrol-Exclusive,
}
use boost_connector.Ftx.Subscription.Exclusion.Turns.{
  ExclusiveIn, SameView-Exclusive, finish-Exclusive,
}
use boost_connector.Ftx.Subscription.Exclusion.Phases.{
  close_down-Exclusive, acquire-Exclusive, begin-Exclusive, give_up-Exclusive,
}

-- A turn that does not overtake a waiter which has been woken: a new subscription only begins where its
-- channel is held, or has no successor.
abbrev calm_in : Phase → ChannelMarketPair → Connector → Bool
calm_in created k w = is_acquired (find k w.channel_states) || (successors k (headers w) == 0)
calm_in _ k w = true

abbrev calm_found : Option Subscription → Connector → Bool
calm_found none w = true
calm_found (some s) w = calm_in s.phase s.topic w

abbrev pub calm : Action → Connector → Bool
calm (resumes i) w = calm_found (get_elem? w.subscriptions i) w
calm _ w = true

-- The histories of the connector without such an overtaking.
pub data CalmRun (serialize : Value → Text) (parse : Text → Option Value)
    : Connector → Connector → Type 0 where
  done : {w : Connector} → CalmRun serialize parse w w
  next :
      (a : Action) {w : Connector} {w1 : Connector} {w2 : Connector}
      → calm a w ≡ true
      → step serialize parse a w ≡ some w1
      → CalmRun serialize parse w1 w2
      → CalmRun serialize parse w w2

-- A successor is the only one, and its channel is free.
successor-alone :
    (k : ChannelMarketPair) (p : Phase) (i : ℕ) (m : ChannelStateMap) (hs : List Header)
    → get_elem? hs i ≡ some (k, p)
    → is_next p ≡ true
    → Exclusive m hs
    → (is_acquired (find k m) ≡ false) × (successors k hs ≡ 1)
successor-alone k p i m hs h last v =
    let there = tally-get_elem? is_next k p hs i h last in
    (ground (arith, v.single k, v.exact k), omega (arith, v.single k))

vacant_or_held : (b : Bool) (n : ℕ) → (b || (n == 0)) ≡ true → b ≡ false → n ≡ 0
vacant_or_held b n h free = ground (arith, ==_iff n 0)

module _ (serialize : Value → Text) (parse : Text → Option Value) where
  resume_in-Exclusive :
      (p : Phase) (i : ℕ) (s : Subscription) (w : Connector) {w' : Connector}
      → At w i s
      → s.phase ≡ p
      → calm_in p s.topic w ≡ true
      → resume_in serialize parse p i s w ≡ some w'
      → ExclusiveIn w
      → ExclusiveIn w'
  unfolding resume_in
  resume_in-Exclusive created i s w h at c e v =
      begin-Exclusive serialize parse i s w h at (vacant_or_held _ _ c) e v
  resume_in-Exclusive waiting i s w {w'} h at c e v = elim (Bool-cases (is_set s.stop_latch)) [
    | inl stopped ↦
        subst ExclusiveIn (some-injective _ _ (rw stopped at e))
          (give_up-Exclusive serialize parse i s w h at v)
    | inr waits ↦ subst ExclusiveIn (some-injective _ _ (rw waits at e)) v
  ]
  resume_in-Exclusive woken i s w h at c e v =
      let (free, last) =
        successor-alone s.topic s.phase i w.channel_states (headers w) (header-At w i s h)
          (ap is_next at) v in
      acquire-Exclusive serialize parse i s w h (ap is_holder at) free
        (last ∙ ap (λ q. one (is_next q)) (sym at)) e v
  resume_in-Exclusive holding i s w {w'} h at c e v = elim (Bool-cases (is_set s.stop_latch)) [
    | inl stopped ↦
        close_down-Exclusive serialize parse i s w h (ap is_holder at) (ap is_next at)
          (rw stopped at e) v
    | inr waits ↦ subst ExclusiveIn (some-injective _ _ (rw waits at e)) v
  ]
  resume_in-Exclusive closing i s w {w'} h at c e v =
      elim (Bool-cases (is_set s.machine.closed_latch)) [
        | inl ended ↦ finish-Exclusive i s w h (ap is_holder at) (rw ended at e) v
        | inr waits ↦ subst ExclusiveIn (some-injective _ _ (rw waits at e)) v
      ]
  resume_in-Exclusive finished i s w h at c e v = subst ExclusiveIn (some-injective _ _ e) v
  resume_in-Exclusive abandoned i s w h at c e v = subst ExclusiveIn (some-injective _ _ e) v

  resume_found-Exclusive :
      (i : ℕ) (o : Option Subscription) (w : Connector) {w' : Connector}
      → get_elem? w.subscriptions i ≡ o
      → calm_found o w ≡ true
      → resume_found serialize parse i o w ≡ some w'
      → ExclusiveIn w
      → ExclusiveIn w'
  unfolding resume_found
  resume_found-Exclusive i none w h c e v = subst ExclusiveIn (some-injective _ _ e) v
  resume_found-Exclusive i (some s) w h c e v = resume_in-Exclusive s.phase i s w h refl c e v

  stop_found-Exclusive :
      (i : ℕ) (o : Option Subscription) (w : Connector)
      → get_elem? w.subscriptions i ≡ o
      → ExclusiveIn w
      → ExclusiveIn (stop_found i o w)
  unfolding stop_found
  stop_found-Exclusive i none w h v = v
  stop_found-Exclusive i (some s) w h v =
      subst (Exclusive w.channel_states)
        (sym (headers-set w i _ ∙ set_self (headers w) i (header s) (header-At w i s h))) v

  step-Exclusive :
      (a : Action) (w : Connector) {w' : Connector}
      → calm a w ≡ true
      → step serialize parse a w ≡ some w'
      → ExclusiveIn w
      → ExclusiveIn w'
  unfolding step resume stop make
  step-Exclusive (starts k) w c e v = subst ExclusiveIn (some-injective _ _ e) (
      subst (Exclusive w.channel_states) (sym (map-append _ w.subscriptions _))
        (enrol-Exclusive k w.channel_states (headers w) v))
  step-Exclusive (stops i) w c e v =
      subst ExclusiveIn (some-injective _ _ e) (stop_found-Exclusive i _ w refl v)
  step-Exclusive (resumes i) w c e v = resume_found-Exclusive i _ w refl c e v
  step-Exclusive (reads r) w {w'} c e v =
      SameView-Exclusive w w' (read_state-SameView serialize parse r w e) v
  step-Exclusive (notifies s) w {w'} c e v =
      SameView-Exclusive w w' (notify_connection_state-SameView serialize parse s w e) v
  step-Exclusive drops w c e v = subst ExclusiveIn (some-injective _ _ e) v

  -- From a connector in which at most one subscription per topic holds its channel or is woken for it, and
  -- `acquired` says which channels are held, every history of actions that do not fault leads to such a
  -- connector, if no new subscription begins on a free channel while a waiter of that channel is woken and
  -- has not had its turn.
  pub CalmRun-Exclusive :
      (w w' : Connector) → CalmRun serialize parse w w' → ExclusiveIn w → ExclusiveIn w'
  CalmRun-Exclusive w w' done v = v
  CalmRun-Exclusive w w' (next a {w1 = w1} c e rest) v =
      CalmRun-Exclusive w1 w' rest (step-Exclusive a w c e v)
