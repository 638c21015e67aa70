-- ===== src/Ftx/Subscription/Protocol/Refines.antt =====
-- The actions of a connector as moves of the protocol:
-- src/vendor/ftx/upstream_subscription_impl.cpp.
use boost_connector.Base.{List}
use mathlib.Core.List.{map-append}
use mathlib.Core.Option.{some-injective}
use boost_connector.Base.{
  ℕ, Text, set_self, if_true, if_false, Option, none, some, ◌≡◌, refl, sym, subst, ◌∙◌, inl, inr,
  [], ◌∷◌, ◌++◌, get_elem?, set, get_elem?-set_self, if◌then◌else◌, Bool-cases, >>=-eq-some,
}
use boost_connector.Async.Latch.{is_set}
use boost_connector.Json.{Value}
use boost_connector.Ftx.Event.{connection_up}
use boost_connector.Ftx.Machine
use boost_connector.Ftx.Channels.{ChannelState, find, assign, located, locate_channel}
use boost_connector.Ftx.Connector.{
  Connector, Subscription, Phase, created, waiting, woken, holding, closing, finished, abandoned,
  deliver, is_up,
}
use boost_connector.Ftx.Subscription.View.{
  header, headers, guarded-SameView, read_state-SameView, notify_connection_state-SameView,
}
use boost_connector.Ftx.Subscription.{
  take_channel, close_down, await_stop, acquire, begin, make, resume, resume_in, resume_found, stop,
  stop_found, step, Action, starts, stops, resumes, reads, notifies, drops, run,
}
use boost_connector.Ftx.Subscription.View.{At, header-At, headers-set}
use boost_connector.Ftx.Subscription.Exclusion.Phases.{holds_after, find-locate_channel}
use boost_connector.Ftx.Subscription.Protocol.Turns.{
  Move-Refines, SameView-Refines, Refines-trans, header-phase, finish-Refines, give_up-Refines,
}
use boost_connector.Ftx.Subscription.Protocol.{
  stays, Refines, enrols, waits, gives_up_at_once, takes, takes_over, closes, joined_by,
}

module _ (serialize : Value → Text) (parse : Text → Option Value) where
  close_down-Refines :
      (i : ℕ) (s : Subscription) (w : Connector) {w' : Connector}
      → At w i s
      → s.phase ≡ holding
      → close_down serialize parse i s w ≡ some w'
      → Refines w w'
  unfolding close_down
  close_down-Refines i s w {w'} h at e =
      let m = Machine.close serialize (record (s.machine) { connection = w.connection }) in
      let s' = record s { phase = closing; machine = m } in
      let w1 = record w { connection = m.connection; subscriptions = set w.subscriptions i s' } in
      let first : Refines w w1 =
        Move-Refines w w1 _ (closes i s.topic (header-phase w i s holding h at))
          (sym (headers-set w i s')) in
      elim (Bool-cases (is_set m.closed_latch)) [
        | inl ended ↦ Refines-trans w w1 w' first (
            finish-Refines i s' w1 (get_elem?-set_self w.subscriptions i s' s h) refl
              (rw ended at e))
        | inr waits_ ↦ subst (Refines w) (some-injective _ _ (rw waits_ at e)) first
      ]

  await_stop-Refines :
      (i : ℕ) (o : Option Subscription) (w : Connector) {w' : Connector}
      → get_elem? w.subscriptions i ≡ o
      → ((s : Subscription) → o ≡ some s → s.phase ≡ holding)
      → await_stop serialize parse i o w ≡ some w'
      → Refines w w'
  unfolding await_stop
  await_stop-Refines i none w h held e = cc
  await_stop-Refines i (some s) w h held e = elim (Bool-cases (is_set s.stop_latch)) [
    | inl stopped ↦ close_down-Refines i s w h (held s refl) (rw stopped at e)
    | inr waits_ ↦ subst (Refines w) (some-injective _ _ (rw waits_ at e)) stays
  ]

  -- What follows the acquisition of a channel, from a connector with the moves before it.
  acquired-Refines :
      (i : ℕ) (s : Subscription) (c : ChannelState) (w0 w : Connector) {w' : Connector}
      → At w i s
      → Refines w0 (take_channel i s c w)
      → find s.topic w.channel_states ≡ some c
      → acquire serialize parse i s w ≡ some w'
      → Refines w0 w'
  unfolding acquire
  acquired-Refines i s c w0 w {w'} h before found e =
      let w1 = take_channel i s c w in
      let (w2, told, end) =
        >>=-eq-some
          (if is_up w1 then deliver serialize parse (some i) connection_up w1 else some w1)
          (λ v. await_stop serialize parse i (get_elem? v.subscriptions i) v) (rw found at e) in
      let same = guarded-SameView serialize parse (is_up w1) (some i) connection_up w1 told in
      Refines-trans w0 w1 w' before (
        Refines-trans w1 w2 w' (SameView-Refines w1 w2 same) (
          await_stop-Refines i (get_elem? w2.subscriptions i) w2 refl
            (λ s' there. holds_after serialize parse i s s' c w w2 h same there) end))

  acquire-find :
      (i : ℕ) (s : Subscription) (w : Connector) {w' : Connector}
      → acquire serialize parse i s w ≡ some w'
      → (c : ChannelState) × (find s.topic w.channel_states ≡ some c)
  unfolding acquire
  acquire-find i s w e =
      let (c, found, _) = >>=-eq-some (find s.topic w.channel_states) _ e in (c, found)

  begin-Refines :
      (i : ℕ) (s : Subscription) (w : Connector) {w' : Connector}
      → At w i s
      → s.phase ≡ created
      → begin serialize parse i s w ≡ some w'
      → Refines w w'
  unfolding begin
  begin-Refines i s w {w'} h at e =
      let there = header-phase w i s created h at in
      let c = located s.topic w.channel_states in
      let states = locate_channel s.topic w.channel_states in
      elim (Bool-cases c.acquired) [
        | inr free ↦
            let w1 = record w { channel_states = states } in
            acquired-Refines i s c w w1 h
              (Move-Refines w (take_channel i s c w1) _ (takes i s.topic there free)
                (sym (headers-set w i (record s { phase = holding }))))
              (find-locate_channel s.topic w.channel_states) (rw free at e)
        | inl held ↦ elim (Bool-cases (is_set s.stop_latch)) [
          | inl stopped ↦ subst (Refines w) (some-injective _ _ (rw (held, stopped) at e)) (
              Move-Refines w
                (record w {
                  channel_states = states;
                  subscriptions = set w.subscriptions i (record s { phase = abandoned });
                })
                _ (gives_up_at_once i s.topic there held)
                (sym (headers-set w i (record s { phase = abandoned }))))
          | inr waits_ ↦
              subst (Refines w)
                (some-injective _ _ (sym (if_false _ _ _ waits_) ∙ sym (if_true _ _ _ held) ∙ e))
                (Move-Refines w
                  (record w {
                    channel_states = assign s.topic (joined_by i c) states;
                    subscriptions = set w.subscriptions i (record s { phase = waiting });
                  })
                  _ (waits i s.topic there held)
                  (sym (headers-set w i (record s { phase = waiting }))))
        ]
      ]

  resume_in-Refines :
      (p : Phase) (i : ℕ) (s : Subscription) (w : Connector) {w' : Connector}
      → At w i s
      → s.phase ≡ p
      → resume_in serialize parse p i s w ≡ some w'
      → Refines w w'
  unfolding resume_in
  resume_in-Refines created i s w h at e = begin-Refines i s w h at e
  resume_in-Refines waiting i s w h at e = elim (Bool-cases (is_set s.stop_latch)) [
    | inl stopped ↦
        subst (Refines w) (some-injective _ _ (rw stopped at e)) (give_up-Refines i s w h at)
    | inr waits_ ↦ subst (Refines w) (some-injective _ _ (rw waits_ at e)) stays
  ]
  resume_in-Refines woken i s w h at e =
      let (c, found) = acquire-find i s w e in
      acquired-Refines i s c w w h
        (Move-Refines w (take_channel i s c w) _
          (takes_over i s.topic c (header-phase w i s woken h at) found)
          (sym (headers-set w i (record s { phase = holding }))))
        found e
  resume_in-Refines holding i s w h at e = elim (Bool-cases (is_set s.stop_latch)) [
    | inl stopped ↦ close_down-Refines i s w h at (rw stopped at e)
    | inr waits_ ↦ subst (Refines w) (some-injective _ _ (rw waits_ at e)) stays
  ]
  resume_in-Refines closing i s w h at e = elim (Bool-cases (is_set s.machine.closed_latch)) [
    | inl ended ↦ finish-Refines i s w h at (rw ended at e)
    | inr waits_ ↦ subst (Refines w) (some-injective _ _ (rw waits_ at e)) stays
  ]
  resume_in-Refines finished i s w h at e = subst (Refines w) (some-injective _ _ e) stays
  resume_in-Refines abandoned i s w h at e = subst (Refines w) (some-injective _ _ e) stays

  resume_found-Refines :
      (i : ℕ) (o : Option Subscription) (w : Connector) {w' : Connector}
      → get_elem? w.subscriptions i ≡ o
      → resume_found serialize parse i o w ≡ some w'
      → Refines w w'
  unfolding resume_found
  resume_found-Refines i none w h e = subst (Refines w) (some-injective _ _ e) stays
  resume_found-Refines i (some s) w h e = resume_in-Refines s.phase i s w h refl e

  stop_found-Refines :
      (i : ℕ) (o : Option Subscription) (w : Connector)
      → get_elem? w.subscriptions i ≡ o
      → Refines w (stop_found i o w)
  unfolding stop_found
  stop_found-Refines i none w h = stays
  stop_found-Refines i (some s) w h =
      SameView-Refines w (stop_found i (some s) w)
        (refl, headers-set w i _ ∙ set_self (headers w) i (header s) (header-At w i s h))

  -- Every action that does not fault does to the channels and to the places of the coroutines what some moves
  -- of the protocol do.
  pub step-Refines :
      (a : Action) (w : Connector) {w' : Connector}
      → step serialize parse a w ≡ some w'
      → Refines w w'
  unfolding step resume stop make
  step-Refines (starts k) w e = subst (Refines w) (some-injective _ _ e) (
      Move-Refines w (record w { subscriptions = w.subscriptions ++ make k w.connection ∷ [] }) _
        (enrols k) (sym (map-append _ w.subscriptions _)))
  step-Refines (stops i) w e =
      subst (Refines w) (some-injective _ _ e) (stop_found-Refines i _ w refl)
  step-Refines (resumes i) w e = resume_found-Refines i _ w refl e
  step-Refines (reads r) w {w'} e =
      SameView-Refines w w' (read_state-SameView serialize parse r w e)
  step-Refines (notifies s) w {w'} e =
      SameView-Refines w w' (notify_connection_state-SameView serialize parse s w e)
  step-Refines drops w e = subst (Refines w) (some-injective _ _ e) stays

  pub run-Refines :
      (actions : List Action) (w : Connector) {w' : Connector}
      → run serialize parse actions w ≡ some w'
      → Refines w w'
  unfolding run
  run-Refines [] w e = subst (Refines w) (some-injective _ _ e) stays
  run-Refines (a ∷ rest) w {w'} e =
      let (w1, first, last) = >>=-eq-some (step serialize parse a w) _ e in
      Refines-trans w w1 w' (step-Refines a w first) (run-Refines rest w1 last)
