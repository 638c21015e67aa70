-- ===== src/Ftx/Subscription/Machines/Turns.antt =====
-- The machines over the turns of their coroutines, and along histories of their connector.
use mathlib.Core.Option.{some-injective}
use boost_connector.Base.{
  ℕ, Text, true, Option, none, some, >>=-eq-some, ◌≡◌, refl, subst, List, [], ◌∷◌, get_elem?,
  All-get_elem?, All-append, if◌then◌else◌, Bool-cases, inl, inr, arith,
}
use boost_connector.Async.Latch
use boost_connector.Async.Latch.{is_set}
use boost_connector.Json.{Value}
use boost_connector.Ftx.Event.{ChannelMarketPair, connection_up}
use boost_connector.Ftx.Connection.{Connection}
use boost_connector.Ftx.Machine.{StateMachine, close}
use boost_connector.Ftx.Machine.Invariant.{close-Inv}
use boost_connector.Ftx.Channels.{find, locate_channel, located}
use boost_connector.Ftx.Connector.{
  Connector, Subscription, Phase, created, waiting, woken, holding, closing, finished, abandoned,
  deliver, is_up,
}
use boost_connector.Ftx.Subscription.{
  make, give_up, stop, stop_found, Action, starts, stops, resumes, reads, notifies, drops,
  take_channel, close_down, await_stop, acquire, begin, resume_in, resume_found, resume, step, run,
}
use boost_connector.Ftx.Subscription.Machines.{
  fits, Sound, AllSound, Sound-phase, AllSound-set, finish-AllSound, Inv-connection,
  guarded-AllSound, notify_connection_state-AllSound, read_state-AllSound,
}

module _ (serialize : Value → Text) (parse : Text → Option Value) where
  close-requested : (m : StateMachine) → (close serialize m).close_requested ≡ true
  unfolding close
  close-requested m = ground arith

  close_down-AllSound :
      (i : ℕ) (s : Subscription) (w : Connector) {w' : Connector}
      → Sound s
      → close_down serialize parse i s w ≡ some w'
      → AllSound w
      → AllSound w'
  unfolding close_down fits
  close_down-AllSound i s w p e v =
      let n = record (s.machine) { connection = w.connection } in
      let m = close serialize n in
      let s' = record s { phase = closing; machine = m } in
      let p' : Sound s' = record {
        inv = close-Inv serialize n (Inv-connection serialize parse w.connection s.machine p.inv);
        fitting = close-requested n;
      } in
      let v' = AllSound-set i s' w p' v in
      elim (Bool-cases (is_set m.closed_latch)) [
        | inl ended ↦ finish-AllSound i s' _ ended p' (rw ended at e) v'
        | inr waits ↦ subst AllSound (some-injective _ _ (rw waits at e)) v'
      ]

  await_stop-AllSound :
      (i : ℕ) (o : Option Subscription) (w : Connector) {w' : Connector}
      → get_elem? w.subscriptions i ≡ o
      → await_stop serialize parse i o w ≡ some w'
      → AllSound w
      → AllSound w'
  unfolding await_stop
  await_stop-AllSound i none w h e v = cc
  await_stop-AllSound i (some s) w h e v = elim (Bool-cases (is_set s.stop_latch)) [
    | inl stopped ↦
        close_down-AllSound i s w (All-get_elem? Sound w.subscriptions i s h v) (rw stopped at e) v
    | inr waits ↦ subst AllSound (some-injective _ _ (rw waits at e)) v
  ]

  acquire-AllSound :
      (i : ℕ) (s : Subscription) (w : Connector) {w' : Connector}
      → Sound s
      → fits holding s.machine ≡ true
      → acquire serialize parse i s w ≡ some w'
      → AllSound w
      → AllSound w'
  unfolding acquire
  acquire-AllSound i s w p f e v =
      let (c, found, rest) = >>=-eq-some (find s.topic w.channel_states) _ e in
      let w1 = take_channel i s c w in
      let (w2, told, last) =
        >>=-eq-some
          (if is_up w1 then deliver serialize parse (some i) connection_up w1 else some w1) _
          rest in
      await_stop-AllSound i (get_elem? w2.subscriptions i) w2 refl last (
        guarded-AllSound serialize parse (is_up w1) (some i) connection_up w1 told
          (AllSound-set i (record s { phase = holding }) w (Sound-phase s holding f p) v))

  begin-AllSound :
      (i : ℕ) (s : Subscription) (w : Connector) {w' : Connector}
      → Sound s
      → fits holding s.machine ≡ true
      → begin serialize parse i s w ≡ some w'
      → AllSound w
      → AllSound w'
  unfolding begin fits
  begin-AllSound i s w p f e v = elim (Bool-cases (located s.topic w.channel_states).acquired) [
    | inr free ↦
        acquire-AllSound i s (record w { channel_states = locate_channel s.topic w.channel_states })
          p f (rw free at e) v
    | inl held ↦ elim (Bool-cases (is_set s.stop_latch)) [
      | inl stopped ↦
          subst AllSound (some-injective _ _ (rw (held, stopped) at e))
            (AllSound-set i (record s { phase = abandoned }) w (Sound-phase s abandoned f p) v)
      | inr waits ↦
          subst AllSound (some-injective _ _ (rw (held, waits) at e))
            (AllSound-set i (record s { phase = waiting }) w (Sound-phase s waiting f p) v)
    ]
  ]

  give_up-AllSound :
      (i : ℕ) (s : Subscription) (w : Connector)
      → Sound s
      → fits waiting s.machine ≡ true
      → AllSound w
      → AllSound (give_up i s w)
  unfolding give_up fits
  give_up-AllSound i s w p f v =
      AllSound-set i (record s { phase = abandoned }) w (Sound-phase s abandoned f p) v

  resume_in-AllSound :
      (p : Phase) (i : ℕ) (s : Subscription) (w : Connector) {w' : Connector}
      → fits p s.machine ≡ true
      → Sound s
      → resume_in serialize parse p i s w ≡ some w'
      → AllSound w
      → AllSound w'
  unfolding resume_in fits
  resume_in-AllSound created i s w f p e v = begin-AllSound i s w p f e v
  resume_in-AllSound waiting i s w f p e v = elim (Bool-cases (is_set s.stop_latch)) [
    | inl stopped ↦
        subst AllSound (some-injective _ _ (rw stopped at e)) (give_up-AllSound i s w p f v)
    | inr waits ↦ subst AllSound (some-injective _ _ (rw waits at e)) v
  ]
  resume_in-AllSound woken i s w f p e v = acquire-AllSound i s w p f e v
  resume_in-AllSound holding i s w f p e v = elim (Bool-cases (is_set s.stop_latch)) [
    | inl stopped ↦ close_down-AllSound i s w p (rw stopped at e) v
    | inr waits ↦ subst AllSound (some-injective _ _ (rw waits at e)) v
  ]
  resume_in-AllSound closing i s w f p e v = elim (Bool-cases (is_set s.machine.closed_latch)) [
    | inl ended ↦ finish-AllSound i s w ended p (rw ended at e) v
    | inr waits ↦ subst AllSound (some-injective _ _ (rw waits at e)) v
  ]
  resume_in-AllSound finished i s w f p e v = subst AllSound (some-injective _ _ e) v
  resume_in-AllSound abandoned i s w f p e v = subst AllSound (some-injective _ _ e) v

  resume_found-AllSound :
      (i : ℕ) (o : Option Subscription) (w : Connector) {w' : Connector}
      → get_elem? w.subscriptions i ≡ o
      → resume_found serialize parse i o w ≡ some w'
      → AllSound w
      → AllSound w'
  unfolding resume_found
  resume_found-AllSound i none w h e v = subst AllSound (some-injective _ _ e) v
  resume_found-AllSound i (some s) w h e v =
      let p = All-get_elem? Sound w.subscriptions i s h v in
      resume_in-AllSound s.phase i s w p.fitting p e v

  stop_found-AllSound :
      (i : ℕ) (o : Option Subscription) (w : Connector)
      → get_elem? w.subscriptions i ≡ o
      → AllSound w
      → AllSound (stop_found i o w)
  unfolding stop_found
  stop_found-AllSound i none w h v = v
  stop_found-AllSound i (some s) w h v =
      let p = All-get_elem? Sound w.subscriptions i s h v in
      AllSound-set i (record s { stop_latch = Latch.set s.stop_latch }) w
        (record { inv = p.inv; fitting = p.fitting }) v

  make-Sound : (k : ChannelMarketPair) (c : Connection) → Sound (make k c)
  unfolding make Latch.make is_set fits
  make-Sound k c = record { inv = record { latched = refl; requested = refl }; fitting = refl }

  pub step-AllSound :
      (a : Action) (w : Connector) {w' : Connector}
      → step serialize parse a w ≡ some w'
      → AllSound w
      → AllSound w'
  unfolding step resume stop
  step-AllSound (starts k) w e v =
      subst AllSound (some-injective _ _ e)
        (All-append Sound w.subscriptions _ v (make-Sound k w.connection, tt))
  step-AllSound (stops i) w e v =
      subst AllSound (some-injective _ _ e) (stop_found-AllSound i _ w refl v)
  step-AllSound (resumes i) w e v = resume_found-AllSound i _ w refl e v
  step-AllSound (reads r) w e v = read_state-AllSound serialize parse r w e v
  step-AllSound (notifies s) w e v = notify_connection_state-AllSound serialize parse s w e v
  step-AllSound drops w e v = subst AllSound (some-injective _ _ e) v

  -- After any history of actions that does not fault, from a connector whose subscriptions are sound, they
  -- all are sound: the closed latch of each machine is set exactly in its closed state, its request to close agrees
  -- with its state, it has been asked to close exactly from the closing phase of its coroutine on, and it
  -- is closed where the coroutine has finished.
  pub run-AllSound :
      (actions : List Action) (w : Connector) {w' : Connector}
      → run serialize parse actions w ≡ some w'
      → AllSound w
      → AllSound w'
  unfolding run
  run-AllSound [] w e v = subst AllSound (some-injective _ _ e) v
  run-AllSound (a ∷ rest) w e v =
      let (w1, first, last) = >>=-eq-some (step serialize parse a w) _ e in
      run-AllSound rest w1 last (step-AllSound a w first v)
