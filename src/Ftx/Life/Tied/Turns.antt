-- ===== src/Ftx/Life/Tied/Turns.antt =====
-- What the turns of the subscriptions' coroutines do to the connection's state and its drop callback:
-- src/vendor/ftx/upstream_subscription_impl.cpp.
use boost_connector.Base.{
  ℕ, Text, true, Option, none, some, >>=-eq-some, ◌≡◌, inl, inr, get_elem?, set, Bool-cases,
  if◌then◌else◌, arith,
}
use boost_connector.Async.Latch.{is_set}
use boost_connector.Json.{Value}
use boost_connector.Ftx.Event.{connection_up}
use boost_connector.Ftx.Connection.{drop}
use boost_connector.Ftx.Machine
use boost_connector.Ftx.Channels.{find, located, release_channel, locate_channel}
use boost_connector.Ftx.Connector.{
  Connector, Subscription, Phase, created, waiting, woken, holding, closing, finished, abandoned,
  deliver, is_up,
}
use boost_connector.Ftx.Subscription.{
  Action, starts, stops, resumes, reads, notifies, drops, wake, wake_one, finish, give_up,
  take_channel, close_down, await_stop, acquire, begin, resume_in, resume_found, resume, stop,
  stop_found, step,
}
use boost_connector.Ftx.Life.{is_users}
use boost_connector.Ftx.Life.Tied.{
  TiedIn, Tied-refl, Tied-trans, Tied-some, close-Tied, guarded-Tied,
}

wake-Tied : (o : Option ℕ) (w : Connector) → TiedIn w (wake o w)
unfolding wake wake_one
wake-Tied none w = Tied-refl w.connection
wake-Tied (some j) w = ground arith

finish-Tied :
    (i : ℕ) (s : Subscription) (w : Connector) {w' : Connector}
    → finish i s w ≡ some w'
    → TiedIn w w'
unfolding finish
finish-Tied i s w e =
    let (r, _, rest) = >>=-eq-some (release_channel s.topic w.channel_states) _ e in
    Tied-some w rest (wake-Tied r.1 _)

module _ (serialize : Value → Text) (parse : Text → Option Value) where
  close_down-Tied :
      (i : ℕ) (s : Subscription) (w : Connector) {w' : Connector}
      → close_down serialize parse i s w ≡ some w'
      → TiedIn w w'
  unfolding close_down
  close_down-Tied i s w {w'} e =
      let m0 = record (s.machine) { connection = w.connection } in
      let m = Machine.close serialize m0 in
      let w1 = record w {
        connection = m.connection;
        subscriptions = set w.subscriptions i (record s { phase = closing; machine = m });
      } in
      let first = close-Tied serialize m0 in
      elim (Bool-cases (is_set m.closed_latch)) [
        | inl ended ↦
            Tied-trans w.connection w1.connection w'.connection first
              (finish-Tied i (record s { phase = closing; machine = m }) w1 (rw ended at e))
        | inr waits ↦ Tied-some w (rw waits at e) first
      ]

  await_stop-Tied :
      (i : ℕ) (o : Option Subscription) (w : Connector) {w' : Connector}
      → await_stop serialize parse i o w ≡ some w'
      → TiedIn w w'
  unfolding await_stop
  await_stop-Tied i none w e = cc
  await_stop-Tied i (some s) w e = elim (Bool-cases (is_set s.stop_latch)) [
    | inl stopped ↦ close_down-Tied i s w (rw stopped at e)
    | inr waits ↦ Tied-some w (rw waits at e) (Tied-refl w.connection)
  ]

  acquire-Tied :
      (i : ℕ) (s : Subscription) (w : Connector) {w' : Connector}
      → acquire serialize parse i s w ≡ some w'
      → TiedIn w w'
  unfolding acquire
  acquire-Tied i s w {w'} e =
      let (c, found, rest) = >>=-eq-some (find s.topic w.channel_states) _ e in
      let w1 = take_channel i s c w in
      let (w2, told, last) =
        >>=-eq-some
          (if is_up w1 then deliver serialize parse (some i) connection_up w1 else some w1) _
          rest in
      Tied-trans w.connection w2.connection w'.connection
        (guarded-Tied serialize parse (is_up w1) (some i) connection_up w1 told)
        (await_stop-Tied i (get_elem? w2.subscriptions i) w2 last)

  begin-Tied :
      (i : ℕ) (s : Subscription) (w : Connector) {w' : Connector}
      → begin serialize parse i s w ≡ some w'
      → TiedIn w w'
  unfolding begin
  begin-Tied i s w e = elim (Bool-cases (located s.topic w.channel_states).acquired) [
    | inr free ↦
        acquire-Tied i s (record w { channel_states = locate_channel s.topic w.channel_states })
          (rw free at e)
    | inl held ↦ elim (Bool-cases (is_set s.stop_latch)) [
      | inl stopped ↦ Tied-some w (rw (held, stopped) at e) (Tied-refl w.connection)
      | inr waits ↦ Tied-some w (rw (held, waits) at e) (Tied-refl w.connection)
    ]
  ]

  resume_in-Tied :
      (p : Phase) (i : ℕ) (s : Subscription) (w : Connector) {w' : Connector}
      → resume_in serialize parse p i s w ≡ some w'
      → TiedIn w w'
  unfolding resume_in give_up
  resume_in-Tied created i s w e = begin-Tied i s w e
  resume_in-Tied waiting i s w e = elim (Bool-cases (is_set s.stop_latch)) [
    | inl stopped ↦ Tied-some w (rw stopped at e) (Tied-refl w.connection)
    | inr waits ↦ Tied-some w (rw waits at e) (Tied-refl w.connection)
  ]
  resume_in-Tied woken i s w e = acquire-Tied i s w e
  resume_in-Tied holding i s w e = elim (Bool-cases (is_set s.stop_latch)) [
    | inl stopped ↦ close_down-Tied i s w (rw stopped at e)
    | inr waits ↦ Tied-some w (rw waits at e) (Tied-refl w.connection)
  ]
  resume_in-Tied closing i s w e = elim (Bool-cases (is_set s.machine.closed_latch)) [
    | inl ended ↦ finish-Tied i s w (rw ended at e)
    | inr waits ↦ Tied-some w (rw waits at e) (Tied-refl w.connection)
  ]
  resume_in-Tied finished i s w e = Tied-some w e (Tied-refl w.connection)
  resume_in-Tied abandoned i s w e = Tied-some w e (Tied-refl w.connection)

  resume_found-Tied :
      (i : ℕ) (o : Option Subscription) (w : Connector) {w' : Connector}
      → resume_found serialize parse i o w ≡ some w'
      → TiedIn w w'
  unfolding resume_found
  resume_found-Tied i none w e = Tied-some w e (Tied-refl w.connection)
  resume_found-Tied i (some s) w e = resume_in-Tied s.phase i s w e

  stop_found-Tied : (i : ℕ) (o : Option Subscription) (w : Connector) → TiedIn w (stop_found i o w)
  unfolding stop_found
  stop_found-Tied i none w = Tied-refl w.connection
  stop_found-Tied i (some s) w = Tied-refl w.connection

  pub step-Tied :
      (a : Action) (w : Connector) {w' : Connector}
      → is_users a ≡ true
      → step serialize parse a w ≡ some w'
      → TiedIn w w'
  unfolding step resume stop drop
  step-Tied (starts k) w u e = Tied-some w e (Tied-refl w.connection)
  step-Tied (stops i) w u e = Tied-some w e (stop_found-Tied i _ w)
  step-Tied (resumes i) w u e = resume_found-Tied i _ w e
  step-Tied (reads r) w u e = cc
  step-Tied (notifies s) w u e = cc
  step-Tied drops w u e = Tied-some w e (ground arith)
