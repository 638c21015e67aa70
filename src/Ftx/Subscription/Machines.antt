-- ===== src/Ftx/Subscription/Machines.antt =====
-- The machines of all subscriptions, whatever the connector delivers to them.
pub mod Turns
use mathlib.Core.Option.{some-injective}
use boost_connector.Base.{
  ℕ, Text, Bool, true, false, not, Option, none, some, ◌>>=◌, >>=-eq-some, ◌≡◌, refl, sym, ap,
  subst, ◌∙◌, List, [], ◌∷◌, ◌++◌, get_elem?, set, All, All-get_elem?, All-set, All-append,
  if◌then◌else◌, Bool-cases, Option-cases, text_eq, codes, inl, inr, arith,
}
use boost_connector.Async.Latch
use boost_connector.Async.Latch.{is_set}
use boost_connector.Json.{Value, Fields}
use boost_connector.Ftx.Event.{ChannelMarketPair, ChannelEvent, connection_up}
use boost_connector.Ftx.Connection.{Connection, ConnectionState}
use boost_connector.Ftx.Machine
use boost_connector.Ftx.Machine.{StateMachine, process_event, close}
use boost_connector.Ftx.Machine.Invariant.{Inv, is_closed, process_event-Inv, close-Inv}
use boost_connector.Ftx.Channels.{
  ChannelState, ChannelStateMap, find, locate_channel, located, release_channel,
}
use boost_connector.Ftx.Connector.{
  Connector, Subscription, Phase, created, waiting, woken, holding, closing, finished, abandoned,
  ReadResult, read_error, binary, text, same_state, event_of, frame_index, parse_frame,
  call_on_event, dispatch_found, dispatch_index, dispatch_frame, deliver, notify_channels,
  notify_connection_state, read_state, is_up, set_machine,
}
use boost_connector.Ftx.Subscription.{
  make, is_waiting, wake, wake_one, give_up, finish, stop, stop_found, Action, starts, stops,
  resumes, reads, notifies, drops, take_channel, close_down, await_stop, acquire, begin, resume_in,
  resume_found, resume, step, run,
}

-- What the phase of a coroutine says of its machine: it has been asked to close from the closing phase
-- on, and is closed when the coroutine has finished.
unfoldable pub fits : Phase → StateMachine → Bool
fits closing m = m.close_requested
fits finished m = is_closed m.state
fits _ m = not m.close_requested

pub record Sound (s : Subscription) : Type 0 where
  pub inv : Inv s.machine
  pub fitting : fits s.phase s.machine ≡ true

abbrev pub AllSound : Connector → Type 0
AllSound w = All Sound w.subscriptions

-- A phase that asks the same of the machine.
pub Sound-phase :
    (s : Subscription) (p : Phase)
    → fits p s.machine ≡ true
    → Sound s
    → Sound (record s { phase = p })
Sound-phase s p h v = record { inv = v.inv; fitting = h }

pub AllSound-set :
    (i : ℕ) (s : Subscription) (w : Connector)
    → Sound s
    → AllSound w
    → All Sound (set w.subscriptions i s)
AllSound-set i s w p v = All-set Sound w.subscriptions i s p v

waiting-fits : (p : Phase) (m : StateMachine) → is_waiting p ≡ true → fits p m ≡ fits woken m
unfolding fits
waiting-fits p m h = ground arith

wake_one-AllSound :
    (j : ℕ) (s : Subscription) (w : Connector)
    → get_elem? w.subscriptions j ≡ some s
    → AllSound w
    → AllSound (wake_one j (some s) w)
unfolding wake_one
wake_one-AllSound j s w h v = elim (Bool-cases (is_waiting s.phase)) [
  | inr busy ↦ rw busy v
  | inl waits ↦ elim (Bool-cases (is_set s.stop_latch)) [
    | inl stopped ↦ rw (waits, stopped) v
    | inr runs ↦
        let sound = All-get_elem? Sound w.subscriptions j s h v in
        rw (waits, runs)
          (AllSound-set j (record s { phase = woken }) w
            (Sound-phase s woken (sym (waiting-fits s.phase s.machine waits) ∙ sound.fitting) sound)
            v)
  ]
]

wake-AllSound : (o : Option ℕ) (w : Connector) → AllSound w → AllSound (wake o w)
unfolding wake
wake-AllSound none w v = v
wake-AllSound (some j) w v = elim (Option-cases (get_elem? w.subscriptions j)) [
  | inl gone ↦ rw (gone, wake_one) v
  | inr (s, there) ↦ rw there (wake_one-AllSound j s w there v)
]

pub finish-AllSound :
    (i : ℕ) (s : Subscription) (w : Connector) {w' : Connector}
    → is_set s.machine.closed_latch ≡ true
    → Sound s
    → finish i s w ≡ some w'
    → AllSound w
    → AllSound w'
unfolding finish fits
finish-AllSound i s w ended p e v =
    let (r, released, rest) = >>=-eq-some (release_channel s.topic w.channel_states) _ e in
    subst AllSound (some-injective _ _ rest) (
      wake-AllSound r.1 _ (
        AllSound-set i (record s { phase = finished }) w
          (Sound-phase s finished (sym p.inv.latched ∙ ended) p) v))

module _ (serialize : Value → Text) (parse : Text → Option Value) where
  event-fits :
      (p : Phase) (e : ChannelEvent) (m n : StateMachine)
      → process_event serialize e m ≡ some n
      → fits p m ≡ true
      → fits p n ≡ true
  unfolding process_event fits
  event-fits p e m n h f = ground arith

  -- A machine on another connection is as sound.
  pub Inv-connection :
      (c : Connection) (m : StateMachine) → Inv m → Inv (record m { connection = c })
  Inv-connection c m v = record { latched = v.latched; requested = v.requested }

  pub fits-connection :
      (c : Connection) (p : Phase) (m : StateMachine)
      → fits p m ≡ true
      → fits p (record m { connection = c }) ≡ true
  unfolding fits
  fits-connection c p m h = ground arith

  pub deliver-AllSound :
      (o : Option ℕ) (e : ChannelEvent) (w : Connector) {w' : Connector}
      → deliver serialize parse o e w ≡ some w'
      → AllSound w
      → AllSound w'
  unfolding deliver
  deliver-AllSound none e w h v = cc
  deliver-AllSound (some i) e w h v =
      let (s, there, rest) = >>=-eq-some (get_elem? w.subscriptions i) _ h in
      let (m, accepted, put) = >>=-eq-some (process_event serialize e _) _ rest in
      let p = All-get_elem? Sound w.subscriptions i s there v in
      subst AllSound (some-injective _ _ put) (
        AllSound-set i (record s { machine = m }) w
          (record {
            inv =
                process_event-Inv serialize e _ m accepted
                  (Inv-connection w.connection s.machine p.inv);
            fitting =
                event-fits s.phase e _ m accepted
                  (fits-connection w.connection s.phase s.machine p.fitting);
          })
          v)

  pub guarded-AllSound :
      (b : Bool) (o : Option ℕ) (e : ChannelEvent) (w : Connector) {w' : Connector}
      → (if b then deliver serialize parse o e w else some w) ≡ some w'
      → AllSound w
      → AllSound w'
  guarded-AllSound true o e w h v = deliver-AllSound o e w h v
  guarded-AllSound false o e w h v = subst AllSound (some-injective _ _ h) v

  notify_channels-AllSound :
      (e : ChannelEvent) (m : ChannelStateMap) (w : Connector) {w' : Connector}
      → notify_channels serialize parse e m w ≡ some w'
      → AllSound w
      → AllSound w'
  unfolding notify_channels
  notify_channels-AllSound e [] w h v = subst AllSound (some-injective _ _ h) v
  notify_channels-AllSound e ((k, c) ∷ m) w h v =
      let (w1, first, rest) =
        >>=-eq-some (if c.acquired then deliver serialize parse c.on_event e w else some w) _ h in
      notify_channels-AllSound e m w1 rest (guarded-AllSound c.acquired c.on_event e w first v)

  pub notify_connection_state-AllSound :
      (s : ConnectionState) (w : Connector) {w' : Connector}
      → notify_connection_state serialize parse s w ≡ some w'
      → AllSound w
      → AllSound w'
  unfolding notify_connection_state
  notify_connection_state-AllSound s w h v =
      elim (Bool-cases (same_state s w.connection.connection_state)) [
        | inl same ↦ absurd (ground arith)
        | inr other ↦ notify_channels-AllSound (event_of s) w.channel_states _ (rw other at h) v
      ]

  dispatch_found-AllSound :
      (c : Option ChannelState) (v : Value) (w : Connector) {w' : Connector}
      → dispatch_found serialize parse c v w ≡ some w'
      → AllSound w
      → AllSound w'
  unfolding dispatch_found call_on_event
  dispatch_found-AllSound none v w h a = subst AllSound (some-injective _ _ h) a
  dispatch_found-AllSound (some c) v w h a = elim (Bool-cases c.acquired) [
    | inr free ↦ subst AllSound (some-injective _ _ (rw free at h)) a
    | inl held ↦ elim (Option-cases c.on_event) [
      | inl gone ↦ subst AllSound (some-injective _ _ (rw (held, gone) at h)) a
      | inr (i, there) ↦ deliver-AllSound (some i) _ w (rw (held, there) at h) a
    ]
  ]

  dispatch_index-AllSound :
      (k : Option ChannelMarketPair) (v : Value) (w : Connector) {w' : Connector}
      → dispatch_index serialize parse k v w ≡ some w'
      → AllSound w
      → AllSound w'
  unfolding dispatch_index
  dispatch_index-AllSound none v w h a = subst AllSound (some-injective _ _ h) a
  dispatch_index-AllSound (some k) v w h a =
      dispatch_found-AllSound (find k w.channel_states) v w h a

  dispatch_frame-AllSound :
      (f : Option (Value × Fields × Text)) (w : Connector) {w' : Connector}
      → dispatch_frame serialize parse f w ≡ some w'
      → AllSound w
      → AllSound w'
  unfolding dispatch_frame
  dispatch_frame-AllSound none w h a = subst AllSound (some-injective _ _ h) a
  dispatch_frame-AllSound (some (v, o, type)) w h a =
      elim (Bool-cases (text_eq type (codes "pong"))) [
        | inl pong ↦ subst AllSound (some-injective _ _ (rw pong at h)) a
        | inr other ↦ dispatch_index-AllSound (frame_index o) v w (rw other at h) a
      ]

  pub read_state-AllSound :
      (r : ReadResult) (w : Connector) {w' : Connector}
      → read_state serialize parse r w ≡ some w'
      → AllSound w
      → AllSound w'
  unfolding read_state
  read_state-AllSound (read_error ec) w h a = notify_channels-AllSound _ w.channel_states w h a
  read_state-AllSound binary w h a = subst AllSound (some-injective _ _ h) a
  read_state-AllSound (text t) w h a = dispatch_frame-AllSound (parse_frame parse t) w h a
