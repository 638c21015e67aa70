-- ===== src/Ftx/Subscription.antt =====
-- The coroutine `run` of a subscription, with `start` and `stop`:
-- src/vendor/ftx/upstream_subscription_impl.cpp. A suspended coroutine is its phase: the latches' own
-- lists of waiters are not needed, since `resume` asks whether what the coroutine waits for has come.
-- Everything runs on the connector's executor, so the system moves by one action at a time.
pub mod View
pub mod Tally
pub mod Exclusion
pub mod Protocol
pub mod Wiring
pub mod Handover
pub mod Ending
pub mod Accounting
pub mod Machines
pub mod Races
use boost_connector.Base.{
  ℕ, zero, suc, ◌+◌, Text, Bool, true, false, Option, none, some, ◌>>=◌, List, [], ◌∷◌, ◌++◌, ◌==◌,
  get_elem?, set, if◌then◌else◌,
}
use boost_connector.Async.Latch
use boost_connector.Async.Latch.{is_set}
use boost_connector.Json.{Value}
use boost_connector.Ftx.Event.{ChannelMarketPair, connection_up}
use boost_connector.Ftx.Connection.{Connection, ConnectionState, drop}
use boost_connector.Ftx.Machine
use boost_connector.Ftx.Machine.{StateMachine}
use boost_connector.Ftx.Channels.{
  ChannelState, ChannelStateMap, find, assign, located, locate_channel, release_channel,
}
use boost_connector.Ftx.Connector.{
  Connector, Subscription, Phase, created, waiting, woken, holding, closing, finished, abandoned,
  ReadResult, is_up, deliver, read_state, notify_connection_state, set_machine,
}

-- A new subscription to a topic, spawned by `start` and not yet run.
unfoldable pub make : ChannelMarketPair → Connection → Subscription
make k c = record {
  topic = k;
  phase = created;
  stop_latch = Latch.make false;
  machine = record {
    topic = k;
    connection = c;
    closed_latch = Latch.make false;
    state = Machine.down;
    close_requested = false;
  };
}

abbrev pub set_subscription : ℕ → Subscription → Connector → Connector
set_subscription i s w = record w { subscriptions = set w.subscriptions i s }

abbrev pub is_waiting : Phase → Bool
is_waiting waiting = true
is_waiting _ = false

-- A waiter whose stop latch is set has already left its wait, so the timer's completion is lost on it.
unfoldable pub wake_one : ℕ → Option Subscription → Connector → Connector
wake_one j none w = w
wake_one j (some s) w =
    if is_waiting s.phase
    then (if is_set s.stop_latch then w else set_subscription j (record s { phase = woken }) w)
    else w

unfoldable pub wake : Option ℕ → Connector → Connector
unfolding wake_one
wake none w = w
wake (some j) w = wake_one j (get_elem? w.subscriptions j) w

unfoldable pub remove : ℕ → List ℕ → List ℕ
remove i [] = []
remove i (j ∷ js) = if j == i then remove i js else j ∷ remove i js

abbrev pub without : ℕ → ChannelMarketPair → Option ChannelState → ChannelStateMap → ChannelStateMap
without i k none m = m
without i k (some c) m = assign k (record c { cv = remove i c.cv }) m

-- The return from the wait for the channel because the stop latch is set: the wait on the timer is
-- cancelled, and nothing else is undone.
unfoldable pub give_up : ℕ → Subscription → Connector → Connector
unfolding remove
give_up i s w = record w {
  channel_states = without i s.topic (find s.topic w.channel_states) w.channel_states;
  subscriptions = set w.subscriptions i (record s { phase = abandoned });
}

-- The end of `run`: the channel is released, and the next waiter woken.
unfoldable pub finish : ℕ → Subscription → Connector → Option Connector
finish i s w = do
  (states, next) ← release_channel s.topic w.channel_states
  some (
      wake next (record w {
        channel_states = states;
        subscriptions = set w.subscriptions i (record s { phase = finished });
      }))

unfoldable pub stop_found : ℕ → Option Subscription → Connector → Connector
stop_found i none w = w
stop_found i (some s) w = set_subscription i (record s { stop_latch = Latch.set s.stop_latch }) w

unfoldable pub stop : ℕ → Connector → Connector
unfolding stop_found
stop i w = stop_found i (get_elem? w.subscriptions i) w

-- What may happen next, as the executor chooses.
pub data Action : Type 0 where
  starts : ChannelMarketPair → Action
  stops resumes : ℕ → Action
  reads : ReadResult → Action
  notifies : ConnectionState → Action
  drops : Action

-- The channel is acquired, and its callback set.
abbrev pub take_channel : ℕ → Subscription → ChannelState → Connector → Connector
take_channel i s c w = record w {
  channel_states =
      assign s.topic (record c { acquired = true; on_event = some i }) w.channel_states;
  subscriptions = set w.subscriptions i (record s { phase = holding });
}

module _ (serialize : Value → Text) (parse : Text → Option Value) where
  -- From the return of `stop_latch_.wait()` on.
  unfoldable pub close_down : ℕ → Subscription → Connector → Option Connector
  unfolding finish
  close_down i s w =
      let m = Machine.close serialize (record s.machine { connection = w.connection }) in
      let s' = record s { phase = closing; machine = m } in
      let w' = record w { connection = m.connection; subscriptions = set w.subscriptions i s' } in
      if is_set m.closed_latch then finish i s' w' else some w'

  unfoldable pub await_stop : ℕ → Option Subscription → Connector → Option Connector
  unfolding close_down
  await_stop i none w = none
  await_stop i (some s) w = if is_set s.stop_latch then close_down i s w else some w

  -- From the acquisition of the channel on.
  unfoldable pub acquire : ℕ → Subscription → Connector → Option Connector
  unfolding await_stop
  acquire i s w = do
    c ← find s.topic w.channel_states
    let w' = take_channel i s c w
    w'' ← if is_up w' then deliver serialize parse (some i) connection_up w' else some w'
    await_stop i (get_elem? w''.subscriptions i) w''

  -- From the beginning of `run`: interest is expressed first, and the wait comes after.
  unfoldable pub begin : ℕ → Subscription → Connector → Option Connector
  unfolding acquire
  begin i s w =
      let c = located s.topic w.channel_states in
      let states = locate_channel s.topic w.channel_states in
      if c.acquired
      then (if is_set s.stop_latch
          then some (record w {
            channel_states = states;
            subscriptions = set w.subscriptions i (record s { phase = abandoned });
          })
          else some (record w {
            channel_states = assign s.topic (record c { cv = c.cv ++ i ∷ [] }) states;
            subscriptions = set w.subscriptions i (record s { phase = waiting });
          }))
      else acquire i s (record w { channel_states = states })

  -- A turn of the coroutine, if what it waits for has come.
  unfoldable pub resume_in : Phase → ℕ → Subscription → Connector → Option Connector
  unfolding begin give_up acquire close_down finish
  resume_in created i s w = begin i s w
  resume_in waiting i s w = if is_set s.stop_latch then some (give_up i s w) else some w
  resume_in woken i s w = acquire i s w
  resume_in holding i s w = if is_set s.stop_latch then close_down i s w else some w
  resume_in closing i s w = if is_set s.machine.closed_latch then finish i s w else some w
  resume_in finished i s w = some w
  resume_in abandoned i s w = some w

  unfoldable pub resume_found : ℕ → Option Subscription → Connector → Option Connector
  unfolding resume_in
  resume_found i none w = some w
  resume_found i (some s) w = resume_in s.phase i s w

  unfoldable pub resume : ℕ → Connector → Option Connector
  unfolding resume_found
  resume i w = resume_found i (get_elem? w.subscriptions i) w

  unfoldable pub step : Action → Connector → Option Connector
  unfolding stop resume
  step (starts k) w =
      some (record w { subscriptions = w.subscriptions ++ make k w.connection ∷ [] })
  step (stops i) w = some (stop i w)
  step (resumes i) w = resume i w
  step (reads r) w = read_state serialize parse r w
  step (notifies s) w = notify_connection_state serialize parse s w
  step drops w = some (record w { connection = drop w.connection })

  unfoldable pub run : List Action → Connector → Option Connector
  unfolding step
  run [] w = some w
  run (a ∷ rest) w = step a w >>= run rest
