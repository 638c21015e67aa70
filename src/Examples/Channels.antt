-- ===== src/Examples/Channels.antt =====
-- Runs of the channels and the subscriptions of one connector.
use boost_connector.Ftx.Subscription.Handover.{run-passed_to}
use boost_connector.Ftx.Subscription.Handover.{passed_to}
use boost_connector.Ftx.Connector.{closing}
use boost_connector.Ftx.Machine.{StateMachine}
use boost_connector.Ftx.Connector.{waiting}
use boost_connector.Base.{get_elem?}
use boost_connector.Ftx.Subscription.{wake}
use boost_connector.Ftx.Connector.{is_up}
use boost_connector.Ftx.Channels.{assign}
use boost_connector.Ftx.Channels.{locate_channel}
use boost_connector.Ftx.Channels.{located}
use boost_connector.Ftx.Subscription.{make}
use boost_connector.Ftx.Subscription.Tally.{tally}
use boost_connector.Base.{text_eq}
use boost_connector.Base.{
  ◌<◌, Text, codes, true, false, Option, none, some, ◌>>=◌, ◌≡◌, refl, List, [], ◌∷◌, map, arith,
  if◌then◌else◌,
}
use boost_connector.Async.Latch
use boost_connector.Async.Buffer.Single
use boost_connector.Json.{Value}
use boost_connector.Ftx.Event.{ChannelMarketPair, pair_eq}
use boost_connector.Ftx.Connection
use boost_connector.Ftx.Connection.{Connection}
use boost_connector.Ftx.Channels.{ChannelState, ChannelStateMap, find, release_channel}
use boost_connector.Ftx.Channels.Laws.{release_channel-find, left_by}
use boost_connector.Ftx.Machine
use boost_connector.Ftx.Connector.{Connector, Subscription, Phase, abandoned, holding, finished}
use boost_connector.Ftx.Subscription.{Action, starts, stops, resumes, run}
use boost_connector.Ftx.Subscription.Accounting.{CountedIn}
use boost_connector.Ftx.Subscription.Races.{run-both_hold}
use boost_connector.Async.Latch.{is_set}
use boost_connector.Ftx.Connector.{created, woken}
use boost_connector.Ftx.Subscription.{step}
use boost_connector.Ftx.Subscription.Exclusion.Turns.{ExclusiveIn}
use boost_connector.Ftx.Subscription.Exclusion.History.{CalmRun, next, done, CalmRun-Exclusive}
use boost_connector.Ftx.Subscription.Machines.{AllSound}
use boost_connector.Ftx.Subscription.Machines.Turns.{run-AllSound}
use boost_connector.Ftx.Subscription.Accounting.History.{run-Counted, run-abandoned}

abbrev pub topic : ChannelMarketPair
topic = record { channel = codes "orderbook"; market = codes "BTC/USD" }

abbrev serialize : Value → Text
serialize v = codes "frame"

abbrev parse : Text → Option Value
parse t = none

abbrev pub shared : ChannelState
shared = record { cv = 1 ∷ []; on_event = some 0; interest = 2; acquired = true }

abbrev pub one_channel : ChannelStateMap
one_channel = (topic, shared) ∷ []

pub one_channel-find : find topic one_channel ≡ some shared
unfolding find pair_eq text_eq
one_channel-find = refl

release_channel-find_example :
    (m' : ChannelStateMap) × (release_channel topic one_channel ≡ some (m', some 1))
    × ((j : ChannelMarketPair)
        → find j m' ≡ (if pair_eq topic j then left_by shared else find j one_channel))
unfolding find
release_channel-find_example =
    release_channel-find topic shared one_channel (refl, tt) one_channel-find refl (omega arith)

-- A new connector.
abbrev pub idle : Connector
idle = record {
  connection = record {
    connection_state = Connection.down;
    write_queue = record { queue = []; waiting = 0; resumed = 0 };
    on_drop = false;
    socket_open = false;
  };
  state_cv = record { waiting = 0; resumed = 0 };
  channel_states = [];
  pong_buffer = Single.make;
  subscriptions = [];
}

idle-CountedIn : CountedIn idle
unfolding tally find
idle-CountedIn = record { unique = tt; exact = λ k. refl; positive = λ k. tt }

abbrev after_holder : Subscription
after_holder = record {
  topic = topic;
  phase = finished;
  stop_latch = Latch.set (Latch.make false);
  machine = record {
    topic = topic;
    connection = idle.connection;
    closed_latch = Latch.set (Latch.make false);
    state = Machine.closed;
    close_requested = true;
  };
}

abbrev after_waiter : Subscription
after_waiter = record {
  topic = topic;
  phase = abandoned;
  stop_latch = Latch.set (Latch.make false);
  machine = record {
    topic = topic;
    connection = idle.connection;
    closed_latch = Latch.make false;
    state = Machine.down;
    close_requested = false;
  };
}

-- Two subscriptions to one topic: the second gives up waiting, and then the first is stopped.
abbrev actions : List Action
actions =
    starts topic
    ∷ starts topic
    ∷ resumes 0
    ∷ resumes 1
    ∷ stops 1
    ∷ resumes 1
    ∷ stops 0
    ∷ resumes 0
    ∷ []

abbrev left_over : ChannelState
left_over = record { cv = []; on_event = some 0; interest = 1; acquired = false }

abbrev after : Connector
after = record idle {
  channel_states = (topic, left_over) ∷ [];
  subscriptions = after_holder ∷ after_waiter ∷ [];
}

actions-run : run serialize parse actions idle ≡ some after
unfolding run make located find locate_channel assign pair_eq text_eq is_up Connection.is_up
    Latch.is_set Latch.make Latch.set Machine.close release_channel wake
actions-run = refl

after-CountedIn : CountedIn after
after-CountedIn = run-Counted serialize parse actions idle actions-run idle-CountedIn

idle-AllSound : AllSound idle
idle-AllSound = tt

after-AllSound : AllSound after
after-AllSound = run-AllSound serialize parse actions idle actions-run idle-AllSound

run-abandoned_example :
    (c : ChannelState) × (find topic after.channel_states ≡ some c) × (0 < c.interest)
run-abandoned_example =
    run-abandoned serialize parse actions idle after 1 after_waiter actions-run idle-CountedIn refl
      refl

-- A subscription that is woken, and one that begins before it goes on, both hold the channel.
abbrev two_holders : List Action
two_holders =
    starts topic
    ∷ starts topic
    ∷ resumes 0
    ∷ resumes 1
    ∷ stops 0
    ∷ resumes 0
    ∷ starts topic
    ∷ resumes 2
    ∷ resumes 1
    ∷ []

abbrev phases : Connector → Option (List Phase)
phases w = some (map (λ s. s.phase) w.subscriptions)

two_holders-run :
    (run serialize parse two_holders idle >>= phases) ≡ some (finished ∷ holding ∷ holding ∷ [])
unfolding run make located find locate_channel assign pair_eq text_eq is_up Connection.is_up
    Latch.is_set Latch.make Latch.set Machine.close release_channel wake
two_holders-run = refl

abbrev pub in_phase : Phase → Subscription
in_phase p = record after_waiter { phase = p; stop_latch = Latch.make false }

abbrev free : ChannelState
free = record { cv = []; on_event = some 9; interest = 1; acquired = false }

-- A channel after its release, with a new subscription and the waiter that the release has woken.
abbrev released_channel : Connector
released_channel = record idle {
  channel_states = (topic, free) ∷ [];
  subscriptions = in_phase created ∷ in_phase woken ∷ [];
}

free-find : find topic released_channel.channel_states ≡ some free
unfolding find pair_eq text_eq
free-find = refl

pub unset : is_set (Latch.make false) ≡ false
unfolding is_set Latch.make
unset = refl

offline : Connection.is_up idle.connection ≡ false
unfolding Connection.is_up
offline = refl

run-both_hold_example :
    (w' : Connector) × (run serialize parse (resumes 0 ∷ resumes 1 ∷ []) released_channel ≡ some w')
    × (get_elem? w'.subscriptions 0 ≡ some (in_phase holding))
    × (get_elem? w'.subscriptions 1 ≡ some (in_phase holding))
run-both_hold_example =
    run-both_hold serialize parse 0 1 (in_phase created) (in_phase woken) free released_channel
      (λ e. omega arith) refl refl refl refl refl free-find refl unset unset offline

idle-ExclusiveIn : ExclusiveIn idle
unfolding tally find
idle-ExclusiveIn = record {
  unique = tt;
  exact = λ k. refl;
  single = λ k. omega arith;
  parked = λ k. tt;
}

-- The history in which the second subscription gives up waiting overtakes nobody.
actions-CalmRun : CalmRun serialize parse idle after
unfolding step make located find locate_channel assign pair_eq text_eq is_up Connection.is_up
    Latch.is_set Latch.make Latch.set Machine.close release_channel wake tally
actions-CalmRun = next (starts topic) refl refl (
    next (starts topic) refl refl (
      next (resumes 0) refl refl (
        next (resumes 1) refl refl (
          next (stops 1) refl refl (
            next (resumes 1) refl refl
              (next (stops 0) refl refl (next (resumes 0) refl refl done)))))))

CalmRun-Exclusive_example : ExclusiveIn after
CalmRun-Exclusive_example =
    CalmRun-Exclusive serialize parse idle after actions-CalmRun idle-ExclusiveIn

-- A subscription whose machine is closed, and one that waits for its channel.
abbrev closed_holder : Subscription
closed_holder = record after_holder { phase = closing }

abbrev ending : Connector
ending = record idle {
  channel_states = one_channel;
  subscriptions = closed_holder ∷ in_phase waiting ∷ [];
}

is_closed : is_set closed_holder.machine.closed_latch ≡ true
unfolding is_set Latch.set Latch.make
is_closed = refl

ending-run-passed_to :
    (w' : Connector) × (run serialize parse (resumes 0 ∷ resumes 1 ∷ []) ending ≡ some w')
    × (get_elem? w'.subscriptions 0 ≡ some after_holder)
    × ((m : StateMachine) × (get_elem? w'.subscriptions 1
          ≡ some (record (in_phase holding) { machine = m })))
    × (find topic w'.channel_states ≡ some (passed_to 1 shared))
unfolding find
ending-run-passed_to =
    run-passed_to serialize parse 0 1 [] closed_holder (in_phase waiting) shared ending
      (λ e. omega arith) refl refl refl is_closed refl unset refl refl (refl, tt) one_channel-find
      refl refl (omega arith)
