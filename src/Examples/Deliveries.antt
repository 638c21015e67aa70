-- ===== src/Examples/Deliveries.antt =====
-- A history of a connector with one subscription that acquires its channel, and a frame for it.
use boost_connector.Base.{codes}
use boost_connector.Base.{Option}
use boost_connector.Json.{Value}
use boost_connector.Base.{false}
use boost_connector.Base.{ℕ}
use boost_connector.Base.{text_eq, true, some, ◌≡◌, refl, [], ◌∷◌}
use boost_connector.Async.Latch
use boost_connector.Async.Latch.{is_set}
use boost_connector.Json.{null}
use boost_connector.Ftx.Event.{pair_eq, response}
use boost_connector.Ftx.Connection
use boost_connector.Ftx.Channels.{ChannelState, find, assign, located, locate_channel}
use boost_connector.Ftx.Machine
use boost_connector.Ftx.Connector.{Connector, Subscription, holding, is_up, dispatch_index, deliver}
use boost_connector.Ftx.Subscription.{starts, resumes, make, step}
use boost_connector.Ftx.Subscription.View.{headers}
use boost_connector.Ftx.Subscription.Protocol.{Refines}
use boost_connector.Ftx.Subscription.Wiring.{Wired}
use boost_connector.Ftx.Subscription.Wiring.Delivery.{Holder}
use boost_connector.Ftx.Life.{System, idle, start, Reach, here, next, acts}
use boost_connector.Ftx.Life.Protocol.{Reach-Refines, Reach-Wired}
use boost_connector.Ftx.Life.Delivery.{Reach-Holder}
use boost_connector.Base.{Text, arith}
use boost_connector.Json.{object, field, end, string, if_object, if_contains, if_string}
use boost_connector.Ftx.Connector.{waiting, finished, text, parse_frame, frame_index}
use boost_connector.Ftx.Machine.{StateMachine}
use boost_connector.Ftx.Subscription.{stops, reads, run}
use boost_connector.Ftx.Subscription.View.{At}
use boost_connector.Ftx.Subscription.Handover.{passed_to}
use boost_connector.Ftx.Subscription.Ending.{run-Confirms}
use boost_connector.Ftx.Subscription.Ending.Steps.{Confirms}
use boost_connector.Examples.Channels.{
  topic, shared, one_channel, one_channel-find, in_phase, unset,
}
use boost_connector.Examples.Lives.{serialize, parse, hmac_hex, key, fresh, fresh-Coherent}

abbrev holder : Subscription
holder = record {
  topic = topic;
  phase = holding;
  stop_latch = Latch.make false;
  machine = record {
    topic = topic;
    connection = fresh.connection;
    closed_latch = Latch.make false;
    state = Machine.down;
    close_requested = false;
  };
}

abbrev held : ChannelState
held = record { cv = []; on_event = some 0; interest = 1; acquired = true }

abbrev pub served : System
served = record {
  stage = idle;
  stopping = false;
  connector = record fresh { channel_states = (topic, held) ∷ []; subscriptions = holder ∷ [] };
}

subscribes : Reach serialize parse hmac_hex key (start fresh) served
unfolding start step make located find locate_channel assign pair_eq text_eq is_up Connection.is_up
    is_set Latch.make
subscribes = next (next here (acts (starts topic) _ refl refl)) (acts (resumes 0) _ refl refl)

fresh-Wired : Wired fresh.channel_states (headers fresh)
unfolding find
fresh-Wired = record { unique = tt; target = λ k. tt }

Reach-Refines_example : Refines fresh served.connector
Reach-Refines_example = Reach-Refines serialize parse hmac_hex key fresh served subscribes

pub served-Wired : Wired served.connector.channel_states (headers served.connector)
served-Wired = Reach-Wired serialize parse hmac_hex key fresh served subscribes fresh-Wired

held-find : find topic served.connector.channel_states ≡ some held
unfolding find pair_eq text_eq
held-find = refl

Reach-Holder_example :
    (i : ℕ) × (h : Holder topic served.connector i) × (dispatch_index serialize parse
        (some topic)
        null
        served.connector
      ≡ deliver serialize parse (some i) (response null) served.connector)
    × (h.subscription.phase ≡ holding
        → (w' : Connector) × (dispatch_index serialize parse (some topic) null served.connector
            ≡ some w'))
Reach-Holder_example =
    Reach-Holder serialize parse hmac_hex key fresh served topic held null subscribes fresh-Wired
      fresh-Coherent held-find refl

-- A parser that reads the confirmation of the unsubscription in each text.
abbrev confirmation : Value
confirmation = object (
    field (codes "channel") (string topic.channel) (
      field (codes "market") (string topic.market)
        (field (codes "type") (string (codes "unsubscribed")) end)))

abbrev parse_confirmation : Text → Option Value
parse_confirmation t = some confirmation

abbrev open_holder : Subscription
open_holder = record holder { machine = record (holder.machine) { state = Machine.opened } }

abbrev contended : Connector
contended = record fresh {
  channel_states = one_channel;
  subscriptions = open_holder ∷ in_phase waiting ∷ [];
}

confirms : Confirms parse_confirmation topic []
unfolding parse_frame frame_index if_object if_contains if_string text_eq
confirms = record { value = confirmation; fields = _; parsed = refl; index = refl }

run-Confirms_example :
    (w' : Connector) × (run serialize parse_confirmation
        (stops 0 ∷ resumes 0 ∷ reads (text []) ∷ resumes 0 ∷ resumes 1 ∷ [])
        contended
      ≡ some w')
    × ((s' : Subscription) × At w' 0 s' × (s'.phase ≡ finished))
    × ((m : StateMachine) × At w' 1 (record (in_phase holding) { machine = m }))
    × (find topic w'.channel_states ≡ some (passed_to 1 shared))
unfolding find
run-Confirms_example =
    run-Confirms serialize parse_confirmation 0 1 [] open_holder (in_phase waiting) shared []
      contended (λ e. omega arith) refl refl refl refl refl unset refl unset refl refl (refl, tt)
      one_channel-find refl refl refl (omega arith) confirms
