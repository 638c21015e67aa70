-- ===== src/Ftx/Channels.antt =====
-- The channel states of a connector: include/boost/connector/vendor/ftx/channel_state.hpp, and
-- `locate_channel` and `release_channel` of
-- src/vendor/ftx/ftx_websocket_connector_concept.cpp. The unordered map is an association list, in the
-- order in which it would be iterated; an iterator is the key that it points to. `none` is a fault: an
-- assertion that fails, or a key that is not there.
pub mod Laws
use boost_connector.Base.{
  ℕ, zero, suc, ◌+◌, ◌-◌, Bool, true, false, Option, none, some, ◌>>=◌, List, [], ◌∷◌, ◌++◌, ◌==◌,
  if◌then◌else◌,
}
use boost_connector.Ftx.Event.{ChannelMarketPair, pair_eq}

-- `on_event` calls the machine of the subscription with that index, and `cv` lists the subscriptions
-- suspended on the timer, the oldest first.
pub record ChannelState : Type 0 where
  pub cv : List ℕ
  pub on_event : Option ℕ
  pub interest : ℕ
  pub acquired : Bool

abbrev pub ChannelStateMap : Type 0
ChannelStateMap = List (ChannelMarketPair × ChannelState)

abbrev pub initial : ChannelState
initial = record { cv = []; on_event = none; interest = 0; acquired = false }

unfoldable pub find : ChannelMarketPair → ChannelStateMap → Option ChannelState
find k [] = none
find k ((j, c) ∷ m) = if pair_eq j k then some c else find k m

unfoldable pub assign : ChannelMarketPair → ChannelState → ChannelStateMap → ChannelStateMap
assign k c [] = (k, c) ∷ []
assign k c ((j, d) ∷ m) = if pair_eq j k then (j, c) ∷ m else (j, d) ∷ assign k c m

unfoldable pub erase : ChannelMarketPair → ChannelStateMap → ChannelStateMap
erase k [] = []
erase k ((j, d) ∷ m) = if pair_eq j k then m else (j, d) ∷ erase k m

abbrev pub or_initial : Option ChannelState → ChannelState
or_initial none = initial
or_initial (some c) = c

-- The state that the returned iterator points to, after one more consumer has expressed interest.
unfoldable pub located : ChannelMarketPair → ChannelStateMap → ChannelState
located k m = let c = or_initial (find k m) in record c { interest = c.interest + 1 }

unfoldable pub locate_channel : ChannelMarketPair → ChannelStateMap → ChannelStateMap
unfolding located
locate_channel k m = assign k (located k m) m

-- `cancel_one` of the timer: the waiter that it completes, if any, and those left.
abbrev pub first_waiter : List ℕ → Option ℕ
first_waiter [] = none
first_waiter (i ∷ is) = some i

abbrev pub other_waiters : List ℕ → List ℕ
other_waiters [] = []
other_waiters (i ∷ is) = is

-- The new map, and the waiter whose wait completes.
release_state :
    ChannelMarketPair → ChannelState → ChannelStateMap → Option (ChannelStateMap × Option ℕ)
release_state k c m =
    if c.acquired
    then (if c.interest == 0
        then none
        else if c.interest - 1 == 0
        then some (erase k m, none)
        else some (
          assign k
              (record c { acquired = false; interest = c.interest - 1; cv = other_waiters c.cv }) m,
          first_waiter c.cv,
        ))
    else none

unfoldable pub release_channel :
    ChannelMarketPair → ChannelStateMap → Option (ChannelStateMap × Option ℕ)
unfolding release_state
release_channel k m = do c ← find k m; release_state k c m
