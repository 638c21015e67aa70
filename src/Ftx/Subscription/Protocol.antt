-- ===== src/Ftx/Subscription/Protocol.antt =====
-- The protocol by which subscriptions share the channels of a connector, without their machines, latches and
-- connection: src/vendor/ftx/upstream_subscription_impl.cpp and
-- src/vendor/ftx/ftx_websocket_connector_concept.cpp.
pub mod Turns
pub mod Refines
use boost_connector.Base.{
  ℕ, true, false, Option, none, some, ◌≡◌, refl, List, [], ◌∷◌, ◌++◌, get_elem?, set,
}
use boost_connector.Ftx.Event.{ChannelMarketPair}
use boost_connector.Ftx.Channels.{
  ChannelState, ChannelStateMap, find, assign, located, locate_channel, release_channel,
}
use boost_connector.Ftx.Connector.{
  Connector, Phase, created, waiting, woken, holding, closing, finished, abandoned,
}
use boost_connector.Ftx.Subscription.View.{Header, headers}
use boost_connector.Ftx.Subscription.{remove}

-- The channel with its callback set to a new holder.
abbrev pub held_by : ℕ → ChannelState → ChannelState
held_by i c = record c { acquired = true; on_event = some i }

abbrev pub joined_by : ℕ → ChannelState → ChannelState
joined_by i c = record c { cv = c.cv ++ i ∷ [] }

-- The moves of the protocol, from the channels and the places of the coroutines to those after.
pub data Move (m : ChannelStateMap) (hs : List Header)
    : ChannelStateMap → List Header → Type 0 where
  enrols : (k : ChannelMarketPair) → Move m hs m (hs ++ (k, created) ∷ [])
  -- a new subscription to a channel that is held
  waits :
      (i : ℕ) (k : ChannelMarketPair)
      → get_elem? hs i ≡ some (k, created)
      → (located k m).acquired ≡ true
      → Move m hs
          (assign k (joined_by i (located k m)) (locate_channel k m))
          (set hs i (k, waiting))
  -- a new subscription that was stopped before
  gives_up_at_once :
      (i : ℕ) (k : ChannelMarketPair)
      → get_elem? hs i ≡ some (k, created)
      → (located k m).acquired ≡ true
      → Move m hs (locate_channel k m) (set hs i (k, abandoned))
  takes :
      (i : ℕ) (k : ChannelMarketPair)
      → get_elem? hs i ≡ some (k, created)
      → (located k m).acquired ≡ false
      → Move m hs (assign k (held_by i (located k m)) (locate_channel k m)) (set hs i (k, holding))
  takes_over :
      (i : ℕ) (k : ChannelMarketPair) (c : ChannelState)
      → get_elem? hs i ≡ some (k, woken)
      → find k m ≡ some c
      → Move m hs (assign k (held_by i c) m) (set hs i (k, holding))
  -- a stopped waiter, whose wait on the timer is cancelled
  leaves_queue :
      (i : ℕ) (k : ChannelMarketPair) (c : ChannelState)
      → get_elem? hs i ≡ some (k, waiting)
      → find k m ≡ some c
      → Move m hs (assign k (record c { cv = remove i c.cv }) m) (set hs i (k, abandoned))
  leaves_nothing :
      (i : ℕ) (k : ChannelMarketPair)
      → get_elem? hs i ≡ some (k, waiting)
      → find k m ≡ none
      → Move m hs m (set hs i (k, abandoned))
  closes :
      (i : ℕ) (k : ChannelMarketPair)
      → get_elem? hs i ≡ some (k, holding)
      → Move m hs m (set hs i (k, closing))
  finishes :
      (i : ℕ) (k : ChannelMarketPair) (m' : ChannelStateMap) (next : Option ℕ)
      → get_elem? hs i ≡ some (k, closing)
      → release_channel k m ≡ some (m', next)
      → Move m hs m' (set hs i (k, finished))
  -- the release wakes a waiter
  hands_over :
      (i j : ℕ) (k l : ChannelMarketPair) (m' : ChannelStateMap)
      → get_elem? hs i ≡ some (k, closing)
      → release_channel k m ≡ some (m', some j)
      → get_elem? (set hs i (k, finished)) j ≡ some (l, waiting)
      → Move m hs m' (set (set hs i (k, finished)) j (l, woken))

pub data Moves (m : ChannelStateMap) (hs : List Header)
    : ChannelStateMap → List Header → Type 0 where
  stays : Moves m hs m hs
  then_ :
      {m1 m2 : ChannelStateMap} {hs1 hs2 : List Header}
      → Moves m hs m1 hs1
      → Move m1 hs1 m2 hs2
      → Moves m hs m2 hs2

pub Moves-trans :
    {m m1 : ChannelStateMap} {hs hs1 : List Header} {m2 : ChannelStateMap} {hs2 : List Header}
    → Moves m hs m1 hs1
    → Moves m1 hs1 m2 hs2
    → Moves m hs m2 hs2
Moves-trans p stays = p
Moves-trans p (then_ q e) = then_ (Moves-trans p q) e

-- The connectors, seen as their channels and where the coroutines stand, are connected by moves.
abbrev pub Refines : Connector → Connector → Type 0
Refines w w' = Moves w.channel_states (headers w) w'.channel_states (headers w')
