-- ===== src/Ftx/Subscription/Accounting.antt =====
-- The count of interest of a channel: `interest` of
-- include/boost/connector/vendor/ftx/channel_state.hpp against the phases of the subscriptions.
pub mod Moves
pub mod History
use boost_connector.Base.{
  ℕ, zero, suc, ◌+◌, ◌<◌, Bool, true, false, ◌&&◌, Option, none, some, ◌≡◌, refl, List, [], ◌∷◌,
  ◌++◌, get_elem?, set, arith, if◌then◌else◌,
}
use boost_connector.Ftx.Event.{ChannelMarketPair, pair_eq, pair_eq_sound, pair_eq_refl}
use boost_connector.Ftx.Channels.{ChannelState, ChannelStateMap, find, assign, erase}
use boost_connector.Ftx.Channels.Laws.{
  NoDuplicates, find-assign, find-erase, assign-NoDuplicates, erase-NoDuplicates,
}
use boost_connector.Ftx.Connector.{
  Connector, Phase, created, waiting, woken, holding, closing, finished, abandoned,
}
use boost_connector.Ftx.Subscription.View.{Header, headers}
use boost_connector.Ftx.Subscription.Tally.{one, tally, tally-set, tally-append, tally-get_elem?}

abbrev pub is_counted : Phase → Bool
is_counted created = false
is_counted finished = false
is_counted _ = true

-- The subscriptions that count for a topic.
abbrev pub count : ChannelMarketPair → List Header → ℕ
count k hs = tally is_counted k hs

abbrev pub interest_of : Option ChannelState → ℕ
interest_of none = 0
interest_of (some c) = c.interest

abbrev pub IsPositive : Option ChannelState → Type 0
IsPositive none = Unit
IsPositive (some c) = 0 < c.interest

-- Each topic has one channel at most, with the interest of the subscriptions that count for it, and a
-- channel without interest does not exist.
pub record Counted (m : ChannelStateMap) (hs : List Header) : Type 0 where
  pub unique : NoDuplicates m
  pub exact : (k : ChannelMarketPair) → interest_of (find k m) ≡ count k hs
  pub positive : (k : ChannelMarketPair) → IsPositive (find k m)

abbrev pub CountedIn : Connector → Type 0
CountedIn w = Counted w.channel_states (headers w)

-- A new subscription does not count yet.
pub enrol-Counted :
    (k : ChannelMarketPair) (m : ChannelStateMap) (hs : List Header)
    → Counted m hs
    → Counted m (hs ++ (k, created) ∷ [])
enrol-Counted k m hs v = record {
  unique = v.unique;
  exact = λ j. ground (arith, v.exact j, tally-append is_counted j hs (k, created));
  positive = v.positive;
}

-- A change of phase that does not change who counts.
pub shift-Counted :
    (k : ChannelMarketPair) (p p' : Phase) (i : ℕ) (m : ChannelStateMap) (hs : List Header)
    → get_elem? hs i ≡ some (k, p)
    → is_counted p ≡ is_counted p'
    → Counted m hs
    → Counted m (set hs i (k, p'))
shift-Counted k p p' i m hs h same v = record {
  unique = v.unique;
  exact = λ j. ground (arith, v.exact j, tally-set is_counted j hs i (k, p) (k, p') h);
  positive = v.positive;
}

-- A write to a channel that moves its interest with the phase of one of its subscriptions.
pub assign-Counted :
    (k : ChannelMarketPair) (p p' : Phase) (i : ℕ) (c : ChannelState) (m : ChannelStateMap)
    (hs : List Header)
    → get_elem? hs i ≡ some (k, p)
    → c.interest + one (is_counted p) ≡ interest_of (find k m) + one (is_counted p')
    → 0 < c.interest
    → Counted m hs
    → Counted (assign k c m) (set hs i (k, p'))
assign-Counted k p p' i c m hs h balance pos v = record {
  unique = assign-NoDuplicates k c m v.unique;
  exact = λ j. ground (
    arith,
    find-assign k j c m,
    v.exact j,
    v.exact k,
    pair_eq_sound k j,
    tally-set is_counted j hs i (k, p) (k, p') h,
  );
  positive = λ j. ground (arith, find-assign k j c m, v.positive j);
}

-- The last of its subscriptions leaves a channel.
pub erase-Counted :
    (k : ChannelMarketPair) (p : Phase) (i : ℕ) (c : ChannelState) (m : ChannelStateMap)
    (hs : List Header)
    → get_elem? hs i ≡ some (k, p)
    → find k m ≡ some c
    → c.interest ≡ 1
    → is_counted p ≡ true
    → Counted m hs
    → Counted (erase k m) (set hs i (k, finished))
erase-Counted k p i c m hs h found last counts v = record {
  unique = erase-NoDuplicates k m v.unique;
  exact = λ j. ground (
    arith,
    find-erase k j m v.unique,
    v.exact j,
    pair_eq_sound k j,
    tally-set is_counted j hs i (k, p) (k, finished) h,
  );
  positive = λ j. ground (arith, find-erase k j m v.unique, v.positive j);
}

interest_of-positive :
    (o : Option ChannelState)
    → 0 < interest_of o
    → (c : ChannelState) × (o ≡ some c) × (0 < c.interest)
interest_of-positive none h = absurd (omega arith)
interest_of-positive (some c) h = (c, refl, h)

-- The topic of a subscription that counts has a channel.
pub Counted-find :
    (k : ChannelMarketPair) (m : ChannelStateMap) (hs : List Header) (i : ℕ) (p : Phase)
    → Counted m hs
    → get_elem? hs i ≡ some (k, p)
    → is_counted p ≡ true
    → (c : ChannelState) × (find k m ≡ some c) × (0 < c.interest)
Counted-find k m hs i p v e h =
    interest_of-positive (find k m)
      (omega (arith, v.exact k, tally-get_elem? is_counted k p hs i e h))
