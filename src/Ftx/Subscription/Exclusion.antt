-- ===== src/Ftx/Subscription/Exclusion.antt =====
-- Who may hold a channel: `acquired` and the waiters of
-- include/boost/connector/vendor/ftx/channel_state.hpp against the phases of the subscriptions.
pub mod Moves
pub mod Turns
pub mod Phases
pub mod History
use boost_connector.Base.{
  ℕ, zero, suc, ◌+◌, ◌<◌, ◌≤◌, Bool, true, false, ◌==◌, ==_iff, Option, none, some, ◌≡◌, ◌≢◌, refl,
  sym, ap, subst, ◌∙◌, List, [], ◌∷◌, ◌++◌, get_elem?, get_elem?-set_self, get_elem?-set_ne,
  get_elem?-append, set, All, All-map, arith, if◌then◌else◌, Bool-cases, inl, inr,
}
use boost_connector.Ftx.Event.{ChannelMarketPair, pair_eq, pair_eq_sound, pair_eq_refl}
use boost_connector.Ftx.Channels.{ChannelState, ChannelStateMap, find, assign, erase, other_waiters}
use boost_connector.Ftx.Channels.Laws.{
  NoDuplicates, find-assign, find-erase, assign-NoDuplicates, erase-NoDuplicates, released,
}
use boost_connector.Ftx.Connector.{
  Connector, Phase, created, waiting, woken, holding, closing, finished, abandoned,
}
use boost_connector.Ftx.Subscription.View.{Header, headers}
use boost_connector.Ftx.Subscription.Tally.{one, tally, tally-set, tally-append, tally-get_elem?}

-- The coroutine has taken its channel and not released it.
abbrev pub is_holder : Phase → Bool
is_holder holding = true
is_holder closing = true
is_holder _ = false

-- The coroutine will take its channel at its next turn.
abbrev pub is_next : Phase → Bool
is_next woken = true
is_next _ = false

abbrev pub holders : ChannelMarketPair → List Header → ℕ
holders k hs = tally is_holder k hs

abbrev pub successors : ChannelMarketPair → List Header → ℕ
successors k hs = tally is_next k hs

abbrev pub is_acquired : Option ChannelState → Bool
is_acquired none = false
is_acquired (some c) = c.acquired

abbrev pub waiters_of : Option ChannelState → List ℕ
waiters_of none = []
waiters_of (some c) = c.cv

abbrev pub HasTopic : ChannelMarketPair → List Header → ℕ → Type 0
HasTopic k hs i = (p : Phase) × (get_elem? hs i ≡ some (k, p))

-- Each topic has as many holders as its channel says, one at most, and none beside a successor; and the
-- waiters of a channel are subscriptions to its topic.
pub record Exclusive (m : ChannelStateMap) (hs : List Header) : Type 0 where
  pub unique : NoDuplicates m
  pub exact : (k : ChannelMarketPair) → holders k hs ≡ one (is_acquired (find k m))
  pub single : (k : ChannelMarketPair) → holders k hs + successors k hs ≤ 1
  pub parked : (k : ChannelMarketPair) → All (HasTopic k hs) (waiters_of (find k m))

HasTopic-append :
    (k : ChannelMarketPair) (hs hs' : List Header) (i : ℕ)
    → HasTopic k hs i
    → HasTopic k (hs ++ hs') i
HasTopic-append k hs hs' i (p, h) = (p, get_elem?-append hs hs' i (k, p) h)

-- A change of phase keeps the topics.
pub HasTopic-set :
    (k j : ChannelMarketPair) (p p' : Phase) (hs : List Header) (i n : ℕ)
    → get_elem? hs i ≡ some (k, p)
    → HasTopic j hs n
    → HasTopic j (set hs i (k, p')) n
HasTopic-set k j p p' hs i n h (q, t) = elim (Bool-cases (i == n)) [
  | inl same ↦
      let e : i ≡ n = (==_iff i n).0 same in
      let t' : get_elem? hs n ≡ some (k, p) = ap (get_elem? hs) (sym e) ∙ h in
      let k-j : k ≡ j = ground arith in
      (
        p',
        ap (get_elem? (set hs i (k, p'))) (sym e)
            ∙ get_elem?-set_self hs i (k, p') (k, p) h
            ∙ ap (λ l. some (l, p')) k-j,
      )
  | inr other ↦ (q, get_elem?-set_ne hs i n (k, p') (λ e. ground (arith, ==_iff i n)) ∙ t)
]

pub AllTopic-set :
    (k j : ChannelMarketPair) (p p' : Phase) (hs : List Header) (i : ℕ) (ns : List ℕ)
    → get_elem? hs i ≡ some (k, p)
    → All (HasTopic j hs) ns
    → All (HasTopic j (set hs i (k, p'))) ns
AllTopic-set k j p p' hs i ns h v =
    All-map (HasTopic j hs) (HasTopic j (set hs i (k, p')))
      (λ n t. HasTopic-set k j p p' hs i n h t) ns v

-- A new subscription neither holds a channel nor will at once.
pub enrol-Exclusive :
    (k : ChannelMarketPair) (m : ChannelStateMap) (hs : List Header)
    → Exclusive m hs
    → Exclusive m (hs ++ (k, created) ∷ [])
enrol-Exclusive k m hs v = record {
  unique = v.unique;
  exact = λ j. ground (arith, v.exact j, tally-append is_holder j hs (k, created));
  single = λ j. ground (
    arith,
    v.single j,
    tally-append is_holder j hs (k, created),
    tally-append is_next j hs (k, created),
  );
  parked = λ j. All-map (HasTopic j hs) (HasTopic j _) (HasTopic-append j hs _) _ (v.parked j);
}

-- A change of phase that changes neither who holds nor who is next.
pub shift-Exclusive :
    (k : ChannelMarketPair) (p p' : Phase) (i : ℕ) (m : ChannelStateMap) (hs : List Header)
    → get_elem? hs i ≡ some (k, p)
    → is_holder p ≡ is_holder p'
    → is_next p ≡ is_next p'
    → Exclusive m hs
    → Exclusive m (set hs i (k, p'))
shift-Exclusive k p p' i m hs h same_holder same_next v = record {
  unique = v.unique;
  exact = λ j. ground (arith, v.exact j, tally-set is_holder j hs i (k, p) (k, p') h);
  single = λ j. ground (
    arith,
    v.single j,
    tally-set is_holder j hs i (k, p) (k, p') h,
    tally-set is_next j hs i (k, p) (k, p') h,
  );
  parked = λ j. AllTopic-set k j p p' hs i _ h (v.parked j);
}

-- The waiters of the channels after a write to one of them.
pub parked-assign :
    (k j : ChannelMarketPair) (c : ChannelState) (m : ChannelStateMap) (hs : List Header)
    → All (HasTopic k hs) c.cv
    → All (HasTopic j hs) (waiters_of (find j m))
    → All (HasTopic j hs) (waiters_of (find j (assign k c m)))
parked-assign k j c m hs own others = elim (Bool-cases (pair_eq k j)) [
  | inl same ↦
      rw (find-assign k j c m, same)
        (subst (λ l. All (HasTopic l hs) c.cv) (pair_eq_sound k j same) own)
  | inr other ↦ rw (find-assign k j c m, other) others
]

-- A write that leaves it open who holds the channel.
pub assign-Exclusive :
    (k : ChannelMarketPair) (c : ChannelState) (m : ChannelStateMap) (hs : List Header)
    → c.acquired ≡ is_acquired (find k m)
    → All (HasTopic k hs) c.cv
    → Exclusive m hs
    → Exclusive (assign k c m) hs
assign-Exclusive k c m hs same own v = record {
  unique = assign-NoDuplicates k c m v.unique;
  exact = λ j. ground (arith, find-assign k j c m, v.exact j, pair_eq_sound k j);
  single = v.single;
  parked = λ j. parked-assign k j c m hs own (v.parked j);
}
