-- ===== src/Ftx/Subscription/Exclusion/Moves.antt =====
-- A channel is taken, released, and handed to its first waiter.
use boost_connector.Base.{
  ℕ, ◌+◌, true, false, Option, none, some, ◌≡◌, sym, subst, List, [], ◌∷◌, get_elem?, set, All,
  arith, Bool-cases, inl, inr,
}
use boost_connector.Ftx.Event.{ChannelMarketPair, pair_eq, pair_eq_sound, pair_eq_refl}
use boost_connector.Ftx.Channels.{
  ChannelState, ChannelStateMap, find, assign, erase, first_waiter, other_waiters, release_channel,
}
use boost_connector.Ftx.Channels.Laws.{
  NoDuplicates, find-assign, find-erase, assign-NoDuplicates, erase-NoDuplicates, released,
  release_channel-cases,
}
use boost_connector.Ftx.Connector.{Phase, woken, holding, finished}
use boost_connector.Ftx.Subscription.View.{Header}
use boost_connector.Ftx.Subscription.Tally.{one, tally-set, tally-get_elem?}
use boost_connector.Ftx.Subscription.Exclusion.{
  Exclusive, HasTopic, AllTopic-set, is_holder, is_next, is_acquired, waiters_of, holders,
  successors, parked-assign,
}

-- A channel that nobody holds is taken, by its successor or where there is none.
pub take-Exclusive :
    (k : ChannelMarketPair) (p : Phase) (i : ℕ) (c : ChannelState) (m : ChannelStateMap)
    (hs : List Header)
    → get_elem? hs i ≡ some (k, p)
    → is_holder p ≡ false
    → is_acquired (find k m) ≡ false
    → successors k hs ≡ one (is_next p)
    → c.acquired ≡ true
    → c.cv ≡ waiters_of (find k m)
    → Exclusive m hs
    → Exclusive (assign k c m) (set hs i (k, holding))
take-Exclusive k p i c m hs h idle free last taken same v = record {
  unique = assign-NoDuplicates k c m v.unique;
  exact = λ j. ground (
    arith,
    find-assign k j c m,
    v.exact j,
    v.exact k,
    pair_eq_sound k j,
    tally-set is_holder j hs i (k, p) (k, holding) h,
  );
  single = λ j. ground (
    arith,
    v.single j,
    v.exact k,
    pair_eq_sound k j,
    tally-set is_holder j hs i (k, p) (k, holding) h,
    tally-set is_next j hs i (k, p) (k, holding) h,
  );
  parked = λ j.
      parked-assign k j c m (set hs i (k, holding))
        (AllTopic-set k k p holding hs i c.cv h
          (subst (All (HasTopic k hs)) (sym same) (v.parked k)))
        (AllTopic-set k j p holding hs i _ h (v.parked j));
}

-- A holder is the only one, and there is no successor yet.
alone :
    (k : ChannelMarketPair) (p : Phase) (i : ℕ) (m : ChannelStateMap) (hs : List Header)
    → get_elem? hs i ≡ some (k, p)
    → is_holder p ≡ true
    → Exclusive m hs
    → (holders k hs ≡ 1) × (successors k hs ≡ 0)
alone k p i m hs h held v = (
  omega (arith, v.single k, tally-get_elem? is_holder k p hs i h held),
  omega (arith, v.single k, tally-get_elem? is_holder k p hs i h held),
)

-- After the holder has gone there is neither a holder nor a successor.
pub gone-vacant :
    (k : ChannelMarketPair) (p : Phase) (i : ℕ) (m : ChannelStateMap) (hs : List Header)
    → get_elem? hs i ≡ some (k, p)
    → is_holder p ≡ true
    → Exclusive m hs
    → holders k (set hs i (k, finished)) + successors k (set hs i (k, finished)) ≡ 0
gone-vacant k p i m hs h held v = ground (
  arith,
  alone k p i m hs h held v,
  pair_eq_refl k,
  tally-set is_holder k hs i (k, p) (k, finished) h,
  tally-set is_next k hs i (k, p) (k, finished) h,
)

All-other_waiters : (P : ℕ → Type 0) (ns : List ℕ) → All P ns → All P (other_waiters ns)
All-other_waiters P [] h = tt
All-other_waiters P (n ∷ ns) h = h.1

leave-Exclusive :
    (k : ChannelMarketPair) (p : Phase) (i : ℕ) (c : ChannelState) (m : ChannelStateMap)
    (hs : List Header)
    → get_elem? hs i ≡ some (k, p)
    → is_holder p ≡ true
    → find k m ≡ some c
    → Exclusive m hs
    → Exclusive (assign k (released c) m) (set hs i (k, finished))
leave-Exclusive k p i c m hs h held found v = record {
  unique = assign-NoDuplicates k (released c) m v.unique;
  exact = λ j. ground (
    arith,
    find-assign k j (released c) m,
    v.exact j,
    alone k p i m hs h held v,
    pair_eq_sound k j,
    tally-set is_holder j hs i (k, p) (k, finished) h,
  );
  single = λ j. ground (
    arith,
    v.single j,
    tally-set is_holder j hs i (k, p) (k, finished) h,
    tally-set is_next j hs i (k, p) (k, finished) h,
  );
  parked = λ j.
      parked-assign k j (released c) m (set hs i (k, finished))
        (AllTopic-set k k p finished hs i _ h (
          All-other_waiters (HasTopic k hs) c.cv
            (subst (λ o. All (HasTopic k hs) (waiters_of o)) found (v.parked k))))
        (AllTopic-set k j p finished hs i _ h (v.parked j));
}

parked-erase :
    (k j : ChannelMarketPair) (m : ChannelStateMap) (hs : List Header)
    → NoDuplicates m
    → All (HasTopic j hs) (waiters_of (find j m))
    → All (HasTopic j hs) (waiters_of (find j (erase k m)))
parked-erase k j m hs d others = elim (Bool-cases (pair_eq k j)) [
  | inl same ↦ rw (find-erase k j m d, same) tt
  | inr other ↦ rw (find-erase k j m d, other) others
]

vanish-Exclusive :
    (k : ChannelMarketPair) (p : Phase) (i : ℕ) (m : ChannelStateMap) (hs : List Header)
    → get_elem? hs i ≡ some (k, p)
    → is_holder p ≡ true
    → Exclusive m hs
    → Exclusive (erase k m) (set hs i (k, finished))
vanish-Exclusive k p i m hs h held v = record {
  unique = erase-NoDuplicates k m v.unique;
  exact = λ j. ground (
    arith,
    find-erase k j m v.unique,
    v.exact j,
    alone k p i m hs h held v,
    pair_eq_sound k j,
    tally-set is_holder j hs i (k, p) (k, finished) h,
  );
  single = λ j. ground (
    arith,
    v.single j,
    tally-set is_holder j hs i (k, p) (k, finished) h,
    tally-set is_next j hs i (k, p) (k, finished) h,
  );
  parked = λ j.
      parked-erase k j m (set hs i (k, finished)) v.unique
        (AllTopic-set k j p finished hs i _ h (v.parked j));
}

-- The waiter that is woken, as a list.
abbrev pub listed : Option ℕ → List ℕ
listed none = []
listed (some n) = n ∷ []

All-first_waiter : (P : ℕ → Type 0) (ns : List ℕ) → All P ns → All P (listed (first_waiter ns))
All-first_waiter P [] h = tt
All-first_waiter P (n ∷ ns) h = (h.0, tt)

-- A release that succeeds: the holder is gone, and who is woken has the topic.
pub release-Exclusive :
    (i : ℕ) (k : ChannelMarketPair) (p : Phase) (m : ChannelStateMap) (hs : List Header)
    (r : ChannelStateMap × Option ℕ)
    → get_elem? hs i ≡ some (k, p)
    → is_holder p ≡ true
    → release_channel k m ≡ some r
    → Exclusive m hs
    → Exclusive r.0 (set hs i (k, finished))
      × All (HasTopic k (set hs i (k, finished))) (listed r.1)
release-Exclusive i k p m hs (m', next) h held e v =
    let (c, found, _, cases) = release_channel-cases k m (m', next) e in
    elim cases [
      | inl (_, gone, nobody) ↦ rw (gone, nobody) (vanish-Exclusive k p i m hs h held v, tt)
      | inr (_, kept, first) ↦
          rw (kept, first)
            (
              leave-Exclusive k p i c m hs h held found v,
              AllTopic-set k k p finished hs i (listed (first_waiter c.cv)) h (
                  All-first_waiter (HasTopic k hs) c.cv
                    (subst (λ o. All (HasTopic k hs) (waiters_of o)) found (v.parked k))),
            )
    ]

-- A waiter of a channel without holder and successor becomes its successor.
pub promote-Exclusive :
    (k : ChannelMarketPair) (p : Phase) (i : ℕ) (m : ChannelStateMap) (hs : List Header)
    → get_elem? hs i ≡ some (k, p)
    → is_holder p ≡ false
    → holders k hs + successors k hs ≡ 0
    → Exclusive m hs
    → Exclusive m (set hs i (k, woken))
promote-Exclusive k p i m hs h idle vacant v = record {
  unique = v.unique;
  exact = λ j. ground (arith, v.exact j, tally-set is_holder j hs i (k, p) (k, woken) h);
  single = λ j. ground (
    arith,
    v.single j,
    pair_eq_sound k j,
    tally-set is_holder j hs i (k, p) (k, woken) h,
    tally-set is_next j hs i (k, p) (k, woken) h,
  );
  parked = λ j. AllTopic-set k j p woken hs i _ h (v.parked j);
}
