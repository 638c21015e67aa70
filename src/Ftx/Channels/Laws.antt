-- ===== src/Ftx/Channels/Laws.antt =====
-- The channel map as a map: what `locate_channel` and `release_channel` do to each channel.
use boost_connector.Base.{
  ℕ, ◌-◌, ◌==◌, ◌∙◌, ◌≡◌, refl, true, false, Option, none, some, [], ◌∷◌, arith, if◌then◌else◌, ◌<◌,
  ◌⊎◌, >>=-eq-some, Bool-cases, inl, inr,
}
use boost_connector.Ftx.Event.{ChannelMarketPair, pair_eq, pair_eq_sound, pair_eq_refl, pair_eq_ne}
use boost_connector.Ftx.Channels.{
  ChannelState, ChannelStateMap, find, assign, erase, release_state, release_channel, first_waiter,
  other_waiters,
}

pub find-assign :
    (k j : ChannelMarketPair) (c : ChannelState) (m : ChannelStateMap)
    → find j (assign k c m) ≡ (if pair_eq k j then some c else find j m)
unfolding find assign
find-assign k j c [] = refl
find-assign k j c ((i, d) ∷ m) = ground (
  arith,
  find-assign k j c m,
  pair_eq_sound i k,
  pair_eq_sound i j,
  pair_eq_sound k j,
  pair_eq_refl i,
  pair_eq_refl k,
)

-- No two entries of the map have one key.
abbrev pub NoDuplicates : ChannelStateMap → Type 0
NoDuplicates [] = Unit
NoDuplicates ((k, c) ∷ m) = (find k m ≡ none) × NoDuplicates m

pub find-erase :
    (k j : ChannelMarketPair) (m : ChannelStateMap)
    → NoDuplicates m
    → find j (erase k m) ≡ (if pair_eq k j then none else find j m)
unfolding find erase
find-erase k j [] h = ground arith
find-erase k j ((i, d) ∷ m) h = ground (
  arith,
  find-erase k j m h.1,
  pair_eq_sound i k,
  pair_eq_sound i j,
  pair_eq_sound k j,
  pair_eq_refl i,
  pair_eq_refl k,
)

find-assign-none :
    (k j : ChannelMarketPair) (c : ChannelState) (m : ChannelStateMap)
    → find j m ≡ none
    → pair_eq k j ≡ false
    → find j (assign k c m) ≡ none
find-assign-none k j c m h ne = ground (arith, find-assign k j c m)

pub assign-NoDuplicates :
    (k : ChannelMarketPair) (c : ChannelState) (m : ChannelStateMap)
    → NoDuplicates m
    → NoDuplicates (assign k c m)
unfolding assign find
assign-NoDuplicates k c [] h = (refl, tt)
assign-NoDuplicates k c ((i, d) ∷ m) h = elim (Bool-cases (pair_eq i k)) [
  | inl hit ↦ rw hit h
  | inr miss ↦
      rw miss (find-assign-none k i c m h.0 (pair_eq_ne i k miss), assign-NoDuplicates k c m h.1)
]

erase-none :
    (k j : ChannelMarketPair) (m : ChannelStateMap) → find j m ≡ none → find j (erase k m) ≡ none
unfolding find erase
erase-none k j [] h = refl
erase-none k j ((i, d) ∷ m) h = ground (arith, erase-none k j m)

pub erase-NoDuplicates :
    (k : ChannelMarketPair) (m : ChannelStateMap) → NoDuplicates m → NoDuplicates (erase k m)
unfolding erase
erase-NoDuplicates k [] h = tt
erase-NoDuplicates k ((i, d) ∷ m) h = elim (Bool-cases (pair_eq i k)) [
  | inl hit ↦ rw hit h.1
  | inr miss ↦ rw miss (erase-none k i m h.0, erase-NoDuplicates k m h.1)
]

-- The state that a release leaves behind while others are interested.
abbrev pub released : ChannelState → ChannelState
released c = record c { acquired = false; interest = c.interest - 1; cv = other_waiters c.cv }

-- What a release that succeeds has done.
abbrev pub Released : ChannelMarketPair → ChannelStateMap → ChannelStateMap × Option ℕ → Type 0
Released k m (m', next) =
    (c : ChannelState) × (find k m ≡ some c)
    × (c.acquired ≡ true)
    × (((c.interest ≡ 1) × (m' ≡ erase k m) × (next ≡ none))
        ⊎ ((1 < c.interest) × (m' ≡ assign k (released c) m) × (next ≡ first_waiter c.cv)))

release_state-cases :
    (k : ChannelMarketPair) (c : ChannelState) (m : ChannelStateMap)
    {r : ChannelStateMap × Option ℕ}
    → release_state k c m ≡ some r
    → (c.acquired ≡ true)
      × (((c.interest ≡ 1) × (r.0 ≡ erase k m) × (r.1 ≡ none))
          ⊎ ((1 < c.interest) × (r.0 ≡ assign k (released c) m) × (r.1 ≡ first_waiter c.cv)))
unfolding release_state
release_state-cases k c m h = ground arith

pub release_channel-cases :
    (k : ChannelMarketPair) (m : ChannelStateMap) (r : ChannelStateMap × Option ℕ)
    → release_channel k m ≡ some r
    → Released k m r
unfolding release_channel
release_channel-cases k m (m', next) h =
    let (c, found, rest) = >>=-eq-some (find k m) _ h in
    let (held, cases) = release_state-cases k c m rest in (c, found, held, cases)

release_state-found :
    (k : ChannelMarketPair) (c : ChannelState) (m : ChannelStateMap)
    → c.acquired ≡ true
    → 0 < c.interest
    → release_state k c m ≡ (
        if c.interest == 1
        then some (erase k m, none)
        else some (assign k (released c) m, first_waiter c.cv))
unfolding release_state
release_state-found k c m a h = ground arith

-- What a channel is after one of its consumers has released it.
abbrev pub left_by : ChannelState → Option ChannelState
left_by c = if c.interest == 1 then none else some (released c)

-- The release of a channel that is acquired succeeds. It erases the channel with its last consumer, and
-- otherwise leaves it free, with one consumer less, and wakes the first waiter; no other channel changes.
pub release_channel-find :
    (k : ChannelMarketPair) (c : ChannelState) (m : ChannelStateMap)
    → NoDuplicates m
    → find k m ≡ some c
    → c.acquired ≡ true
    → 0 < c.interest
    → (m' : ChannelStateMap) × (release_channel k m
        ≡ some (m', if c.interest == 1 then none else first_waiter c.cv))
      × ((j : ChannelMarketPair) → find j m' ≡ (if pair_eq k j then left_by c else find j m))
unfolding release_channel
release_channel-find k c m d f a h = elim (Bool-cases (c.interest == 1)) [
  | inl last ↦ (
    erase k m,
    rw f (release_state-found k c m a h ∙ rw last refl),
    λ j. rw last (find-erase k j m d),
  )
  | inr more ↦ (
    assign k (released c) m,
    rw f (release_state-found k c m a h ∙ rw more refl),
    λ j. rw more (find-assign k j (released c) m),
  )
]
