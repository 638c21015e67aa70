-- ===== src/Ftx/Subscription/Wiring.antt =====
-- Whom the events of a channel reach: `on_event` of
-- include/boost/connector/vendor/ftx/channel_state.hpp against the phases of the subscriptions.
pub mod History
pub mod Delivery
use mathlib.Core.Option.{some-injective}
use boost_connector.Base.{
  ℕ, Bool, true, false, ◌==◌, ==_iff, Option, none, some, ◌≡◌, refl, sym, ap, subst, ◌∙◌, ◌⊎◌, inl,
  inr, List, [], ◌∷◌, ◌++◌, get_elem?, get_elem?-set_self, get_elem?-set_ne, get_elem?-append, set,
  arith, if◌then◌else◌, Bool-cases,
}
use boost_connector.Ftx.Event.{ChannelMarketPair, pair_eq, pair_eq_sound, pair_eq_refl}
use boost_connector.Ftx.Channels.{
  ChannelState, ChannelStateMap, find, assign, erase, first_waiter, release_channel,
}
use boost_connector.Ftx.Channels.Laws.{
  NoDuplicates, find-assign, find-erase, assign-NoDuplicates, erase-NoDuplicates, released,
  release_channel-cases,
}
use boost_connector.Ftx.Connector.{Phase, created, holding, finished}
use boost_connector.Ftx.Subscription.View.{Header}
use boost_connector.Ftx.Subscription.Exclusion.{is_holder}

-- The subscription at that place has the topic, and holds its channel.
abbrev pub HoldsAt : ChannelMarketPair → List Header → ℕ → Type 0
HoldsAt k hs i = (p : Phase) × (get_elem? hs i ≡ some (k, p)) × (is_holder p ≡ true)

abbrev pub TargetOf : ChannelMarketPair → List Header → Bool → Option ℕ → Type 0
TargetOf k hs false o = Unit
TargetOf k hs true none = ⊥
TargetOf k hs true (some i) = HoldsAt k hs i

abbrev pub WiredAt : ChannelMarketPair → List Header → Option ChannelState → Type 0
WiredAt k hs none = Unit
WiredAt k hs (some c) = TargetOf k hs c.acquired c.on_event

-- The callback of each channel that is acquired reaches a subscription that holds it.
pub record Wired (m : ChannelStateMap) (hs : List Header) : Type 0 where
  pub unique : NoDuplicates m
  pub target : (k : ChannelMarketPair) → WiredAt k hs (find k m)

-- What keeps the holders of a topic keeps its target.
pub WiredAt-map :
    (k : ChannelMarketPair) (hs hs' : List Header) (o : Option ChannelState)
    → ((i : ℕ) → HoldsAt k hs i → HoldsAt k hs' i)
    → WiredAt k hs o
    → WiredAt k hs' o
WiredAt-map k hs hs' none f v = tt
WiredAt-map k hs hs' (some c) f v = go c.acquired c.on_event v
  where
    go : (b : Bool) (o : Option ℕ) → TargetOf k hs b o → TargetOf k hs' b o
    go false o w = tt
    go true none w = w
    go true (some i) w = f i w

HoldsAt-append :
    (k : ChannelMarketPair) (hs hs' : List Header) (i : ℕ)
    → HoldsAt k hs i
    → HoldsAt k (hs ++ hs') i
HoldsAt-append k hs hs' i (p, h, held) = (p, get_elem?-append hs hs' i (k, p) h, held)

HoldsAt-ne :
    (j : ChannelMarketPair) (x : Header) (hs : List Header) (i n : ℕ)
    → (i == n) ≡ false
    → HoldsAt j hs n
    → HoldsAt j (set hs i x) n
HoldsAt-ne j x hs i n other (p, h, held) =
    (p, get_elem?-set_ne hs i n x (λ e. ground (arith, ==_iff i n)) ∙ h, held)

same_place :
    (k j : ChannelMarketPair) (p q : Phase) (hs : List Header) (i n : ℕ)
    → get_elem? hs i ≡ some (k, p)
    → get_elem? hs n ≡ some (j, q)
    → (i == n) ≡ true
    → (k ≡ j) × (p ≡ q)
same_place k j p q hs i n h t same =
    let e : some (k, p) ≡ some (j, q) = sym h ∙ ap (get_elem? hs) ((==_iff i n).0 same) ∙ t in
    (ap (λ x. x.0) (some-injective _ _ e), ap (λ x. x.1) (some-injective _ _ e))

-- A change of phase that does not end a holder.
HoldsAt-set :
    (k j : ChannelMarketPair) (p p' : Phase) (hs : List Header) (i n : ℕ)
    → get_elem? hs i ≡ some (k, p)
    → (is_holder p ≡ false) ⊎ (is_holder p' ≡ true)
    → HoldsAt j hs n
    → HoldsAt j (set hs i (k, p')) n
HoldsAt-set k j p p' hs i n h keeps (q, t, held) = elim (Bool-cases (i == n)) [
  | inr other ↦ HoldsAt-ne j (k, p') hs i n other (q, t, held)
  | inl same ↦
      let (k-j, p-q) = same_place k j p q hs i n h t same in
      let there =
        ap (get_elem? (set hs i (k, p'))) (sym ((==_iff i n).0 same))
        ∙ get_elem?-set_self hs i (k, p') (k, p) h in
      (p', there ∙ ap (λ l. some (l, p')) k-j, ground arith)
]

-- Any change of phase keeps the holders of the other topics.
HoldsAt-other :
    (k j : ChannelMarketPair) (p p' : Phase) (hs : List Header) (i n : ℕ)
    → get_elem? hs i ≡ some (k, p)
    → pair_eq k j ≡ false
    → HoldsAt j hs n
    → HoldsAt j (set hs i (k, p')) n
HoldsAt-other k j p p' hs i n h ne (q, t, held) = elim (Bool-cases (i == n)) [
  | inr other ↦ HoldsAt-ne j (k, p') hs i n other (q, t, held)
  | inl same ↦ let (k-j, _) = same_place k j p q hs i n h t same in ground (arith, pair_eq_refl k)
]

pub enrol-Wired :
    (k : ChannelMarketPair) (m : ChannelStateMap) (hs : List Header)
    → Wired m hs
    → Wired m (hs ++ (k, created) ∷ [])
enrol-Wired k m hs v = record {
  unique = v.unique;
  target = λ j. WiredAt-map j hs _ (find j m) (λ i. HoldsAt-append j hs _ i) (v.target j);
}

pub shift-Wired :
    (k : ChannelMarketPair) (p p' : Phase) (i : ℕ) (m : ChannelStateMap) (hs : List Header)
    → get_elem? hs i ≡ some (k, p)
    → (is_holder p ≡ false) ⊎ (is_holder p' ≡ true)
    → Wired m hs
    → Wired m (set hs i (k, p'))
shift-Wired k p p' i m hs h keeps v = record {
  unique = v.unique;
  target = λ j.
      WiredAt-map j hs (set hs i (k, p')) (find j m) (λ n. HoldsAt-set k j p p' hs i n h keeps)
        (v.target j);
}

-- A write to one channel.
WiredAt-assign :
    (k j : ChannelMarketPair) (c : ChannelState) (m : ChannelStateMap) (hs : List Header)
    → WiredAt k hs (some c)
    → (pair_eq k j ≡ false → WiredAt j hs (find j m))
    → WiredAt j hs (find j (assign k c m))
WiredAt-assign k j c m hs own others = elim (Bool-cases (pair_eq k j)) [
  | inl same ↦
      rw (find-assign k j c m, same)
        (subst (λ l. WiredAt l hs (some c)) (pair_eq_sound k j same) own)
  | inr other ↦ rw (find-assign k j c m, other) (others other)
]

pub assign-Wired :
    (k : ChannelMarketPair) (c : ChannelState) (m : ChannelStateMap) (hs : List Header)
    → WiredAt k hs (some c)
    → Wired m hs
    → Wired (assign k c m) hs
assign-Wired k c m hs own v = record {
  unique = assign-NoDuplicates k c m v.unique;
  target = λ j. WiredAt-assign k j c m hs own (λ ne. v.target j);
}

-- A channel is taken, and its callback set.
pub take-Wired :
    (k : ChannelMarketPair) (p : Phase) (i : ℕ) (c : ChannelState) (m : ChannelStateMap)
    (hs : List Header)
    → get_elem? hs i ≡ some (k, p)
    → Wired m hs
    → Wired (assign k (record c { acquired = true; on_event = some i }) m) (set hs i (k, holding))
take-Wired k p i c m hs h v =
    assign-Wired k (record c { acquired = true; on_event = some i }) m (set hs i (k, holding))
      (holding, get_elem?-set_self hs i (k, holding) (k, p) h, refl)
      (shift-Wired k p holding i m hs h (inr refl) v)

WiredAt-erase :
    (k j : ChannelMarketPair) (m : ChannelStateMap) (hs : List Header)
    → NoDuplicates m
    → (pair_eq k j ≡ false → WiredAt j hs (find j m))
    → WiredAt j hs (find j (erase k m))
WiredAt-erase k j m hs d others = elim (Bool-cases (pair_eq k j)) [
  | inl same ↦ rw (find-erase k j m d, same) tt
  | inr other ↦ rw (find-erase k j m d, other) (others other)
]

-- A release that succeeds leaves the channel without a holder.
pub release-Wired :
    (i : ℕ) (k : ChannelMarketPair) (p : Phase) (m : ChannelStateMap) (hs : List Header)
    (r : ChannelStateMap × Option ℕ)
    → get_elem? hs i ≡ some (k, p)
    → release_channel k m ≡ some r
    → Wired m hs
    → Wired r.0 (set hs i (k, finished))
release-Wired i k p m hs (m', next) h e v =
    let (c, found, _, cases) = release_channel-cases k m (m', next) e in
    let hs' = set hs i (k, finished) in
    let others : (j : ChannelMarketPair) → pair_eq k j ≡ false → WiredAt j hs' (find j m) = λ j ne.
      WiredAt-map j hs hs' (find j m) (λ n. HoldsAt-other k j p finished hs i n h ne)
        (v.target j) in
    elim cases [
      | inl (_, gone, _) ↦ rw gone (record {
        unique = erase-NoDuplicates k m v.unique;
        target = λ j. WiredAt-erase k j m hs' v.unique (others j);
      })
      | inr (_, kept, _) ↦ rw kept (record {
        unique = assign-NoDuplicates k (released c) m v.unique;
        target = λ j. WiredAt-assign k j (released c) m hs' tt (others j);
      })
    ]
