-- ===== src/Ftx/Subscription/Tally.antt =====
-- How many subscriptions to a topic have a coroutine at a place of one kind.
use boost_connector.Base.{
  ℕ, zero, suc, ◌+◌, ◌<◌, Bool, true, false, ◌&&◌, some, ◌≡◌, List, [], ◌∷◌, ◌++◌, get_elem?, set,
  arith,
}
use boost_connector.Ftx.Event.{ChannelMarketPair, pair_eq, pair_eq_refl}
use boost_connector.Ftx.Connector.{Phase}
use boost_connector.Ftx.Subscription.View.{Header}

abbrev pub one : Bool → ℕ
one true = 1
one false = 0

-- Whether a subscription has the topic, and a phase of the kind.
abbrev pub attached : (Phase → Bool) → ChannelMarketPair → Header → ℕ
attached kind k (j, p) = one (pair_eq j k && kind p)

unfoldable pub tally : (Phase → Bool) → ChannelMarketPair → List Header → ℕ
tally kind k [] = 0
tally kind k (h ∷ hs) = attached kind k h + tally kind k hs

pub tally-set :
    (kind : Phase → Bool) (k : ChannelMarketPair) (hs : List Header) (i : ℕ) (h h' : Header)
    → get_elem? hs i ≡ some h
    → tally kind k (set hs i h') + attached kind k h ≡ tally kind k hs + attached kind k h'
unfolding tally
tally-set kind k [] i h h' e = cc
tally-set kind k (x ∷ hs) zero h h' e = ground arith
tally-set kind k (x ∷ hs) (suc i) h h' e = omega (arith, tally-set kind k hs i h h' e)

pub tally-append :
    (kind : Phase → Bool) (k : ChannelMarketPair) (hs : List Header) (h : Header)
    → tally kind k (hs ++ h ∷ []) ≡ tally kind k hs + attached kind k h
unfolding tally
tally-append kind k [] h = omega arith
tally-append kind k (x ∷ hs) h = omega (arith, tally-append kind k hs h)

pub tally-get_elem? :
    (kind : Phase → Bool) (k : ChannelMarketPair) (p : Phase) (hs : List Header) (i : ℕ)
    → get_elem? hs i ≡ some (k, p)
    → kind p ≡ true
    → 0 < tally kind k hs
unfolding tally
tally-get_elem? kind k p [] i e h = cc
tally-get_elem? kind k p (x ∷ hs) zero e h = ground (arith, pair_eq_refl k)
tally-get_elem? kind k p (x ∷ hs) (suc i) e h = omega (arith, tally-get_elem? kind k p hs i e h)
