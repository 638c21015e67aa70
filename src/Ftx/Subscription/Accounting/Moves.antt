-- ===== src/Ftx/Subscription/Accounting/Moves.antt =====
-- The count of interest over the moves by which subscriptions share the channels:
-- src/vendor/ftx/upstream_subscription_impl.cpp.
use boost_connector.Base.{
  ℕ, ◌+◌, true, Option, some, ◌≡◌, refl, subst, inl, inr, List, get_elem?, set, set_self,
  get_elem?-set_self, arith,
}
use boost_connector.Ftx.Event.{ChannelMarketPair}
use boost_connector.Ftx.Channels.{
  ChannelState, ChannelStateMap, find, assign, located, locate_channel, release_channel,
}
use boost_connector.Ftx.Channels.Laws.{released, release_channel-cases}
use boost_connector.Ftx.Connector.{
  Phase, created, waiting, woken, holding, closing, finished, abandoned,
}
use boost_connector.Ftx.Subscription.View.{Header}
use boost_connector.Ftx.Subscription.{remove}
use boost_connector.Ftx.Subscription.Exclusion.Phases.{find-locate_channel}
use boost_connector.Ftx.Subscription.Protocol.{
  Move, Moves, stays, then_, enrols, waits, gives_up_at_once, takes, takes_over, leaves_queue,
  leaves_nothing, closes, finishes, hands_over, joined_by, held_by,
}
use boost_connector.Ftx.Subscription.Accounting.{
  Counted, interest_of, is_counted, enrol-Counted, shift-Counted, assign-Counted, erase-Counted,
}

-- A write to a channel that leaves its interest alone.
same_interest-Counted :
    (k : ChannelMarketPair) (p : Phase) (i : ℕ) (c c' : ChannelState) (m : ChannelStateMap)
    (hs : List Header)
    → get_elem? hs i ≡ some (k, p)
    → find k m ≡ some c
    → c'.interest ≡ c.interest
    → Counted m hs
    → Counted (assign k c' m) hs
same_interest-Counted k p i c c' m hs h found same v =
    subst (Counted (assign k c' m)) (set_self hs i (k, p) h)
      (assign-Counted k p p i c' m hs h (ground arith) (ground (arith, v.positive k)) v)

-- A change of phase with such a write.
rewrite-Counted :
    (k : ChannelMarketPair) (p p' : Phase) (i : ℕ) (c c' : ChannelState) (m : ChannelStateMap)
    (hs : List Header)
    → get_elem? hs i ≡ some (k, p)
    → find k m ≡ some c
    → c'.interest ≡ c.interest
    → Counted m (set hs i (k, p'))
    → Counted (assign k c' m) (set hs i (k, p'))
rewrite-Counted k p p' i c c' m hs h found same v =
    same_interest-Counted k p' i c c' m (set hs i (k, p'))
      (get_elem?-set_self hs i (k, p') (k, p) h) found same v

located-interest :
    (k : ChannelMarketPair) (m : ChannelStateMap)
    → (located k m).interest ≡ interest_of (find k m) + 1
unfolding located
located-interest k m = ground arith

-- A subscription that has not counted expresses its interest.
located-Counted :
    (k : ChannelMarketPair) (p : Phase) (i : ℕ) (m : ChannelStateMap) (hs : List Header)
    → get_elem? hs i ≡ some (k, created)
    → is_counted p ≡ true
    → Counted m hs
    → Counted (locate_channel k m) (set hs i (k, p))
unfolding locate_channel
located-Counted k p i m hs h counts v =
    assign-Counted k created p i (located k m) m hs h (ground (arith, located-interest k m))
      (omega (arith, located-interest k m)) v

-- It then joins the waiters, or takes the channel.
relocated-Counted :
    (k : ChannelMarketPair) (p : Phase) (i : ℕ) (c : ChannelState) (m : ChannelStateMap)
    (hs : List Header)
    → get_elem? hs i ≡ some (k, created)
    → is_counted p ≡ true
    → c.interest ≡ (located k m).interest
    → Counted m hs
    → Counted (assign k c (locate_channel k m)) (set hs i (k, p))
relocated-Counted k p i c m hs h counts same v =
    rewrite-Counted k created p i (located k m) c (locate_channel k m) hs h
      (find-locate_channel k m) same (located-Counted k p i m hs h counts v)

-- The map that a release leaves counts the subscriptions without the one that finishes.
release-Counted :
    (i : ℕ) (k : ChannelMarketPair) (p : Phase) (m : ChannelStateMap) (hs : List Header)
    (r : ChannelStateMap × Option ℕ)
    → get_elem? hs i ≡ some (k, p)
    → is_counted p ≡ true
    → release_channel k m ≡ some r
    → Counted m hs
    → Counted r.0 (set hs i (k, finished))
release-Counted i k p m hs (m', next) h counts e v =
    let (c, found, held, cases) = release_channel-cases k m (m', next) e in
    elim cases [
      | inl (last, gone, _) ↦ rw gone (erase-Counted k p i c m hs h found last counts v)
      | inr (more, kept, _) ↦
          rw kept (assign-Counted k p finished i (released c) m hs h (ground arith) (omega arith) v)
    ]

Move-Counted :
    {m m' : ChannelStateMap} {hs hs' : List Header}
    → Move m hs m' hs'
    → Counted m hs
    → Counted m' hs'
Move-Counted {m = m} {hs = hs} (enrols k) v = enrol-Counted k m hs v
Move-Counted {m = m} {hs = hs} (waits i k h held) v =
    relocated-Counted k waiting i (joined_by i (located k m)) m hs h refl refl v
Move-Counted {m = m} {hs = hs} (gives_up_at_once i k h held) v =
    located-Counted k abandoned i m hs h refl v
Move-Counted {m = m} {hs = hs} (takes i k h free) v =
    relocated-Counted k holding i (held_by i (located k m)) m hs h refl refl v
Move-Counted {m = m} {hs = hs} (takes_over i k c h found) v =
    rewrite-Counted k woken holding i c (held_by i c) m hs h found refl
      (shift-Counted k woken holding i m hs h refl v)
Move-Counted {m = m} {hs = hs} (leaves_queue i k c h found) v =
    rewrite-Counted k waiting abandoned i c (record c { cv = remove i c.cv }) m hs h found refl
      (shift-Counted k waiting abandoned i m hs h refl v)
Move-Counted {m = m} {hs = hs} (leaves_nothing i k h gone) v =
    shift-Counted k waiting abandoned i m hs h refl v
Move-Counted {m = m} {hs = hs} (closes i k h) v = shift-Counted k holding closing i m hs h refl v
Move-Counted {m = m} {hs = hs} (finishes i k m' next h e) v =
    release-Counted i k closing m hs (m', next) h refl e v
Move-Counted {m = m} {hs = hs} (hands_over i j k l m' h e next) v =
    shift-Counted l waiting woken j m' (set hs i (k, finished)) next refl
      (release-Counted i k closing m hs (m', some j) h refl e v)

-- The moves of the protocol keep the count of interest exact: no channel without interest, and each channel
-- with the number of subscriptions that wait for it, hold it, close, or gave up.
pub Moves-Counted :
    {m : ChannelStateMap} {hs : List Header} {m' : ChannelStateMap} {hs' : List Header}
    → Moves m hs m' hs'
    → Counted m hs
    → Counted m' hs'
Moves-Counted stays v = v
Moves-Counted (then_ p e) v = Move-Counted e (Moves-Counted p v)
