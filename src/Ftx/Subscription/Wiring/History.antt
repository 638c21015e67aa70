-- ===== src/Ftx/Subscription/Wiring/History.antt =====
-- Whom the events of a channel reach, over the moves of the protocol and over histories of a connector:
-- src/vendor/ftx/upstream_subscription_impl.cpp.
use boost_connector.Base.{Option, none, some, ◌≡◌, refl, subst, inl, inr, List, set}
use boost_connector.Ftx.Event.{ChannelMarketPair}
use boost_connector.Ftx.Channels.{
  ChannelState, ChannelStateMap, or_initial, find, located, locate_channel,
}
use boost_connector.Ftx.Connector.{created, waiting, woken, holding, closing, finished, abandoned}
use boost_connector.Ftx.Subscription.View.{Header}
use boost_connector.Ftx.Subscription.{remove}
use boost_connector.Ftx.Subscription.Exclusion.Phases.{find-locate_channel}
use boost_connector.Ftx.Subscription.Protocol.{
  Move, Moves, stays, then_, enrols, waits, gives_up_at_once, takes, takes_over, leaves_queue,
  leaves_nothing, closes, finishes, hands_over, joined_by,
}
use boost_connector.Ftx.Subscription.Wiring.{
  WiredAt, Wired, enrol-Wired, shift-Wired, assign-Wired, take-Wired, release-Wired,
}

or_initial-WiredAt :
    (k : ChannelMarketPair) (o : Option ChannelState) (hs : List Header)
    → WiredAt k hs o
    → WiredAt k hs (some (or_initial o))
or_initial-WiredAt k none hs v = tt
or_initial-WiredAt k (some c) hs v = v

found-WiredAt :
    (k : ChannelMarketPair) (c : ChannelState) (m : ChannelStateMap) (hs : List Header)
    → find k m ≡ some c
    → Wired m hs
    → WiredAt k hs (some c)
found-WiredAt k c m hs found v = subst (WiredAt k hs) found (v.target k)

locate_channel-Wired :
    (k : ChannelMarketPair) (m : ChannelStateMap) (hs : List Header)
    → Wired m hs
    → Wired (locate_channel k m) hs
unfolding locate_channel located
locate_channel-Wired k m hs v =
    assign-Wired k (located k m) m hs (or_initial-WiredAt k (find k m) hs (v.target k)) v

Move-Wired :
    {m m' : ChannelStateMap} {hs hs' : List Header} → Move m hs m' hs' → Wired m hs → Wired m' hs'
Move-Wired {m = m} {hs = hs} (enrols k) v = enrol-Wired k m hs v
Move-Wired {m = m} {hs = hs} (waits i k h held) v =
    let v1 =
      shift-Wired k created waiting i (locate_channel k m) hs h (inl refl)
        (locate_channel-Wired k m hs v) in
    assign-Wired k (joined_by i (located k m)) (locate_channel k m) (set hs i (k, waiting))
      (found-WiredAt k (located k m) (locate_channel k m) _ (find-locate_channel k m) v1) v1
Move-Wired {m = m} {hs = hs} (gives_up_at_once i k h held) v =
    shift-Wired k created abandoned i (locate_channel k m) hs h (inl refl)
      (locate_channel-Wired k m hs v)
Move-Wired {m = m} {hs = hs} (takes i k h free) v =
    take-Wired k created i (located k m) (locate_channel k m) hs h (locate_channel-Wired k m hs v)
Move-Wired {m = m} {hs = hs} (takes_over i k c h found) v = take-Wired k woken i c m hs h v
Move-Wired {m = m} {hs = hs} (leaves_queue i k c h found) v =
    let v1 = shift-Wired k waiting abandoned i m hs h (inl refl) v in
    assign-Wired k (record c { cv = remove i c.cv }) m (set hs i (k, abandoned))
      (found-WiredAt k c m _ found v1) v1
Move-Wired {m = m} {hs = hs} (leaves_nothing i k h gone) v =
    shift-Wired k waiting abandoned i m hs h (inl refl) v
Move-Wired {m = m} {hs = hs} (closes i k h) v = shift-Wired k holding closing i m hs h (inr refl) v
Move-Wired {m = m} {hs = hs} (finishes i k m' next h e) v =
    release-Wired i k closing m hs (m', next) h e v
Move-Wired {m = m} {hs = hs} (hands_over i j k l m' h e next) v =
    shift-Wired l waiting woken j m' (set hs i (k, finished)) next (inl refl)
      (release-Wired i k closing m hs (m', some j) h e v)

pub Moves-Wired :
    {m : ChannelStateMap} {hs : List Header} {m' : ChannelStateMap} {hs' : List Header}
    → Moves m hs m' hs'
    → Wired m hs
    → Wired m' hs'
Moves-Wired stays v = v
Moves-Wired (then_ p e) v = Move-Wired e (Moves-Wired p v)
