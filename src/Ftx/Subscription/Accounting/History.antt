-- ===== src/Ftx/Subscription/Accounting/History.antt =====
-- The count of interest along histories of the connector.
use boost_connector.Base.{ℕ, Text, Option, some, ◌≡◌, refl, List, ◌<◌}
use boost_connector.Json.{Value}
use boost_connector.Ftx.Channels.{ChannelState, find}
use boost_connector.Ftx.Connector.{Connector, Subscription, abandoned}
use boost_connector.Ftx.Subscription.{Action, run}
use boost_connector.Ftx.Subscription.View.{At, header-At, headers}
use boost_connector.Ftx.Subscription.Protocol.Refines.{run-Refines}
use boost_connector.Ftx.Subscription.Accounting.{CountedIn, Counted-find}
use boost_connector.Ftx.Subscription.Accounting.Moves.{Moves-Counted}

module _ (serialize : Value → Text) (parse : Text → Option Value) where
  -- After any history of actions that does not fault, from a connector whose count of interest is exact,
  -- it is exact: each topic has at most one channel, with the number of subscriptions that wait for it,
  -- hold it, close or gave up waiting, and no channel is left without interest.
  pub run-Counted :
      (actions : List Action) (w : Connector) {w' : Connector}
      → run serialize parse actions w ≡ some w'
      → CountedIn w
      → CountedIn w'
  run-Counted actions w {w'} e v = Moves-Counted (run-Refines serialize parse actions w e) v

  -- After any history of actions that does not fault, from a connector whose count of interest is exact, the
  -- topic of each subscription that gave up waiting has a channel with some interest.
  pub run-abandoned :
      (actions : List Action) (w : Connector) (w' : Connector) (i : ℕ) (s : Subscription)
      → run serialize parse actions w ≡ some w'
      → CountedIn w
      → At w' i s
      → s.phase ≡ abandoned
      → (c : ChannelState) × (find s.topic w'.channel_states ≡ some c) × (0 < c.interest)
  run-abandoned actions w w' i s e v at p =
      Counted-find s.topic w'.channel_states (headers w') i s.phase (run-Counted actions w e v)
        (header-At w' i s at) (rw p refl)
