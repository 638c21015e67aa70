-- ===== src/Ftx/Subscription/Protocol/Turns.antt =====
-- The turns of a subscription's coroutine as moves of the protocol:
-- src/vendor/ftx/upstream_subscription_impl.cpp.
use mathlib.Core.Option.{some-injective}
use boost_connector.Base.{
  ℕ, true, Option, none, some, ◌≡◌, refl, sym, ap, subst, ◌∙◌, inl, inr, List, get_elem?, set,
  Bool-cases, Option-cases, >>=-eq-some,
}
use boost_connector.Async.Latch.{is_set}
use boost_connector.Ftx.Channels.{ChannelStateMap, find, assign, release_channel}
use boost_connector.Ftx.Connector.{
  Connector, Subscription, Phase, waiting, woken, closing, finished, abandoned,
}
use boost_connector.Ftx.Subscription.View.{Header, headers, SameView}
use boost_connector.Ftx.Subscription.{
  set_subscription, wake, wake_one, is_waiting, finish, give_up, remove,
}
use boost_connector.Ftx.Subscription.View.{At, header-At, headers-set}
use boost_connector.Ftx.Subscription.Protocol.{
  Move, Moves, stays, then_, Moves-trans, Refines, leaves_queue, leaves_nothing, finishes,
  hands_over,
}

-- One move, to a connector whose coroutines stand at the places that the move gives.
pub Move-Refines :
    (w w' : Connector) (hs : List Header)
    → Move w.channel_states (headers w) w'.channel_states hs
    → hs ≡ headers w'
    → Refines w w'
Move-Refines w w' hs e same =
    subst (Moves w.channel_states (headers w) w'.channel_states) same (then_ stays e)

pub SameView-Refines : (w w' : Connector) → SameView w w' → Refines w w'
SameView-Refines w w' same =
    subst (λ m. Moves w.channel_states (headers w) m (headers w')) (sym same.0)
      (subst (λ hs. Moves w.channel_states (headers w) w.channel_states hs) (sym same.1) stays)

-- Two connectors with moves between them, and a third after.
pub Refines-trans : (w1 w2 w3 : Connector) → Refines w1 w2 → Refines w2 w3 → Refines w1 w3
Refines-trans w1 w2 w3 p q = Moves-trans p q

-- A header at its known phase.
pub header-phase :
    (w : Connector) (i : ℕ) (s : Subscription) (p : Phase)
    → At w i s
    → s.phase ≡ p
    → get_elem? (headers w) i ≡ some (s.topic, p)
header-phase w i s p h e = header-At w i s h ∙ ap (λ q. some (s.topic, q)) e

is_waiting-phase : (p : Phase) → is_waiting p ≡ true → p ≡ waiting
is_waiting-phase waiting h = refl
is_waiting-phase _ h = cc

-- The connector between a release and the wake-up.
abbrev released_in : ℕ → Subscription → ChannelStateMap → Connector → Connector
released_in i s m w = record w {
  channel_states = m;
  subscriptions = set w.subscriptions i (record s { phase = finished });
}

finish-next :
    (i : ℕ) (s : Subscription) (w : Connector) (m : ChannelStateMap) (next : Option ℕ)
    → At w i s
    → s.phase ≡ closing
    → release_channel s.topic w.channel_states ≡ some (m, next)
    → Refines w (wake next (released_in i s m w))
unfolding wake
finish-next i s w m none h at e =
    Move-Refines w (released_in i s m w) _
      (finishes i s.topic m none (header-phase w i s closing h at) e)
      (sym (headers-set w i (record s { phase = finished })))
finish-next i s w m (some j) h at e =
    let w0 = released_in i s m w in
    let moved = sym (headers-set w i (record s { phase = finished })) in
    let plain : Refines w w0 =
      Move-Refines w w0 _ (finishes i s.topic m (some j) (header-phase w i s closing h at) e)
        moved in
    elim (Option-cases (get_elem? w0.subscriptions j)) [
      | inl gone ↦ rw (gone, wake_one) plain
      | inr (t, there) ↦ rw there (elim (Bool-cases (is_waiting t.phase)) [
        | inr busy ↦ rw (busy, wake_one) plain
        | inl idle ↦ elim (Bool-cases (is_set t.stop_latch)) [
          | inl stopped ↦ rw (idle, stopped, wake_one) plain
          | inr open_ ↦
              rw (idle, open_, wake_one)
                (Move-Refines w (set_subscription j (record t { phase = woken }) w0) _
                  (hands_over i j s.topic t.topic m (header-phase w i s closing h at) e (
                    ap (λ hs. get_elem? hs j) moved
                    ∙ header-phase w0 j t waiting there (is_waiting-phase t.phase idle)))
                  (ap (λ hs. set hs j (t.topic, woken)) moved
                    ∙ sym (headers-set w0 j (record t { phase = woken }))))
        ]
      ])
    ]

pub finish-Refines :
    (i : ℕ) (s : Subscription) (w : Connector) {w' : Connector}
    → At w i s
    → s.phase ≡ closing
    → finish i s w ≡ some w'
    → Refines w w'
unfolding finish
finish-Refines i s w h at e =
    let ((m, next), released, rest) = >>=-eq-some (release_channel s.topic w.channel_states) _ e in
    subst (Refines w) (some-injective _ _ rest) (finish-next i s w m next h at released)

pub give_up-Refines :
    (i : ℕ) (s : Subscription) (w : Connector)
    → At w i s
    → s.phase ≡ waiting
    → Refines w (give_up i s w)
unfolding give_up
give_up-Refines i s w h at =
    let moved = sym (headers-set w i (record s { phase = abandoned })) in
    elim (Option-cases (find s.topic w.channel_states)) [
      | inl gone ↦ rw gone (
          Move-Refines w (set_subscription i (record s { phase = abandoned }) w) _
            (leaves_nothing i s.topic (header-phase w i s waiting h at) gone) moved)
      | inr (c, found) ↦ rw found (
          Move-Refines w
            (record w {
              channel_states = assign s.topic (record c { cv = remove i c.cv }) w.channel_states;
              subscriptions = set w.subscriptions i (record s { phase = abandoned });
            })
            _ (leaves_queue i s.topic c (header-phase w i s waiting h at) found) moved)
    ]
