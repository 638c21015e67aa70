-- ===== src/Ftx/Life/History.antt =====
-- Whole histories of a connector: src/vendor/ftx/ftx_websocket_connector_concept.cpp and
-- upstream_subscription_impl.cpp.
use boost_connector.Base.{
  ℕ, Text, Bool, true, false, Option, none, some, ◌≡◌, ◌≢◌, refl, sym, ◌∙◌, arith, subst,
}
use boost_connector.Json.{Value}
use boost_connector.Ftx.Connection.{up}
use boost_connector.Ftx.Connector.{
  Connector, ReadResult, read_error, binary, text, notify_connection_state,
}
use boost_connector.Ftx.Credentials.{WebsocketKey}
use boost_connector.Ftx.Session.{returned, Tasks, join, prepare}
use boost_connector.Ftx.Session.Joins.{join-write}
use boost_connector.Ftx.Session.Reconnect.{state_of, leave-state, notify_connection_state-state}
use boost_connector.Ftx.Life.{
  Stage, idle, connecting, joined, pausing, exited, System, stop, Step, reconnects, refuses,
  connects, receives, read_throws, write_throws, ping_pong_returns, leaves, expires, exits_pause,
  exits_idle, stopped, acts, Reach, here, next, after_read, announce, renew, make_stream, joins,
  after_announce,
}
use boost_connector.Ftx.Life.Tied.{read_state-Tied}
use boost_connector.Ftx.Life.Tied.Turns.{step-Tied}

pub none-some : {A : Type 0} {a : A} → none ≡ some a → ⊥
none-some h = cc

-- The writer of a connection has not returned.
abbrev pub StuckIn : Stage → Type 0
StuckIn (joined t) = t.write ≢ returned
StuckIn _ = Unit

-- The connector has announced that it is up.
abbrev pub Announced : System → Type 0
Announced s = (state_of s.connector ≡ up) × StuckIn s.stage

abbrev pub is_joined : Stage → Bool
is_joined (joined t) = true
is_joined _ = false

-- A connection that has been announced, where there is one.
abbrev pub OnlyUp : Stage → Connector → Type 0
OnlyUp (joined t) w = (state_of w ≡ up) × (t.write ≢ returned)
OnlyUp _ w = Unit

after_read-write :
    (r : ReadResult) (t : Tasks) → t.write ≢ returned → (after_read r t).write ≢ returned
after_read-write (read_error ec) t h = h
after_read-write binary t h = h
after_read-write (text s) t h = h

OnlyUp-Tied : (g : Stage) (w w' : Connector) → state_of w' ≡ state_of w → OnlyUp g w → OnlyUp g w'
OnlyUp-Tied idle w w' e h = tt
OnlyUp-Tied connecting w w' e h = tt
OnlyUp-Tied (joined t) w w' e h = (e ∙ h.0, h.1)
OnlyUp-Tied pausing w w' e h = tt
OnlyUp-Tied exited w w' e h = tt

module _ (serialize : Value → Text) (parse : Text → Option Value)
    (hmac_hex : Text → Text → Text) where
  announce-up :
      (args : WebsocketKey) (now_ms : ℕ) (connected : Bool) (w : Connector) {w' : Connector}
      → announce serialize parse hmac_hex args now_ms connected w ≡ some w'
      → state_of w' ≡ up
  unfolding announce
  announce-up args now_ms connected w h =
      notify_connection_state-state serialize parse up
        (renew serialize parse hmac_hex args now_ms connected w) h

  pub announce_again :
      (args : WebsocketKey) (now_ms : ℕ) (connected : Bool) (w : Connector)
      → state_of w ≡ up
      → announce serialize parse hmac_hex args now_ms connected w ≡ none
  unfolding announce renew notify_connection_state
  announce_again args now_ms connected w h = ground arith

  joins-OnlyUp :
      (b : Bool) (w : Connector)
      → state_of w ≡ up
      → OnlyUp (joins serialize parse hmac_hex b) (after_announce serialize parse hmac_hex b w)
  joins-OnlyUp true w h = tt
  joins-OnlyUp false w h = (h, λ e. cc)

  Step-OnlyUp :
      (args : WebsocketKey) (s s' : System)
      → Step serialize parse hmac_hex args s s'
      → OnlyUp s.stage s.connector
      → OnlyUp s'.stage s'.connector
  unfolding stop
  Step-OnlyUp args s s' (reconnects parts _ _ _) h = tt
  Step-OnlyUp args s s' (refuses _ _ _) h = tt
  Step-OnlyUp args s s' (connects now ok w _ e) h =
      joins-OnlyUp s.stopping w (announce-up args now ok s.connector e)
  Step-OnlyUp args s s' (receives t r w at _ e) h =
      let old = subst (λ g. OnlyUp g s.connector) at h in
      ((read_state-Tied serialize parse r s.connector e).0 ∙ old.0, after_read-write r t old.1)
  Step-OnlyUp args s s' (read_throws t at _) h = subst (λ g. OnlyUp g s.connector) at h
  Step-OnlyUp args s s' (write_throws t at _) h =
      ((subst (λ g. OnlyUp g s.connector) at h).0, λ e. cc)
  Step-OnlyUp args s s' (ping_pong_returns t at _) h = subst (λ g. OnlyUp g s.connector) at h
  Step-OnlyUp args s s' (leaves t w _ _ _) h = tt
  Step-OnlyUp args s s' (expires _ _) h = tt
  Step-OnlyUp args s s' (exits_pause _ _) h = tt
  Step-OnlyUp args s s' (exits_idle _ _) h = tt
  Step-OnlyUp args s s' stopped h = h
  Step-OnlyUp args s s' (acts a w users e) h =
      OnlyUp-Tied s.stage s.connector w (step-Tied serialize parse a s.connector users e).0 h

  pub Reach-OnlyUp :
      (args : WebsocketKey) (s s' : System)
      → Reach serialize parse hmac_hex args s s'
      → OnlyUp s.stage s.connector
      → OnlyUp s'.stage s'.connector
  Reach-OnlyUp args s s' here h = h
  Reach-OnlyUp args s s' (next {u = u} r e) h = Step-OnlyUp args u s' e (Reach-OnlyUp args s u r h)

  pub Step-Announced :
      (args : WebsocketKey) (s s' : System)
      → Step serialize parse hmac_hex args s s'
      → Announced s
      → Announced s'
  unfolding stop make_stream
  Step-Announced args s s' (reconnects parts _ _ _) h = (h.0, tt)
  Step-Announced args s s' (refuses _ _ _) h = (h.0, tt)
  Step-Announced args s s' (connects now ok w _ e) h =
      absurd (none-some (sym (announce_again args now ok s.connector h.0) ∙ e))
  Step-Announced args s s' (receives t r w at _ e) h = (
    (read_state-Tied serialize parse r s.connector e).0 ∙ h.0,
    after_read-write r t (subst StuckIn at h.1),
  )
  Step-Announced args s s' (read_throws t at _) h = (h.0, subst StuckIn at h.1)
  Step-Announced args s s' (write_throws t at _) h = (h.0, λ e. cc)
  Step-Announced args s s' (ping_pong_returns t at _) h = (h.0, subst StuckIn at h.1)
  Step-Announced args s s' (leaves t w at _ left) h = (
    leave-state serialize parse hmac_hex (join t) s.connector w
          (λ e. subst StuckIn at h.1 (join-write t e)) left
        ∙ h.0,
    tt,
  )
  Step-Announced args s s' (expires _ _) h = (h.0, tt)
  Step-Announced args s s' (exits_pause _ _) h = (h.0, tt)
  Step-Announced args s s' (exits_idle _ _) h = (h.0, tt)
  Step-Announced args s s' stopped h = h
  Step-Announced args s s' (acts a w users e) h =
      ((step-Tied serialize parse a s.connector users e).0 ∙ h.0, h.1)

  -- The two halves of the session's preparation.
  prepare-renew :
      (args : WebsocketKey) (now_ms : ℕ) (connected : Bool) (w : Connector)
      → prepare serialize parse hmac_hex args now_ms connected w
        ≡ renew serialize parse hmac_hex args now_ms connected (make_stream w)
  unfolding prepare renew make_stream
  prepare-renew args now_ms connected w = refl
