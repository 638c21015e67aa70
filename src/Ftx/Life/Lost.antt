-- ===== src/Ftx/Life/Lost.antt =====
-- A connector after the loss of its connection:
-- src/vendor/ftx/ftx_websocket_connector_concept.cpp.
use boost_connector.Base.{Text, true, false, Option, ◌≡◌, refl, sym, ap, ◌∙◌, subst}
use boost_connector.Json.{Value}
use boost_connector.Ftx.Connection.{up}
use boost_connector.Ftx.Connector.{Connector}
use boost_connector.Ftx.Credentials.{WebsocketKey}
use boost_connector.Ftx.Session.{Tasks}
use boost_connector.Ftx.Session.Reconnect.{state_of}
use boost_connector.Ftx.Life.{
  Stage, joined, System, start, stop, Step, reconnects, refuses, connects, receives, read_throws,
  write_throws, ping_pong_returns, leaves, expires, exits_pause, exits_idle, stopped, acts, Reach,
  here, next,
}
use boost_connector.Ftx.Life.History.{
  Announced, OnlyUp, StuckIn, is_joined, Reach-OnlyUp, Step-Announced, announce_again, none-some,
}

abbrev Lost : System → Type 0
Lost s = Announced s × (is_joined s.stage ≡ false)

apart : (g : Stage) (t : Tasks) {A : Type 0} → g ≡ joined t → is_joined g ≡ false → A
apart g t at h = absurd (true-false (ap is_joined (sym at) ∙ h))
  where
    true-false : true ≡ false → ⊥
    true-false e = cc

module _ (serialize : Value → Text) (parse : Text → Option Value)
    (hmac_hex : Text → Text → Text) where
  Step-joined :
      (args : WebsocketKey) (s s' : System)
      → Step serialize parse hmac_hex args s s'
      → Lost s
      → is_joined s'.stage ≡ false
  unfolding stop
  Step-joined args s s' (reconnects parts _ _ _) h = refl
  Step-joined args s s' (refuses _ _ _) h = refl
  Step-joined args s s' (connects now ok w _ e) h =
      absurd (
        none-some (sym (announce_again serialize parse hmac_hex args now ok s.connector h.0.0) ∙ e))
  Step-joined args s s' (receives t r w at _ e) h = apart s.stage t at h.1
  Step-joined args s s' (read_throws t at _) h = apart s.stage t at h.1
  Step-joined args s s' (write_throws t at _) h = apart s.stage t at h.1
  Step-joined args s s' (ping_pong_returns t at _) h = apart s.stage t at h.1
  Step-joined args s s' (leaves t w at _ left) h = refl
  Step-joined args s s' (expires _ _) h = refl
  Step-joined args s s' (exits_pause _ _) h = refl
  Step-joined args s s' (exits_idle _ _) h = refl
  Step-joined args s s' stopped h = h.1
  Step-joined args s s' (acts a w users e) h = h.1

  Reach-Announced :
      (args : WebsocketKey) (s s' : System)
      → Reach serialize parse hmac_hex args s s'
      → Announced s
      → Announced s'
  Reach-Announced args s s' here h = h
  Reach-Announced args s s' (next {u = u} r e) h =
      Step-Announced serialize parse hmac_hex args u s' e (Reach-Announced args s u r h)

  Reach-Lost :
      (args : WebsocketKey) (s s' : System)
      → Reach serialize parse hmac_hex args s s'
      → Lost s
      → Lost s'
  Reach-Lost args s s' here h = h
  Reach-Lost args s s' (next {u = u} r e) h =
      let old = Reach-Lost args s u r h in
      (Step-Announced serialize parse hmac_hex args u s' e old.0, Step-joined args u s' e old)

  -- Once a connector has been connected and its connection is left, it says that it is up in every later
  -- state, and no later state has a connection: nothing announces the loss, and the announcement of the next
  -- connection would be a fault.
  pub Reach-lost :
      (args : WebsocketKey) (w : Connector) (s s' s'' : System) (t : Tasks)
      → Reach serialize parse hmac_hex args (start w) s
      → s.stage ≡ joined t
      → Reach serialize parse hmac_hex args s s'
      → is_joined s'.stage ≡ false
      → Reach serialize parse hmac_hex args s' s''
      → (state_of s''.connector ≡ up) × (is_joined s''.stage ≡ false)
  unfolding start
  Reach-lost args w s s' s'' t begun at l gone m =
      let only =
        subst (λ g. OnlyUp g s.connector) at
          (Reach-OnlyUp serialize parse hmac_hex args (start w) s begun tt) in
      let announced : Announced s = (only.0, subst StuckIn (sym at) only.1) in
      let lost = Reach-Lost args s' s'' m (Reach-Announced args s s' l announced, gone) in
      (lost.0.0, lost.1)
