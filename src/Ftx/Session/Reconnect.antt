-- ===== src/Ftx/Session/Reconnect.antt =====
-- One call of `reconnect` after another: src/vendor/ftx/ftx_websocket_connector_concept.cpp.
use mathlib.Core.Option.{some-injective}
use boost_connector.Base.{
  ℕ, Text, Bool, true, false, Option, none, some, ◌>>=◌, >>=-eq-some, ◌≡◌, ◌≢◌, refl, sym, ap, ◌∙◌,
  [], ◌∷◌, get_elem?, Bool-cases, inl, inr, arith, if◌then◌else◌,
}
use boost_connector.Json.{Value}
use boost_connector.Ftx.Event.{ChannelEvent}
use boost_connector.Ftx.Connection.{ConnectionState, up}
use boost_connector.Ftx.Machine.{process_event}
use boost_connector.Ftx.Machine.Output.{process_event-Sends}
use boost_connector.Ftx.Channels.{ChannelStateMap}
use boost_connector.Ftx.Connector.{
  Connector, Subscription, deliver, notify_channels, notify_connection_state, same_state,
  set_machine,
}
use boost_connector.Ftx.Credentials.{WebsocketKey}
use boost_connector.Ftx.Session.{
  Tasks, Outcome, pending, succeeded, failed, join, prepare, establish, leave, all_running,
}
use boost_connector.Ftx.Session.Joins.{Later, never_succeeds}

abbrev pub state_of : Connector → ConnectionState
state_of w = w.connection.connection_state

module _ (serialize : Value → Text) (parse : Text → Option Value) where
  deliver_found-state :
      (i : ℕ) (s : Subscription) (e : ChannelEvent) (w : Connector) {w' : Connector}
      → (process_event serialize e (record (s.machine) { connection = w.connection }) >>= λ m.
          some (set_machine i s m w))
        ≡ some w'
      → state_of w' ≡ state_of w
  deliver_found-state i s e w {w'} h =
      let (m, run_machine, put) = >>=-eq-some (process_event serialize e _) _ h in
      let (_, _, same) = process_event-Sends serialize e _ m run_machine in
      ap state_of (sym (some-injective _ _ put)) ∙ same

  pub deliver-state :
      (o : Option ℕ) (e : ChannelEvent) (w : Connector) {w' : Connector}
      → deliver serialize parse o e w ≡ some w'
      → state_of w' ≡ state_of w
  unfolding deliver
  deliver-state none e w h = cc
  deliver-state (some i) e w h =
      let (s, _, rest) = >>=-eq-some (get_elem? w.subscriptions i) _ h in
      deliver_found-state i s e w rest

  guarded-state :
      (b : Bool) (o : Option ℕ) (e : ChannelEvent) (w : Connector) {w' : Connector}
      → (if b then deliver serialize parse o e w else some w) ≡ some w'
      → state_of w' ≡ state_of w
  guarded-state true o e w h = deliver-state o e w h
  guarded-state false o e w h = ap state_of (sym (some-injective _ _ h))

  notify_channels-state :
      (e : ChannelEvent) (m : ChannelStateMap) (w : Connector) {w' : Connector}
      → notify_channels serialize parse e m w ≡ some w'
      → state_of w' ≡ state_of w
  unfolding notify_channels
  notify_channels-state e [] w h = ap state_of (sym (some-injective _ _ h))
  notify_channels-state e ((k, c) ∷ m) w h =
      let (w1, first, rest) =
        >>=-eq-some (if c.acquired then deliver serialize parse c.on_event e w else some w) _ h in
      notify_channels-state e m w1 rest ∙ guarded-state c.acquired c.on_event e w first

  -- A notification succeeds only if the state changes, and leaves the state that it announces.
  pub notify_connection_state-state :
      (s : ConnectionState) (w : Connector) {w' : Connector}
      → notify_connection_state serialize parse s w ≡ some w'
      → state_of w' ≡ s
  unfolding notify_connection_state
  notify_connection_state-state s w h = elim (Bool-cases (same_state s (state_of w))) [
    | inl same ↦ ground arith
    | inr other ↦ notify_channels-state _ w.channel_states _ (rw other at h)
  ]

  module _ (hmac_hex : Text → Text → Text) where
    pub establish-up :
        (args : WebsocketKey) (now_ms : ℕ) (connected : Bool) (w : Connector) {w' : Connector}
        → establish serialize parse hmac_hex args now_ms connected w ≡ some w'
        → state_of w' ≡ up
    unfolding establish
    establish-up args now_ms connected w h =
        notify_connection_state-state up (prepare serialize parse hmac_hex args now_ms connected w)
          h

    establish_again :
        (args : WebsocketKey) (now_ms : ℕ) (connected : Bool) (w : Connector)
        → state_of w ≡ up
        → establish serialize parse hmac_hex args now_ms connected w ≡ none
    unfolding establish prepare notify_connection_state
    establish_again args now_ms connected w h = ground arith

    pub leave-state :
        (o : Outcome) (w w' : Connector)
        → o ≢ succeeded
        → leave serialize parse hmac_hex o w ≡ some w'
        → state_of w' ≡ state_of w
    unfolding leave
    leave-state pending w w' n h = ap state_of (sym (some-injective _ _ h))
    leave-state failed w w' n h = ap state_of (sym (some-injective _ _ h))
    leave-state succeeded w w' n h = absurd (n refl)

    -- A connector that has been connected once is never told that it is down on the way out of
    -- `reconnect`, however its three coroutines end; so the next connection fails the assertion that
    -- announces it.
    pub establish-leave-establish :
        (args : WebsocketKey) (now later : ℕ) (connected again : Bool) (w w' w'' : Connector)
        (t : Tasks)
        → establish serialize parse hmac_hex args now connected w ≡ some w'
        → Later all_running t
        → leave serialize parse hmac_hex (join t) w' ≡ some w''
        → establish serialize parse hmac_hex args later again w'' ≡ none
    establish-leave-establish args now later connected again w w' w'' t begun l left =
        establish_again args later again w'' (
          leave-state (join t) w' w'' (never_succeeds l) left
          ∙ establish-up args now connected w begun)
