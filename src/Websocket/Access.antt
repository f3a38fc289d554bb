-- ===== src/Websocket/Access.antt =====
-- packages/backend/src/websocket/websocket.gateway.ts: who reaches the daemons through a socket.
use nexus_panel.Common.{
  ◌≡◌, refl, ◌∙◌, ℕ, ◌/◌, Bool, true, false, Option, none, some, List, [], ◌∷◌, if◌then◌else◌,
  String, any, arith,
}
use nexus_panel.Common.Texts.{Text}
use nexus_panel.Database.Entities.{Server, Node}
use nexus_panel.Database.Orm.{Orm}
use nexus_panel.Database.Rows.{row, Distinct}
use nexus_panel.Database.Panel.{Panel}
use nexus_panel.Wings.Protocol.{PowerAction, Request, Network, Reply, answered, failed}
use nexus_panel.Wings.Client
use nexus_panel.Wings.Client.{map_power_action, settle}
use nexus_panel.Wings.Client.Laws.{called, call_for, same_text, send_lem}
use nexus_panel.Wings.Client.Checks.{answers}
use nexus_panel.Auth.Crypto.{Crypto}
use nexus_panel.Auth.Service.{present}
use nexus_panel.Servers.Service.{server_uuid, load, power}
use nexus_panel.Servers.Service.Laws.{find_by_uuid_lem}
use nexus_panel.Servers.Service.Power.{blocked, power_lem}
use nexus_panel.Websocket.Gateway.{
  AuthenticatedSocket, ClientMessage, auth, subscribe_console, subscribe_stats, send_command,
  send_power_action, ServerMessage, power_state, error, State, emit, handle_auth, handle_disconnect,
  handle_subscribe_console, handle_subscribe_stats, handle_send_command, handle_send_power_action,
  receive, run, settled, dispatch, if_joined,
}

abbrev Nobody : Panel → State → Type 0
Nobody p z = (z.1 ≡ p) × (present z.0.user_id ≡ none)

gated :
    (b : Bool) (x y : State) (p : Panel)
    → Nobody p x
    → Nobody p y
    → Nobody p (elim b [ true ↦ x | false ↦ y ])
gated true x y p hx hy = hx
gated false x y p hx hy = hy

module _ (crypto : Crypto) where
  abbrev proves : {A : Type 0} → Option A → Bool
  proves none = false
  proves (some x) = true

  disproved : {A : Type 0} → (o : Option A) → proves o ≡ false → o ≡ none
  disproved none h = refl
  disproved (some x) h = cc

  -- Whether a message is an authentication whose token verifies when it arrives.
  abbrev pub authenticates : ℕ × ClientMessage → Bool
  authenticates (now, auth token uuid) = proves (crypto.verify (now / 1000) token)
  authenticates (now, _) = false

  module _ (orm : Orm) (net : Network) where
    if_joined-none :
        (s : AuthenticatedSocket) (p : Panel) (k : Text → State)
        → present s.user_id ≡ none
        → Nobody p (if_joined crypto orm net s p k)
    if_joined-none s p k e = rw (e, if_joined) (refl, e)

    -- One message of a socket without a user.
    dispatch-none :
        (now : ℕ) (m : ClientMessage) (s : AuthenticatedSocket) (p : Panel)
        → authenticates (now, m) ≡ false
        → present s.user_id ≡ none
        → ((dispatch crypto orm net now m (s, p)).1 ≡ p)
          × (present (dispatch crypto orm net now m (s, p)).0.user_id ≡ none)
    unfolding handle_auth handle_disconnect handle_subscribe_console handle_subscribe_stats
        handle_send_command handle_send_power_action
    dispatch-none now (auth token uuid) s p h e =
        rw (disproved (crypto.verify (now / 1000) token) h, dispatch, handle_auth) (refl, e)
    dispatch-none now subscribe_console s p h e =
        rw (e, dispatch, handle_subscribe_console) (refl, e)
    dispatch-none now subscribe_stats s p h e = rw (e, dispatch, handle_subscribe_stats) (refl, e)
    dispatch-none now (send_command command) s p h e = if_joined-none s p _ e
    dispatch-none now (send_power_action action) s p h e = if_joined-none s p _ e

    receive-none :
        (now : ℕ) (m : ClientMessage) (s : AuthenticatedSocket) (p : Panel)
        → authenticates (now, m) ≡ false
        → present s.user_id ≡ none
        → ((receive crypto orm net now m (s, p)).1 ≡ p)
          × (present (receive crypto orm net now m (s, p)).0.user_id ≡ none)
    unfolding receive
    receive-none now m s p h e =
        gated s.connected (dispatch crypto orm net now m (s, p)) (s, p) p
          (dispatch-none now m s p h e) (refl, e)

    -- Whatever messages a socket without a user sends, and whenever they arrive, if none of them is an
    -- authentication with a token that verifies then the panel stays as it is (no daemon is called)
    -- and the socket has no user still.
    pub run-none :
        (ms : List (ℕ × ClientMessage)) (s : AuthenticatedSocket) (p : Panel)
        → any authenticates ms ≡ false
        → present s.user_id ≡ none
        → ((run crypto orm net ms (s, p)).1 ≡ p)
          × (present (run crypto orm net ms (s, p)).0.user_id ≡ none)
    unfolding run
    run-none [] s p h e = (refl, e)
    run-none ((now, m) ∷ ms) s p h e =
        let (s2, p2) = receive crypto orm net now m (s, p) in
        let (same, still) = receive-none now m s p (ground arith) e in
        let (same2, still2) = run-none ms s2 p2 (ground arith) still in (same2 ∙ same, still2)

module _ (crypto : Crypto) (orm : Orm) (net : Network) where
  if_joined_lem :
      (s : AuthenticatedSocket) (p : Panel) (k : Text → State) (u uuid : Text)
      → present s.user_id ≡ some u
      → present s.server_uuid ≡ some uuid
      → if_joined crypto orm net s p k ≡ k uuid
  if_joined_lem s p k u uuid e j = rw (e, j, if_joined)

  settled_lem :
      (s : AuthenticatedSocket) (m : ServerMessage) (message : String) (r : Reply) (p : Panel)
      → settled crypto orm net s m message (same_text (settle r), p)
        ≡ (emit (if answers r then m else error message) s, p)
  settled_lem s m message (answered t) p = refl
  settled_lem s m message (failed t) p = refl

  -- A power action from a socket with a user and a server, whoever the user is, is sent to the node of
  -- that server whatever its status: the socket is told the state or an error by whether the daemon
  -- answers. `ServersService.power` leaves the panel as it is when the server is installing or
  -- suspended, and makes the same call otherwise. The rows have distinct uuids, and the server and its
  -- node are stored.
  pub handle_send_power_action_lem :
      (action : PowerAction) (s : AuthenticatedSocket) (p : Panel) (u uuid : Text) (v : Server)
      (n : Node)
      → present s.user_id ≡ some u
      → present s.server_uuid ≡ some uuid
      → Distinct server_uuid p.servers
      → row server_uuid uuid p.servers ≡ some v
      → (load orm p v).node ≡ some n
      → let request = Request.send_power_action v.uuid (map_power_action action) in
        (handle_send_power_action crypto orm net action (s, p) ≡ (
          emit
              (if answers (net.reply p.calls (call_for n request p))
                then power_state action
                else error "Failed to send power action")
              s,
          called n request p,
        ))
        × ((power orm net uuid action p).1 ≡ (if blocked v.status then p else called n request p))
  unfolding handle_send_power_action Client.power_action load
  handle_send_power_action_lem action s p u uuid v n e j d r stored =
      let request = Request.send_power_action v.uuid (map_power_action action) in
      let found = find_by_uuid_lem orm uuid p v d r in
      (
        if_joined_lem s p _ u uuid e j
            ∙ rw (found, stored)
                (rw (send_lem net n request p) (
                  settled_lem s (power_state action) "Failed to send power action"
                    (net.reply p.calls (call_for n request p)) (called n request p))),
        (power_lem orm net uuid action p (load orm p v) n found stored).0,
      )
