-- ===== src/Websocket/Gateway.antt =====
-- packages/backend/src/websocket/websocket.gateway.ts: the handlers of one socket. The rounds of its
-- timers, and the rooms, are in Polls.
use nexus_panel.Common.{ℕ, ◌/◌, Bool, true, false, Option, none, some, List, [], ◌∷◌, String}
use nexus_panel.Common.Texts.{Text}
use nexus_panel.Database.Orm.{Orm}
use nexus_panel.Database.Panel.{Panel, Result, ok, err, ◌>>=◌}
use nexus_panel.Wings.Protocol.{PowerAction, Network}
use nexus_panel.Wings.Client
use nexus_panel.Auth.Crypto.{Crypto}
use nexus_panel.Auth.Service.{present}
use nexus_panel.Servers.Service.{find_by_uuid, need}

pub record Subscriptions : Type 0 where
  pub console : Bool
  pub stats : Bool

-- What the gateway answers one socket with: console history and statistics go to rooms. An error has
-- the fixed part of its message.
pub data ServerMessage : Type 0 where
  auth_success : ServerMessage
  error : String → ServerMessage
  console_output : Text → ServerMessage
  power_state : PowerAction → ServerMessage

-- A socket, its entry in `clientSubscriptions`, and what was emitted to it, latest first.
pub record AuthenticatedSocket : Type 0 where
  pub user_id : Option Text
  pub server_uuid : Option Text
  pub subscriptions : Option Subscriptions
  pub connected : Bool
  pub emitted : List ServerMessage

pub data ClientMessage : Type 0 where
  auth : (token server_uuid : Text) → ClientMessage
  subscribe_console subscribe_stats : ClientMessage
  send_command : (command : Text) → ClientMessage
  send_power_action : PowerAction → ClientMessage

abbrev pub State : Type 0
State = AuthenticatedSocket × Panel

abbrev pub emit : ServerMessage → AuthenticatedSocket → AuthenticatedSocket
emit m s = record s { emitted = m ∷ s.emitted }

abbrev with_console : Option Subscriptions → Option Subscriptions
with_console none = none
with_console (some subs) = some (record subs { console = true })

abbrev with_stats : Option Subscriptions → Option Subscriptions
with_stats none = none
with_stats (some subs) = some (record subs { stats = true })

unfoldable pub handle_disconnect : AuthenticatedSocket → AuthenticatedSocket
handle_disconnect s = record s { subscriptions = none; connected = false }

unfoldable pub handle_subscribe_console : AuthenticatedSocket → AuthenticatedSocket
handle_subscribe_console s = elim (present s.user_id) [
  | none ↦ s
  | some u ↦ record s { subscriptions = with_console s.subscriptions }
]

unfoldable pub handle_subscribe_stats : AuthenticatedSocket → AuthenticatedSocket
handle_subscribe_stats s = elim (present s.user_id) [
  | none ↦ s
  | some u ↦ record s { subscriptions = with_stats s.subscriptions }
]

module _ (crypto : Crypto) where
  unfoldable pub handle_auth :
      ℕ → (token server_uuid : Text) → AuthenticatedSocket → AuthenticatedSocket
  handle_auth now token server_uuid s = elim (crypto.verify (now / 1000) token) [
    | none ↦ handle_disconnect (emit (error "Authentication failed") s)
    | some payload ↦
        emit auth_success (record s { user_id = some payload.sub; server_uuid = some server_uuid })
  ]

  -- A cookie that verifies names the user; a server in the query is joined at once. The socket is new.
  abbrev pub joined : Option Text → AuthenticatedSocket → AuthenticatedSocket
  joined none s = s
  joined (some uuid) s = emit auth_success (record s {
    server_uuid = some uuid;
    subscriptions = some (record { console = true; stats = true });
  })

  abbrev pub known_by : ℕ → Option Text → Option Text → AuthenticatedSocket → AuthenticatedSocket
  known_by now none server s = s
  known_by now (some token) server s = elim (crypto.verify (now / 1000) token) [
    | none ↦ s
    | some payload ↦ joined (present server) (record s { user_id = some payload.sub })
  ]

  unfoldable pub handle_connection :
      ℕ → (session_cookie server_query : Option Text) → AuthenticatedSocket
  handle_connection now session_cookie server_query =
      known_by now (present session_cookie) server_query (record {
        user_id = none;
        server_uuid = none;
        subscriptions = some (record { console = false; stats = false });
        connected = true;
        emitted = [];
      })

  module _ (orm : Orm) (net : Network) where
    -- The `try` of a command: what is emitted, by whether it threw.
    abbrev pub settled :
        AuthenticatedSocket → ServerMessage → String → Result (Unit {0}) × Panel → State
    settled s m message (ok t, p) = (emit m s, p)
    settled s m message (err e, p) = (emit (error message) s, p)

    -- `if (!client.userId || !client.serverUuid) return`.
    abbrev pub if_joined : AuthenticatedSocket → Panel → (Text → State) → State
    if_joined s p k = elim (present s.user_id) [
      | none ↦ (s, p)
      | some u ↦ elim (present s.server_uuid) [ none ↦ (s, p) | some uuid ↦ k uuid ]
    ]

    unfoldable pub handle_send_command : Text → State → State
    handle_send_command command (s, p) = if_joined s p (λ uuid.
        settled s (console_output (b'>' ∷ b' ' ∷ command)) "Failed to send command" (
          (do
            found ← find_by_uuid orm uuid
            node ← need found.node
            Client.send_command net node found.server.uuid command)
            p))

    unfoldable pub handle_send_power_action : PowerAction → State → State
    handle_send_power_action action (s, p) = if_joined s p (λ uuid.
        settled s (power_state action) "Failed to send power action" (
          (do
            found ← find_by_uuid orm uuid
            node ← need found.node
            Client.power_action net node found.server.uuid action)
            p))

    -- The dispatch of `@SubscribeMessage`: a socket that was disconnected sends nothing more.
    abbrev pub dispatch : ℕ → ClientMessage → State → State
    dispatch now (auth token server_uuid) (s, p) = (handle_auth now token server_uuid s, p)
    dispatch now subscribe_console (s, p) = (handle_subscribe_console s, p)
    dispatch now subscribe_stats (s, p) = (handle_subscribe_stats s, p)
    dispatch now (send_command command) z = handle_send_command command z
    dispatch now (send_power_action action) z = handle_send_power_action action z

    unfoldable pub receive : ℕ → ClientMessage → State → State
    receive now m (s, p) = elim s.connected [ true ↦ dispatch now m (s, p) | false ↦ (s, p) ]

    -- The messages of a socket, each with the time of its arrival.
    unfoldable pub run : List (ℕ × ClientMessage) → State → State
    run [] z = z
    run ((now, m) ∷ ms) z = run ms (receive now m z)
