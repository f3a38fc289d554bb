-- ===== src/Websocket/Polls.antt =====
-- packages/backend/src/websocket/websocket.gateway.ts: the rounds of its timers, which ask the daemons about the
-- servers that sockets have subscribed to and tell the rooms. The answer of a daemon becomes an object by
-- `read_status`, which stands for @grpc/proto-loader.
pub mod Reach
use nexus_panel.Common.{
  Bool, true, false, ◌&&◌, Option, none, some, List, [], ◌∷◌, ◌++◌, if◌then◌else◌, patch,
}
use nexus_panel.Common.Texts.{Text, includes}
use nexus_panel.Database.Orm.{Orm}
use nexus_panel.Database.Panel.{Panel, Result, ok, err, M, ◌>>=◌}
use nexus_panel.Wings.Protocol.{Network}
use nexus_panel.Wings
use nexus_panel.Auth.Service.{present}
use nexus_panel.Servers.Service.{find_by_uuid, need}
use nexus_panel.Websocket.Gateway.{AuthenticatedSocket, Subscriptions}

-- `ServerStatusResponse` of packages/shared/proto/wings.proto, its fields as text.
pub record ServerStatus : Type 0 where
  pub uuid : Text
  pub state : Option Text
  pub resources : Text

pub data RoomMessage : Type 0 where
  console_output : (line : Text) → RoomMessage
  stats_update : ServerStatus → RoomMessage
  power_state : (state : Text) → RoomMessage

-- A socket that is connected, the servers whose rooms it has joined, and what the rooms have told it, latest first.
pub record Client : Type 0 where
  pub socket : AuthenticatedSocket
  pub rooms : List Text
  pub told : List RoomMessage

abbrev pub in_room : Text → Client → Bool
in_room uuid c = includes c.rooms uuid

-- `this.server.to(...).emit`.
abbrev pub tell_room : Text → RoomMessage → List Client → List Client
tell_room uuid m clients = patch (in_room uuid) (λ c. record c { told = m ∷ c.told }) clients

abbrev pub has_subscribed : (Subscriptions → Bool) → AuthenticatedSocket → Bool
has_subscribed test s = elim s.subscriptions [ none ↦ false | some subs ↦ test subs ]

-- `uuids.add(uuid)`.
abbrev pub add : Text → List Text → List Text
add uuid uuids = if includes uuids uuid then uuids else uuids ++ uuid ∷ []

abbrev pub add_if : Bool → Option Text → List Text → List Text
add_if false o uuids = uuids
add_if true none uuids = uuids
add_if true (some uuid) uuids = add uuid uuids

-- The servers that some socket has subscribed to, each once.
unfoldable pub subscribed_from : (Subscriptions → Bool) → List Client → List Text → List Text
subscribed_from test [] uuids = uuids
subscribed_from test (c ∷ clients) uuids =
    subscribed_from test clients
      (add_if (has_subscribed test c.socket) (present c.socket.server_uuid) uuids)

abbrev pub subscribed : (Subscriptions → Bool) → List Client → List Text
subscribed test clients = subscribed_from test clients []

abbrev pub wants_stats : Subscriptions → Bool
wants_stats s = s.stats

abbrev pub wants_console : Subscriptions → Bool
wants_console s = s.console

-- `status.output`: the message has no such field.
abbrev pub output_of : ServerStatus → Option (List Text)
output_of s = none

abbrev pub tell_lines : Text → List Text → List Client → List Client
tell_lines uuid [] clients = clients
tell_lines uuid (line ∷ lines) clients =
    tell_lines uuid lines (tell_room uuid (console_output line) clients)

abbrev pub tell_state : Text → Option Text → List Client → List Client
tell_state uuid none clients = clients
tell_state uuid (some state) clients = tell_room uuid (power_state state) clients

abbrev tell_output : Text → Option (List Text) → List Client → List Client
tell_output uuid none clients = clients
tell_output uuid (some lines) clients = tell_lines uuid lines clients

module _ (read_status : Text → ServerStatus) where
  -- What the answer of a daemon is told as. A failure is logged and tells nothing.
  abbrev pub tell_stats : Text → Result Text → List Client → List Client
  tell_stats uuid (err e) clients = clients
  tell_stats uuid (ok t) clients =
      tell_state uuid (read_status t).state (tell_room uuid (stats_update (read_status t)) clients)

  abbrev pub tell_console : Text → Result Text → List Client → List Client
  tell_console uuid (err e) clients = clients
  tell_console uuid (ok t) clients = tell_output uuid (output_of (read_status t)) clients

  module _ (orm : Orm) (net : Network) where
    unfoldable pub ask : Text → M Text
    ask uuid = do
      found ← find_by_uuid orm uuid
      node ← need found.node
      Wings.Client.get_server_status net node uuid

    -- One server after the other.
    unfoldable pub round :
        (Text → Result Text → List Client → List Client)
        → List Text
        → List Client × Panel
        → List Client × Panel
    round tell [] z = z
    round tell (uuid ∷ uuids) (clients, p) =
        round tell uuids (tell uuid (ask uuid p).0 clients, (ask uuid p).1)

    abbrev pub poll_stats : List Client × Panel → List Client × Panel
    poll_stats (clients, p) = round tell_stats (subscribed wants_stats clients) (clients, p)

    abbrev pub poll_console : List Client × Panel → List Client × Panel
    poll_console (clients, p) = round tell_console (subscribed wants_console clients) (clients, p)
