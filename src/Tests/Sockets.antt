-- ===== src/Tests/Sockets.antt =====
-- packages/backend/src/websocket at work.
use nexus_panel.Common.{
  inl, inr, ◌+◌, map, ◌+◌, ◌≤◌, ◌≡◌, length, Has, refl, ℕ, true, none, some, List, [], ◌∷◌,
  if◌then◌else◌,
}
use nexus_panel.Common.Texts.{Text, codes, ◌==◌}
use nexus_panel.Database.Orm.{list_store}
use nexus_panel.Wings.Protocol.{kill, Request}
use nexus_panel.Wings.Client.{map_power_action}
use nexus_panel.Wings.Client.Laws.{called, call_for}
use nexus_panel.Wings.Client.Checks.{answers}
use nexus_panel.Auth.Service.{present}
use nexus_panel.Servers.Service.{find_by_uuid, load, power}
use nexus_panel.Websocket.Gateway.{
  AuthenticatedSocket, ClientMessage, auth, subscribe_console, send_command, send_power_action,
  power_state, error, emit, handle_send_power_action, run,
}
use nexus_panel.Websocket.Access.{run-none, handle_send_power_action_lem}
use nexus_panel.Websocket.Polls
use nexus_panel.Wings
use nexus_panel.Websocket.Polls.{
  ServerStatus, Client, in_room, subscribed, wants_stats, poll_stats, poll_console,
}
use nexus_panel.Websocket.Polls.Reach.{polls_lem}
use nexus_panel.Tests.Data.{node, held_server, held_panel, up, panel}
use nexus_panel.Tests.Tokens.{crypto}

abbrev stranger : AuthenticatedSocket
stranger = record {
  user_id = none;
  server_uuid = some (codes "uu");
  subscriptions = none;
  connected = true;
  emitted = [];
}

abbrev guesses : List (ℕ × ClientMessage)
guesses =
    (5000, subscribe_console)
    ∷ (5001, send_command (codes "stop"))
    ∷ (5002, send_power_action kill)
    ∷ (5003, auth [] (codes "uu"))
    ∷ []

run-none_example :
    ((run crypto list_store up guesses (stranger, panel)).1 ≡ panel)
    × (present (run crypto list_store up guesses (stranger, panel)).0.user_id ≡ none)
run-none_example = run-none crypto list_store up guesses stranger panel refl refl

-- A socket of a user that owns nothing.
abbrev visitor : AuthenticatedSocket
visitor = record stranger { user_id = some (codes "u7") }

handle_send_power_action_lem_example :
    (handle_send_power_action crypto list_store up kill (visitor, held_panel) ≡ (
      emit
          (if answers (
              up.reply [] (
                call_for node
                  (Request.send_power_action (codes "uu") (map_power_action kill))
                  held_panel))
            then power_state kill
            else error "Failed to send power action")
          visitor,
      called node (Request.send_power_action (codes "uu") (map_power_action kill)) held_panel,
    ))
    × ((power list_store up (codes "uu") kill held_panel).1 ≡ held_panel)
unfolding load ◌==◌
handle_send_power_action_lem_example =
    handle_send_power_action_lem crypto list_store up kill visitor held_panel (codes "u7")
      (codes "uu") held_server node refl refl (refl, tt) refl refl

abbrev read_status : Text → ServerStatus
read_status t = record { uuid = codes "uu"; state = some t; resources = t }

abbrev watching : Text → AuthenticatedSocket
watching uuid = record visitor {
  server_uuid = some uuid;
  subscriptions = some (record { console = true; stats = true });
}

abbrev idle : Client
idle = record { socket = stranger; rooms = []; told = [] }

-- Two sockets that watch the server, and one that watches none.
abbrev clients : List Client
clients =
    (record { socket = watching (codes "uu"); rooms = codes "uu" ∷ []; told = [] })
    ∷ (record { socket = watching (codes "uu"); rooms = codes "uu" ∷ []; told = [] })
    ∷ idle
    ∷ []

-- One call to a daemon serves both sockets, and each of them is told the statistics and the state.
served :
    (length (poll_stats read_status list_store up (clients, panel)).1.calls
      ≡ 1 + length panel.calls)
    × (map (λ c. length c.told) (poll_stats read_status list_store up (clients, panel)).0
        ≡ 2 ∷ 2 ∷ 0 ∷ [])
unfolding Polls.round Polls.subscribed_from ◌==◌ Polls.ask find_by_uuid
    Wings.Client.get_server_status Wings.Client.request load
served = (refl, refl)

polls_lem_example :
    (length (poll_stats read_status list_store up (clients, panel)).1.calls
      ≤ length panel.calls + length clients)
    × Has idle (poll_stats read_status list_store up (clients, panel)).0
    × (length (poll_console read_status list_store up (clients, panel)).1.calls
        ≤ length panel.calls + length clients)
    × ((poll_console read_status list_store up (clients, panel)).0 ≡ clients)
polls_lem_example =
    polls_lem read_status list_store up clients panel idle (inr (inr (inl refl))) (λ uuid h. refl)
