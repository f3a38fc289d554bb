-- ===== src/Tests/Browser.antt =====
-- packages/frontend/src/hooks/useServerWebSocket.ts at work.
use nexus_panel.Common.{
  ◌*◌, leb, if◌then◌else◌, ◌≤◌, ◌≡◌, refl, none, some, List, [], ◌∷◌, length, All,
}
use Prim.Native.Nat.{◌^◌}
use nexus_panel.Common.Texts.{codes}
use nexus_panel.Database.Orm.{list_store}
use nexus_panel.Websocket.Gateway
use nexus_panel.Websocket.Gateway.{emit, handle_disconnect, handle_connection}
use nexus_panel.Frontend.Socket.{
  Message, Event, connect, message, disconnect, connect_error, initial, last, step, run,
}
use nexus_panel.Frontend.Socket.Console.{log_of, run-console_lines}
use nexus_panel.Frontend.Socket.Retries.{IsWithin, lost_since, run-delays}
use nexus_panel.Frontend.Socket.Handshake.{arrivals, connect-run}
use nexus_panel.Tests.Data.{panel, up}
use nexus_panel.Tests.Tokens.{crypto}

-- A connection that is lost twice.
abbrev events : List Event
events =
    connect
    ∷ message (Message.console_history (some (codes "one" ∷ [])))
    ∷ message (Message.console_output (some (codes "two")))
    ∷ disconnect
    ∷ connect_error
    ∷ disconnect
    ∷ []

shown : log_of events [] ≡ codes "one" ∷ codes "two" ∷ []
shown = refl

run-console_lines_example :
    ((run none (codes "uu") events initial).console_lines ≡ last 2000 (log_of events []))
    × (length (run none (codes "uu") events initial).console_lines ≤ 2000)
run-console_lines_example = run-console_lines none (codes "uu") events

run-delays_example :
    let wanted = 1000 * 2 ^ lost_since events 0 in
    All IsWithin (run none (codes "uu") events initial).delays
    × ((step none (codes "uu") disconnect (run none (codes "uu") events initial)).delays
        ≡ (if leb wanted 30000 then wanted else 30000)
          ∷ (run none (codes "uu") events initial).delays)
run-delays_example = run-delays none (codes "uu") events

connect-run_example :
    let s = handle_connection crypto 5000 none (some (codes "uu")) in
    Gateway.run crypto list_store up
      (arrivals 5000 (step none (codes "uu") connect initial).sent)
      (s, panel)
    ≡ (handle_disconnect (emit (Gateway.ServerMessage.error "Authentication failed") s), panel)
connect-run_example = connect-run crypto list_store up 5000 (codes "uu") none panel refl
