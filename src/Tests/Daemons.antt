-- ===== src/Tests/Daemons.antt =====
-- packages/backend/src/wings and packages/backend/src/sse at work.
use nexus_panel.Common.{ℕ, ◌≡◌, ◌↔◌, ◌⊎◌, true, false, [], ◌∷◌, Has}
use nexus_panel.Common.Texts.{codes}
use nexus_panel.Database.Orm.{list_store}
use nexus_panel.Events.Sse.{SseConnection, SseService}
use nexus_panel.Events.Handlers.{EventData, EventHandlers, DaemonEvent, console, handle}
use nexus_panel.Events.Delivery.{message_of, told_by, handle_iff}
use nexus_panel.Tests.Data.{server}

abbrev owner : SseConnection
owner = record { user_id = codes "u1"; is_admin = false }

abbrev admin : SseConnection
admin = record { user_id = codes "u9"; is_admin = true }

abbrev handlers : EventHandlers ℕ
handlers = record {
  server_states = [];
  server_stats = [];
  servers = server ∷ [];
  sse = record { connections = (codes "c1", owner) ∷ (codes "c2", admin) ∷ []; pushed = [] };
}

abbrev line : DaemonEvent ℕ
line = console (codes "uu") (codes "hello")

handle_iff_example :
    Has (codes "c1", message_of (told_by line)) (handle list_store line handlers).sse.pushed ↔ (
      Has (codes "c1", message_of (told_by line)) handlers.sse.pushed
      ⊎ ((c : SseConnection) × Has (codes "c1", c) handlers.sse.connections
          × (c.is_admin ≡ true)
          × (message_of (told_by line) ≡ message_of (told_by line))))
handle_iff_example = handle_iff list_store line handlers (codes "c1") (message_of (told_by line))

abbrev pushed_once : SseService (EventData ℕ)
pushed_once = record handlers.sse { pushed = (codes "c2", message_of (told_by line)) ∷ [] }
