-- ===== src/Events/Handlers.antt =====
-- packages/backend/src/wings/event-handlers.ts: the handlers of what the daemons report. The numbers of a
-- report are of any type: they are passed on unread.
use nexus_panel.Common.{Option, none, some, List}
use nexus_panel.Common.Texts.{Text, codes}
use nexus_panel.Common.Dicts
use nexus_panel.Database.Entities.{Server, install_failed}
use nexus_panel.Database.Orm.{Orm}
use nexus_panel.Database.Rows.{has_key}
use nexus_panel.Servers.Service.{server_uuid}
use nexus_panel.Events.Sse.{SseEvent, SseService, emit}

module _ (N : Type 0) where
  pub record ServerStats : Type 0 where
    pub uuid : Text
    pub cpu_percent : N
    pub memory_bytes : N
    pub memory_limit : N
    pub network_rx_bytes : N
    pub network_tx_bytes : N
    pub disk_bytes : N
    pub timestamp_ms : N

  -- The `data` of the events that are emitted, one constructor for each shape.
  pub data EventData : Type 0 where
    status_data : (uuid state previous_state : Text) → EventData
    install_complete_data : (uuid : Text) → EventData
    install_failed_data : (uuid error : Text) → EventData
    stats_data :
        (uuid : Text)
        (cpu_percent memory_bytes memory_limit network_rx_bytes network_tx_bytes disk_bytes : N)
        → EventData
    console_data : (uuid line : Text) → EventData

  -- The two caches, the table of the servers, and the connections.
  pub record EventHandlers : Type 0 where
    pub server_states : List (Text × Text)
    pub server_stats : List (Text × ServerStats)
    pub servers : List Server
    pub sse : SseService EventData

-- The events of the daemons.
pub data DaemonEvent (N : Type 0) : Type 0 where
  state_changed : (uuid previous_state new_state : Text) → DaemonEvent N
  installed : (uuid : Text) → DaemonEvent N
  install_failed_with : (uuid error_message : Text) → DaemonEvent N
  stats : ServerStats N → DaemonEvent N
  console : (uuid line : Text) → DaemonEvent N

module _ {N : Type 0} where
  abbrev pub event_of : Text → EventData N → SseEvent (EventData N)
  event_of type d = record { type = type; data_ = d; target_user_ids = none }

  unfoldable pub handle_state_changed :
      (uuid previous new : Text) → EventHandlers N → EventHandlers N
  handle_state_changed uuid previous new h = record h {
    server_states = Dicts.insert uuid new h.server_states;
    sse = emit (event_of (codes "server.status") (status_data uuid new previous)) h.sse;
  }

  unfoldable pub handle_install_complete : Orm → Text → EventHandlers N → EventHandlers N
  handle_install_complete orm uuid h = record h {
    servers =
        orm.update (has_key server_uuid uuid) (λ s. record s { installed = 1; status = none })
          h.servers;
    sse = emit (event_of (codes "server.install.complete") (install_complete_data uuid)) h.sse;
  }

  unfoldable pub handle_install_failed :
      Orm → (uuid message : Text) → EventHandlers N → EventHandlers N
  handle_install_failed orm uuid message h = record h {
    servers =
        orm.update (has_key server_uuid uuid)
          (λ s. record s { installed = 2; status = some install_failed }) h.servers;
    sse = emit (event_of (codes "server.install.failed") (install_failed_data uuid message)) h.sse;
  }

  unfoldable pub handle_stats : ServerStats N → EventHandlers N → EventHandlers N
  handle_stats e h = record h {
    server_stats = Dicts.insert e.uuid e h.server_stats;
    sse =
        emit
          (event_of (codes "server.stats") (
            stats_data e.uuid e.cpu_percent e.memory_bytes e.memory_limit e.network_rx_bytes
              e.network_tx_bytes e.disk_bytes))
          h.sse;
  }

  unfoldable pub handle_console : (uuid line : Text) → EventHandlers N → EventHandlers N
  handle_console uuid line h = record h {
    sse = emit (event_of (codes "server.console") (console_data uuid line)) h.sse;
  }

  -- The dispatch of `@OnEvent`.
  unfoldable pub handle : Orm → DaemonEvent N → EventHandlers N → EventHandlers N
  handle orm (state_changed uuid previous new) h = handle_state_changed uuid previous new h
  handle orm (installed uuid) h = handle_install_complete orm uuid h
  handle orm (install_failed_with uuid message) h = handle_install_failed orm uuid message h
  handle orm (stats e) h = handle_stats e h
  handle orm (console uuid line) h = handle_console uuid line h

  unfoldable pub get_server_state : Text → EventHandlers N → Option Text
  get_server_state uuid h = Dicts.lookup uuid h.server_states

  unfoldable pub get_server_stats : Text → EventHandlers N → Option (ServerStats N)
  get_server_stats uuid h = Dicts.lookup uuid h.server_stats

  unfoldable pub clear_server_cache : Text → EventHandlers N → EventHandlers N
  clear_server_cache uuid h = record h {
    server_states = Dicts.erase uuid h.server_states;
    server_stats = Dicts.erase uuid h.server_stats;
  }
