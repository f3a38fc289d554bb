-- ===== src/Nodes/HeartbeatStore.antt =====
-- packages/backend/src/nodes/node-heartbeat.store.ts: the heartbeats of the nodes, in memory.
use nexus_panel.Common.{ℕ, ◌-◌, ltb, Bool, false, Option, none, some, List}
use nexus_panel.Common.Texts.{Text}
use nexus_panel.Common.Dicts

pub record ServerReport : Type 0 where
  pub uuid : Text
  pub state : Text

pub record HeartbeatData : Type 0 where
  pub version : Text
  pub total_memory : ℕ
  pub used_memory : ℕ
  pub total_disk : ℕ
  pub used_disk : ℕ
  pub cpu_percent : ℕ
  pub servers : List ServerReport
  pub received_at : ℕ

abbrev pub Heartbeats : Type 0
Heartbeats = List (Text × HeartbeatData)

abbrev pub offline_threshold_ms : ℕ
offline_threshold_ms = 60_000

abbrev pub set : Text → HeartbeatData → Heartbeats → Heartbeats
set = Dicts.insert

abbrev pub get : Text → Heartbeats → Option HeartbeatData
get = Dicts.lookup

abbrev is_fresh : ℕ → Option HeartbeatData → Bool
is_fresh now none = false
is_fresh now (some d) = ltb (now - d.received_at) offline_threshold_ms

-- `now` is the clock. A heartbeat from the future gives a negative age in the source and 0 here: both
-- are below the threshold.
unfoldable pub is_online : ℕ → Text → Heartbeats → Bool
is_online now node_id heartbeats = is_fresh now (get node_id heartbeats)

abbrev pub delete : Text → Heartbeats → Heartbeats
delete = Dicts.erase
