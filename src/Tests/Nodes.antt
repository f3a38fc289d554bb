-- ===== src/Tests/Nodes.antt =====
-- packages/backend/src/nodes and packages/backend/src/allocations at work, and locations.
use nexus_panel.Common.{ℕ, ◌≡◌, ◌≤◌, ◌+◌, refl, true, some, [], ◌∷◌, arith, any, All, Has}
use nexus_panel.Common.Texts.{Text, codes, ◌==◌}
use nexus_panel.Database.Entities.{Allocation}
use nexus_panel.Database.Orm.{list_store}
use nexus_panel.Database.Panel.{Panel}
use nexus_panel.Nodes.Service.{Health, process_heartbeat}
use nexus_panel.Nodes.Service.Connection.{Synced, process_heartbeat-Synced}
use nexus_panel.Allocations.Service.{new_allocation, create, build, insert_all, ports_from}
use nexus_panel.Allocations.Ports.{covers, create_ok}
use nexus_panel.Database.Entities.{Location}
use nexus_panel.Locations.References.{Referenced, apply, removal, apply-Referenced}
use nexus_panel.Tests.Data.{node, heartbeat, panel, taken_port, free_port}

-- The one node of the panel is connected.
panel-Synced : Synced 10 panel
unfolding ◌==◌
panel-Synced k n online found = ground arith

process_heartbeat-Synced_example :
    Synced 10 (process_heartbeat list_store 10 node heartbeat panel).1
unfolding ◌==◌
process_heartbeat-Synced_example =
    process_heartbeat-Synced list_store 10 node heartbeat panel refl panel-Synced

abbrev healthy : Health
healthy = record { node_id = codes "n1"; online = true; last_heartbeat = some heartbeat }

abbrev id_of : ℕ → Text
id_of port = port ∷ []

abbrev row_of : ℕ → Allocation
row_of port = new_allocation (codes "n1") (codes "ip") (id_of port) port 9

abbrev extended : Panel
extended = record panel { allocations = row_of 2003 ∷ row_of 2002 ∷ taken_port ∷ free_port ∷ [] }

create_ok_example :
    (2003 ≤ 2001 + 1000)
    × (any (covers (codes "n1") (codes "ip") 2002) extended.allocations ≡ true)
    × All (λ a. Has a extended.allocations) panel.allocations
unfolding ◌==◌ create build insert_all ports_from
create_ok_example =
    create_ok list_store (codes "n1") (codes "ip") 2001 2003 id_of 9 panel extended
      (row_of 2002 ∷ row_of 2003 ∷ []) refl 2002 (omega arith) (omega arith)

abbrev place : Location
place = record {
  id = codes "l1";
  short = codes "EU-1";
  long = codes "Europe";
  created_at = 0;
  updated_at = 0;
}

abbrev placed : Panel
placed = record panel {
  nodes = record node { location_id = some (codes "l1") } ∷ [];
  locations = place ∷ [];
}

apply-Referenced_example : Referenced (apply list_store (removal (codes "l1")) placed)
unfolding ◌==◌
apply-Referenced_example = apply-Referenced list_store (removal (codes "l1")) placed (refl, tt)
