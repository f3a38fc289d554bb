-- ===== src/Admin/Nodes.antt =====
-- packages/backend/src/admin/admin-nodes.controller.ts, behind its guards. The counts of servers come from one
-- grouped query, whose documented result is `GroupedCounts`.
pub mod Counts
pub mod Housing
use mathlib.Core.Option
use mathlib.Core.Option.{get_or}
use nexus_panel.Common.{
  ℕ, ◌≡◌, ltb, Bool, true, Option, none, some, List, [], ◌∷◌, if◌then◌else◌, sum_by, length, map,
  Has,
}
use nexus_panel.Common.Dicts
use nexus_panel.Common.Texts.{Text, ◌==◌}
use nexus_panel.Database.Entities.{Node, Allocation, Server, Location}
use nexus_panel.Database.Orm.{Orm}
use nexus_panel.Database.Rows.{has_key}
use nexus_panel.Database.Pages.{page_or, Pages, Paged, paginate}
use nexus_panel.Database.Panel.{Panel, bad_request, M, ◌>>=◌, ◌>>◌, pure, gets, throw_if, or_throw}
use nexus_panel.Auth.Service.{present}
use nexus_panel.Locations.Service.{location_id}
use nexus_panel.Admin.Allocations.{of_node}
use nexus_panel.Servers.Create.{on_node}
use nexus_panel.Nodes.HeartbeatStore
use nexus_panel.Nodes.HeartbeatStore.{HeartbeatData, is_online}
use nexus_panel.Nodes.Service
use nexus_panel.Nodes.Service.{CreateNodeDto, UpdateNodeDto, Fresh, node_id, is_found}

-- The number of servers on a node.
abbrev pub servers_on : Text → List Server → ℕ
servers_on id t = sum_by (λ s. if on_node id s then 1 else 0) t

-- `SELECT nodeId, COUNT(*) … WHERE nodeId IN (…) GROUP BY nodeId`: the nodes of the list that have servers,
-- each with the number of its servers, in any order.
pub record GroupedCounts : Type 0 where
  pub counts : List Text → List Server → List (Text × ℕ)
  pub counts_sound :
      (ids : List Text) (t : List Server) (id : Text) (n : ℕ)
      → Has (id, n) (counts ids t)
      → n ≡ servers_on id t
  pub counts_complete :
      (ids : List Text) (t : List Server) (id : Text)
      → Has id ids
      → ltb 0 (servers_on id t) ≡ true
      → Has (id, servers_on id t) (counts ids t)

-- A node of the list.
pub record ListedNode : Type 0 where
  pub node : Node
  pub location_entity : Option Location
  pub server_count : ℕ
  pub allocation_count : ℕ
  pub online : Bool
  pub memory_used : Option ℕ
  pub memory_total : Option ℕ
  pub disk_used : Option ℕ
  pub disk_total : Option ℕ
  pub cpu_usage : Option ℕ
  pub last_heartbeat : Option ℕ

-- A node by its id.
pub record NodeDetail : Type 0 where
  pub node : Node
  pub allocations : List Allocation
  pub servers : List Server
  pub location_entity : Option Location
  pub online : Bool
  pub last_heartbeat : Option HeartbeatData

-- The loop that fills `serverCounts`.
abbrev pub fill : List (Text × ℕ) → List (Text × ℕ) → List (Text × ℕ)
fill [] m = m
fill ((id, n) ∷ rows) m = fill rows (Dicts.insert id n m)

-- `node.allocations`: the query of the list does not load this relation.
abbrev pub loaded_allocations : Node → Option (List Allocation)
loaded_allocations n = none

module _ (orm : Orm) where
  abbrev pub location_of : Panel → Node → Option Location
  location_of p n = elim n.location_id [
    | none ↦ none
    | some id ↦ orm.find_one (has_key location_id id) p.locations
  ]

  abbrev pub listed : (server_counts : List (Text × ℕ)) → (now : ℕ) → Panel → Node → ListedNode
  listed server_counts now p n =
      let heartbeat = HeartbeatStore.get n.id p.heartbeats in
      record {
        node = n;
        location_entity = location_of p n;
        server_count = get_or (Dicts.lookup n.id server_counts) 0;
        allocation_count = get_or (Option.map length (loaded_allocations n)) 0;
        online = is_online now n.id p.heartbeats;
        memory_used = Option.map (λ h. h.used_memory) heartbeat;
        memory_total = Option.map (λ h. h.total_memory) heartbeat;
        disk_used = Option.map (λ h. h.used_disk) heartbeat;
        disk_total = Option.map (λ h. h.total_disk) heartbeat;
        cpu_usage = Option.map (λ h. h.cpu_percent) heartbeat;
        last_heartbeat = Option.map (λ h. h.received_at) heartbeat;
      }

  -- No query is sent for an empty page.
  unfoldable pub count_servers : GroupedCounts → List Node → List Server → List (Text × ℕ)
  count_servers grouped [] t = []
  count_servers grouped (n ∷ nodes) t = fill (grouped.counts (map node_id (n ∷ nodes)) t) []

  unfoldable pub find_all :
      Pages
      → GroupedCounts
      → (now : ℕ) → (page per_page : Option ℕ) → (search : Option Text) → M (Paged ListedNode)
  find_all pages grouped now page per_page search = do
    found ←
        paginate pages (λ p. p.nodes) (is_found orm pages (present search)) (page_or page 1)
          (page_or per_page 25)
    server_counts ← gets (λ p. count_servers grouped found.rows p.servers)
    gets (λ p. record { rows = map (listed server_counts now p) found.rows; meta = found.meta })

  unfoldable pub find_by_id : (now : ℕ) → Text → M NodeDetail
  find_by_id now id = do
    found ← gets (λ p. orm.find_one (has_key node_id id) p.nodes)
    node ← or_throw (bad_request "Node not found") found
    gets (λ p. record {
      node = node;
      allocations = orm.find (of_node node.id) p.allocations;
      servers = orm.find (on_node node.id) p.servers;
      location_entity = location_of p node;
      online = is_online now node.id p.heartbeats;
      last_heartbeat = HeartbeatStore.get node.id p.heartbeats;
    })

  abbrev pub create : (encode : Text → Text → Text) → CreateNodeDto → Fresh → M (Node × Text)
  create encode dto fresh = Service.create orm encode dto fresh

  abbrev pub update : Text → UpdateNodeDto → M Node
  update id dto = Service.update orm id dto

  unfoldable pub delete : Text → M (Unit {0})
  delete id = do
    server_count ← gets (λ p. orm.sum (on_node id) (λ s. 1) p.servers)
    throw_if (ltb 0 server_count)
        (bad_request "Cannot delete node: server(s) are still assigned to it")
    Service.delete orm id
