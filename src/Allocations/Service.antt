-- ===== src/Allocations/Service.antt =====
-- packages/backend/src/allocations/allocations.service.ts. The ids of new rows are drawn from `id_of`, by port.
use nexus_panel.Common.{
  ℕ, zero, suc, ◌+◌, ◌-◌, ltb, nat_eq, Bool, ◌&&◌, Option, none, some, List, [], ◌∷◌, if◌then◌else◌,
  any, is_some,
}
use nexus_panel.Common.Texts.{Text, ◌==◌}
use nexus_panel.Database.Entities.{Allocation, allocation_clash}
use nexus_panel.Database.Orm.{Orm}
use nexus_panel.Database.Rows.{has_key}
use nexus_panel.Database.Pages.{Pages, Paged, paginate}
use nexus_panel.Database.Panel.{
  bad_request, not_found, internal, M, ◌>>=◌, ◌>>◌, pure, gets, modify, throw_if, or_throw,
}

abbrev pub allocation_id : Allocation → Text
allocation_id a = a.id

-- `portStart`, …, `portEnd`, as `count` consecutive ports.
unfoldable pub ports_from : ℕ → ℕ → List ℕ
ports_from start zero = []
ports_from start (suc count) = start ∷ ports_from (suc start) count

abbrev pub has_port : ℕ → List ℕ → Bool
has_port port ports = any (λ q. nat_eq q port) ports

-- `nodeId = … AND ip = … AND port IN (…)`.
abbrev pub is_existing : (node_id ip : Text) → List ℕ → Allocation → Bool
is_existing node_id ip ports a = a.node_id == node_id && a.ip == ip && has_port a.port ports

-- The set of the ports of the rows that were found.
abbrev pub ports_of : List Allocation → List ℕ
ports_of [] = []
ports_of (a ∷ t) = a.port ∷ ports_of t

abbrev pub new_allocation : (node_id ip id : Text) → (port now : ℕ) → Allocation
new_allocation node_id ip id port now = record {
  id = id;
  node_id = node_id;
  ip = ip;
  ip_alias = none;
  port = port;
  notes = none;
  server_id = none;
  created_at = now;
}

-- The loop over the ports.
unfoldable pub build : (node_id ip : Text) → (ℕ → Text) → ℕ → List ℕ → List ℕ → List Allocation
build node_id ip id_of now existing [] = []
build node_id ip id_of now existing (port ∷ ports) =
    let rest = build node_id ip id_of now existing ports in
    if has_port port existing then rest else new_allocation node_id ip (id_of port) port now ∷ rest

module _ (orm : Orm) where
  -- `allocationRepo.save(allocations)`, in one transaction: all rows are stored or none.
  unfoldable pub insert_all : List Allocation → List Allocation → Option (List Allocation)
  insert_all [] t = some t
  insert_all (a ∷ rows) t = elim (orm.insert allocation_clash a t) [
    | none ↦ none
    | some t' ↦ insert_all rows t'
  ]

  unfoldable pub create :
      (node_id ip : Text) → (port_start port_end : ℕ) → (ℕ → Text) → ℕ → M (List Allocation)
  create node_id ip port_start port_end id_of now = do
    throw_if (ltb port_end port_start) (bad_request "portStart must be <= portEnd")
    throw_if (ltb 1000 (port_end - port_start))
        (bad_request "Cannot create more than 1000 allocations at once")
    let ports = ports_from port_start (port_end - port_start + 1)
    existing ← gets (λ p. orm.find (is_existing node_id ip ports) p.allocations)
    let rows = build node_id ip id_of now (ports_of existing) ports
    stored ← gets (λ p. insert_all rows p.allocations)
    allocations ← or_throw internal stored
    modify (λ p. record p { allocations = allocations })
    pure rows

  unfoldable pub delete : Text → M (Unit {0})
  delete id = do
    found ← gets (λ p. orm.find_one (has_key allocation_id id) p.allocations)
    allocation ← or_throw (not_found "Allocation not found") found
    throw_if (is_some allocation.server_id) (bad_request "Cannot delete an assigned allocation")
    modify (λ p. record p {
      allocations = orm.remove (has_key allocation_id allocation.id) p.allocations;
    })

  -- The write of a row that was changed.
  unfoldable pub save_allocation : Allocation → M Allocation
  save_allocation a = do
    stored ← gets (λ p. orm.save allocation_clash (has_key allocation_id a.id) a p.allocations)
    allocations ← or_throw internal stored
    modify (λ p. record p { allocations = allocations })
    pure a

  -- Whether the allocation is taken already is not asked.
  unfoldable pub assign : (id server_id : Text) → M Allocation
  assign id server_id = do
    found ← gets (λ p. orm.find_one (has_key allocation_id id) p.allocations)
    allocation ← or_throw (not_found "Allocation not found") found
    save_allocation (record allocation { server_id = some server_id })

  unfoldable pub unassign : Text → M Allocation
  unassign id = do
    found ← gets (λ p. orm.find_one (has_key allocation_id id) p.allocations)
    allocation ← or_throw (not_found "Allocation not found") found
    save_allocation (record allocation { server_id = none })

  unfoldable pub find_by_node :
      Pages → (node_id : Text) → (page per_page : ℕ) → M (Paged Allocation)
  find_by_node pages node_id page per_page =
      paginate pages (λ p. p.allocations) (λ a. a.node_id == node_id) page per_page
