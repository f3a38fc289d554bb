-- ===== src/Admin/Allocations.antt =====
-- packages/backend/src/admin/admin-allocations.controller.ts, behind its guards. The ids of new rows are drawn
-- from `id_of`, by port.
pub mod Same
use nexus_panel.Common.{
  ℕ, zero, suc, ◌+◌, ◌-◌, ltb, Bool, ◌&&◌, not, Option, none, some, List, [], ◌∷◌, if◌then◌else◌,
  is_some, nat_eq,
}
use nexus_panel.Common.Texts.{Text, ◌==◌}
use nexus_panel.Database.Entities.{Allocation}
use nexus_panel.Database.Orm.{Orm}
use nexus_panel.Database.Rows.{has_key}
use nexus_panel.Database.Pages.{page_or, Pages, Paged, paginate}
use nexus_panel.Database.Panel.{
  Panel, bad_request, internal, M, ◌>>=◌, ◌>>◌, pure, gets, modify, throw_if, or_throw,
}
use nexus_panel.Allocations.Service.{allocation_id, ports_from, insert_all}

pub record CreateNodeAllocationsDto : Type 0 where
  pub ip : Text
  pub port_start : ℕ
  pub port_end : ℕ
  pub ip_alias : Option Text

-- `{ nodeId, ip, port }`.
abbrev pub is_at : (node_id ip : Text) → ℕ → Allocation → Bool
is_at node_id ip port a = a.node_id == node_id && a.ip == ip && nat_eq a.port port

abbrev pub of_node : Text → Allocation → Bool
of_node node_id a = a.node_id == node_id

abbrev pub is_unassigned : Text → Allocation → Bool
is_unassigned node_id a = a.node_id == node_id && not (is_some a.server_id)

abbrev pub aliased :
    (node_id : Text) → CreateNodeAllocationsDto → (id : Text) → (port now : ℕ) → Allocation
aliased node_id dto id port now = record {
  id = id;
  node_id = node_id;
  ip = dto.ip;
  ip_alias = dto.ip_alias;
  port = port;
  notes = none;
  server_id = none;
  created_at = now;
}

module _ (orm : Orm) where
  -- The loop over the ports, with a query for each.
  unfoldable pub missing :
      (node_id : Text)
      → CreateNodeAllocationsDto
      → (ℕ → Text)
      → ℕ
      → List Allocation
      → List ℕ
      → List Allocation
  missing node_id dto id_of now t [] = []
  missing node_id dto id_of now t (port ∷ ports) =
      let rest = missing node_id dto id_of now t ports in
      if is_some (orm.find_one (is_at node_id dto.ip port) t)
      then rest
      else aliased node_id dto (id_of port) port now ∷ rest

  unfoldable pub create :
      (node_id : Text) → CreateNodeAllocationsDto → (ℕ → Text) → ℕ → M (List Allocation)
  create node_id dto id_of now = do
    throw_if (ltb dto.port_end dto.port_start) (bad_request "portStart must be <= portEnd")
    throw_if (ltb 1000 (dto.port_end - dto.port_start))
        (bad_request "Cannot create more than 1000 allocations at once")
    let ports = ports_from dto.port_start (dto.port_end - dto.port_start + 1)
    rows ← gets (λ p. missing node_id dto id_of now p.allocations ports)
    stored ← gets (λ p. insert_all orm rows p.allocations)
    allocations ← or_throw internal stored
    modify (λ p. record p { allocations = allocations })
    pure rows

  unfoldable pub delete : (node_id id : Text) → M (Unit {0})
  delete node_id id = do
    found ←
        gets
          (λ p. orm.find_one (λ a. has_key allocation_id id a && of_node node_id a) p.allocations)
    allocation ← or_throw (bad_request "Allocation not found") found
    throw_if (is_some allocation.server_id) (bad_request "Cannot delete an assigned allocation")
    modify (λ p. record p {
      allocations = orm.remove (has_key allocation_id allocation.id) p.allocations;
    })

  unfoldable pub bulk_delete : (node_id : Text) → M (Unit {0})
  bulk_delete node_id =
      modify (λ p. record p { allocations = orm.remove (is_unassigned node_id) p.allocations })

  unfoldable pub find_by_node :
      Pages → (node_id : Text) → (page per_page : Option ℕ) → M (Paged Allocation)
  find_by_node pages node_id page per_page =
      paginate pages (λ p. p.allocations) (of_node node_id) (page_or page 1) (page_or per_page 50)
