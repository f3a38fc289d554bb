-- ===== src/Servers/Create/Frame.antt =====
-- Up to the transaction `create` writes to no table.
use nexus_panel.Common.{◌≡◌, refl, ◌∙◌, inl, inr, arith, Option-cases, ℕ}
use nexus_panel.Common.Js.{Js}
use nexus_panel.Database.Entities.{Node}
use nexus_panel.Database.Orm.{Orm}
use nexus_panel.Database.Rows.{has_key}
use nexus_panel.Database.Panel.{Panel, internal, or_throw}
use nexus_panel.Database.Requests.{Keeps, bind-Keeps, then-Keeps, or_throw-Keeps}
use nexus_panel.Wings.Protocol.{Network}
use nexus_panel.Wings.Client.Laws.{called}
use nexus_panel.Wings.Client.Checks.{check_availability_lem}
use nexus_panel.Servers.Service.{node_id}
use nexus_panel.Servers.Create.{
  CreateServerDto, Fresh, check_node, check_egg, check_allocation, check_user, check_capacity,
  resolve_variables, substitute, approve,
}

-- The tables that the service writes to are the same.
pub record SameTables (p q : Panel) : Type 0 where
  pub servers : q.servers ≡ p.servers
  pub allocations : q.allocations ≡ p.allocations
  pub nodes : q.nodes ≡ p.nodes

same : (p : Panel) → SameTables p p
same p = record { servers = refl; allocations = refl; nodes = refl }

trans : (p q r : Panel) → SameTables p q → SameTables q r → SameTables p r
trans p q r a b = record {
  servers = b.servers ∙ a.servers;
  allocations = b.allocations ∙ a.allocations;
  nodes = b.nodes ∙ a.nodes;
}

module _ (orm : Orm) where
  check_node-Keeps :
      (net : Network) (now : ℕ) (dto : CreateServerDto)
      → Keeps SameTables (check_node orm net now dto)
  unfolding check_node called
  check_node-Keeps net now dto p =
      elim (Option-cases (orm.find_one (has_key node_id dto.node_id) p.nodes)) [
        | inl e ↦ ground arith
        | inr (n, e) ↦ ground (arith, check_availability_lem net n p)
      ]

  check_egg-Keeps : (dto : CreateServerDto) → Keeps SameTables (check_egg orm dto)
  unfolding check_egg
  check_egg-Keeps dto p = ground arith

  check_allocation-Keeps : (dto : CreateServerDto) → Keeps SameTables (check_allocation orm dto)
  unfolding check_allocation
  check_allocation-Keeps dto p = ground arith

  check_user-Keeps : (dto : CreateServerDto) → Keeps SameTables (check_user orm dto)
  unfolding check_user
  check_user-Keeps dto p = ground arith

  module _ (js : Js) where
    check_capacity-Keeps :
        (node : Node) (dto : CreateServerDto) → Keeps SameTables (check_capacity js orm node dto)
    unfolding check_capacity
    check_capacity-Keeps node dto p = ground arith

    resolve_variables-Keeps :
        (dto : CreateServerDto) → Keeps SameTables (resolve_variables js orm dto)
    unfolding resolve_variables
    resolve_variables-Keeps dto p = ground arith

    pub approve-Keeps :
        (net : Network) (now : ℕ) (fresh : Fresh) (dto : CreateServerDto)
        → Keeps SameTables (approve js orm net now fresh dto)
    unfolding approve
    approve-Keeps net now fresh dto =
        bind-Keeps SameTables trans (check_node orm net now dto) _ (check_node-Keeps net now dto)
          λ node. bind-Keeps SameTables trans (check_egg orm dto) _ (check_egg-Keeps dto) λ egg.
            then-Keeps SameTables trans (check_allocation orm dto) _ (check_allocation-Keeps dto) (
              then-Keeps SameTables trans (check_user orm dto) _ (check_user-Keeps dto) (
                then-Keeps SameTables trans (check_capacity js orm node dto) _
                  (check_capacity-Keeps node dto)
                  (bind-Keeps SameTables trans (resolve_variables js orm dto) _
                    (resolve_variables-Keeps dto)
                    λ env.
                      bind-Keeps SameTables trans
                        (or_throw internal (substitute js egg.startup env)) _
                        (or_throw-Keeps SameTables same internal (substitute js egg.startup env))
                        λ startup p. same p)))
