-- ===== src/Admin/Nodes/Housing.antt =====
-- packages/backend/src/admin/admin-nodes.controller.ts: no request leaves a server without its node.
use nexus_panel.Common.{
  ltb, ◌≡◌, ◌∙◌, inl, inr, Bool, true, false, not, ◌&&◌, List, [], ◌∷◌, arith, Option-cases,
  Bool-cases, any, patch, select, All, All-map_of,
}
use nexus_panel.Common.Texts.{Text, eq_iff}
use nexus_panel.Database.Entities.{Server, Node, node_clash}
use nexus_panel.Database.Orm.{Orm}
use nexus_panel.Database.Rows.{has_key, any-replace, any-remove_other}
use nexus_panel.Database.Panel.{Panel}
use nexus_panel.Servers.Create.{on_node}
use nexus_panel.Nodes.Service
use nexus_panel.Nodes.Service.{CreateNodeDto, UpdateNodeDto, Fresh, node_id, new_node, assign}
use nexus_panel.Admin.Nodes.{servers_on, create, update, delete}

abbrev pub is_housed : List Node → Server → Bool
is_housed t s = any (has_key node_id s.node_id) t

-- The node of every server is stored.
abbrev pub Housed : Panel → Type 0
Housed p = All (λ s. is_housed p.nodes s ≡ true) p.servers

-- The requests that change nodes.
pub data Change : Type 0 where
  creation : (encode : Text → Text → Text) → CreateNodeDto → Fresh → Change
  renewal : (id : Text) → UpdateNodeDto → Change
  removal : (id : Text) → Change

-- Without servers on a node, no server misses it.
unused :
    (id : Text) (t : List Node) (ss : List Server)
    → ltb 0 (servers_on id ss) ≡ false
    → All (λ s. is_housed t s ≡ true) ss
    → All (λ s. is_housed (select (λ n. not (has_key node_id id n)) t) s ≡ true) ss
unused id t [] z h = tt
unused id t (s ∷ ss) z (h, hs) = elim (Bool-cases (on_node id s)) [
  | inl e ↦ absurd (ground arith)
  | inr e ↦ (
    any-remove_other node_id id s.node_id t
        (ground (arith, eq_iff id s.node_id, eq_iff s.node_id id)) h,
    unused id t ss (ground arith) hs,
  )
]

module _ (orm : Orm) where
  abbrev pub apply : Change → Panel → Panel
  apply (creation encode dto fresh) p = (create orm encode dto fresh p).1
  apply (renewal id dto) p = (update orm id dto p).1
  apply (removal id) p = (delete orm id p).1

  create-Housed :
      (encode : Text → Text → Text) (dto : CreateNodeDto) (fresh : Fresh) (p : Panel)
      → Housed p
      → Housed (create orm encode dto fresh p).1
  unfolding Service.create
  create-Housed encode dto fresh p h =
      let n = new_node dto fresh in
      elim (Bool-cases (any (node_clash n) p.nodes)) [
        | inl c ↦ rw (orm.insert_lem node_clash n p.nodes) (rw (c) h)
        | inr c ↦ rw (orm.insert_lem node_clash n p.nodes) (
            rw (c) (
              All-map_of (λ s. is_housed p.nodes s ≡ true) (λ s. is_housed (n ∷ p.nodes) s ≡ true)
                p.servers (λ s k. ground arith) h))
      ]

  update-Housed :
      (id : Text) (dto : UpdateNodeDto) (p : Panel) → Housed p → Housed (update orm id dto p).1
  unfolding Service.update Service.find_by_id
  update-Housed id dto p h = elim (Option-cases (orm.find_one (has_key node_id id) p.nodes)) [
    | inl e ↦ rw (e) h
    | inr (n, e) ↦
        let changed = assign n dto in
        let same : changed.id ≡ id =
          (eq_iff n.id id).0 (orm.find_one_some (has_key node_id id) p.nodes n e).0 in
        let clash = any (λ r. not (has_key node_id id r) && node_clash changed r) p.nodes in
        rw (e) (
          rw (orm.save_lem node_clash (has_key node_id id) changed p.nodes)
            (elim (Bool-cases clash) [
              | inl c ↦ rw (c) h
              | inr c ↦ rw (c) (
                  All-map_of (λ s. is_housed p.nodes s ≡ true)
                    (λ s. is_housed (patch (has_key node_id id) (λ _. changed) p.nodes) s ≡ true)
                    p.servers
                    (λ s k. rw (← same) (any-replace node_id changed s.node_id p.nodes ∙ k)) h)
            ]))
  ]

  delete-Housed : (id : Text) (p : Panel) → Housed p → Housed (delete orm id p).1
  unfolding delete Service.delete Service.find_by_id
  delete-Housed id p h =
      rw (orm.sum_lem (on_node id) (λ s. 1) p.servers)
        (elim (Bool-cases (ltb 0 (servers_on id p.servers))) [
          | inl c ↦ rw (c) h
          | inr c ↦ elim (Option-cases (orm.find_one (has_key node_id id) p.nodes)) [
            | inl e ↦ rw (c) (rw (e) h)
            | inr (n, e) ↦
                let same : n.id ≡ id =
                  (eq_iff n.id id).0 (orm.find_one_some (has_key node_id id) p.nodes n e).0 in
                rw (c) (
                  rw (e) (
                    rw (orm.remove_lem (has_key node_id n.id) p.nodes)
                      (rw (same) (unused id p.nodes p.servers c h))))
          ]
        ])

  -- When the node of every server is stored, it is so after every request of the administration on nodes, whether
  -- or not the request is refused.
  pub apply-Housed : (c : Change) (p : Panel) → Housed p → Housed (apply c p)
  apply-Housed (creation encode dto fresh) p h = create-Housed encode dto fresh p h
  apply-Housed (renewal id dto) p h = update-Housed id dto p h
  apply-Housed (removal id) p h = delete-Housed id p h
