-- ===== src/Servers/Create/Capacity.antt =====
-- Memory and disk of the nodes under `create`: no node is given more than its capacity.
use nexus_panel.Common.{
  ℕ, ◌+◌, ◌≤◌, ◌≡◌, sym, ap, ◌∙◌, inl, inr, true, false, Option, some, List, ◌∷◌, arith,
  if◌then◌else◌, Bool-cases, sum_by, All, All-intro, All-Has, Has,
}
use nexus_panel.Common.Integers.{ℤ}
use nexus_panel.Common.Texts.{Text, ◌==◌, eq_iff}
use nexus_panel.Common.Js.{Js}
use nexus_panel.Database.Entities.{Server, ServerStatus, Node, install_failed}
use nexus_panel.Database.Orm.{Orm}
use nexus_panel.Database.Rows.{Distinct, row-Has, find_one-row}
use nexus_panel.Database.Panel.{Panel}
use nexus_panel.Wings.Protocol.{Network}
use nexus_panel.Servers.Service.{server_id, node_id}
use nexus_panel.Servers.Create.{CreateServerDto, Fresh, on_node, capacity, exceeds, create}
use nexus_panel.Servers.Create.Approve.{Approved}
use nexus_panel.Servers.Create.Outcomes.{create_outcomes}

-- `Number.MAX_SAFE_INTEGER`, up to which sums of integers are exact.
abbrev pub max_safe_integer : ℕ
max_safe_integer = 9_007_199_254_740_991

-- What the servers of a node have been given.
abbrev pub used : (Server → ℕ) → Text → List Server → ℕ
used w id t = sum_by (λ s. if on_node id s then w s else 0) t

used_on :
    (w : Server → ℕ) (id : Text) (s : Server) (t : List Server)
    → on_node id s ≡ true
    → used w id (s ∷ t) ≡ w s + used w id t
used_on w id s t h = ground arith

used_off :
    (w : Server → ℕ) (id : Text) (s : Server) (t : List Server)
    → on_node id s ≡ false
    → used w id (s ∷ t) ≡ used w id t
used_off w id s t h = ground arith

module _ (js : Js) where
  open js use {of_ℕ, less, plus}

  abbrev pub Within : ℕ → ℕ → ℤ → Type 0
  Within total size overallocate = less (capacity js size overallocate) (of_ℕ total) ≡ false

  -- The servers on the node fit its memory and its disk, with the overallocation that it allows.
  abbrev pub NodeFits : List Server → Node → Type 0
  NodeFits t n =
      Within (used (λ s. s.memory) n.id t) n.memory n.memory_overallocate
      × Within (used (λ s. s.disk) n.id t) n.disk n.disk_overallocate

  -- No node is overcommitted.
  abbrev pub Fits : Panel → Type 0
  Fits p = All (NodeFits p.servers) p.nodes

  module _ (orm : Orm) (net : Network) (now : ℕ) (fresh : Fresh) (dto : CreateServerDto) (p : Panel)
      (exact : (a b : ℕ) → a + b ≤ max_safe_integer → plus (of_ℕ a) (of_ℕ b) ≡ of_ℕ (a + b))
      (nodes-Distinct : Distinct node_id p.nodes)
      (memory-safe : used (λ s. s.memory) dto.node_id p.servers + dto.memory ≤ max_safe_integer)
      (disk-safe : used (λ s. s.disk) dto.node_id p.servers + dto.disk ≤ max_safe_integer) where
    sum-Within :
        (w : Server → ℕ) (asked size : ℕ) (overallocate : ℤ)
        → used w dto.node_id p.servers + asked ≤ max_safe_integer
        → exceeds js (orm.sum (on_node dto.node_id) w p.servers) asked size overallocate ≡ false
        → Within (asked + used w dto.node_id p.servers) size overallocate
    sum-Within w asked size overallocate safe h =
        let at : less (capacity js size overallocate) (of_ℕ (used w dto.node_id p.servers + asked))
            ≡ false =
          ap (less (capacity js size overallocate)) (sym (exact _ asked safe))
          ∙ rw (← orm.sum_lem (on_node dto.node_id) w p.servers) h in
        ap (λ t. less (capacity js size overallocate) (of_ℕ t)) (omega arith) ∙ at

    -- The row of a new server, whatever its status, adds its memory and disk to its node.
    Fits-after :
        {s : Server} (a : Approved js orm net now fresh dto p s) (status : Option ServerStatus)
        → Fits p
        → (n : Node) → Has n p.nodes
        → NodeFits (record s { status = status } ∷ p.servers) n
    Fits-after {s} a status f n m =
        let new : Server = record s { status = status } in
        let on : new.node_id ≡ dto.node_id = ap (λ (x : Server). x.node_id) a.built in
        elim (Bool-cases (dto.node_id == n.id)) [
          | inl h ↦
              let id : dto.node_id ≡ n.id = (eq_iff dto.node_id n.id).0 h in
              let same : n ≡ a.node = ground (
                arith,
                row-Has node_id dto.node_id p.nodes n nodes-Distinct m (sym id),
                find_one-row node_id orm dto.node_id p.nodes nodes-Distinct,
                a.node_found,
              ) in
              let hit : new.node_id == n.id ≡ true = ground (arith, on, h) in
              rw
                (
                  used_on (λ x. x.memory) n.id new p.servers hit,
                  used_on (λ x. x.disk) n.id new p.servers hit,
                )
                (rw (← id) (
                  rw same (
                    rw (ap (λ (x : Server). x.memory) a.built, ap (λ (x : Server). x.disk) a.built)
                      (
                        sum-Within (λ x. x.memory) dto.memory a.node.memory
                            a.node.memory_overallocate memory-safe a.memory_fits,
                        sum-Within (λ x. x.disk) dto.disk a.node.disk a.node.disk_overallocate
                            disk-safe a.disk_fits,
                      ))))
          | inr h ↦
              let miss : new.node_id == n.id ≡ false = ground (arith, on, h) in
              rw (used_off (λ x. x.memory) n.id new p.servers miss) (
                rw (used_off (λ x. x.disk) n.id new p.servers miss)
                  (All-Has (NodeFits p.servers) p.nodes f m))
        ]

    -- If the memory and the disk of the servers on each node are within the node's capacity,
    -- with the overallocation that it allows, they are so after any request to create a server,
    -- refused or not. The ids of servers and of nodes are distinct, the sums on the node that is
    -- asked for stay within the safe integers, and JavaScript adds safe integers exactly.
    pub create-Fits :
        Distinct server_id p.servers → Fits p → Fits (create js orm net now fresh dto p).1
    create-Fits d f = elim (create_outcomes js orm net now fresh dto p d) [
      | inl (e, h, k) ↦ rw k.servers (rw k.nodes f)
      | inr c ↦ rw (c.nodes) (
          All-intro (NodeFits (create js orm net now fresh dto p).1.servers) p.nodes (λ n m.
            elim c.answer [
              | inl (full, h, i, r) ↦ rw r (Fits-after c.approved c.server.status f n m)
              | inr (h, r) ↦ rw r (Fits-after c.approved (some install_failed) f n m)
            ]))
    ]
