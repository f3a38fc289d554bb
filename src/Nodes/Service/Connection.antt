-- ===== src/Nodes/Service/Connection.antt =====
-- The stored connection status of a node against the heartbeats in memory.
use mathlib.Core.Option
use nexus_panel.Common.{
  ℕ, ◌≤◌, ◌≡◌, ◌↔◌, refl, ap, ◌∙◌, inl, inr, true, some, List, arith, if◌then◌else◌, Option-cases,
  patch,
}
use nexus_panel.Common.Texts.{Text, ◌==◌, eq_iff}
use nexus_panel.Common.Dicts.{lookup-insert}
use nexus_panel.Database.Entities.{Node, connected, disconnected}
use nexus_panel.Database.Orm.{Orm}
use nexus_panel.Database.Rows.{has_key, row, Distinct, find_one-row, row-patch, row-key}
use nexus_panel.Database.Panel.{Panel, ok}
use nexus_panel.Nodes.HeartbeatStore
use nexus_panel.Nodes.HeartbeatStore.{HeartbeatData, is_online, offline_threshold_ms}
use nexus_panel.Nodes.Service.{node_id, Health, find_by_id, process_heartbeat, get_health}

-- A node that is online has the status connected in its row.
abbrev pub Synced : ℕ → Panel → Type 0
Synced now p =
    (k : Text) (n : Node)
    → is_online now k p.heartbeats ≡ true
    → row node_id k p.nodes ≡ some n
    → n.connection_status ≡ connected

is_online-earlier :
    (now later : ℕ) (k : Text) (p : Panel)
    → now ≤ later
    → is_online later k p.heartbeats ≡ true
    → is_online now k p.heartbeats ≡ true
unfolding is_online
is_online-earlier now later k p h e = ground arith

-- Time alone does not break it.
pub Synced-later : (now later : ℕ) (p : Panel) → now ≤ later → Synced now p → Synced later p
Synced-later now later p h s k n online found =
    s k n (is_online-earlier now later k p h online) found

module _ (orm : Orm) where
  find_by_id_lem :
      (id : Text) (p : Panel) (n : Node)
      → Distinct node_id p.nodes
      → row node_id id p.nodes ≡ some n
      → find_by_id orm id p ≡ (ok n, p)
  unfolding find_by_id
  find_by_id_lem id p n d e = rw (find_one-row node_id orm id p.nodes d ∙ e)

  -- What `nodeRepo.update` by id leaves under a key.
  pub row-update :
      (j k : Text) (f : Node → Node) (keeps : (n : Node) → (f n).id ≡ n.id) (t : List Node)
      → row node_id k (orm.update (has_key node_id j) f t)
        ≡ (if j == k then Option.map f (row node_id k t) else row node_id k t)
  row-update j k f keeps t = orm_eq ∙ row-patch node_id f keeps j k t
    where
      orm_eq :
          row node_id k (orm.update (has_key node_id j) f t)
          ≡ row node_id k (patch (has_key node_id j) f t)
      orm_eq = ap (row node_id k) (orm.update_lem (has_key node_id j) f t)

  -- If every stored node that is online has the status connected in its row, this holds after a
  -- heartbeat of a stored node too.
  pub process_heartbeat-Synced :
      (now : ℕ) (node : Node) (report : HeartbeatData) (p : Panel)
      → row node_id node.id p.nodes ≡ some node
      → Synced now p
      → Synced now (process_heartbeat orm now node report p).1
  unfolding process_heartbeat is_online
  process_heartbeat-Synced now node report p stored s k n online found = ground (
    arith,
    lookup-insert node.id k (record report { received_at = now }) p.heartbeats,
    eq_iff node.id k,
    s k n,
    s node.id node,
    row-update node.id k
        (λ (n : Node). record n {
          connection_status = connected;
          wings_version = some report.version;
        })
        (λ n. refl) p.nodes,
  )

  -- If every stored node that is online has the status connected in its row, this holds after a
  -- health check of any id too. The ids of nodes are distinct.
  pub get_health-Synced :
      (now : ℕ) (id : Text) (p : Panel)
      → Distinct node_id p.nodes
      → Synced now p
      → Synced now (get_health orm now id p).1
  unfolding get_health is_online
  get_health-Synced now id p d s k n online found = elim (Option-cases (row node_id id p.nodes)) [
    | inl e ↦ ground (arith, find_one-row node_id orm id p.nodes d, s k n)
    | inr (m, e) ↦ ground (
      arith,
      find_one-row node_id orm id p.nodes d,
      s k n,
      eq_iff m.id k,
      row-key node_id id p.nodes m e,
      row-update m.id k (λ (r : Node). record r { connection_status = disconnected }) (λ r. refl)
          p.nodes,
    )
  ]

  -- If every stored node that is online has the status connected, the health report of a node
  -- with a row says whether it is online and gives its last heartbeat, and after the check the
  -- status in its row is connected exactly when the report says online. The ids of nodes are
  -- distinct.
  pub get_health_agrees :
      (now : ℕ) (id : Text) (p q : Panel) (h : Health) (n : Node)
      → Distinct node_id p.nodes
      → Synced now p
      → get_health orm now id p ≡ (ok h, q)
      → row node_id id q.nodes ≡ some n
      → (h.online ≡ is_online now id p.heartbeats)
        × (h.last_heartbeat ≡ HeartbeatStore.get id p.heartbeats)
        × ((n.connection_status ≡ connected) ↔ (h.online ≡ true))
  unfolding get_health is_online
  get_health_agrees now id p q h n d s e found = elim (Option-cases (row node_id id p.nodes)) [
    | inl absent ↦ absurd (ground (arith, find_one-row node_id orm id p.nodes d))
    | inr (m, stored) ↦
        let at_id = row-key node_id id p.nodes m stored in
        let mark =
          row-update m.id id (λ (r : Node). record r { connection_status = disconnected })
            (λ r. refl) p.nodes in
        (
          ground (arith, find_one-row node_id orm id p.nodes d, at_id),
          ground (arith, find_one-row node_id orm id p.nodes d, at_id),
          (
            λ up.
                ground (
                  arith,
                  find_one-row node_id orm id p.nodes d,
                  at_id,
                  mark,
                  eq_iff m.id id,
                  s id m,
                ),
            λ up.
                ground (
                  arith,
                  find_one-row node_id orm id p.nodes d,
                  at_id,
                  mark,
                  eq_iff m.id id,
                  s id m,
                ),
          ),
        )
  ]
