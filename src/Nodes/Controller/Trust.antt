-- ===== src/Nodes/Controller/Trust.antt =====
-- packages/backend/src/nodes/nodes.controller.ts: who is let through to what.
use nexus_panel.Common.{
  ℕ, ◌≡◌, refl, sym, ◌∙◌, ap, ◌⊎◌, inl, inr, true, false, Option, some, ◌∷◌, ◌++◌, arith, Has,
  Option-cases, Bool-cases,
}
use nexus_panel.Common.Texts.{Text, codes, cut_at, ◌==◌, eq_iff}
use nexus_panel.Common.Dicts.{lookup-insert}
use nexus_panel.Database.Entities.{Node, User, connected}
use nexus_panel.Database.Orm.{Orm}
use nexus_panel.Database.Pages.{Pages}
use nexus_panel.Database.Rows.{has_key, row}
use nexus_panel.Database.Requests.{same_panel}
use nexus_panel.Database.Panel.{Panel, Failure, ok, err, unauthorized}
use nexus_panel.Auth.Crypto.{Crypto}
use nexus_panel.Auth.Guards.{
  HttpRequest, Identity, bearer_token, node_token_id, daemon_token_guard, roles_guard,
}
use nexus_panel.Auth.Guards.Laws.{
  daemon_token_guard_ok, IsRequester, jwt_auth_guard-IsRequester, jwt_auth_guard-cases,
}
use nexus_panel.Nodes.HeartbeatStore
use nexus_panel.Nodes.HeartbeatStore.{HeartbeatData}
use nexus_panel.Nodes.Service
use nexus_panel.Nodes.Service.{node_id}
use nexus_panel.Nodes.Service.Connection.{row-update}
use nexus_panel.Nodes.Controller.{
  no_content, DaemonRequest, heartbeat, get_configuration, NodeRequest, handle_daemon, route_daemon,
  route,
}

-- What is known of the node with an id: its row, and its heartbeat.
abbrev pub SameNode : Text → Panel → Panel → Type 0
SameNode id p q =
    (row node_id id q.nodes ≡ row node_id id p.nodes)
    × (HeartbeatStore.get id q.heartbeats ≡ HeartbeatStore.get id p.heartbeats)

module _ (orm : Orm) where
  daemon_token_guard-cases :
      (http : HttpRequest) (p : Panel)
      → ((x : Failure) × (daemon_token_guard orm http p ≡ (err x, p)))
        ⊎ ((n : Node) × (daemon_token_guard orm http p ≡ (ok n, p)))
  unfolding daemon_token_guard
  daemon_token_guard-cases http p = elim (Option-cases (bearer_token http.authorization)) [
    | inl e ↦ inl (unauthorized "Missing daemon token", rw (e) refl)
    | inr (t, e) ↦ elim (Option-cases (cut_at 46 t)) [
      | inl f ↦
          inl (unauthorized "Invalid daemon token format", rw (e, daemon_token_guard) (rw (f) refl))
      | inr (parts, f) ↦
          elim (Option-cases (orm.find_one (has_key node_token_id parts.0) p.nodes)) [
            | inl g ↦ inl (
              unauthorized "Invalid daemon token",
              rw (e, daemon_token_guard) (rw (f, daemon_token_guard) (rw (g) refl)),
            )
            | inr (n, g) ↦ elim (Bool-cases (parts.1 == n.daemon_token)) [
              | inl h ↦ inr (
                n,
                rw (e, daemon_token_guard)
                    (rw (f, daemon_token_guard) (rw (g, daemon_token_guard) (rw (h) refl))),
              )
              | inr h ↦ inl (
                unauthorized "Invalid daemon token",
                rw (e, daemon_token_guard)
                    (rw (f, daemon_token_guard) (rw (g, daemon_token_guard) (rw (h) refl))),
              )
            ]
          ]
    ]
  ]

  process_heartbeat-SameNode :
      (now : ℕ) (n : Node) (report : HeartbeatData) (k : Text) (p : Panel)
      → (n.id == k) ≡ false
      → SameNode k p (Service.process_heartbeat orm now n report p).1
  unfolding Service.process_heartbeat
  process_heartbeat-SameNode now n report k p other = (
    ground (
      arith,
      row-update orm n.id k
          (λ (m : Node). record m {
            connection_status = connected;
            wings_version = some report.version;
          })
          (λ m. refl) p.nodes,
    ),
    ground (arith, lookup-insert n.id k (record report { received_at = now }) p.heartbeats),
  )

  module _ (app_url : Option Text) (now : ℕ) where
    handle_daemon-SameNode :
        (n : Node) (request : DaemonRequest) (k : Text) (p : Panel)
        → (n.id == k) ≡ false
        → SameNode k p (handle_daemon orm app_url now n request p).1
    unfolding handle_daemon
    handle_daemon-SameNode n (heartbeat dto) k p other =
        rw (same_panel (Service.process_heartbeat orm now n dto p) (λ _. no_content))
          (process_heartbeat-SameNode now n dto k p other)
    handle_daemon-SameNode n get_configuration k p other = (refl, refl)

    route_daemon-SameNode :
        (http : HttpRequest) (request : DaemonRequest) (k : Text) (p : Panel)
        → SameNode k p (route_daemon orm app_url now http request p).1
          ⊎ ((n : Node) × Has n p.nodes
              × (n.id ≡ k)
              × (http.authorization
                  ≡ some (codes "Bearer " ++ (n.daemon_token_id ++ 46 ∷ n.daemon_token))))
    unfolding route_daemon
    route_daemon-SameNode http request k p = elim (daemon_token_guard-cases http p) [
      | inl (x, h) ↦ inl (rw (h) (refl, refl))
      | inr (n, h) ↦ elim (Bool-cases (n.id == k)) [
        | inr o ↦ inl (rw (h) (handle_daemon-SameNode n request k p o))
        | inl s ↦
            let (stored, token, _) = daemon_token_guard_ok orm http p p n h in
            inr (n, stored, (eq_iff n.id k).0 s, token)
      ]
    ]

  -- What an endpoint for daemons changes of a node is changed by a request that carries the token of a stored node
  -- with that id. A request to an endpoint for administrators leaves the whole panel as it was, unless it
  -- bears a valid token of a stored, enabled user who is an administrator.
  pub routes_lem :
      (pages : Pages) (crypto : Crypto) (encode : Text → Text → Text)
      (from_auth_header : Option Text → Option Text) (app_url : Option Text) (now : ℕ)
      (http : HttpRequest) (report : DaemonRequest) (request : NodeRequest) (k : Text) (p : Panel)
      → (SameNode k p (route_daemon orm app_url now http report p).1
          ⊎ ((n : Node) × Has n p.nodes
              × (n.id ≡ k)
              × (http.authorization
                  ≡ some (codes "Bearer " ++ (n.daemon_token_id ++ 46 ∷ n.daemon_token)))))
        × (((route orm pages crypto encode now from_auth_header http request p).1 ≡ p)
            ⊎ ((u : User) × IsRequester orm crypto from_auth_header http p u
                × (u.root_admin ≡ true)))
  unfolding route roles_guard
  routes_lem pages crypto encode from_auth_header app_url now http report request k p = (
    route_daemon-SameNode app_url now http report k p,
    elim (jwt_auth_guard-cases orm crypto from_auth_header http p) [
      | inl (x, h) ↦ inl (rw (h) refl)
      | inr (i, h) ↦ elim (Bool-cases i.root_admin) [
        | inr g ↦ inl (rw (h, route) (rw (g) refl))
        | inl g ↦
            let (u, requester, same) =
              jwt_auth_guard-IsRequester orm crypto from_auth_header http p p i h in
            inr (u, requester, ap (λ (j : Identity). j.root_admin) (sym same) ∙ g)
      ]
    ],
  )
