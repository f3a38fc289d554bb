-- ===== src/Tests/Admin.antt =====
-- packages/backend/src/admin/admin-nodes.controller.ts and packages/backend/src/nodes/nodes.controller.ts at work.
use nexus_panel.Common.{
  ℕ, ◌⊎◌, ◌++◌, some, ◌≡◌, refl, sym, ◌∙◌, ap, inl, inr, ltb, true, none, List, [], ◌∷◌,
  if◌then◌else◌, map, Has, All, Bool-cases,
}
use nexus_panel.Common.Texts.{Text, codes, ◌==◌}
use nexus_panel.Database.Entities.{Server, Node, User}
use nexus_panel.Database.Orm.{list_store}
use nexus_panel.Database.Panel.{ok}
use nexus_panel.Database.Pages.{Paged, paginate}
use nexus_panel.Nodes.Service
use nexus_panel.Admin.Nodes.{servers_on, GroupedCounts, ListedNode, find_all}
use nexus_panel.Admin.Nodes.Counts.{IsCounted, find_all_lem}
use nexus_panel.Admin.Nodes.Housing.{Housed, removal, apply, apply-Housed}
use nexus_panel.Auth.Guards.Laws.{IsRequester}
use nexus_panel.Nodes.Controller.{NodeRequest, DaemonRequest, route_daemon, route}
use nexus_panel.Nodes.Controller.Trust.{SameNode, routes_lem}
use nexus_panel.Tests.Data.{node, panel, heartbeat}
use nexus_panel.Tests.Guards.{of_daemon, no_header}
use nexus_panel.Tests.Tokens.{crypto}
use nexus_panel.Tests.Pages.{list_pages}

abbrev counts : List Text → List Server → List (Text × ℕ)
counts [] t = []
counts (id ∷ ids) t =
    let rest = counts ids t in
    if ltb 0 (servers_on id t) then (id, servers_on id t) ∷ rest else rest

counts_sound :
    (ids : List Text) (t : List Server) (id : Text) (n : ℕ)
    → Has (id, n) (counts ids t)
    → n ≡ servers_on id t
counts_sound [] t id n h = absurd h
counts_sound (k ∷ ids) t id n h = elim (Bool-cases (ltb 0 (servers_on k t))) [
  | inl e ↦ elim (rw (e) at h) [
    | inl q ↦ ap (λ z. z.1) q ∙ ap (λ z. servers_on z.0 t) (sym q)
    | inr m ↦ counts_sound ids t id n m
  ]
  | inr e ↦ counts_sound ids t id n (rw (e) at h)
]

counts_complete :
    (ids : List Text) (t : List Server) (id : Text)
    → Has id ids
    → ltb 0 (servers_on id t) ≡ true
    → Has (id, servers_on id t) (counts ids t)
counts_complete [] t id h q = absurd h
counts_complete (k ∷ ids) t id (inl e) q =
    let r : ltb 0 (servers_on k t) ≡ true = rw (← e) q in
    rw (r) (inl (ap (λ z. (z, servers_on z t)) e))
counts_complete (k ∷ ids) t id (inr h) q = elim (Bool-cases (ltb 0 (servers_on k t))) [
  | inl e ↦ rw (e) (inr (counts_complete ids t id h q))
  | inr e ↦ rw (e) (counts_complete ids t id h q)
]

-- A grouped query that meets the laws.
abbrev grouped : GroupedCounts
grouped = record {
  counts = counts;
  counts_sound = λ ids t id n h. counts_sound ids t id n h;
  counts_complete = λ ids t id h q. counts_complete ids t id h q;
}

find_all_lem_example :
    (listing : Paged ListedNode) × (find_all list_store list_pages grouped 100 none none none panel
      ≡ (ok listing, panel))
    × (map (λ l. l.node) listing.rows ≡ node ∷ [])
    × (listing.meta ≡ record { total = 1; page = 1; per_page = 25; total_pages = 1 })
    × All (IsCounted panel) listing.rows
unfolding Service.find_all paginate
find_all_lem_example =
    find_all_lem list_store list_pages grouped 100 none none none panel
      (record {
        rows = node ∷ [];
        meta = record { total = 1; page = 1; per_page = 25; total_pages = 1 };
      })
      refl

apply-Housed_example : Housed (apply list_store (removal (codes "n1")) panel)
unfolding ◌==◌
apply-Housed_example = apply-Housed list_store (removal (codes "n1")) panel (refl, tt)

abbrev concat : Text → Text → Text
concat a b = a ++ b

routes_lem_example :
    (SameNode
        (codes "n1")
        panel
        (route_daemon list_store none 6_000_000 of_daemon
          (DaemonRequest.heartbeat heartbeat)
          panel).1
      ⊎ ((n : Node) × Has n panel.nodes
          × (n.id ≡ codes "n1")
          × (some (codes "Bearer ti.tok")
              ≡ some (codes "Bearer " ++ (n.daemon_token_id ++ 46 ∷ n.daemon_token)))))
    × (((route list_store list_pages crypto concat 6_000_000 no_header of_daemon
            (NodeRequest.delete (codes "n1"))
            panel).1
          ≡ panel)
        ⊎ ((u : User) × IsRequester list_store crypto no_header of_daemon panel u
            × (u.root_admin ≡ true)))
routes_lem_example =
    routes_lem list_store list_pages crypto concat no_header none 6_000_000 of_daemon
      (DaemonRequest.heartbeat heartbeat) (NodeRequest.delete (codes "n1")) (codes "n1") panel
