-- ===== src/Servers/Create/Effect.antt =====
-- The outcomes of `create`: what is stored, and what is answered, on every path.
use nexus_panel.Common.{
  ◌≡◌, refl, ap, ◌∙◌, ◌⊎◌, inl, inr, some, [], ◌∷◌, if◌then◌else◌, Option-cases, Bool-cases, any,
  patch,
}
use mathlib.Core.Option.{get_or}
use nexus_panel.Common.Texts.{Text}
use nexus_panel.Database.Entities.{Server, install_failed, Allocation, server_clash}
use nexus_panel.Database.Orm.{Orm}
use nexus_panel.Database.Rows.{has_key}
use nexus_panel.Database.Panel.{Panel, Result, ok, err, rescue, bad_request, internal, ◌>>◌, throw}
use nexus_panel.Wings.Protocol.{Request, Network}
use nexus_panel.Wings.Client
use nexus_panel.Wings.Client.{send, settle}
use nexus_panel.Wings.Client.Laws.{called, same_text, send_lem}
use nexus_panel.Servers.Service.{server_id, allocation_id, Loaded, config_of, update_row}
use nexus_panel.Servers.Create.{store, start_on_wings}

abbrev pub assigned : Text → Allocation → Allocation
assigned id a = record a { server_id = some id }

-- The panel after both writes of the transaction.
abbrev pub stored : Server → Panel → Panel
stored s p = record p {
  servers = s ∷ p.servers;
  allocations = patch (has_key allocation_id s.allocation_id) (assigned s.id) p.allocations;
}

module _ (orm : Orm) where
  -- The transaction writes both rows or none.
  pub store_lem :
      (s : Server) (p : Panel)
      → store orm s p
        ≡ (if any (server_clash s) p.servers then (err internal, p) else (ok tt, stored s p))
  unfolding store
  store_lem s p = elim (Bool-cases (any (server_clash s) p.servers)) [
    | inl e ↦ rw (orm.insert_lem server_clash s p.servers, store) (rw e)
    | inr e ↦
        rw (orm.insert_lem server_clash s p.servers, store)
          (rw e (
            rw (
              orm.update_lem (has_key allocation_id s.allocation_id) (assigned s.id)
                p.allocations)))
  ]

  -- What `start_on_wings` can end in: the daemon took the server, or its row is marked.
  abbrev pub Started : Loaded → Panel → Result (Unit {0}) × Panel → Type 0
  Started full p r =
      (r.0 ≡ ok tt)
        × (r.1.servers ≡ p.servers)
        × (r.1.allocations ≡ p.allocations)
        × (r.1.nodes ≡ p.nodes)
      ⊎ (r.0 ≡ err (bad_request "Failed to create server on Wings"))
        × (r.1.servers
            ≡ patch (has_key server_id full.server.id)
                (λ s. record s { status = some install_failed }) p.servers)
        × (r.1.allocations ≡ p.allocations)
        × (r.1.nodes ≡ p.nodes)

  answered_or_marked :
      (full : Loaded) (p : Panel) (r : Result Text) (q : Panel)
      → q.servers ≡ p.servers
      → q.allocations ≡ p.allocations
      → q.nodes ≡ p.nodes
      → Started full p (
          rescue
            (same_text r, q)
            (λ _. do
              update_row orm full.server.id (λ s. record s { status = some install_failed })
              throw (bad_request "Failed to create server on Wings")))
  unfolding update_row
  answered_or_marked full p (ok t) q hs ha hn = inl (refl, hs, ha, hn)
  answered_or_marked full p (err e) q hs ha hn = inr (
    refl,
    orm.update_lem (has_key server_id full.server.id) _ q.servers
        ∙ ap
            (patch (has_key server_id full.server.id)
              (λ s. record s { status = some install_failed }))
            hs,
    ha,
    hn,
  )

  pub started :
      (net : Network) (full : Loaded) (p : Panel) → Started full p (start_on_wings orm net full p)
  unfolding start_on_wings update_row Client.create_server called
  started net full p = elim (Option-cases full.allocation) [
    | inl e ↦ rw e (answered_or_marked full p (err internal) p refl refl refl)
    | inr (a, e) ↦ elim (Option-cases full.node) [
      | inl f ↦ rw e (rw f (answered_or_marked full p (err internal) p refl refl refl))
      | inr (n, f) ↦ elim (Option-cases full.egg) [
        | inl g ↦ rw e (rw f (rw g (answered_or_marked full p (err internal) p refl refl refl)))
        | inr (x, g) ↦
            let message =
              Request.create_server (config_of full.server a.port) (get_or x.script_install [])
                x.script_container in
            rw e (
              rw f (
                rw g (
                  rw (send_lem net n message p)
                    (answered_or_marked full p _ (called n message p) refl refl refl))))
      ]
    ]
  ]
