-- ===== src/Servers/Create/Outcomes.antt =====
-- Every outcome of `create`, put together from its checks, its transaction and the call of the daemon.
use nexus_panel.Common.{
  ℕ, ◌≡◌, refl, sym, ap, ◌∙◌, ◌⊎◌, inl, inr, false, some, List, [], ◌∷◌, arith, Bool-cases, any,
  patch, any-false, any-All, All-map_of,
}
use nexus_panel.Common.Texts.{Text, ==_refl, eq_comm}
use nexus_panel.Common.Js.{Js}
use nexus_panel.Database.Entities.{Server, install_failed, Allocation, server_clash}
use nexus_panel.Database.Orm.{Orm}
use nexus_panel.Database.Rows.{has_key, Distinct}
use nexus_panel.Database.Panel.{
  Panel, Failure, Result, ok, err, after, bad_request, internal, pure, ◌>>=◌, ◌>>◌,
}
use nexus_panel.Wings.Protocol.{Network}
use nexus_panel.Servers.Service.{server_id, allocation_id, Loaded, find_by_id, load}
use nexus_panel.Servers.Service.Laws.{find_by_id_lem}
use nexus_panel.Servers.Create.{CreateServerDto, Fresh, store, start_on_wings, approve, create}
use nexus_panel.Servers.Create.Approve.{Approved, approve_ok}
use nexus_panel.Servers.Create.Frame.{SameTables, approve-Keeps}
use nexus_panel.Servers.Create.Effect.{assigned, stored, store_lem, Started, started}

module _ (f : Server → Server) where
  patch_absent :
      (k : Text) (t : List Server)
      → any (has_key server_id k) t ≡ false
      → patch (has_key server_id k) f t ≡ t
  patch_absent k [] h = refl
  patch_absent k (x ∷ xs) h = ground (arith, patch_absent k xs)

no_clash :
    (s : Server) (t : List Server)
    → any (server_clash s) t ≡ false
    → any (has_key server_id s.id) t ≡ false
no_clash s t h = any-All (has_key server_id s.id) t (
    All-map_of (λ r. server_clash s r ≡ false) (λ r. has_key server_id s.id r ≡ false) t
      (λ r e. ground (arith, eq_comm r.id s.id)) (any-false (server_clash s) t h))

load_server : (orm : Orm) (p : Panel) (s : Server) → (load orm p s).server ≡ s
unfolding load
load_server orm p s = refl

-- Marking a fresh row by its id changes that row alone.
marked :
    (x s : Server) (t u v : List Server)
    → x ≡ s
    → v ≡ s ∷ t
    → any (server_clash s) t ≡ false
    → u ≡ patch (has_key server_id x.id) (λ r. record r { status = some install_failed }) v
    → u ≡ record s { status = some install_failed } ∷ t
marked x s t u v hx hv c h =
    h
    ∙ rw hx (
        rw hv (
          rw (==_refl s.id) (
            rw
              (patch_absent (λ r. record r { status = some install_failed }) s.id t
                (no_clash s t c))
              refl)))

module _ (js : Js) (orm : Orm) (net : Network) (now : ℕ) (fresh : Fresh)
    (dto : CreateServerDto) where
  -- The request is refused, and no server and no allocation has changed.
  abbrev pub Refused : Panel → Result Loaded × Panel → Type 0
  Refused p r = (e : Failure) × (r.0 ≡ err e) × SameTables p r.1

  -- The server that was approved is stored, and its allocation is handed to it.
  pub record Created (p : Panel) (r : Result Loaded × Panel) : Type 0 where
    pub server : Server
    pub approved : Approved js orm net now fresh dto p server
    pub unique : any (server_clash server) p.servers ≡ false
    pub allocations :
        r.1.allocations
        ≡ patch (has_key allocation_id dto.allocation_id) (assigned fresh.id) p.allocations
    pub nodes : r.1.nodes ≡ p.nodes
    pub answer :
        ((full : Loaded) × (r.0 ≡ ok full)
          × (full.server ≡ server)
          × (r.1.servers ≡ server ∷ p.servers))
        ⊎ (r.0 ≡ err (bad_request "Failed to create server on Wings"))
          × (r.1.servers ≡ (record server { status = some install_failed }) ∷ p.servers)

  named :
      {p : Panel} (s : Server) (a : Approved js orm net now fresh dto p s) (t : List Allocation)
      → patch (has_key allocation_id s.allocation_id) (assigned s.id) t
        ≡ patch (has_key allocation_id dto.allocation_id) (assigned fresh.id) t
  named s a t = rw (a.built) refl

  conclude :
      (p : Panel) (s : Server) (full : Loaded) (q : Panel) (r : Result (Unit {0}) × Panel)
      → Approved js orm net now fresh dto p s
      → any (server_clash s) p.servers ≡ false
      → full.server ≡ s
      → q.servers ≡ s ∷ p.servers
      → q.allocations ≡ patch (has_key allocation_id s.allocation_id) (assigned s.id) p.allocations
      → q.nodes ≡ p.nodes
      → Started orm full q r
      → Created p (after r (λ _. pure full))
  conclude p s full q (ok tt, z) a u hf hs ha hn (inl (h0, h1, h2, h3)) = record {
    server = s;
    approved = a;
    unique = u;
    allocations = h2 ∙ ha ∙ named s a p.allocations;
    nodes = h3 ∙ hn;
    answer = inl (full, refl, hf, h1 ∙ hs);
  }
  conclude p s full q (err e, z) a u hf hs ha hn (inl (h0, h1, h2, h3)) = cc
  conclude p s full q (ok t, z) a u hf hs ha hn (inr (h0, h1, h2, h3)) = cc
  conclude p s full q (err e, z) a u hf hs ha hn (inr (h0, h1, h2, h3)) = record {
    server = s;
    approved = a;
    unique = u;
    allocations = h2 ∙ ha ∙ named s a p.allocations;
    nodes = h3 ∙ hn;
    answer = inr (cc, marked full.server s p.servers z.servers q.servers hf hs u h1);
  }

  from_approval :
      (p : Panel)
      → Distinct server_id p.servers
      → (r : Result Server × Panel) → approve js orm net now fresh dto p ≡ r
      → SameTables p r.1
      → let rest : Result Loaded × Panel = after r (λ s. do
        store orm s
        full ← find_by_id orm s.id
        start_on_wings orm net full
        pure full) in
        Refused p rest ⊎ Created p rest
  from_approval p d (err e, q) h k = inl (e, refl, k)
  from_approval p d (ok s, q) h k = elim (Bool-cases (any (server_clash s) q.servers)) [
    | inl c ↦ rw (store_lem orm s q) (rw c (inl (internal, refl, k)))
    | inr c ↦
        let full = load orm (stored s q) s in
        let distinct : Distinct server_id (s ∷ q.servers) =
          (no_clash s q.servers c, rw (k.servers) d) in
        let found : find_by_id orm s.id (stored s q) ≡ (ok full, stored s q) =
          find_by_id_lem orm s.id (stored s q) s distinct (ground (arith, ==_refl s.id)) in
        rw (store_lem orm s q) (
          rw c (
            rw found (
              inr (
                conclude p s full (stored s q) (start_on_wings orm net full (stored s q))
                  (approve_ok js orm net now fresh dto p h).0
                  (ap (any (server_clash s)) (sym k.servers) ∙ c) (load_server orm (stored s q) s)
                  (ap (λ t. s ∷ t) k.servers)
                  (ap (patch (has_key allocation_id s.allocation_id) (assigned s.id)) k.allocations)
                  k.nodes (started orm net full (stored s q))))))
  ]

  -- With distinct ids of servers, a request to create a server ends in one of two ways, whatever the
  -- daemon answers. Either it is refused, and the servers, allocations and nodes are the same; or the
  -- server passed every check, its row clashes with none and is stored, and its allocation is handed
  -- to it: the answer is that server, or, when the daemon failed, the error, and the row is marked
  -- as a failed installation.
  pub create_outcomes :
      (p : Panel)
      → Distinct server_id p.servers
      → Refused p (create js orm net now fresh dto p)
        ⊎ Created p (create js orm net now fresh dto p)
  unfolding create
  create_outcomes p d =
      from_approval p d (approve js orm net now fresh dto p) refl
        (approve-Keeps orm js net now fresh dto p)
