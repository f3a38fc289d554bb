-- ===== src/Allocations/Ports.antt =====
-- packages/backend/src/allocations/allocations.service.ts: what a range of ports becomes.
use nexus_panel.Common.{
  ℕ, zero, suc, ◌+◌, ◌-◌, ◌≤◌, ltb, nat_eq, ◌≡◌, refl, sym, ap, ◌⊎◌, inl, inr, Bool, true, false,
  ◌&&◌, some, List, [], ◌∷◌, arith, Option-cases, Bool-cases, any, any-Has, Has, All, All-intro,
  length,
}
use nexus_panel.Common.Texts.{Text, ◌==◌, ==_refl}
use nexus_panel.Database.Entities.{Allocation, allocation_clash}
use nexus_panel.Database.Orm.{Orm}
use nexus_panel.Database.Panel.{Panel, ok, ok_inj}
use nexus_panel.Allocations.Service.{
  ports_from, has_port, is_existing, ports_of, new_allocation, build, insert_all, create,
}

-- An allocation stands for the port of the node under the address.
abbrev pub covers : (node_id ip : Text) → ℕ → Allocation → Bool
covers node_id ip port a = a.node_id == node_id && a.ip == ip && nat_eq a.port port

length-ports_from : (start count : ℕ) → length (ports_from start count) ≡ count
unfolding ports_from
length-ports_from start zero = refl
length-ports_from start (suc count) = ap suc (length-ports_from (suc start) count)

has_port-ports_from :
    (port start count : ℕ)
    → start ≤ port
    → suc port ≤ start + count
    → has_port port (ports_from start count) ≡ true
unfolding ports_from
has_port-ports_from port start zero a b = absurd (omega arith)
has_port-ports_from port start (suc count) a b = elim (Bool-cases (nat_eq start port)) [
  | inl e ↦ ground arith
  | inr e ↦ ground (arith, has_port-ports_from port (suc start) count)
]

module _ (orm : Orm) where
  -- Rows are added, and none is lost.
  insert_all_ok :
      (rows t z : List Allocation)
      → insert_all orm rows t ≡ some z
      → (a : Allocation) → Has a rows ⊎ Has a t
      → Has a z
  unfolding insert_all
  insert_all_ok [] t z h a m = elim m [ inl k ↦ absurd k | inr k ↦ ground arith ]
  insert_all_ok (r ∷ rows) t z h a m = elim (Bool-cases (any (allocation_clash r) t)) [
    | inl e ↦ absurd (ground (arith, orm.insert_lem allocation_clash r t))
    | inr e ↦
        let rest : insert_all orm rows (r ∷ t) ≡ some z =
          rw (orm.insert_lem allocation_clash r t, e, insert_all) at h in
        insert_all_ok rows (r ∷ t) z rest a
          (elim m [ inl k ↦ elim k [ inl q ↦ inr (inl q) | inr j ↦ inl j ] | inr k ↦ inr (inr k) ])
  ]

  ports_of-Has :
      (t : List Allocation) (port : ℕ)
      → has_port port (ports_of t) ≡ true
      → (a : Allocation) × Has a t × (a.port ≡ port)
  ports_of-Has [] port h = cc
  ports_of-Has (x ∷ xs) port h = elim (Bool-cases (nat_eq x.port port)) [
    | inl e ↦ (x, inl refl, ground arith)
    | inr e ↦ let (a, m, q) = ports_of-Has xs port (ground arith) in (a, inr m, q)
  ]

  build-Has :
      (node_id ip : Text) (id_of : ℕ → Text) (now : ℕ) (existing ports : List ℕ) (port : ℕ)
      → has_port port ports ≡ true
      → has_port port existing ≡ false
      → Has
          (new_allocation node_id ip (id_of port) port now)
          (build node_id ip id_of now existing ports)
  unfolding build
  build-Has node_id ip id_of now existing [] port h n = cc
  build-Has node_id ip id_of now existing (x ∷ xs) port h n = elim (Bool-cases (nat_eq x port)) [
    | inl e ↦ let same : x ≡ port = ground arith in rw same (rw n (inl refl))
    | inr e ↦
        let rest = build-Has node_id ip id_of now existing xs port (ground arith) n in ground arith
  ]

  create_run :
      (node_id ip : Text) (port_start port_end : ℕ) (id_of : ℕ → Text) (now : ℕ) (p q : Panel)
      (rows : List Allocation)
      → create orm node_id ip port_start port_end id_of now p ≡ (ok rows, q)
      → let ports = ports_from port_start (port_end - port_start + 1) in
        (port_start ≤ port_end)
        × (port_end ≤ port_start + 1000)
        × (rows
            ≡ build node_id ip id_of now
                (ports_of (orm.find (is_existing node_id ip ports) p.allocations))
                ports)
        × (insert_all orm rows p.allocations ≡ some q.allocations)
  unfolding create
  create_run node_id ip port_start port_end id_of now p q rows h =
      let ports = ports_from port_start (port_end - port_start + 1) in
      let built =
        build node_id ip id_of now
          (ports_of (orm.find (is_existing node_id ip ports) p.allocations)) ports in
      elim (Bool-cases (ltb port_end port_start)) [
        | inl a ↦ let bad = rw (a, create) at h in cc
        | inr a ↦ elim (Bool-cases (ltb 1000 (port_end - port_start))) [
          | inl b ↦ let bad = rw (a, b, create) at h in cc
          | inr b ↦ elim (Option-cases (insert_all orm built p.allocations)) [
            | inl e ↦ let bad = rw (a, b, e, create) at h in cc
            | inr (z, e) ↦
                let (same, left) = ok_inj (rw (a, b, e, create) at h) in
                (ground arith, ground arith, sym same, rw (← same, ← left) e)
          ]
        ]
      ]

  -- When a range of ports is created, it spans at most 1001 ports; every port of it is then an allocation of
  -- the node under the address, whether it was new or not; and no allocation is lost.
  pub create_ok :
      (node_id ip : Text) (port_start port_end : ℕ) (id_of : ℕ → Text) (now : ℕ) (p q : Panel)
      (rows : List Allocation)
      → create orm node_id ip port_start port_end id_of now p ≡ (ok rows, q)
      → (port : ℕ) → port_start ≤ port
      → port ≤ port_end
      → (port_end ≤ port_start + 1000)
        × (any (covers node_id ip port) q.allocations ≡ true)
        × All (λ a. Has a q.allocations) p.allocations
  create_ok node_id ip port_start port_end id_of now p q rows h port a b =
      let ports = ports_from port_start (port_end - port_start + 1) in
      let existing = orm.find (is_existing node_id ip ports) p.allocations in
      let (order, size, built, stored) =
        create_run node_id ip port_start port_end id_of now p q rows h in
      (
        size,
        elim (Bool-cases (has_port port (ports_of existing))) [
          | inl e ↦
              let (x, m, eq) = ports_of-Has existing port e in
              let (hit, old) = orm.find_sound (is_existing node_id ip ports) p.allocations x m in
              any-Has (covers node_id ip port) q.allocations
                (insert_all_ok rows p.allocations q.allocations stored x (inr old)) (ground arith)
          | inr e ↦
              let new =
                build-Has node_id ip id_of now (ports_of existing) ports port
                  (has_port-ports_from port port_start (port_end - port_start + 1) a
                    (omega (arith, b, order)))
                  e in
              let row = new_allocation node_id ip (id_of port) port now in
              let fresh : Has row rows = rw built new in
              any-Has (covers node_id ip port) q.allocations
                (insert_all_ok rows p.allocations q.allocations stored row (inl fresh))
                (ground (arith, ==_refl node_id, ==_refl ip))
        ],
        All-intro (λ x. Has x q.allocations) p.allocations
            (λ x m. insert_all_ok rows p.allocations q.allocations stored x (inr m)),
      )
