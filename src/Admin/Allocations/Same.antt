-- ===== src/Admin/Allocations/Same.antt =====
-- packages/backend/src/admin/admin-allocations.controller.ts against
-- packages/backend/src/allocations/allocations.service.ts: a query for each port, and one query for all of them.
use nexus_panel.Common.{
  ℕ, ◌+◌, ◌-◌, ltb, nat_eq, ◌≡◌, refl, inl, inr, true, none, List, [], ◌∷◌, arith, Option-cases,
  Bool-cases, any-Has, Has, is_some, All, All-intro,
}
use nexus_panel.Common.Texts.{Text}
use nexus_panel.Database.Entities.{Allocation}
use nexus_panel.Database.Orm.{Orm}
use nexus_panel.Database.Panel.{Panel}
use nexus_panel.Allocations.Service
use nexus_panel.Allocations.Service.{ports_from, has_port, is_existing, ports_of, build}
use nexus_panel.Admin.Allocations.{CreateNodeAllocationsDto, is_at, missing, create}

module _ (orm : Orm) (node_id : Text) (dto : CreateNodeAllocationsDto) where
  port-Has : (t : List Allocation) (a : Allocation) → Has a t → has_port a.port (ports_of t) ≡ true
  port-Has [] a m = absurd m
  port-Has (x ∷ xs) a (inl m) = ground arith
  port-Has (x ∷ xs) a (inr m) = ground (arith, port-Has xs a m)

  Has-port :
      (t : List Allocation) (port : ℕ)
      → has_port port (ports_of t) ≡ true
      → (a : Allocation) × Has a t × (a.port ≡ port)
  Has-port [] port h = cc
  Has-port (x ∷ xs) port h = elim (Bool-cases (nat_eq x.port port)) [
    | inl e ↦ (x, inl refl, ground arith)
    | inr e ↦ let (a, m, q) = Has-port xs port (ground arith) in (a, inr m, q)
  ]

  -- The set of the ports of one query has a port when the query for that port finds a row.
  same_test :
      (t : List Allocation) (ports : List ℕ) (port : ℕ)
      → has_port port ports ≡ true
      → has_port port (ports_of (orm.find (is_existing node_id dto.ip ports) t))
        ≡ is_some (orm.find_one (is_at node_id dto.ip port) t)
  same_test t ports port h =
      let found = orm.find (is_existing node_id dto.ip ports) t in
      elim (Option-cases (orm.find_one (is_at node_id dto.ip port) t)) [
        | inr (a, e) ↦
            let (hit, m) = orm.find_one_some (is_at node_id dto.ip port) t a e in
            let same : a.port ≡ port = ground arith in
            let old : is_existing node_id dto.ip ports a ≡ true = rw same (ground arith) in
            rw (e) (
              rw (← same)
                (port-Has found a (orm.find_complete (is_existing node_id dto.ip ports) t a m old)))
        | inl e ↦ rw (e) (elim (Bool-cases (has_port port (ports_of found))) [
          | inr n ↦ n
          | inl y ↦
              let (a, m, q) = Has-port found port y in
              let (hit, old) = orm.find_sound (is_existing node_id dto.ip ports) t a m in
              let at : is_at node_id dto.ip port a ≡ true = ground arith in
              absurd (
                ground (
                  arith,
                  orm.find_one_none (is_at node_id dto.ip port) t e,
                  any-Has (is_at node_id dto.ip port) t old at,
                ))
        ])
      ]

  same_rows :
      (id_of : ℕ → Text) (now : ℕ) (t : List Allocation) (all ports : List ℕ)
      → dto.ip_alias ≡ none
      → All (λ port. has_port port all ≡ true) ports
      → missing orm node_id dto id_of now t ports
        ≡ build node_id dto.ip id_of now
            (ports_of (orm.find (is_existing node_id dto.ip all) t))
            ports
  unfolding missing build
  same_rows id_of now t all [] n h = refl
  same_rows id_of now t all (port ∷ ports) n (h, hs) =
      rw (same_test t all port h) (rw (n) (rw (same_rows id_of now t all ports n hs) refl))

own_ports : (ports : List ℕ) → All (λ port. has_port port ports ≡ true) ports
own_ports ports =
    All-intro (λ port. has_port port ports ≡ true) ports
      (λ port m. any-Has (λ q. nat_eq q port) ports m (ground arith))

-- Without an alias, the loop of the administrators, which asks for each port whether it is taken, ends as the
-- loop of the service, which asks for all of them at once: with the same answer or exception, and
-- the same panel, whatever rows the queries pick.
pub create-create :
    (orm : Orm) (node_id : Text) (dto : CreateNodeAllocationsDto) (id_of : ℕ → Text) (now : ℕ)
    (p : Panel)
    → dto.ip_alias ≡ none
    → create orm node_id dto id_of now p
      ≡ Service.create orm node_id dto.ip dto.port_start dto.port_end id_of now p
unfolding create Service.create
create-create orm node_id dto id_of now p n =
    let ports = ports_from dto.port_start (dto.port_end - dto.port_start + 1) in
    elim (Bool-cases (ltb dto.port_end dto.port_start)) [
      | inl a ↦ rw (a, create, Service.create) refl
      | inr a ↦ elim (Bool-cases (ltb 1000 (dto.port_end - dto.port_start))) [
        | inl b ↦ rw (a, create, Service.create) (rw (b, create, Service.create) refl)
        | inr b ↦
            rw (a, create, Service.create)
              (rw (b, create, Service.create)
                (rw
                  (same_rows orm node_id dto id_of now p.allocations ports ports n
                    (own_ports ports))
                  refl))
      ]
    ]
