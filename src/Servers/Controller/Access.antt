-- ===== src/Servers/Controller/Access.antt =====
-- packages/backend/src/servers/servers.controller.ts: who gets through to the endpoints of servers.
use nexus_panel.Common.{
  ℕ, ◌≡◌, ◌⊎◌, inl, inr, refl, ◌∙◌, Bool, true, false, Option, none, some, Option-cases, Bool-cases,
}
use mathlib.Core.Path.{subst}
use nexus_panel.Common.Texts.{Text, ◌==◌, eq_iff}
use nexus_panel.Common.Js.{Js}
use nexus_panel.Database.Entities.{Server, User}
use nexus_panel.Database.Orm.{Orm}
use nexus_panel.Database.Pages.{Pages}
use nexus_panel.Database.Rows.{row, Distinct, find_one-row}
use nexus_panel.Database.Panel.{Panel, Failure, not_found, forbidden, err, M, ◌>>=◌}
use nexus_panel.Wings.Protocol.{Network}
use nexus_panel.Auth.Crypto.{Crypto}
use nexus_panel.Auth.Guards.{HttpRequest, Identity, roles_guard}
use nexus_panel.Auth.Guards.Laws.{IsRequester, jwt_auth_guard-IsRequester, jwt_auth_guard-cases}
use nexus_panel.Servers.Service.{Loaded, server_uuid, find_by_uuid, check_access}
use nexus_panel.Servers.Controller.{
  Endpoint, list, show, create, update, delete, power, send_command, suspend, unsuspend, reinstall,
  is_for_admins, find_accessible, handle, route,
}

-- The server that an endpoint for owners is about.
abbrev pub subject : Endpoint → Option Text
subject (show uuid) = some uuid
subject (update uuid dto) = some uuid
subject (power uuid action) = some uuid
subject (send_command uuid command) = some uuid
subject _ = none

abbrev pub is_list : Endpoint → Bool
is_list (list page per_page search) = true
is_list _ = false

-- A stored server with this uuid belongs to the user.
abbrev pub Owns : Panel → Text → Text → Type 0
Owns p user uuid = (s : Server) × (row server_uuid uuid p.servers ≡ some s) × (s.user_id ≡ user)

-- What an identity may do: an administrator anything, an owner what is about the own server, anyone list.
abbrev pub Allowed : Panel → (id : Text) → (root_admin : Bool) → Endpoint → Type 0
Allowed p id root_admin e =
    (root_admin ≡ true)
    ⊎ (is_list e ≡ true)
    ⊎ ((uuid : Text) × (subject e ≡ some uuid) × Owns p id uuid)

module _ (js : Js) (orm : Orm) (pages : Pages) (net : Network) where
  -- The start of a handler for owners: it refuses and changes nothing, or the user has access.
  accessible :
      {B : Type 0} (uuid : Text) (user : Identity) (k : Loaded → M B) (p : Panel)
      → Distinct server_uuid p.servers
      → ((x : Failure) × ((find_accessible js orm pages net uuid user >>= k) p ≡ (err x, p)))
        ⊎ (user.root_admin ≡ true)
        ⊎ Owns p user.id uuid
  unfolding find_accessible find_by_uuid check_access
  accessible uuid user k p d = elim (Option-cases (row server_uuid uuid p.servers)) [
    | inl e ↦
        inl (not_found "Server not found", rw (find_one-row server_uuid orm uuid p.servers d ∙ e))
    | inr (s, e) ↦ elim (Bool-cases user.root_admin) [
      | inl a ↦ inr (inl a)
      | inr a ↦ elim (Bool-cases (s.user_id == user.id)) [
        | inl o ↦ inr (inr (s, e, (eq_iff s.user_id user.id).0 o))
        | inr o ↦ inl (
          forbidden "You do not have access to this server",
          rw (find_one-row server_uuid orm uuid p.servers d ∙ e, a, o),
        )
      ]
    ]
  ]

  about :
      {B : Type 0} (uuid : Text) (user : Identity) (k : Loaded → M B) (p : Panel) (e : Endpoint)
      → Distinct server_uuid p.servers
      → subject e ≡ some uuid
      → ((x : Failure) × ((find_accessible js orm pages net uuid user >>= k) p ≡ (err x, p)))
        ⊎ Allowed p user.id user.root_admin e
  about uuid user k p e d h = elim (accessible uuid user k p d) [
    | inl r ↦ inl r
    | inr o ↦ elim o [ inl a ↦ inr (inl a) | inr w ↦ inr (inr (inr (uuid, h, w))) ]
  ]

  handle-Allowed :
      (now : ℕ) (user : Identity) (e : Endpoint) (p : Panel)
      → Distinct server_uuid p.servers
      → roles_guard (is_for_admins e) user ≡ true
      → ((x : Failure) × (handle js orm pages net now user e p ≡ (err x, p)))
        ⊎ Allowed p user.id user.root_admin e
  unfolding handle roles_guard
  handle-Allowed now user (list page per_page search) p d g = inr (inr (inl refl))
  handle-Allowed now user (show uuid) p d g = about uuid user _ p (show uuid) d refl
  handle-Allowed now user (create dto fresh) p d g = inr (inl g)
  handle-Allowed now user (update uuid dto) p d g = about uuid user _ p (update uuid dto) d refl
  handle-Allowed now user (delete uuid) p d g = inr (inl g)
  handle-Allowed now user (power uuid action) p d g = about uuid user _ p (power uuid action) d refl
  handle-Allowed now user (send_command uuid command) p d g =
      about uuid user _ p (send_command uuid command) d refl
  handle-Allowed now user (suspend uuid) p d g = inr (inl g)
  handle-Allowed now user (unsuspend uuid) p d g = inr (inl g)
  handle-Allowed now user (reinstall uuid) p d g = inr (inl g)

  module _ (crypto : Crypto) (from_auth_header : Option Text → Option Text) where
    -- When the uuids of servers are distinct, a request to an endpoint of servers is refused with an
    -- exception and changes nothing, or it bears a valid token of a stored, enabled user who is an
    -- administrator, or asks for the list, or owns the stored server that the endpoint shows, updates, powers or commands.
    pub route-Allowed :
        (request : HttpRequest) (e : Endpoint) (p : Panel)
        → Distinct server_uuid p.servers
        → ((x : Failure) × (route js orm pages net crypto from_auth_header request e p
              ≡ (err x, p)))
          ⊎ ((u : User) × IsRequester orm crypto from_auth_header request p u
              × Allowed p u.id u.root_admin e)
    unfolding route
    route-Allowed request e p d =
        elim (jwt_auth_guard-cases orm crypto from_auth_header request p) [
          | inl (x, h) ↦ inl (x, rw h)
          | inr (i, h) ↦ elim (Bool-cases (roles_guard (is_for_admins e) i)) [
            | inr g ↦ inl (forbidden "Forbidden resource", rw (h, route) (rw g))
            | inl g ↦ elim (handle-Allowed request.now i e p d g) [
              | inl (x, r) ↦ inl (x, rw (h, route) (rw (g, route) r))
              | inr a ↦
                  let (u, requester, same) =
                    jwt_auth_guard-IsRequester orm crypto from_auth_header request p p i h in
                  inr (u, requester, subst (λ (j : Identity). Allowed p j.id j.root_admin e) same a)
            ]
          ]
        ]
