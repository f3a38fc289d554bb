-- ===== src/Users/Controller/Rights.antt =====
-- packages/backend/src/users/users.controller.ts: who can change the rights of users.
use nexus_panel.Common.{
  ◌≡◌, ◌⊎◌, inl, inr, refl, ◌∙◌, sym, ap, Bool, true, false, not, ◌&&◌, Option, none, some, List,
  [], ◌∷◌, any, patch, Option-cases, Bool-cases, Has,
}
use nexus_panel.Common.Texts.{Text, ◌==◌, eq_iff}
use nexus_panel.Database.Entities.{User, user_clash}
use nexus_panel.Database.Orm.{Orm}
use nexus_panel.Database.Pages.{Pages}
use nexus_panel.Database.Rows.{has_key, row, Distinct, row-Has, row-key, find_one-row}
use nexus_panel.Database.Panel.{Panel}
use nexus_panel.Auth.Crypto.{Crypto}
use nexus_panel.Auth.Service.{user_id, user_email, present}
use nexus_panel.Users.Writes.{others_have, check_free_lem}
use nexus_panel.Auth.Guards.{HttpRequest, Identity, roles_guard}
use nexus_panel.Auth.Guards.Laws.{IsRequester, jwt_auth_guard-IsRequester, jwt_auth_guard-cases}
use nexus_panel.Database.Requests.{same_panel}
use nexus_panel.Users.Service
use nexus_panel.Users.Service.{
  of_profile, of_service, user_name, new_password, assign, UpdateProfileDto,
}
use nexus_panel.Users.Controller.{
  UserRequest, get_me, update_me, find_all, find_by_id, create, update, delete, written,
  is_for_admins, handle, route,
}

-- The rights of a user, by its id: administrator or not, enabled or not.
abbrev pub rights : Option User → Option (Bool × Bool)
rights none = none
rights (some u) = some (u.root_admin, u.enabled)

abbrev pub SameRights : Panel → Panel → Type 0
SameRights p q = (id : Text) → rights (row user_id id q.users) ≡ rights (row user_id id p.users)

kept :
    (c : User) (k : Text) (t : List User)
    → ((e : User) → Has e t → e.id ≡ c.id → rights (some e) ≡ rights (some c))
    → rights (row user_id k (patch (has_key user_id c.id) (λ _. c) t)) ≡ rights (row user_id k t)
kept c k [] h = refl
kept c k (x ∷ xs) h =
    let rest = kept c k xs (λ e m s. h e (inr m) s) in
    elim (Bool-cases (x.id == c.id)) [
      | inr n ↦ rw (n) (elim (Bool-cases (x.id == k)) [ inl y ↦ rw (y) refl | inr y ↦ rw (y) rest ])
      | inl y ↦
          let same : x.id ≡ c.id = (eq_iff x.id c.id).0 y in
          rw (y) (elim (Bool-cases (c.id == k)) [
            | inl z ↦ rw (z, same) (rw (z) (sym (h x (inl refl) same)))
            | inr z ↦ rw (z, same) (rw (z) rest)
          ])
    ]

module _ (orm : Orm) (crypto : Crypto) where
  -- What a profile is written with says nothing on rights.
  update_me-SameRights :
      (id : Text) (dto : UpdateProfileDto) (salt : Text) (p : Panel)
      → Distinct user_id p.users
      → SameRights p (Service.update orm crypto of_service id (of_profile dto) salt p).1
  unfolding Service.update
  update_me-SameRights id dto salt p d k = elim (Option-cases (row user_id id p.users)) [
    | inl e ↦ rw (find_one-row user_id orm id p.users d ∙ e) refl
    | inr (u, e) ↦
        let c = assign u (of_profile dto) (new_password orm crypto dto.password salt u) in
        let u_id : u.id ≡ id = row-key user_id id p.users u e in
        let same : (x : User) → Has x p.users → x.id ≡ u.id → rights (some x) ≡ rights (some c) =
          λ x m s. ap rights (sym (row-Has user_id id p.users x d m (s ∙ u_id)) ∙ e) in
        rw (find_one-row user_id orm id p.users d ∙ e, Service.update)
          (rw
            (
              check_free_lem orm user_email of_service.email_taken (present dto.email) u p,
              Service.update,
            )
            (elim (Bool-cases (others_have user_email (present dto.email) u p.users)) [
              | inl a ↦ rw (a) refl
              | inr a ↦
                  rw (a, Service.update)
                    (rw
                      (
                        check_free_lem orm user_name of_service.username_taken
                            (present dto.username) u p,
                        Service.update,
                      )
                      (elim (Bool-cases (others_have user_name (present dto.username) u p.users)) [
                        | inl b ↦ rw (b) refl
                        | inr b ↦
                            rw (b, Service.update)
                              (rw
                                (
                                  orm.save_lem user_clash (has_key user_id u.id) c p.users,
                                  Service.update,
                                )
                                (elim (Bool-cases (
                                  any (λ r. not (has_key user_id u.id r) && user_clash c r)
                                    p.users)) [
                                      | inl z ↦ rw (z) refl
                                      | inr z ↦ rw (z) (kept c k p.users same)
                                    ]))
                      ]))
            ]))
  ]

  module _ (pages : Pages) where
    own-SameRights :
        (i : Identity) (request : UserRequest) (p : Panel)
        → Distinct user_id p.users
        → is_for_admins request ≡ false
        → SameRights p (handle orm pages crypto i request p).1
    unfolding handle Service.find_by_id
    own-SameRights i get_me p d h k =
        elim (Option-cases (orm.find_one (has_key user_id i.id) p.users)) [
          | inl e ↦ rw (e) refl
          | inr (u, e) ↦ rw (e) refl
        ]
    own-SameRights i (update_me dto salt) p d h k =
        rw (same_panel (Service.update orm crypto of_service i.id (of_profile dto) salt p) written)
          (update_me-SameRights i.id dto salt p d k)
    own-SameRights i (find_all page per_page sought) p d h k = cc
    own-SameRights i (find_by_id id) p d h k = cc
    own-SameRights i (create dto draw) p d h k = cc
    own-SameRights i (update id dto salt) p d h k = cc
    own-SameRights i (delete id) p d h k = cc

    -- With distinct ids of users, a request to an endpoint of users leaves the rights of every user as they were,
    -- administrator or not and enabled or not, unless it is one that is for administrators and bears a
    -- valid token of a stored, enabled user who is an administrator: nobody gains rights by the own profile.
    pub route-SameRights :
        (from_auth_header : Option Text → Option Text) (http : HttpRequest) (request : UserRequest)
        (p : Panel)
        → Distinct user_id p.users
        → SameRights p (route orm pages crypto from_auth_header http request p).1
          ⊎ ((u : User) × IsRequester orm crypto from_auth_header http p u
              × (u.root_admin ≡ true)
              × (is_for_admins request ≡ true))
    unfolding route roles_guard
    route-SameRights from_auth_header http request p d =
        elim (jwt_auth_guard-cases orm crypto from_auth_header http p) [
          | inl (x, h) ↦ inl (λ k. rw (h) refl)
          | inr (i, h) ↦ elim (Bool-cases (roles_guard (is_for_admins request) i)) [
            | inr g ↦ inl (λ k. rw (h, route) (rw (g) refl))
            | inl g ↦ elim (Bool-cases (is_for_admins request)) [
              | inr o ↦ inl (λ k. rw (h, route) (rw (g, route) (own-SameRights i request p d o k)))
              | inl a ↦
                  let (u, requester, same) =
                    jwt_auth_guard-IsRequester orm crypto from_auth_header http p p i h in
                  let admin : i.root_admin ≡ true = rw (a) at g in
                  inr (u, requester, ap (λ (j : Identity). j.root_admin) (sym same) ∙ admin, a)
            ]
          ]
        ]
