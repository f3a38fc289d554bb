-- ===== src/Admin/Service.antt =====
-- packages/backend/src/admin/admin.service.ts, as packages/backend/src/admin/admin.controller.ts hands on to it:
-- the token with which an administrator acts as another user.
use nexus_panel.Common.{ℕ, ◌+◌, ◌/◌, ◌≤◌, ◌≡◌, refl, ◌∙◌, Bool, true, Option, none, some, Has, ap}
use nexus_panel.Common.Texts.{Text}
use nexus_panel.Database.Entities.{User}
use nexus_panel.Database.Orm.{Orm}
use nexus_panel.Database.Rows.{has_key, Distinct, row-Has, find_one-row}
use nexus_panel.Database.Panel.{Panel, ok, not_found, ok_inj, M, ◌>>=◌, pure, gets, or_throw}
use nexus_panel.Auth.Crypto.{Crypto, Claims}
use nexus_panel.Auth.Service.{user_id, validate_user}
use nexus_panel.Auth.Guards.{HttpRequest, identity, extract_token, jwt_auth_guard}
use nexus_panel.Auth.Guards.Laws.{valid_user}

pub record Impersonation : Type 0 where
  pub access_token : Text
  pub id : Text
  pub email : Text
  pub username : Text
  pub root_admin : Bool

abbrev pub impersonation_claims : (admin_id : Text) → User → Claims
impersonation_claims admin_id u = record {
  sub = u.id;
  email = some u.email;
  root_admin = some u.root_admin;
  purpose = none;
  impersonated_by = some admin_id;
}

unfoldable pub impersonate_user :
    Orm → Crypto → (now : ℕ) → (admin_id target_user_id : Text) → M Impersonation
impersonate_user orm crypto now admin_id target_user_id = do
  found ← gets (λ p. orm.find_one (has_key user_id target_user_id) p.users)
  target ← or_throw (not_found "User not found") found
  pure (record {
    access_token = crypto.sign (now / 1000) 3600 (impersonation_claims admin_id target);
    id = target.id;
    email = target.email;
    username = target.username;
    root_admin = target.root_admin;
  })

-- The token of an impersonation of a stored, enabled user, the ids of users distinct, lets its bearer in as
-- that user for an hour, with the rights of that user.
pub impersonate_user-jwt_auth_guard :
    (orm : Orm) (crypto : Crypto) (from_auth_header : Option Text → Option Text) (now : ℕ)
    (admin_id : Text) (p : Panel) (u : User) (i : Impersonation) (request : HttpRequest)
    → Distinct user_id p.users
    → Has u p.users
    → u.enabled ≡ true
    → impersonate_user orm crypto now admin_id u.id p ≡ (ok i, p)
    → extract_token orm crypto from_auth_header request ≡ some i.access_token
    → now / 1000 ≤ request.now / 1000
    → request.now / 1000 + 1 ≤ now / 1000 + 3600
    → jwt_auth_guard orm crypto from_auth_header request p ≡ (ok (identity u), p)
unfolding impersonate_user jwt_auth_guard validate_user
impersonate_user-jwt_auth_guard orm crypto from_auth_header now admin_id p u i request d m e h x a
      b =
    let found : orm.find_one (has_key user_id u.id) p.users ≡ some u =
      find_one-row user_id orm u.id p.users d ∙ row-Has user_id u.id p.users u d m refl in
    let (made, _) = ok_inj (rw (found, impersonate_user) at h) in
    let token : crypto.sign (now / 1000) 3600 (impersonation_claims admin_id u) ≡ i.access_token =
      ap (λ j. j.access_token) made in
    rw (x, jwt_auth_guard, validate_user)
      (rw (← token) (
        rw
          (
            crypto.verify_sign (now / 1000) 3600 (request.now / 1000)
                (impersonation_claims admin_id u) a b,
            jwt_auth_guard,
            validate_user,
          )
          (rw (valid_user orm u p.users d m e) refl)))
