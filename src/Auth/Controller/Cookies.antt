-- ===== src/Auth/Controller/Cookies.antt =====
-- packages/backend/src/auth/auth.controller.ts: what the cookies of a login are good for.
use nexus_panel.Common.{
  ℕ, ◌+◌, ◌*◌, ◌/◌, ◌≤◌, ◌≡◌, ◌⊎◌, inl, inr, refl, ap, ◌∙◌, true, false, ◌&&◌, Option, some, List,
  [], ◌∷◌, arith, Option-cases, any, Has,
}
use nexus_panel.Common.Texts.{Text, ◌==◌, ==_refl}
use nexus_panel.Database.Entities.{User}
use nexus_panel.Database.Orm.{Orm, first-some}
use nexus_panel.Database.Rows.{has_key, row, row-Has, row-patch, Distinct, Distinct-patch}
use nexus_panel.Database.Panel.{Panel, Failure, Result, ok, err, unauthorized, after, pure, ok_inj}
use nexus_panel.Database.Requests.{bind_ok}
use nexus_panel.Auth.Crypto.{Crypto}
use nexus_panel.Auth.Service.{
  LoginDto, Visit, UserView, user_id, user_email, view, access_claims, present, validate_user,
}
use nexus_panel.Auth.Service
use nexus_panel.Auth.Login.{IsNew, entered, sign_in_lem}
use nexus_panel.Auth.Sessions.{session_token, entered-refresh_token}
use nexus_panel.Auth.Guards.{HttpRequest, identity, bearer_token, jwt_auth_guard, extract_token}
use nexus_panel.Auth.Guards.Laws.{valid_user, jwt_auth_guard_ok}
use nexus_panel.Auth.Controller.{
  Exchange, CookieChange, logged_in, session_cookie, refresh_cookie_of, profile, token_of, login,
  refresh, me, logout,
}

abbrev touched : ℕ → User → User
touched now x = record x { last_login = some now }

-- The user as a login leaves it.
entered_user :
    (u : User) (v : Visit) (p : Panel)
    → Distinct user_id p.users
    → Has u p.users
    → Distinct user_id (entered u v p).users × Has (touched v.now u) (entered u v p).users
entered_user u v p d m =
    let found : row user_id u.id (entered u v p).users ≡ some (touched v.now u) =
      row-patch user_id (touched v.now) (λ x. refl) u.id u.id p.users
      ∙ ground (arith, ==_refl u.id, row-Has user_id u.id p.users u d m refl) in
    (
      Distinct-patch user_id (touched v.now) (λ x. refl) (has_key user_id u.id) p.users d,
      (first-some (has_key user_id u.id) (entered u v p).users (touched v.now u) found).1,
    )

answered :
    {A B : Type 0} (r : Result A × Panel) (a : A) (f : A → B)
    → r.0 ≡ ok a
    → (after r (λ x. pure (f x))).0 ≡ ok (f a)
answered (ok x, q) a f h = cc
answered (err e, q) a f h = cc

module _ (orm : Orm) (crypto : Crypto) where
  login_plain :
      (dto : LoginDto) (v : Visit) (u : User) (p : Panel)
      → orm.find_one (has_key user_email dto.email) p.users ≡ some u
      → u.enabled ≡ true
      → crypto.compare dto.password u.password ≡ true
      → u.uses_totp ≡ false
      → Service.login orm crypto dto v p ≡ Service.sign_in orm crypto u v p
  unfolding Service.login
  login_plain dto v u p found on valid plain = rw (found, Service.login) (ground arith)

  module _ (from_auth_header : Option Text → Option Text) where
    extract_present :
        (request : HttpRequest) (t : Text)
        → present request.nexus_session ≡ some t
        → extract_token orm crypto from_auth_header request ≡ some t
    unfolding extract_token
    extract_present request t e = rw (e, extract_token)

    -- A stored, enabled user without a second factor logs in by the right password, with new ids of the session and
    -- of the audit entry, the ids of users distinct: the two cookies are set, and until a second before the
    -- session cookie ends, a request that carries it is let in as that user.
    pub login-jwt_auth_guard_cookie :
        (dto : LoginDto) (v : Visit) (x : Exchange) (u : User) (next : HttpRequest) (p : Panel)
        → Distinct user_id p.users
        → orm.find_one (has_key user_email dto.email) p.users ≡ some u
        → u.enabled ≡ true
        → crypto.compare dto.password u.password ≡ true
        → u.uses_totp ≡ false
        → IsNew u v p
        → let token = crypto.sign (v.now / 1000) 900 (access_claims u) in
          present (some token) ≡ some token
          → next.nexus_session ≡ some token
          → v.now ≤ next.now
          → next.now + 1000 ≤ v.now + 15 * 60 * 1000
          → (login orm crypto dto v x p ≡ (
            ok (
              logged_in token (view u),
              refresh_cookie_of x v.refresh_token ∷ session_cookie x token ∷ [],
            ),
            entered u v p,
          ))
            × (jwt_auth_guard orm crypto from_auth_header next (entered u v p)
                ≡ (ok (identity u), entered u v p))
    unfolding login jwt_auth_guard validate_user
    login-jwt_auth_guard_cookie dto v x u next p d found on valid plain new full carried a b =
        let (hit, stored) = orm.find_one_some (has_key user_email dto.email) p.users u found in
        let token = crypto.sign (v.now / 1000) 900 (access_claims u) in
        let (d', m) = entered_user u v p d stored in
        (
          rw (login_plain dto v u p found on valid plain ∙ sign_in_lem orm crypto u v p new),
          rw (extract_present next token (ap present carried ∙ full), jwt_auth_guard)
              (rw
                (
                  crypto.verify_sign (v.now / 1000) 900 (next.now / 1000) (access_claims u)
                      (omega arith) (omega arith),
                  jwt_auth_guard,
                )
                (rw (valid_user orm (touched v.now u) (entered u v p).users d' m on))),
        )

    -- A logout that succeeds leaves the session as it is: after the login of a stored, enabled user whose refresh
    -- token no session had before, the ids of users distinct, and a logout, the refresh token is still
    -- exchanged for a new access token.
    pub logout-refresh :
        (u : User) (v : Visit) (p q : Panel) (out back : Exchange) (changes : List CookieChange)
        → Distinct user_id p.users
        → Has u p.users
        → u.enabled ≡ true
        → any (has_key session_token v.refresh_token) p.sessions ≡ false
        → logout orm crypto from_auth_header out (entered u v p) ≡ (ok changes, q)
        → present back.refresh_cookie ≡ some v.refresh_token
        → let token = crypto.sign (back.http.now / 1000) 900 (access_claims u) in
          (refresh orm crypto back q).0 ≡ ok (token, session_cookie back token ∷ [])
    unfolding logout refresh
    logout-refresh u v p q out back changes d m on fresh done kept =
        let token = crypto.sign (back.http.now / 1000) 900 (access_claims u) in
        let (i, r, g, e) =
          bind_ok (jwt_auth_guard orm crypto from_auth_header out.http) _ (entered u v p) done in
        let (_, _, _, _, _, _, _, _, _, same) =
          jwt_auth_guard_ok orm crypto from_auth_header out.http (entered u v p) r i g in
        let there : entered u v p ≡ q = same ∙ (ok_inj {p = r} {q = q} e).1 in
        rw (← there) (
          rw kept (
            answered
              (Service.refresh_token orm crypto v.refresh_token back.http.now (entered u v p)) token
              (λ t. (t, session_cookie back t ∷ []))
              (entered-refresh_token orm crypto u v p back.http.now d m on fresh)))

    same_token :
        (request : HttpRequest)
        → from_auth_header request.authorization ≡ present (bearer_token request.authorization)
        → extract_token orm crypto from_auth_header request ≡ token_of request
    unfolding extract_token
    same_token request same = elim (Option-cases (present request.nexus_session)) [
      | inl e ↦ rw (e, extract_token, token_of) same
      | inr (t, e) ↦ rw (e, extract_token, token_of)
    ]

    -- The endpoint of the profile and the guard of the token agree on whom a request comes from, as long as
    -- the extractor of the header reads it as the endpoint does: both let it in as one stored user, or
    -- both refuse it; nothing changes.
    pub me-jwt_auth_guard :
        (request : HttpRequest) (p : Panel)
        → from_auth_header request.authorization ≡ present (bearer_token request.authorization)
        → ((u : User) × (me orm crypto request p ≡ (ok (profile u), p))
            × (jwt_auth_guard orm crypto from_auth_header request p ≡ (ok (identity u), p)))
          ⊎ ((x : Failure) × (y : Failure) × (me orm crypto request p ≡ (err x, p))
              × (jwt_auth_guard orm crypto from_auth_header request p ≡ (err y, p)))
    unfolding me jwt_auth_guard validate_user extract_token
    me-jwt_auth_guard request p same =
        let token = token_of request in
        rw (same_token request same, jwt_auth_guard)
          (elim (Option-cases token) [
            | inl e ↦
                inr (unauthorized "No token provided", unauthorized "Unauthorized", rw e, rw e)
            | inr (t, e) ↦ elim (Option-cases (crypto.verify (request.now / 1000) t)) [
              | inl f ↦ inr (
                unauthorized "Invalid or expired token",
                unauthorized "Unauthorized",
                rw e (rw f),
                rw e (rw f),
              )
              | inr (c, f) ↦
                  elim (Option-cases (orm.find_one (λ w. w.id == c.sub && w.enabled) p.users)) [
                    | inl g ↦ inr (
                      unauthorized "User not found or disabled",
                      unauthorized "Unauthorized",
                      rw e (rw f (rw g)),
                      rw e (rw f (rw g)),
                    )
                    | inr (w, g) ↦ inl (w, rw e (rw f (rw g)), rw e (rw f (rw g)))
                  ]
            ]
          ])
