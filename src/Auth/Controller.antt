-- ===== src/Auth/Controller.antt =====
-- packages/backend/src/auth/auth.controller.ts: the endpoints of authentication with the cookies that they set. The
-- attributes of a cookie that are the same in all of them (path, same site) are left out.
pub mod Cookies
use nexus_panel.Common.{ℕ, ◌/◌, ◌*◌, Bool, true, false, Option, none, some, List, [], ◌∷◌}
use nexus_panel.Common.Texts.{Text, codes}
use nexus_panel.Database.Entities.{User, Session}
use nexus_panel.Database.Orm.{Orm}
use nexus_panel.Database.Panel.{unauthorized, M, ◌>>=◌, ◌>>◌, pure, or_throw}
use nexus_panel.Auth.Crypto.{Crypto}
use nexus_panel.Auth.Service
use nexus_panel.Auth.Service.{
  RegisterDto, LoginDto, FreshUser, Visit, LoginResult, requires_two_factor, signed_in, UserView,
  present, validate_user,
}
use nexus_panel.Auth.TwoFactor
use nexus_panel.Auth.TwoFactor.{TwoFactorSetup}
use nexus_panel.Auth.Guards.{HttpRequest, Identity, bearer_token, jwt_auth_guard}

-- `res.cookie` and `res.clearCookie`, the lifetime in milliseconds.
pub data CookieChange : Type 0 where
  set_cookie : (name value : Text) → (secure : Bool) → (max_age : ℕ) → CookieChange
  clear_cookie : (name : Text) → CookieChange

-- What the handlers read of a request and of the environment.
pub record Exchange : Type 0 where
  pub http : HttpRequest
  pub refresh_cookie : Option Text
  pub https : Bool
  pub production : Bool

pub record Profile : Type 0 where
  pub id : Text
  pub email : Text
  pub username : Text
  pub root_admin : Bool
  pub uses_totp : Bool
  pub avatar_url : Option Text
  pub created_at : ℕ

-- The body of a login, which leaves the refresh token out.
pub data LoginBody : Type 0 where
  two_factor_asked : (session_token : Text) → UserView → LoginBody
  logged_in : (access_token : Text) → UserView → LoginBody

abbrev pub refresh_name : Text
refresh_name = codes "refreshToken"

abbrev pub session_name : Text
session_name = codes "nexus_session"

abbrev pub session_cookie : Exchange → Text → CookieChange
session_cookie x token = set_cookie session_name token x.https (15 * 60 * 1000)

abbrev pub refresh_cookie_of : Exchange → Text → CookieChange
refresh_cookie_of x token = set_cookie refresh_name token x.production (7 * 24 * 60 * 60 * 1000)

-- The end of both steps of a login.
abbrev pub with_cookies : Exchange → LoginResult → LoginBody × List CookieChange
with_cookies x (requires_two_factor token user) = (two_factor_asked token user, [])
with_cookies x (signed_in access refresh user) =
    (logged_in access user, refresh_cookie_of x refresh ∷ session_cookie x access ∷ [])

abbrev pub profile : User → Profile
profile u = record {
  id = u.id;
  email = u.email;
  username = u.username;
  root_admin = u.root_admin;
  uses_totp = u.uses_totp;
  avatar_url = u.avatar_url;
  created_at = u.created_at;
}

-- The cookie, else the header.
abbrev pub token_of : HttpRequest → Option Text
token_of request = elim (present request.nexus_session) [
  | some t ↦ some t
  | none ↦ present (bearer_token request.authorization)
]

module _ (orm : Orm) (crypto : Crypto) where
  abbrev pub register : RegisterDto → FreshUser → M User
  register dto fresh = Service.register orm crypto dto fresh

  unfoldable pub login : LoginDto → Visit → Exchange → M (LoginBody × List CookieChange)
  login dto v x = do result ← Service.login orm crypto dto v; pure (with_cookies x result)

  unfoldable pub verify_two_factor_login :
      (session_token code : Text) → Visit → Exchange → M (LoginBody × List CookieChange)
  verify_two_factor_login session_token code v x = do
    result ← TwoFactor.verify_two_factor_login crypto orm session_token code v
    pure (with_cookies x result)

  unfoldable pub refresh : Exchange → M (Text × List CookieChange)
  refresh x = do
    token ← or_throw (unauthorized "No refresh token provided") (present x.refresh_cookie)
    access ← Service.refresh_token orm crypto token x.http.now
    pure (access, session_cookie x access ∷ [])

  unfoldable pub me : HttpRequest → M Profile
  me request = do
    token ← or_throw (unauthorized "No token provided") (token_of request)
    payload ←
        or_throw (unauthorized "Invalid or expired token")
          (crypto.verify (request.now / 1000) token)
    found ← validate_user orm payload.sub
    user ← or_throw (unauthorized "User not found or disabled") found
    pure (profile user)

  module _ (from_auth_header : Option Text → Option Text) where
    -- The cookies are cleared; the service is not called.
    unfoldable pub logout : Exchange → M (List CookieChange)
    logout x = do
      _ ← jwt_auth_guard orm crypto from_auth_header x.http
      pure (elim (present x.refresh_cookie) [
        | none ↦ clear_cookie session_name ∷ []
        | some t ↦ clear_cookie refresh_name ∷ clear_cookie session_name ∷ []
      ])

    unfoldable pub setup_two_factor : Exchange → (secret : Text) → M TwoFactorSetup
    setup_two_factor x secret = do
      user ← jwt_auth_guard orm crypto from_auth_header x.http
      TwoFactor.setup_two_factor crypto orm user.id secret

    unfoldable pub verify_two_factor :
        Exchange → (code : Text) → (drawn : List (Text × Text)) → M (List Text)
    verify_two_factor x code drawn = do
      user ← jwt_auth_guard orm crypto from_auth_header x.http
      TwoFactor.verify_two_factor_setup crypto orm user.id code x.http.now drawn

    unfoldable pub disable_two_factor : Exchange → (code : Text) → M (Unit {0})
    disable_two_factor x code = do
      user ← jwt_auth_guard orm crypto from_auth_header x.http
      TwoFactor.disable_two_factor crypto orm user.id code x.http.now

    unfoldable pub get_sessions : Exchange → M (List Session)
    get_sessions x = do
      user ← jwt_auth_guard orm crypto from_auth_header x.http
      Service.get_user_sessions orm user.id

    unfoldable pub revoke_session : Exchange → (session : Text) → M (Unit {0})
    revoke_session x session = do
      user ← jwt_auth_guard orm crypto from_auth_header x.http
      Service.revoke_session orm user.id session
