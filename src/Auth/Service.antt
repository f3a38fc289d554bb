-- ===== src/Auth/Service.antt =====
-- packages/backend/src/auth/auth.service.ts: registration, the two steps of a login, sessions, and the
-- second factor. What is drawn at random and the ids of new rows are arguments; `now` is the clock in
-- milliseconds. A column that is assigned `undefined` keeps its value in a TypeORM save.
use nexus_panel.Common.{
  ℕ, ◌/◌, is_some, Bool, true, false, not, ◌&&◌, ◌||◌, Option, none, some, List, [], ◌∷◌,
  if◌then◌else◌,
}
use nexus_panel.Common.Texts.{Text, codes, ◌==◌}
use nexus_panel.Database.Entities.{
  User, Session, AuditLog, user_clash, session_clash, audit_log_clash,
}
use nexus_panel.Database.Orm.{Orm}
use nexus_panel.Database.Rows.{has_key}
use nexus_panel.Database.Panel.{
  unauthorized, not_found, conflict, internal, M, ◌>>=◌, ◌>>◌, pure, gets, modify, throw_if,
  or_throw,
}
use nexus_panel.Auth.Crypto.{Crypto, Claims}

pub record RegisterDto : Type 0 where
  pub email : Text
  pub username : Text
  pub password : Text

pub record LoginDto : Type 0 where
  pub email : Text
  pub password : Text
  pub two_factor_code : Option Text

-- The user as a login answers it.
pub record UserView : Type 0 where
  pub id : Text
  pub email : Text
  pub username : Text
  pub root_admin : Bool
  pub uses_totp : Bool

pub data LoginResult : Type 0 where
  requires_two_factor : (session_token : Text) → UserView → LoginResult
  signed_in : (access_token refresh_token : Text) → UserView → LoginResult

-- The client, and what a login draws.
pub record Visit : Type 0 where
  pub ip : Text
  pub user_agent : Text
  pub now : ℕ
  pub session_id : Text
  pub refresh_token : Text
  pub audit_id : Text

pub record FreshUser : Type 0 where
  pub id : Text
  pub salt : Text
  pub audit_id : Text
  pub now : ℕ

abbrev pub user_id : User → Text
user_id u = u.id

abbrev pub user_email : User → Text
user_email u = u.email

abbrev pub session_id : Session → Text
session_id s = s.id

abbrev pub two_factor : Text
two_factor = codes "two-factor"

abbrev pub view : User → UserView
view u = record {
  id = u.id;
  email = u.email;
  username = u.username;
  root_admin = u.root_admin;
  uses_totp = u.uses_totp;
}

abbrev pub access_claims : User → Claims
access_claims u = record {
  sub = u.id;
  email = some u.email;
  root_admin = some u.root_admin;
  purpose = none;
  impersonated_by = none;
}

abbrev pub two_factor_claims : User → Claims
two_factor_claims u = record {
  sub = u.id;
  email = none;
  root_admin = none;
  purpose = some two_factor;
  impersonated_by = none;
}

-- The row that registration stores, with the defaults of its columns.
abbrev pub new_user : RegisterDto → Text → FreshUser → User
new_user dto password fresh = record {
  id = fresh.id;
  email = dto.email;
  username = dto.username;
  password = password;
  root_admin = false;
  uses_totp = false;
  totp_secret = none;
  pending_totp_secret = none;
  backup_codes = none;
  enabled = true;
  avatar_url = none;
  last_login = none;
  created_at = fresh.now;
  updated_at = fresh.now;
}

abbrev pub new_session : User → Visit → Session
new_session u v = record {
  id = v.session_id;
  user_id = u.id;
  refresh_token = v.refresh_token;
  ip_address = v.ip;
  user_agent = v.user_agent;
  last_active_at = v.now;
  revoked = false;
  created_at = v.now;
  updated_at = v.now;
}

-- A null or empty column is falsy.
abbrev pub present : Option Text → Option Text
present none = none
present (some []) = none
present (some (c ∷ s)) = some (c ∷ s)

abbrev pub enabled : Option User → Option User
enabled none = none
enabled (some u) = if u.enabled then some u else none

-- `where: { refreshToken, revoked: false }`.
abbrev pub is_live : Text → Session → Bool
is_live token s = s.refresh_token == token && not s.revoked

-- `where: { id, userId }`.
abbrev pub is_own : Text → Text → Session → Bool
is_own user id s = s.id == id && s.user_id == user

-- `where: [{ email }, { username }]`.
abbrev pub is_taken : Text → Text → User → Bool
is_taken email username u = u.email == email || u.username == username

module _ (orm : Orm) where
  -- `auditLogService.log` of packages/backend/src/audit-log/audit-log.service.ts.
  unfoldable pub log : (id : Text) (user event ip : Text) (now : ℕ) → M (Unit {0})
  log id user event ip now = do
    let entry : AuditLog = record {
      id = id;
      user_id = some user;
      event = event;
      ip = some ip;
      created_at = now;
    }
    stored ← gets (λ p. orm.insert audit_log_clash entry p.audit_logs)
    audit_logs ← or_throw internal stored
    modify (λ p. record p { audit_logs = audit_logs })

  -- `userRepo.save(user)`.
  unfoldable pub save_user : User → M (Unit {0})
  save_user user = do
    stored ← gets (λ p. orm.save user_clash (has_key user_id user.id) user p.users)
    users ← or_throw internal stored
    modify (λ p. record p { users = users })

  -- `sessionRepo.save(session)`.
  unfoldable pub save_session : Session → M (Unit {0})
  save_session session = do
    stored ← gets (λ p. orm.save session_clash (has_key session_id session.id) session p.sessions)
    sessions ← or_throw internal stored
    modify (λ p. record p { sessions = sessions })

  unfoldable pub logout : Text → M (Unit {0})
  logout id = do
    found ← gets (λ p. orm.find_one (has_key session_id id) p.sessions)
    session ← or_throw (not_found "Session not found") found
    save_session (record session { revoked = true })

  unfoldable pub revoke_session : (user id : Text) → M (Unit {0})
  revoke_session user id = do
    found ← gets (λ p. orm.find_one (is_own user id) p.sessions)
    session ← or_throw (not_found "Session not found") found
    save_session (record session { revoked = true })

  unfoldable pub get_user_sessions : Text → M (List Session)
  get_user_sessions user = gets (λ p. orm.find (λ s. s.user_id == user && not s.revoked) p.sessions)

  unfoldable pub validate_user : Text → M (Option User)
  validate_user id = gets (λ p. orm.find_one (λ u. u.id == id && u.enabled) p.users)

  module _ (crypto : Crypto) where
    open crypto use {hash, compare, sign}

    unfoldable pub register : RegisterDto → FreshUser → M User
    register dto fresh = do
      existing ← gets (λ p. orm.find_one (is_taken dto.email dto.username) p.users)
      throw_if (is_some existing) (conflict "Email or username already exists")
      let user = new_user dto (hash fresh.salt 12 dto.password) fresh
      stored ← gets (λ p. orm.insert user_clash user p.users)
      users ← or_throw internal stored
      modify (λ p. record p { users = users })
      log fresh.audit_id user.id (codes "user.created") [] fresh.now
      pure user

    -- The end of `login` and of `verifyTwoFactorLogin`: a token of 15 minutes, and a session.
    unfoldable pub sign_in : User → Visit → M LoginResult
    sign_in user v = do
      let token = sign (v.now / 1000) 900 (access_claims user)
      stored ← gets (λ p. orm.insert session_clash (new_session user v) p.sessions)
      sessions ← or_throw internal stored
      modify (λ p. record p {
        sessions = sessions;
        users =
            orm.update (has_key user_id user.id) (λ u. record u { last_login = some v.now })
              p.users;
      })
      log v.audit_id user.id (codes "user.login") v.ip v.now
      pure (signed_in token v.refresh_token (view user))

    unfoldable pub login : LoginDto → Visit → M LoginResult
    login dto v = do
      found ← gets (λ p. orm.find_one (has_key user_email dto.email) p.users)
      user ← or_throw (unauthorized "Invalid credentials") (enabled found)
      throw_if (not (compare dto.password user.password)) (unauthorized "Invalid credentials")
      let token = sign (v.now / 1000) 300 (two_factor_claims user)
      if user.uses_totp then pure (requires_two_factor token (view user)) else sign_in user v

    -- The new access token.
    unfoldable pub refresh_token : Text → (now : ℕ) → M Text
    refresh_token token now = do
      found ← gets (λ p. orm.find_one (is_live token) p.sessions)
      session ← or_throw (unauthorized "Invalid refresh token") found
      owner ← gets (λ p. orm.find_one (has_key user_id session.user_id) p.users)
      user ← or_throw (unauthorized "User not found or disabled") (enabled owner)
      save_session (record session { last_active_at = now })
      pure (sign (now / 1000) 900 (access_claims user))
