-- ===== src/Auth/Guards.antt =====
-- packages/backend/src/common/guards and packages/backend/src/auth/strategies/jwt.strategy.ts: who a request is let in as.
pub mod Laws
use nexus_panel.Common.{
  ℕ, zero, suc, ◌+◌, ◌/◌, Bool, true, false, not, ◌&&◌, ◌||◌, Option, none, some, List, [], ◌∷◌,
  if◌then◌else◌, is_some,
}
use nexus_panel.Common.Texts.{Text, codes, ◌==◌, strip_prefix, cut_at}
use nexus_panel.Database.Entities.{User, Node, ApiKey}
use nexus_panel.Database.Orm.{Orm}
use nexus_panel.Database.Rows.{has_key}
use nexus_panel.Database.Panel.{
  Panel, Failure, unauthorized, internal, Result, ok, err, M, after, rescue, ◌>>=◌, ◌>>◌, pure,
  throw, gets, modify, throw_if, or_throw, catch,
}
use nexus_panel.Auth.Crypto.{Crypto, Claims}
use nexus_panel.Auth.ApiKeys.{take, find_by_key_start, update_last_used}
use nexus_panel.Auth.Service.{user_id, present, validate_user}

-- What the guards read of a request. `from_auth_header` is the extractor of passport-jwt.
pub record HttpRequest : Type 0 where
  pub authorization : Option Text
  pub nexus_session : Option Text
  pub now : ℕ

-- `request.user`.
pub record Identity : Type 0 where
  pub id : Text
  pub email : Text
  pub root_admin : Bool

abbrev pub identity : User → Identity
identity u = record { id = u.id; email = u.email; root_admin = u.root_admin }

-- The header without `Bearer `, where it starts so.
abbrev pub bearer_token : Option Text → Option Text
bearer_token none = none
bearer_token (some h) = strip_prefix (codes "Bearer ") h

-- The prefix of an API key.
abbrev pub is_api_key : Text → Bool
is_api_key token = is_some (strip_prefix (codes "ptlc_") token)

abbrev pub node_token_id : Node → Text
node_token_id n = n.daemon_token_id

-- `RolesGuard`: a handler that asks for an administrator is closed to others.
unfoldable pub roles_guard : (requires_admin : Bool) → Identity → Bool
roles_guard requires_admin user = if not requires_admin then true else user.root_admin

abbrev pub any_token : (Text → Bool) → Option Text → Bool
any_token test none = false
any_token test (some t) = test t

module _ (orm : Orm) where
  -- `DaemonTokenGuard`: the node that the request comes from.
  unfoldable pub daemon_token_guard : HttpRequest → M Node
  daemon_token_guard request = do
    bearer ← or_throw (unauthorized "Missing daemon token") (bearer_token request.authorization)
    parts ← or_throw (unauthorized "Invalid daemon token format") (cut_at 46 bearer)
    found ← gets (λ p. orm.find_one (has_key node_token_id parts.0) p.nodes)
    node ← or_throw (unauthorized "Invalid daemon token") found
    throw_if (not (parts.1 == node.daemon_token)) (unauthorized "Invalid daemon token")
    pure node

  module _ (crypto : Crypto) where
    -- `ApiKeyGuard`. A key without its user leaves `request.user` undefined, at which the handlers fail.
    unfoldable pub api_key_guard : HttpRequest → M (Option User)
    api_key_guard request = do
      token ←
          or_throw (unauthorized "Missing authorization header")
            (bearer_token request.authorization)
      throw_if (not (is_api_key token)) (unauthorized "Invalid API key format")
      found ← find_by_key_start orm (take 16 token)
      key ← or_throw (unauthorized "Invalid API key") found
      throw_if (not (crypto.compare token key.token)) (unauthorized "Invalid API key")
      user ← gets (λ p. orm.find_one (has_key user_id key.user_id) p.users)
      update_last_used orm key.id request.now
      pure user

    module _ (from_auth_header : Option Text → Option Text) where
      -- `cookieThenBearerExtractor`.
      unfoldable pub extract_token : HttpRequest → Option Text
      extract_token request = elim (present request.nexus_session) [
        | some t ↦ some t
        | none ↦ from_auth_header request.authorization
      ]

      -- `JwtAuthGuard` with `JwtStrategy.validate`.
      unfoldable pub jwt_auth_guard : HttpRequest → M Identity
      jwt_auth_guard request = do
        token ← or_throw (unauthorized "Unauthorized") (extract_token request)
        payload ← or_throw (unauthorized "Unauthorized") (crypto.verify (request.now / 1000) token)
        found ← validate_user orm payload.sub
        user ← or_throw (unauthorized "Unauthorized") found
        pure (identity user)

      abbrev as_user : Option User → Option Identity
      as_user none = none
      as_user (some u) = some (identity u)

      -- `CombinedAuthGuard`. The fallback throws, whatever the guard for API keys answers.
      unfoldable pub combined_auth_guard : HttpRequest → M (Option Identity)
      combined_auth_guard request =
          if any_token is_api_key (bearer_token request.authorization)
          then (do user ← api_key_guard request; pure (as_user user))
          else catch (do user ← jwt_auth_guard request; pure (some user))
              (λ _. do _ ← api_key_guard request; throw internal)
