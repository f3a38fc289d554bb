-- ===== src/Auth/ApiKeys.antt =====
-- packages/backend/src/api-keys/api-keys.service.ts. The guard that reads the keys is in Guards.
pub mod Laws
use nexus_panel.Common.{ℕ, zero, suc, ◌∷◌, ◌&&◌, Bool, Option, none, some, List, [], ◌++◌}
use mathlib.Core.Option.{get_or}
use nexus_panel.Common.Texts.{Text, codes, ◌==◌}
use nexus_panel.Database.Entities.{ApiKey, api_key_clash}
use nexus_panel.Database.Orm.{Orm}
use nexus_panel.Database.Rows.{has_key}
use nexus_panel.Database.Panel.{
  Panel, not_found, internal, M, ok, after, ◌>>=◌, ◌>>◌, pure, gets, modify, or_throw,
}
use nexus_panel.Auth.Crypto.{Crypto}

-- `token.substring(0, n)`.
abbrev pub take : ℕ → Text → Text
take zero s = []
take (suc n) [] = []
take (suc n) (c ∷ s) = c ∷ take n s

abbrev pub api_key_id : ApiKey → Text
api_key_id k = k.id

abbrev pub key_start : ApiKey → Text
key_start k = k.key_start

pub record CreateApiKeyDto : Type 0 where
  pub memo : Option Text
  pub allowed_ips : Option (List Text)

-- `hex` is the text of the random bytes.
pub record FreshKey : Type 0 where
  pub id : Text
  pub hex : Text
  pub salt : Text
  pub now : ℕ

abbrev pub plain_token : Text → Text
plain_token hex = codes "ptlc_" ++ take 43 hex

abbrev pub new_api_key : Crypto → Text → CreateApiKeyDto → FreshKey → ApiKey
new_api_key crypto user dto fresh = record {
  id = fresh.id;
  user_id = user;
  key_start = take 16 (plain_token fresh.hex);
  token = crypto.hash fresh.salt 10 (plain_token fresh.hex);
  memo = dto.memo;
  allowed_ips = get_or dto.allowed_ips [];
  last_used_at = none;
  created_at = fresh.now;
  updated_at = fresh.now;
}

module _ (orm : Orm) where
  unfoldable pub find_by_user : Text → M (List ApiKey)
  find_by_user user = gets (λ p. orm.find (λ k. k.user_id == user) p.api_keys)

  -- The token in clear, which is shown once.
  unfoldable pub create : Crypto → Text → CreateApiKeyDto → FreshKey → M Text
  create crypto user dto fresh = do
    stored ← gets (λ p. orm.insert api_key_clash (new_api_key crypto user dto fresh) p.api_keys)
    api_keys ← or_throw internal stored
    modify (λ p. record p { api_keys = api_keys })
    pure (plain_token fresh.hex)

  unfoldable pub find_by_key_start : Text → M (Option ApiKey)
  find_by_key_start start = gets (λ p. orm.find_one (has_key key_start start) p.api_keys)

  unfoldable pub update_last_used : Text → ℕ → M (Unit {0})
  update_last_used id now = modify (λ p. record p {
    api_keys =
        orm.update (has_key api_key_id id) (λ k. record k { last_used_at = some now }) p.api_keys;
  })

  unfoldable pub delete : (id user : Text) → M (Unit {0})
  delete id user = do
    found ← gets (λ p. orm.find_one (λ k. k.id == id && k.user_id == user) p.api_keys)
    key ← or_throw (not_found "API key not found") found
    modify (λ p. record p { api_keys = orm.remove (has_key api_key_id key.id) p.api_keys })
