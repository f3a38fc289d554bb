-- ===== src/Auth/ApiKeys/Laws.antt =====
-- An API key, from its creation to its deletion.
use nexus_panel.Common.{◌≡◌, refl, false, some, ◌∷◌, ◌++◌, any}
use nexus_panel.Common.Texts.{Text, codes, ==_refl}
use nexus_panel.Database.Entities.{api_key_clash}
use nexus_panel.Database.Orm.{Orm}
use nexus_panel.Database.Rows.{has_key, find_one_only}
use nexus_panel.Database.Panel.{Panel, ok}
use nexus_panel.Auth.Crypto.{Crypto}
use nexus_panel.Auth.Service.{user_id}
use nexus_panel.Auth.Guards.{HttpRequest, api_key_guard}
use nexus_panel.Auth.Guards.Laws.{api_key_guard_lem}
use nexus_panel.Auth.ApiKeys.{
  take, key_start, CreateApiKeyDto, FreshKey, plain_token, new_api_key, create,
}

module _ (orm : Orm) (crypto : Crypto) where
  -- A new key whose row clashes with none is stored with its hash only, and a request that bears
  -- its token is let in as the user that it was made for, if no key before it starts the same.
  pub create-api_key_guard :
      (user : Text) (dto : CreateApiKeyDto) (fresh : FreshKey) (request : HttpRequest) (p : Panel)
      → any (api_key_clash (new_api_key crypto user dto fresh)) p.api_keys ≡ false
      → any (has_key key_start (take 16 (plain_token fresh.hex))) p.api_keys ≡ false
      → request.authorization ≡ some (codes "Bearer " ++ plain_token fresh.hex)
      → ((create orm crypto user dto fresh p).0 ≡ ok (plain_token fresh.hex))
        × ((create orm crypto user dto fresh p).1
            ≡ record p { api_keys = new_api_key crypto user dto fresh ∷ p.api_keys })
        × ((api_key_guard orm crypto request (create orm crypto user dto fresh p).1).0
            ≡ ok (orm.find_one (has_key user_id user) p.users))
  unfolding create
  create-api_key_guard user dto fresh request p c n a =
      let key = new_api_key crypto user dto fresh in
      let q = record p { api_keys = key ∷ p.api_keys } in
      let found : orm.find_one (has_key key_start (take 16 (plain_token fresh.hex))) q.api_keys
          ≡ some key =
        find_one_only orm (has_key key_start (take 16 (plain_token fresh.hex))) key p.api_keys
          (==_refl (take 16 (plain_token fresh.hex))) n in
      rw (orm.insert_lem api_key_clash key p.api_keys, create)
        (rw (c, create)
          (
            refl,
            refl,
            api_key_guard_lem orm crypto request (take 43 fresh.hex) q key a found
                (crypto.compare_hash fresh.salt 10 (plain_token fresh.hex)),
          ))
