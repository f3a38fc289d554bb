-- ===== src/Subusers/Service.antt =====
-- packages/backend/src/subusers/subusers.service.ts.
use nexus_panel.Common.{ℕ, Bool, ◌&&◌, List, is_some}
use nexus_panel.Common.Texts.{Text, ◌==◌}
use nexus_panel.Database.Entities.{ServerSubuser, subuser_clash}
use nexus_panel.Database.Orm.{Orm}
use nexus_panel.Database.Rows.{has_key}
use nexus_panel.Database.Panel.{
  not_found, conflict, internal, M, ◌>>=◌, ◌>>◌, pure, gets, modify, throw_if, or_throw,
}
use nexus_panel.Auth.Service.{user_email}

abbrev pub subuser_id : ServerSubuser → Text
subuser_id s = s.id

abbrev pub is_subuser : (server_id user_id : Text) → ServerSubuser → Bool
is_subuser server_id user_id s = s.server_id == server_id && s.user_id == user_id

abbrev pub new_subuser : (server_id user_id : Text) → List Text → Text → ℕ → ServerSubuser
new_subuser server_id user_id permissions id now = record {
  id = id;
  server_id = server_id;
  user_id = user_id;
  permissions = permissions;
  created_at = now;
  updated_at = now;
}

module _ (orm : Orm) where
  unfoldable pub invite : (server_id email : Text) → List Text → (id : Text) → ℕ → M ServerSubuser
  invite server_id email permissions id now = do
    found ← gets (λ p. orm.find_one (has_key user_email email) p.users)
    user ← or_throw (not_found "User with this email not found") found
    existing ← gets (λ p. orm.find_one (is_subuser server_id user.id) p.subusers)
    throw_if (is_some existing) (conflict "User is already a subuser of this server")
    let subuser : ServerSubuser = new_subuser server_id user.id permissions id now
    stored ← gets (λ p. orm.insert subuser_clash subuser p.subusers)
    subusers ← or_throw internal stored
    modify (λ p. record p { subusers = subusers })
    pure subuser

  unfoldable pub update : Text → List Text → M ServerSubuser
  update id permissions = do
    found ← gets (λ p. orm.find_one (has_key subuser_id id) p.subusers)
    subuser ← or_throw (not_found "Subuser not found") found
    let changed : ServerSubuser = record subuser { permissions = permissions }
    stored ← gets (λ p. orm.save subuser_clash (has_key subuser_id subuser.id) changed p.subusers)
    subusers ← or_throw internal stored
    modify (λ p. record p { subusers = subusers })
    pure changed

  unfoldable pub remove : Text → M (Unit {0})
  remove id = do
    found ← gets (λ p. orm.find_one (has_key subuser_id id) p.subusers)
    subuser ← or_throw (not_found "Subuser not found") found
    modify (λ p. record p { subusers = orm.remove (has_key subuser_id subuser.id) p.subusers })

  -- The users of the rows, which the query joins, are not in the answer here.
  unfoldable pub find_by_server : Text → M (List ServerSubuser)
  find_by_server server_id = gets (λ p. orm.find (λ s. s.server_id == server_id) p.subusers)
