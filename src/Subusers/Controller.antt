-- ===== src/Subusers/Controller.antt =====
-- packages/backend/src/subusers/subusers.controller.ts, behind its guard of the token.
pub mod Unscoped
use nexus_panel.Common.{ℕ, Option, List}
use nexus_panel.Common.Texts.{Text, ◌==◌}
use nexus_panel.Database.Entities.{ServerSubuser, User}
use nexus_panel.Database.Orm.{Orm}
use nexus_panel.Database.Rows.{has_key}
use nexus_panel.Database.Panel.{M, ◌>>=◌, ◌>>◌, pure, gets}
use nexus_panel.Auth.Guards.{Identity}
use nexus_panel.Servers.Service.Owned.{get_server_with_access}
use nexus_panel.Subusers.Service

pub data SubuserRequest : Type 0 where
  list : SubuserRequest
  invite : (email : Text) → (permissions : List Text) → SubuserRequest
  update : (id : Text) → (permissions : List Text) → SubuserRequest
  remove : (id : Text) → SubuserRequest

pub data SubuserAnswer : Type 0 where
  subusers : List ServerSubuser → SubuserAnswer
  subuser : ServerSubuser → SubuserAnswer
  no_content : SubuserAnswer

-- The id of a new row and the time.
module _ (orm : Orm) (new_id : Text) (now : ℕ) where
  unfoldable pub serve : SubuserRequest → (server_id : Text) → M SubuserAnswer
  serve list server_id = do rows ← Service.find_by_server orm server_id; pure (subusers rows)
  serve (invite email permissions) server_id = do
    row ← Service.invite orm server_id email permissions new_id now
    pure (subuser row)
  serve (update id permissions) server_id = do
    row ← Service.update orm id permissions
    pure (subuser row)
  serve (remove id) server_id = do Service.remove orm id; pure no_content

  unfoldable pub handle : Identity → (uuid : Text) → SubuserRequest → M SubuserAnswer
  handle user uuid request = do
    found ← get_server_with_access orm uuid user
    serve request found.server.id
