-- ===== src/Servers/Controller.antt =====
-- packages/backend/src/servers/servers.controller.ts, with the guards that stand before it. The pipe that
-- validates the bodies and the limit on requests are the framework's.
pub mod Access
use nexus_panel.Common.{ℕ, Bool, true, false, not, Option, none, some, List, if◌then◌else◌}
use nexus_panel.Common.Texts.{Text, ◌==◌}
use nexus_panel.Common.Js.{Js}
use nexus_panel.Database.Entities.{Server}
use nexus_panel.Database.Orm.{Orm}
use nexus_panel.Database.Pages.{page_or, Pages, Paged}
use nexus_panel.Database.Panel.{
  Panel, forbidden, Result, ok, err, M, after, ◌>>=◌, ◌>>◌, pure, throw_if,
}
use nexus_panel.Wings.Protocol.{PowerAction, Network}
use nexus_panel.Auth.Crypto.{Crypto}
use nexus_panel.Auth.Guards.{HttpRequest, Identity, jwt_auth_guard, roles_guard}
use nexus_panel.Servers.Service
use nexus_panel.Servers.Service.{Loaded, UpdateServerDto, find_by_uuid, check_access}
use nexus_panel.Servers.Create
use nexus_panel.Servers.Create.{CreateServerDto, Fresh}
use nexus_panel.Servers.Listing.{find_all}

-- The endpoints with what they take from the request. A number of a page that is absent is `none`.
pub data Endpoint : Type 0 where
  list : (page per_page : Option ℕ) (search : Option Text) → Endpoint
  show : (uuid : Text) → Endpoint
  create : CreateServerDto → Fresh → Endpoint
  update : (uuid : Text) → UpdateServerDto → Endpoint
  delete : (uuid : Text) → Endpoint
  power : (uuid : Text) → PowerAction → Endpoint
  send_command : (uuid command : Text) → Endpoint
  suspend : (uuid : Text) → Endpoint
  unsuspend : (uuid : Text) → Endpoint
  reinstall : (uuid : Text) → Endpoint

pub data Answer : Type 0 where
  servers : Paged Loaded → Answer
  server : Loaded → Answer
  row : Server → Answer
  power_sent : PowerAction → Answer
  command_sent : Answer
  no_content : Answer

-- `@Roles('admin')`.
abbrev pub is_for_admins : Endpoint → Bool
is_for_admins (list page per_page search) = false
is_for_admins (show uuid) = false
is_for_admins (create dto fresh) = true
is_for_admins (update uuid dto) = false
is_for_admins (delete uuid) = true
is_for_admins (power uuid action) = false
is_for_admins (send_command uuid command) = false
is_for_admins (suspend uuid) = true
is_for_admins (unsuspend uuid) = true
is_for_admins (reinstall uuid) = true

module _ (js : Js) (orm : Orm) (pages : Pages) (net : Network) where
  -- `findByUuid` and `checkAccess`, with which the handlers of an owner start.
  unfoldable pub find_accessible : Text → Identity → M Loaded
  find_accessible uuid user = do
    found ← find_by_uuid orm uuid
    check_access found.server user.id user.root_admin
    pure found

  -- The handlers, at the time `now`.
  unfoldable pub handle : ℕ → Identity → Endpoint → M Answer
  handle now user (list page per_page search) = do
    found ←
        find_all orm pages (page_or page 1) (page_or per_page 25) (some user.id) user.root_admin
          search
    pure (servers found)
  handle now user (show uuid) = do found ← find_accessible uuid user; pure (server found)
  handle now user (create dto fresh) = do
    created ← Create.create js orm net now fresh dto
    pure (server created)
  handle now user (update uuid dto) = do
    _ ← find_accessible uuid user
    changed ← Service.update orm uuid dto
    pure (row changed)
  handle now user (delete uuid) = do Service.delete orm net uuid; pure no_content
  handle now user (power uuid action) = do
    _ ← find_accessible uuid user
    Service.power orm net uuid action
    pure (power_sent action)
  handle now user (send_command uuid command) = do
    _ ← find_accessible uuid user
    Service.send_command orm net uuid command
    pure command_sent
  handle now user (suspend uuid) = do
    found ← find_by_uuid orm uuid
    changed ← Service.suspend orm net found.server.id
    pure (server changed)
  handle now user (unsuspend uuid) = do
    found ← find_by_uuid orm uuid
    changed ← Service.unsuspend orm net found.server.id
    pure (server changed)
  handle now user (reinstall uuid) = do
    found ← find_by_uuid orm uuid
    changed ← Service.reinstall orm net found.server.id
    pure (server changed)

  -- `JwtAuthGuard`, `RolesGuard`, the handler.
  unfoldable pub route : Crypto → (Option Text → Option Text) → HttpRequest → Endpoint → M Answer
  route crypto from_auth_header request endpoint = do
    user ← jwt_auth_guard orm crypto from_auth_header request
    throw_if (not (roles_guard (is_for_admins endpoint) user)) (forbidden "Forbidden resource")
    handle request.now user endpoint
