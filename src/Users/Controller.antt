-- ===== src/Users/Controller.antt =====
-- packages/backend/src/users/users.controller.ts, with the guards that stand before it. The pipe that validates
-- the bodies is the framework's: a body has the properties of its class and no others.
pub mod Rights
use nexus_panel.Common.{ℕ, Bool, true, false, not, Option, none, some}
use mathlib.Core.Option.{get_or}
use nexus_panel.Common.Texts.{Text}
use nexus_panel.Database.Orm.{Orm}
use nexus_panel.Database.Pages.{page_or, Pages, Paged}
use nexus_panel.Database.Panel.{M, not_found, forbidden, ◌>>=◌, ◌>>◌, pure, throw_if}
use nexus_panel.Auth.Crypto.{Crypto}
use nexus_panel.Auth.Guards.{HttpRequest, Identity, jwt_auth_guard, roles_guard}
use nexus_panel.Users.Service
use nexus_panel.Users.Service.{
  CreateUserDto, UpdateUserDto, UpdateProfileDto, UserSummary, UserResult, Draw, of_profile,
  of_service,
}

-- The endpoints with what they take from the request; a salt is drawn for a password.
pub data UserRequest : Type 0 where
  get_me : UserRequest
  update_me : UpdateProfileDto → (salt : Text) → UserRequest
  find_all : (page per_page : Option ℕ) → (search : Option Text) → UserRequest
  find_by_id : (id : Text) → UserRequest
  create : CreateUserDto → Draw → UserRequest
  update : (id : Text) → UpdateUserDto → (salt : Text) → UserRequest
  delete : (id : Text) → UserRequest

pub data UserAnswer : Type 0 where
  found : UserSummary → UserAnswer
  listed : Paged UserSummary → UserAnswer
  written : UserResult → UserAnswer
  no_content : UserAnswer

-- `@Roles('admin')`.
abbrev pub is_for_admins : UserRequest → Bool
is_for_admins get_me = false
is_for_admins (update_me dto salt) = false
is_for_admins (find_all page per_page search) = true
is_for_admins (find_by_id id) = true
is_for_admins (create dto draw) = true
is_for_admins (update id dto salt) = true
is_for_admins (delete id) = true

module _ (orm : Orm) (pages : Pages) (crypto : Crypto) where
  unfoldable pub handle : Identity → UserRequest → M UserAnswer
  handle user get_me = do
    row ← Service.find_by_id orm (not_found "User not found") user.id
    pure (found row)
  handle user (update_me dto salt) = do
    row ← Service.update orm crypto of_service user.id (of_profile dto) salt
    pure (written row)
  handle user (find_all page per_page search) = do
    rows ← Service.find_all orm pages (page_or page 1) (page_or per_page 25) search
    pure (listed rows)
  handle user (find_by_id id) = do
    row ← Service.find_by_id orm (not_found "User not found") id
    pure (found row)
  handle user (create dto draw) = do
    row ← Service.create orm crypto of_service dto draw
    pure (written row)
  handle user (update id dto salt) = do
    row ← Service.update orm crypto of_service id dto salt
    pure (written row)
  handle user (delete id) = do Service.delete orm id; pure no_content

  -- `JwtAuthGuard`, `RolesGuard`, the handler.
  unfoldable pub route : (Option Text → Option Text) → HttpRequest → UserRequest → M UserAnswer
  route from_auth_header http request = do
    user ← jwt_auth_guard orm crypto from_auth_header http
    throw_if (not (roles_guard (is_for_admins request) user)) (forbidden "Forbidden resource")
    handle user request
