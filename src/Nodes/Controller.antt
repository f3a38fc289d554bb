-- ===== src/Nodes/Controller.antt =====
-- packages/backend/src/nodes/nodes.controller.ts, with the guards that stand before each endpoint. The address of
-- the panel and the base64 of a configuration token are arguments.
pub mod Trust
use mathlib.Core.Option.{get_or}
use nexus_panel.Common.{ℕ, Bool, true, false, not, Option, none, some, if◌then◌else◌}
use nexus_panel.Common.Texts.{Text}
use nexus_panel.Database.Entities.{Node}
use nexus_panel.Database.Orm.{Orm}
use nexus_panel.Database.Pages.{page_or, Pages, Paged}
use nexus_panel.Database.Panel.{M, forbidden, ◌>>=◌, ◌>>◌, pure, throw_if}
use nexus_panel.Auth.Crypto.{Crypto}
use nexus_panel.Auth.Guards.{HttpRequest, Identity, jwt_auth_guard, roles_guard, daemon_token_guard}
use nexus_panel.Nodes.HeartbeatStore.{HeartbeatData}
use nexus_panel.Nodes.Service
use nexus_panel.Nodes.Service.{CreateNodeDto, UpdateNodeDto, Fresh, Health, NodeConfiguration}

-- The endpoints for daemons.
pub data DaemonRequest : Type 0 where
  heartbeat : HeartbeatData → DaemonRequest
  get_configuration : DaemonRequest

-- The endpoints for administrators, with what they take from the request and what is drawn for a new token.
pub data NodeRequest : Type 0 where
  find_all : (page per_page : Option ℕ) → (search : Option Text) → NodeRequest
  find_by_id : (id : Text) → NodeRequest
  get_health : (id : Text) → NodeRequest
  create : CreateNodeDto → Fresh → NodeRequest
  regenerate_token : (id : Text) → Fresh → NodeRequest
  update : (id : Text) → UpdateNodeDto → NodeRequest
  delete : (id : Text) → NodeRequest

pub data NodeAnswer : Type 0 where
  no_content : NodeAnswer
  configuration : NodeConfiguration → NodeAnswer
  listed : Paged Node → NodeAnswer
  found : Node → NodeAnswer
  health : Health → NodeAnswer
  created : Node → (configuration_token : Text) → NodeAnswer
  renewed : (token_id token configuration_token : Text) → NodeAnswer

module _ (orm : Orm) (app_url : Option Text) (now : ℕ) where
  unfoldable pub handle_daemon : Node → DaemonRequest → M NodeAnswer
  handle_daemon node (heartbeat dto) = do
    Service.process_heartbeat orm now node dto
    pure no_content
  handle_daemon node get_configuration =
      pure (configuration (Service.get_configuration app_url node))

  -- `DaemonTokenGuard`, the handler.
  unfoldable pub route_daemon : HttpRequest → DaemonRequest → M NodeAnswer
  route_daemon http request = do node ← daemon_token_guard orm http; handle_daemon node request

module _ (orm : Orm) (pages : Pages) (crypto : Crypto) (encode : Text → Text → Text) (now : ℕ) where
  unfoldable pub handle : NodeRequest → M NodeAnswer
  handle (find_all page per_page search) = do
    rows ← Service.find_all orm pages (page_or page 1) (page_or per_page 25) search
    pure (listed rows)
  handle (find_by_id id) = do node ← Service.find_by_id orm id; pure (found node)
  handle (get_health id) = do answer ← Service.get_health orm now id; pure (health answer)
  handle (create dto fresh) = do
    (node, token) ← Service.create orm encode dto fresh
    pure (created node token)
  handle (regenerate_token id fresh) = do
    (token_id, token, configuration_token) ← Service.regenerate_token orm encode id fresh
    pure (renewed token_id token configuration_token)
  handle (update id dto) = do node ← Service.update orm id dto; pure (found node)
  handle (delete id) = do Service.delete orm id; pure no_content

  -- `JwtAuthGuard`, `RolesGuard`, the handler.
  unfoldable pub route : (Option Text → Option Text) → HttpRequest → NodeRequest → M NodeAnswer
  route from_auth_header http request = do
    user ← jwt_auth_guard orm crypto from_auth_header http
    throw_if (not (roles_guard true user)) (forbidden "Forbidden resource")
    handle request
