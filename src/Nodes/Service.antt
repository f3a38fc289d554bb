-- ===== src/Nodes/Service.antt =====
-- packages/backend/src/nodes/nodes.service.ts. The clock, the random tokens and the generated id are
-- arguments; `encode` is the base64 of the JSON of the configuration token.
pub mod Connection
use nexus_panel.Common.{ℕ, Bool, true, false, not, ◌&&◌, Option, none, some, List, ◌∷◌, ◌++◌}
use mathlib.Core.Option.{get_or}
use nexus_panel.Common.Integers.{ℤ, pos}
use nexus_panel.Common.Texts.{Text, codes}
use nexus_panel.Database.Entities.{
  Node, NodeConnectionStatus, connected, disconnected, error, node_clash,
}
use nexus_panel.Database.Orm.{Orm}
use nexus_panel.Database.Rows.{has_key}
use nexus_panel.Database.Pages.{Pages, Paged, containing, paginate}
use nexus_panel.Auth.Service.{present}
use nexus_panel.Database.Panel.{
  Panel, Failure, not_found, internal, Result, ok, err, M, after, ◌>>=◌, ◌>>◌, pure, gets, modify,
  when, or_throw,
}
use nexus_panel.Nodes.HeartbeatStore
use nexus_panel.Nodes.HeartbeatStore.{HeartbeatData, is_online}

pub record CreateNodeDto : Type 0 where
  pub name : Text
  pub description : Option Text
  pub location : Text
  pub fqdn : Text
  pub scheme : Text
  pub behind_proxy : Option Bool
  pub memory : ℕ
  pub memory_overallocate : Option ℤ
  pub disk : ℕ
  pub disk_overallocate : Option ℤ
  pub daemon_port : Option ℕ
  pub upload_size : Option ℕ

pub record UpdateNodeDto : Type 0 where
  pub name : Option Text
  pub description : Option Text
  pub location : Option Text
  pub fqdn : Option Text
  pub scheme : Option Text
  pub behind_proxy : Option Bool
  pub memory : Option ℕ
  pub memory_overallocate : Option ℤ
  pub disk : Option ℕ
  pub disk_overallocate : Option ℤ
  pub daemon_port : Option ℕ
  pub upload_size : Option ℕ

-- What the database and the random source supply to a new row.
pub record Fresh : Type 0 where
  pub id : Text
  pub token_id : Text
  pub token : Text
  pub now : ℕ

pub record Health : Type 0 where
  pub node_id : Text
  pub online : Bool
  pub last_heartbeat : Option HeartbeatData

abbrev or_keep : Option Text → Option Text → Option Text
or_keep none old = old
or_keep (some v) old = some v

abbrev is_connected : NodeConnectionStatus → Bool
is_connected connected = true
is_connected disconnected = false
is_connected error = false

abbrev pub node_id : Node → Text
node_id n = n.id

-- The row that `create` stores: a column that the request leaves out takes its default.
abbrev pub new_node : CreateNodeDto → Fresh → Node
new_node dto fresh = record {
  id = fresh.id;
  name = dto.name;
  description = dto.description;
  location = dto.location;
  location_id = none;
  fqdn = dto.fqdn;
  scheme = dto.scheme;
  behind_proxy = get_or dto.behind_proxy false;
  memory = dto.memory;
  memory_overallocate = get_or dto.memory_overallocate (pos 0);
  disk = dto.disk;
  disk_overallocate = get_or dto.disk_overallocate (pos 0);
  daemon_port = get_or dto.daemon_port 8080;
  daemon_token_id = fresh.token_id;
  daemon_token = fresh.token;
  upload_size = get_or dto.upload_size 100;
  connection_status = disconnected;
  wings_version = none;
  created_at = fresh.now;
  updated_at = fresh.now;
}

-- `Object.assign(node, dto)`: a property that is undefined changes no column.
abbrev pub assign : Node → UpdateNodeDto → Node
assign node dto = record node {
  name = get_or dto.name node.name;
  description = or_keep dto.description node.description;
  location = get_or dto.location node.location;
  fqdn = get_or dto.fqdn node.fqdn;
  scheme = get_or dto.scheme node.scheme;
  behind_proxy = get_or dto.behind_proxy node.behind_proxy;
  memory = get_or dto.memory node.memory;
  memory_overallocate = get_or dto.memory_overallocate node.memory_overallocate;
  disk = get_or dto.disk node.disk;
  disk_overallocate = get_or dto.disk_overallocate node.disk_overallocate;
  daemon_port = get_or dto.daemon_port node.daemon_port;
  upload_size = get_or dto.upload_size node.upload_size;
}

-- What a daemon is configured with.
pub record NodeConfiguration : Type 0 where
  pub node_id : Text
  pub name : Text
  pub fqdn : Text
  pub scheme : Text
  pub daemon_port : ℕ
  pub memory : ℕ
  pub memory_overallocate : ℤ
  pub disk : ℕ
  pub disk_overallocate : ℤ
  pub upload_size : ℕ
  pub behind_proxy : Bool
  pub location : Text
  pub panel_api_url : Text

-- The address of the panel comes from its environment.
abbrev pub get_configuration : (app_url : Option Text) → Node → NodeConfiguration
get_configuration app_url n = record {
  node_id = n.id;
  name = n.name;
  fqdn = n.fqdn;
  scheme = n.scheme;
  daemon_port = n.daemon_port;
  memory = n.memory;
  memory_overallocate = n.memory_overallocate;
  disk = n.disk;
  disk_overallocate = n.disk_overallocate;
  upload_size = n.upload_size;
  behind_proxy = n.behind_proxy;
  location = n.location;
  panel_api_url = get_or app_url (codes "http://localhost:3000");
}

module _ (orm : Orm) where
  -- `findOne({ where: { id } })` and the exception when there is no such row.
  unfoldable pub find_by_id : Text → M Node
  find_by_id id = do
    found ← gets (λ p. orm.find_one (has_key node_id id) p.nodes)
    or_throw (not_found "Node not found") found

  -- `nodeRepo.update(id, …)`.
  unfoldable pub update_row : Text → (Node → Node) → M (Unit {0})
  update_row id f = modify (λ p. record p { nodes = orm.update (has_key node_id id) f p.nodes })

  -- The new node, with the token that its daemon is to be given: `<token id>.<token>`.
  unfoldable pub create : (encode : Text → Text → Text) → CreateNodeDto → Fresh → M (Node × Text)
  create encode dto fresh = do
    let node = new_node dto fresh
    stored ← gets (λ p. orm.insert node_clash node p.nodes)
    nodes ← or_throw internal stored
    modify (λ p. record p { nodes = nodes })
    pure (node, encode node.id (fresh.token_id ++ b'.' ∷ fresh.token))

  unfoldable pub update : Text → UpdateNodeDto → M Node
  unfolding find_by_id
  update id dto = do
    node ← find_by_id id
    let changed = assign node dto
    stored ← gets (λ p. orm.save node_clash (has_key node_id id) changed p.nodes)
    nodes ← or_throw internal stored
    modify (λ p. record p { nodes = nodes })
    pure changed

  unfoldable pub delete : Text → M (Unit {0})
  unfolding find_by_id
  delete id = do
    node ← find_by_id id
    modify (λ p. record p { nodes = orm.remove (has_key node_id node.id) p.nodes })

  unfoldable pub process_heartbeat : ℕ → Node → HeartbeatData → M (Unit {0})
  unfolding update_row
  process_heartbeat now node report = do
    was_online ← gets (λ p. is_online now node.id p.heartbeats)
    modify (λ p. record p {
      heartbeats = HeartbeatStore.set node.id (record report { received_at = now }) p.heartbeats;
    })
    when (not was_online && not (is_connected node.connection_status)) (
        update_row node.id
          (λ n. record n { connection_status = connected; wings_version = some report.version }))

  unfoldable pub get_health : ℕ → Text → M Health
  unfolding find_by_id update_row
  get_health now id = do
    node ← find_by_id id
    heartbeat ← gets (λ p. HeartbeatStore.get node.id p.heartbeats)
    online ← gets (λ p. is_online now node.id p.heartbeats)
    when (not online && is_connected node.connection_status)
        (update_row node.id (λ n. record n { connection_status = disconnected }))
    pure (record { node_id = node.id; online = online; last_heartbeat = heartbeat })

  pub regenerate_token : (encode : Text → Text → Text) → Text → Fresh → M (Text × Text × Text)
  unfolding find_by_id update_row
  regenerate_token encode id fresh = do
    node ← find_by_id id
    update_row id (λ n. record n { daemon_token_id = fresh.token_id; daemon_token = fresh.token })
    pure (fresh.token_id, fresh.token, encode id (fresh.token_id ++ b'.' ∷ fresh.token))

  -- `where: { name: Like(…) }`, where a search is given.
  abbrev pub is_found : Pages → Option Text → Node → Bool
  is_found pages none n = true
  is_found pages (some search) n = pages.like (containing search) n.name

  unfoldable pub find_all : Pages → (page per_page : ℕ) → Option Text → M (Paged Node)
  find_all pages page per_page search =
      paginate pages (λ p. p.nodes) (is_found pages (present search)) page per_page
