-- ===== src/Servers/Service.antt =====
-- packages/backend/src/servers/servers.service.ts: looking a server up, the power actions, suspension,
-- reinstallation, deletion and the status callback. Creation is in Create.
pub mod Laws
pub mod Owned
pub mod Power
pub mod Suspension
pub mod Installs
pub mod Deletion
use nexus_panel.Common.{
  ℕ, Bool, true, false, not, ◌&&◌, ◌||◌, Option, none, some, List, [], ◌∷◌, ◌++◌, if◌then◌else◌,
  any,
}
use mathlib.Core.Option.{get_or}
use nexus_panel.Common.Integers.{ℤ}
use nexus_panel.Common.Texts.{Text, codes, ◌==◌}
use nexus_panel.Database.Entities.{
  Server, ServerStatus, installing, install_failed, suspended, restoring_backup, transferring, Node,
  Egg, Allocation, User, Schedule, ScheduleTask, ServerSubuser, ServerDatabase, server_clash,
}
use nexus_panel.Database.Orm.{Orm}
use nexus_panel.Database.Rows.{has_key}
use nexus_panel.Database.Panel.{
  Panel, Failure, bad_request, not_found, forbidden, internal, wings_error, Result, ok, err, M,
  after, rescue, ◌>>=◌, ◌>>◌, pure, throw, gets, modify, when, throw_if, or_throw, catch,
}
use nexus_panel.Wings.Protocol.{PowerAction, kill, WingsServerConfig, PortMapping, Network}
use nexus_panel.Wings.Client

pub record UpdateServerDto : Type 0 where
  pub name : Option Text
  pub description : Option Text
  pub memory : Option ℕ
  pub cpu : Option ℕ
  pub disk : Option ℕ
  pub env_variables : Option (List (Text × Text))
  pub swap : Option ℤ
  pub io : Option ℤ
  pub threads : Option Text
  pub oom_disabled : Option Bool
  pub startup : Option Text
  pub image : Option Text
  pub external_id : Option Text

-- A server with its relations `node`, `egg`, `allocation` and `user`.
pub record Loaded : Type 0 where
  pub server : Server
  pub node : Option Node
  pub egg : Option Egg
  pub allocation : Option Allocation
  pub user : Option User

abbrev pub server_id : Server → Text
server_id s = s.id

abbrev pub server_uuid : Server → Text
server_uuid s = s.uuid

abbrev pub node_id : Node → Text
node_id n = n.id

abbrev pub egg_id : Egg → Text
egg_id e = e.id

abbrev pub user_id : User → Text
user_id u = u.id

abbrev pub allocation_id : Allocation → Text
allocation_id a = a.id

-- `where: { serverId }`, and the join of the inverse side of the relation.
abbrev pub assigned_to : Text → Allocation → Bool
assigned_to id a = elim a.server_id [ none ↦ false | some s ↦ s == id ]

abbrev pub schedule_of : Text → Schedule → Bool
schedule_of id s = s.server_id == id

abbrev pub subuser_of : Text → ServerSubuser → Bool
subuser_of id s = s.server_id == id

abbrev pub database_of : Text → ServerDatabase → Bool
database_of id d = d.server_id == id

-- The schedule of the task is one of the server.
abbrev pub task_of : Text → List Schedule → ScheduleTask → Bool
task_of id schedules t = any (λ s. s.id == t.schedule_id && s.server_id == id) schedules

abbrev pub is_status : ServerStatus → Option ServerStatus → Bool
is_status installing (some installing) = true
is_status install_failed (some install_failed) = true
is_status suspended (some suspended) = true
is_status restoring_backup (some restoring_backup) = true
is_status transferring (some transferring) = true
is_status _ _ = false

abbrev or_keep : Option Text → Option Text → Option Text
or_keep none old = old
or_keep (some v) old = some v

-- `Object.assign(server, dto)`: a property that is undefined changes no column.
abbrev pub assign : Server → UpdateServerDto → Server
assign s dto = record s {
  external_id = or_keep dto.external_id s.external_id;
  name = get_or dto.name s.name;
  description = or_keep dto.description s.description;
  memory = get_or dto.memory s.memory;
  swap = get_or dto.swap s.swap;
  disk = get_or dto.disk s.disk;
  io = get_or dto.io s.io;
  cpu = get_or dto.cpu s.cpu;
  threads = or_keep dto.threads s.threads;
  oom_disabled = get_or dto.oom_disabled s.oom_disabled;
  startup = get_or dto.startup s.startup;
  image = get_or dto.image s.image;
  env_variables = get_or dto.env_variables s.env_variables;
}

-- The configuration that the daemon is sent for a server.
abbrev pub config_of : Server → ℕ → WingsServerConfig
config_of s port = record {
  uuid = s.uuid;
  docker_image = s.image;
  startup_command = s.startup;
  environment = s.env_variables;
  memory_limit = s.memory;
  cpu_limit = s.cpu;
  disk_limit = s.disk;
  port_mappings = record { host_port = port; container_port = port } ∷ [];
  volume_path = codes "/srv/daemon-data/" ++ s.uuid;
}

abbrev ignore : M (Unit {0}) → M (Unit {0})
ignore m = catch m (λ _. pure tt)

-- Reading a property of a relation that is not there throws a TypeError.
abbrev pub need : {A : Type 0} → Option A → M A
need = or_throw internal

unfoldable pub check_access : Server → Text → Bool → M (Unit {0})
check_access server user is_admin =
    if is_admin
    then pure tt
    else throw_if (not (server.user_id == user)) (forbidden "You do not have access to this server")

module _ (orm : Orm) where
  unfoldable pub load : Panel → Server → Loaded
  load p s = record {
    server = s;
    node = orm.find_one (has_key node_id s.node_id) p.nodes;
    egg = orm.find_one (has_key egg_id s.egg_id) p.eggs;
    allocation = orm.find_one (assigned_to s.id) p.allocations;
    user = orm.find_one (has_key user_id s.user_id) p.users;
  }

  unfoldable pub find_by_uuid : Text → M Loaded
  unfolding load
  find_by_uuid uuid = do
    found ← gets (λ p. orm.find_one (has_key server_uuid uuid) p.servers)
    server ← or_throw (not_found "Server not found") found
    gets (λ p. load p server)

  unfoldable pub find_by_id : Text → M Loaded
  unfolding load
  find_by_id id = do
    found ← gets (λ p. orm.find_one (has_key server_id id) p.servers)
    server ← or_throw (not_found "Server not found") found
    gets (λ p. load p server)

  -- `serverRepo.update(id, …)`.
  unfoldable pub update_row : Text → (Server → Server) → M (Unit {0})
  update_row id f =
      modify (λ p. record p { servers = orm.update (has_key server_id id) f p.servers })

  unfoldable pub update : Text → UpdateServerDto → M Server
  update uuid dto = do
    found ← find_by_uuid uuid
    let changed = assign found.server dto
    stored ← gets (λ p. orm.save server_clash (has_key server_id changed.id) changed p.servers)
    servers ← or_throw internal stored
    modify (λ p. record p { servers = servers })
    pure changed

  -- The callback of a daemon at the end of an installation.
  unfoldable pub update_install_status : Text → Text → M (Unit {0})
  update_install_status uuid status = do
    found ← gets (λ p. orm.find_one (has_key server_uuid uuid) p.servers)
    server ← or_throw (not_found "Server not found") found
    if status == codes "success"
        then update_row server.id (λ s. record s { installed = 1; status = none })
        else update_row server.id (λ s. record s { installed = 2; status = some install_failed })

  -- `if (server.allocation)` the allocation is given back.
  unfoldable pub free : Option Allocation → M (Unit {0})
  free none = pure tt
  free (some a) = modify (λ p. record p {
    allocations =
        orm.update (has_key allocation_id a.id) (λ r. record r { server_id = none }) p.allocations;
  })

  -- What the foreign keys to a server that is gone take along: its schedules with their tasks, its subusers and its databases.
  unfoldable pub cascade : Text → Panel → Panel
  cascade id p = record p {
    schedule_tasks = orm.remove (task_of id p.schedules) p.schedule_tasks;
    schedules = orm.remove (schedule_of id) p.schedules;
    subusers = orm.remove (subuser_of id) p.subusers;
    databases = orm.remove (database_of id) p.databases;
  }

  module _ (net : Network) where
    -- The guards of `power` in their order.
    unfoldable pub power : Text → PowerAction → M (Unit {0})
    power uuid action = do
      found ← find_by_uuid uuid
      throw_if (is_status installing found.server.status)
          (bad_request "Cannot perform power action on a server that is still installing")
      throw_if (is_status suspended found.server.status)
          (bad_request "Cannot perform power action on a suspended server")
      node ← need found.node
      Client.power_action net node found.server.uuid action

    unfoldable pub send_command : Text → Text → M (Unit {0})
    send_command uuid command = do
      found ← find_by_uuid uuid
      node ← need found.node
      Client.send_command net node found.server.uuid command

    unfoldable pub get_stats : Text → M Text
    get_stats uuid = do
      found ← find_by_uuid uuid
      node ← need found.node
      Client.get_server_status net node found.server.uuid

    -- `suspendServer` and `unsuspendServer` of the Wings service are empty.
    unfoldable pub suspend : Text → M Loaded
    suspend id = do
      found ← find_by_id id
      throw_if (is_status suspended found.server.status) (bad_request "Server is already suspended")
      ignore (do node ← need found.node; Client.power_action net node found.server.uuid kill)
      update_row found.server.id (λ s. record s { status = some suspended })
      find_by_id id

    unfoldable pub unsuspend : Text → M Loaded
    unsuspend id = do
      found ← find_by_id id
      throw_if (not (is_status suspended found.server.status))
          (bad_request "Server is not suspended")
      update_row found.server.id (λ s. record s { status = none })
      find_by_id id

    unfoldable pub reinstall : Text → M Loaded
    reinstall id = do
      found ← find_by_id id
      update_row found.server.id (λ s. record s { installed = 0 })
      catch
          (do
            allocation ← need found.allocation
            node ← need found.node
            egg ← need found.egg
            Client.reinstall_server net node (config_of found.server allocation.port)
                (get_or egg.script_install []) egg.script_container)
          (λ _. throw (bad_request "Failed to reinstall server on Wings"))
      find_by_id id

    unfoldable pub delete : Text → M (Unit {0})
    delete uuid = do
      found ← find_by_uuid uuid
      ignore (do node ← need found.node; Client.delete_server net node found.server.uuid)
      free found.allocation
      modify (λ p. record p { servers = orm.remove (has_key server_id found.server.id) p.servers })
      modify (cascade found.server.id)
