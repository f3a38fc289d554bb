-- ===== src/Servers/Create.antt =====
-- packages/backend/src/servers/servers.service.ts: `create`, step by step. What the database and the
-- random source supply to the new row is the argument `fresh`.
pub mod Approve
pub mod Frame
pub mod Effect
pub mod Outcomes
pub mod Capacity
use nexus_panel.Common.{
  ℕ, ◌+◌, Bool, true, false, not, ◌&&◌, ◌||◌, Option, none, some, List, [], ◌∷◌, ◌++◌,
  if◌then◌else◌,
}
use mathlib.Core.Option.{get_or}
use nexus_panel.Common.Integers.{ℤ, pos}
use nexus_panel.Common.Texts.{Text, codes, ◌==◌}
use nexus_panel.Common.Dicts
use nexus_panel.Common.Js.{Js}
use nexus_panel.Database.Entities.{
  Server, ServerStatus, installing, install_failed, Node, Egg, EggVariable, Allocation, User,
  server_clash,
}
use nexus_panel.Database.Orm.{Orm}
use nexus_panel.Database.Rows.{has_key}
use nexus_panel.Database.Panel.{
  Panel, bad_request, not_found, internal, invalid_variables, Result, ok, err, M, ◌>>=◌, ◌>>◌, pure,
  throw, gets, modify, throw_if, or_throw, catch,
}
use nexus_panel.Nodes.HeartbeatStore.{is_online}
use nexus_panel.Validator.Variables.{validate_server_variables}
use nexus_panel.Wings.Protocol.{Network}
use nexus_panel.Wings.Client
use nexus_panel.Servers.Service.{
  Loaded, server_id, node_id, egg_id, user_id, allocation_id, config_of, need, find_by_id,
  update_row,
}

pub record CreateServerDto : Type 0 where
  pub name : Text
  pub description : Option Text
  pub user_id : Text
  pub node_id : Text
  pub egg_id : Text
  pub allocation_id : Text
  pub memory : ℕ
  pub cpu : ℕ
  pub disk : ℕ
  pub env_variables : Option (List (Text × Text))
  pub nest_id : Text
  pub swap : Option ℤ
  pub io : Option ℤ
  pub threads : Option Text
  pub oom_disabled : Option Bool
  pub startup : Option Text
  pub image : Option Text
  pub external_id : Option Text

pub record Fresh : Type 0 where
  pub id : Text
  pub uuid : Text
  pub uuid_short : Text
  pub now : ℕ

abbrev pub on_node : Text → Server → Bool
on_node id s = s.node_id == id

abbrev pub of_egg : Text → EggVariable → Bool
of_egg id v = v.egg_id == id

-- A null or empty column is falsy.
abbrev pub is_assigned : Allocation → Bool
is_assigned a = elim a.server_id [ none ↦ false | some s ↦ elim s [ [] ↦ false | c ∷ t ↦ true ] ]

-- `dto.image || egg.dockerImage`.
abbrev pub or_default : Option Text → Text → Text
or_default none d = d
or_default (some []) d = d
or_default (some (c ∷ s)) d = c ∷ s

-- `dto.envVariables?.[v.envVariable] ?? v.defaultValue`.
abbrev given : Option (List (Text × Text)) → EggVariable → Text
given none v = v.default_value
given (some m) v = get_or (Dicts.lookup v.env_variable m) v.default_value

-- The loop of step 7.
unfoldable pub merge_variables :
    Option (List (Text × Text)) → List (Text × Text) → List EggVariable → List (Text × Text)
merge_variables dto env [] = env
merge_variables dto env (v ∷ vs) =
    merge_variables dto (Dicts.insert v.env_variable (given dto v) env) vs

-- The row that is stored.
abbrev pub new_server :
    CreateServerDto → Fresh → (startup image : Text) → List (Text × Text) → Server
new_server dto fresh startup image env = record {
  id = fresh.id;
  external_id = dto.external_id;
  uuid = fresh.uuid;
  uuid_short = fresh.uuid_short;
  name = dto.name;
  description = dto.description;
  user_id = dto.user_id;
  node_id = dto.node_id;
  nest_id = dto.nest_id;
  egg_id = dto.egg_id;
  allocation_id = dto.allocation_id;
  memory = dto.memory;
  swap = get_or dto.swap (pos 0);
  disk = dto.disk;
  io = get_or dto.io (pos 500);
  cpu = dto.cpu;
  threads = dto.threads;
  oom_disabled = get_or dto.oom_disabled false;
  startup = startup;
  image = image;
  env_variables = env;
  installed = 0;
  status = some installing;
  created_at = fresh.now;
  updated_at = fresh.now;
}

module _ (orm : Orm) where
  -- Steps 1 to 4.
  unfoldable pub check_node : Network → ℕ → CreateServerDto → M Node
  check_node net now dto = do
    found ← gets (λ p. orm.find_one (has_key node_id dto.node_id) p.nodes)
    node ← or_throw (not_found "Node not found") found
    online ← gets (λ p. is_online now node.id p.heartbeats)
    throw_if (not online) (bad_request "Node is offline")
    available ← Client.check_availability net node
    throw_if (not available) (bad_request "Wings daemon is not reachable on this node")
    pure node

  unfoldable pub check_egg : CreateServerDto → M Egg
  check_egg dto = do
    found ← gets (λ p. orm.find_one (has_key egg_id dto.egg_id) p.eggs)
    or_throw (not_found "Egg not found") found

  unfoldable pub check_allocation : CreateServerDto → M (Unit {0})
  check_allocation dto = do
    found ← gets (λ p. orm.find_one (has_key allocation_id dto.allocation_id) p.allocations)
    allocation ← or_throw (not_found "Allocation not found") found
    throw_if (not (allocation.node_id == dto.node_id))
        (bad_request "Allocation does not belong to the specified node")
    throw_if (is_assigned allocation) (bad_request "Allocation is already assigned to a server")

  unfoldable pub check_user : CreateServerDto → M (Unit {0})
  check_user dto = do
    found ← gets (λ p. orm.find_one (has_key user_id dto.user_id) p.users)
    _ ← or_throw (not_found "User not found") found
    pure tt

  -- Steps 10 and 11, a transaction: either both writes stay or neither does.
  unfoldable pub store : Server → M (Unit {0})
  store server = do
    stored ← gets (λ p. orm.insert server_clash server p.servers)
    servers ← or_throw internal stored
    modify (λ p. record p {
      servers = servers;
      allocations =
          orm.update (has_key allocation_id server.allocation_id)
            (λ a. record a { server_id = some server.id }) p.allocations;
    })

  -- Step 12.
  unfoldable pub start_on_wings : Network → Loaded → M (Unit {0})
  start_on_wings net full =
      catch
        (do
          allocation ← need full.allocation
          node ← need full.node
          egg ← need full.egg
          Client.create_server net node (config_of full.server allocation.port) egg.script_install
              (some egg.script_container))
        (λ _. do
          update_row orm full.server.id (λ s. record s { status = some install_failed })
          throw (bad_request "Failed to create server on Wings"))

module _ (js : Js) where
  open js use {Number, of_ℕ, of_ℤ, less, plus, times, over, replace_all}

  -- `node.memory * (1 + node.memoryOverallocate / 100)`, and the same for the disk.
  abbrev pub capacity : ℕ → ℤ → Number
  capacity size overallocate =
      times (of_ℕ size) (plus (of_ℕ 1) (over (of_ℤ overallocate) (of_ℕ 100)))

  -- `allocated + requested > capacity`.
  abbrev pub exceeds : ℕ → ℕ → ℕ → ℤ → Bool
  exceeds allocated requested size overallocate =
      less (capacity size overallocate) (plus (of_ℕ allocated) (of_ℕ requested))

  -- Step 8: each variable in turn, over the whole command. The pattern is `\{\{KEY\}\}`.
  unfoldable pub substitute : Text → List (Text × Text) → Option Text
  substitute startup [] = some startup
  substitute startup ((key, value) ∷ env) =
      elim (replace_all (codes "\\{\\{" ++ (key ++ codes "\\}\\}")) value startup) [
        | none ↦ none
        | some s ↦ substitute s env
      ]

  module _ (orm : Orm) where
    -- Steps 5 and 6.
    unfoldable pub check_capacity : Node → CreateServerDto → M (Unit {0})
    check_capacity node dto = do
      memory ← gets (λ p. orm.sum (on_node dto.node_id) (λ s. s.memory) p.servers)
      disk ← gets (λ p. orm.sum (on_node dto.node_id) (λ s. s.disk) p.servers)
      throw_if (exceeds memory dto.memory node.memory node.memory_overallocate)
          (bad_request "Not enough memory on node")
      throw_if (exceeds disk dto.disk node.disk node.disk_overallocate)
          (bad_request "Not enough disk on node")

    -- Step 7.
    unfoldable pub resolve_variables : CreateServerDto → M (List (Text × Text))
    resolve_variables dto = do
      variables ← gets (λ p. orm.find (of_egg dto.egg_id) p.egg_variables)
      let env = merge_variables dto.env_variables [] variables
      let validation = validate_server_variables js env variables
      throw_if (not validation.valid) (invalid_variables validation.errors)
      pure env

    -- Steps 1 to 9: the row to store, if nothing stands against it.
    unfoldable pub approve : Network → ℕ → Fresh → CreateServerDto → M Server
    approve net now fresh dto = do
      node ← check_node orm net now dto
      egg ← check_egg orm dto
      check_allocation orm dto
      check_user orm dto
      check_capacity node dto
      env ← resolve_variables dto
      startup ← or_throw internal (substitute egg.startup env)
      pure (new_server dto fresh startup (or_default dto.image egg.docker_image) env)

    unfoldable pub create : Network → ℕ → Fresh → CreateServerDto → M Loaded
    create net now fresh dto = do
      server ← approve net now fresh dto
      store orm server
      full ← find_by_id orm server.id
      start_on_wings orm net full
      pure full
