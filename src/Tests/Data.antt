-- ===== src/Tests/Data.antt =====
-- A panel with one node, one server and two users, and concrete parameters.
use nexus_panel.Common.{ℕ, ◌+◌, ◌*◌, ◌/◌, ltb, true, false, none, some, [], ◌∷◌}
use nexus_panel.Common.Integers.{pos, negsuc}
use nexus_panel.Common.Texts.{codes, ◌==◌}
use nexus_panel.Common.Js.{Js}
use nexus_panel.Database.Entities.{
  User, Session, Node, connected, Allocation, Egg, EggVariable, Server, suspended,
}
use nexus_panel.Database.Panel.{Panel, empty_panel}
use nexus_panel.Nodes.HeartbeatStore.{HeartbeatData}
use nexus_panel.Wings.Protocol.{Network, answered, failed, responded, lost}

-- Whole numbers stand for JavaScript's; a pattern matches itself.
abbrev pub js : Js
js = record {
  Number = ℕ;
  of_text = λ t. 7;
  of_ℕ = λ n. n;
  of_ℤ = λ z. elim z [ pos n ↦ n | negsuc n ↦ 0 ];
  is_nan = λ n. false;
  is_integer = λ n. true;
  less = ltb;
  plus = λ a b. a + b;
  times = λ a b. a * b;
  over = λ a b. a / b;
  show = λ n. codes "7";
  reg_exp = λ p. some (λ t. p == t);
  replace_all = λ p v t. some t;
}

abbrev pub up : Network
up = record {
  reply = λ calls call. answered (codes "ok");
  health = λ calls url. true;
  fetch = λ calls sent call. responded true 200 (codes "ok");
}

abbrev pub down : Network
down = record {
  reply = λ calls call. failed (codes "unavailable");
  health = λ calls url. true;
  fetch = λ calls sent call. lost (codes "refused");
}

abbrev pub alice : User
alice = record {
  id = codes "u1";
  email = codes "a@x";
  username = codes "alice";
  password = codes "pw";
  root_admin = false;
  uses_totp = false;
  totp_secret = none;
  pending_totp_secret = none;
  backup_codes = none;
  enabled = true;
  avatar_url = none;
  last_login = none;
  created_at = 0;
  updated_at = 0;
}

-- A user with a second factor and two backup codes.
abbrev pub bob : User
bob = record alice {
  id = codes "u2";
  email = codes "b@x";
  username = codes "bob";
  uses_totp = true;
  totp_secret = some (codes "s");
  backup_codes = some (codes "c1" ∷ codes "c2" ∷ []);
}

abbrev pub node : Node
node = record {
  id = codes "n1";
  name = codes "one";
  description = none;
  location = codes "here";
  location_id = none;
  fqdn = codes "n";
  scheme = codes "https";
  behind_proxy = false;
  memory = 1000;
  memory_overallocate = pos 0;
  disk = 1000;
  disk_overallocate = pos 0;
  daemon_port = 8080;
  daemon_token_id = codes "ti";
  daemon_token = codes "tok";
  upload_size = 100;
  connection_status = connected;
  wings_version = none;
  created_at = 0;
  updated_at = 0;
}

abbrev pub heartbeat : HeartbeatData
heartbeat = record {
  version = codes "1";
  total_memory = 1;
  used_memory = 1;
  total_disk = 1;
  used_disk = 1;
  cpu_percent = 1;
  servers = [];
  received_at = 5;
}

abbrev pub taken_port : Allocation
taken_port = record {
  id = codes "a1";
  node_id = codes "n1";
  ip = codes "ip";
  ip_alias = none;
  port = 2000;
  notes = none;
  server_id = some (codes "s1");
  created_at = 0;
}

abbrev pub free_port : Allocation
free_port = record taken_port { id = codes "a2"; port = 2001; server_id = none }

abbrev pub egg : Egg
egg = record {
  id = codes "e1";
  nest_id = codes "ne";
  name = codes "egg";
  description = none;
  author = codes "x";
  docker_image = codes "img";
  docker_images = [];
  startup = codes "run";
  config_files = none;
  config_startup = none;
  config_stop = none;
  config_logs = none;
  script_install = none;
  script_entry = codes "sh";
  script_container = codes "box";
  copy_script_from = none;
  created_at = 0;
  updated_at = 0;
}

abbrev pub variable : EggVariable
variable = record {
  id = codes "v1";
  egg_id = codes "e1";
  name = codes "Jar";
  description = [];
  env_variable = codes "JAR";
  default_value = codes "s.jar";
  user_viewable = true;
  user_editable = true;
  rules = codes "required|string";
  created_at = 0;
  updated_at = 0;
}

abbrev pub server : Server
server = record {
  id = codes "s1";
  external_id = none;
  uuid = codes "uu";
  uuid_short = codes "us";
  name = codes "srv";
  description = none;
  user_id = codes "u1";
  node_id = codes "n1";
  nest_id = codes "ne";
  egg_id = codes "e1";
  allocation_id = codes "a1";
  memory = 300;
  swap = pos 0;
  disk = 300;
  io = pos 500;
  cpu = 100;
  threads = none;
  oom_disabled = false;
  startup = codes "run";
  image = codes "img";
  env_variables = [];
  installed = 1;
  status = none;
  created_at = 0;
  updated_at = 0;
}

abbrev pub session : Session
session = record {
  id = codes "x1";
  user_id = codes "u1";
  refresh_token = codes "rt";
  ip_address = codes "ip";
  user_agent = codes "ua";
  last_active_at = 0;
  revoked = false;
  created_at = 0;
  updated_at = 0;
}

abbrev pub panel : Panel
panel = record empty_panel {
  users = alice ∷ bob ∷ [];
  sessions = session ∷ [];
  nodes = node ∷ [];
  allocations = taken_port ∷ free_port ∷ [];
  servers = server ∷ [];
  eggs = egg ∷ [];
  egg_variables = variable ∷ [];
  heartbeats = (codes "n1", heartbeat) ∷ [];
}

abbrev pub held_server : Server
held_server = record server { status = some suspended }

abbrev pub held_panel : Panel
held_panel = record panel { servers = held_server ∷ [] }
