-- ===== src/Wings/Protocol.antt =====
-- packages/shared/src/wings and packages/backend/src/wings/wings.service.ts: what goes over the wire.
use nexus_panel.Common.{
  ℕ, zero, suc, true, false, ◌≡◌, refl, ◌/◌, ◌%◌, ◌+◌, Bool, List, [], ◌∷◌, ltb,
}
use nexus_panel.Common.Texts.{Text, codes}

-- A message of a socket is not validated, so it may hold an action that the enumeration does not have.
pub data PowerAction : Type 0 where
  start stop restart kill : PowerAction
  other_action : Text → PowerAction

pub record PortMapping : Type 0 where
  pub host_port : ℕ
  pub container_port : ℕ

pub record WingsServerConfig : Type 0 where
  pub uuid : Text
  pub docker_image : Text
  pub startup_command : Text
  pub environment : List (Text × Text)
  pub memory_limit : ℕ
  pub cpu_limit : ℕ
  pub disk_limit : ℕ
  pub port_mappings : List PortMapping
  pub volume_path : Text

-- The request messages, one constructor for each method.
pub data Request : Type 0 where
  create_server : WingsServerConfig → (install_script install_docker_image : Text) → Request
  delete_server : (uuid : Text) (remove_volumes : Bool) → Request
  send_power_action : (uuid : Text) (action : ℕ) → Request
  send_command : (uuid command : Text) → Request
  update_resources : (uuid : Text) (memory_limit_mb cpu_limit disk_limit_mb : ℕ) → Request
  get_server_status : (uuid : Text) → Request
  get_system_info : Request
  sync_server_config : WingsServerConfig → Request
  reinstall_server : WingsServerConfig → (install_script install_docker_image : Text) → Request

-- The address and the credentials that a client was made with.
pub record NodeGrpcClient : Type 0 where
  pub address : Text
  pub secure : Bool

-- One call as it leaves the panel.
pub record GrpcCall : Type 0 where
  pub client : NodeGrpcClient
  pub authorization : Text
  pub request : Request

pub data Reply : Type 0 where
  answered failed : Text → Reply

pub data HttpMethod : Type 0 where
  get post : HttpMethod

-- The body of an HTTP request before it is written as JSON.
pub data HttpBody : Type 0 where
  no_body : HttpBody
  write_file : (path content : Text) → HttpBody
  paths_only : List Text → HttpBody
  compress : List Text → (destination : Text) → HttpBody
  decompress : (path destination : Text) → HttpBody
  path_only : (path : Text) → HttpBody
  rename_file : (from to : Text) → HttpBody

-- One HTTP request as it leaves the panel.
pub record HttpCall : Type 0 where
  pub method : HttpMethod
  pub url : Text
  pub authorization : Text
  pub body : HttpBody

-- A response with its status and the text that it was read as, or no response.
pub data HttpReply : Type 0 where
  responded : (is_ok : Bool) → (status : ℕ) → Text → HttpReply
  lost : (message : Text) → HttpReply

-- The network beyond the panel: what a daemon answers may depend on all that was sent before, and so
-- may a health check.
pub record Network : Type 0 where
  pub reply : List GrpcCall → GrpcCall → Reply
  pub health : List GrpcCall → (url : Text) → Bool
  pub fetch : List GrpcCall → List HttpCall → HttpCall → HttpReply

-- A number in a template literal.
digits_from : ℕ → ℕ → Text → Text
digits_from zero n rest = rest
digits_from (suc fuel) n rest =
    let shown = (48 + n % 10) ∷ rest in
    let more = digits_from fuel (n / 10) shown in elim (ltb n 10) [ true ↦ shown | false ↦ more ]

unfoldable pub decimal : ℕ → Text
unfolding digits_from
decimal n = digits_from (suc n) n []

decimal_test : decimal 25565 ≡ codes "25565"
unfolding decimal
decimal_test = refl
