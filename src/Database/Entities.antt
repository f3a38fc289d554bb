-- ===== src/Database/Entities.antt =====
-- packages/backend/src/database/entities: one record for each table, one field for each column.
-- A relation is the id in its foreign-key column; a nullable column is an `Option`; a date is a
-- number of milliseconds; a jsonb column whose content the panel does not read is its text. Counts
-- and sizes are natural numbers.
use nexus_panel.Common.{ℕ, nat_eq, Bool, ◌&&◌, ◌||◌, Option, none, some, List, false}
use nexus_panel.Common.Integers.{ℤ}
use nexus_panel.Common.Texts.{Text, ◌==◌}

pub data NodeConnectionStatus : Type 0 where
  connected disconnected error : NodeConnectionStatus

pub data ServerStatus : Type 0 where
  installing install_failed suspended restoring_backup transferring : ServerStatus

pub record User : Type 0 where
  pub id : Text
  pub email : Text
  pub username : Text
  pub password : Text
  pub root_admin : Bool
  pub uses_totp : Bool
  pub totp_secret : Option Text
  pub pending_totp_secret : Option Text
  pub backup_codes : Option (List Text)
  pub enabled : Bool
  pub avatar_url : Option Text
  pub last_login : Option ℕ
  pub created_at : ℕ
  pub updated_at : ℕ

pub record Session : Type 0 where
  pub id : Text
  pub user_id : Text
  pub refresh_token : Text
  pub ip_address : Text
  pub user_agent : Text
  pub last_active_at : ℕ
  pub revoked : Bool
  pub created_at : ℕ
  pub updated_at : ℕ

pub record Node : Type 0 where
  pub id : Text
  pub name : Text
  pub description : Option Text
  pub location : Text
  pub location_id : Option Text
  pub fqdn : Text
  pub scheme : Text
  pub behind_proxy : Bool
  pub memory : ℕ
  pub memory_overallocate : ℤ
  pub disk : ℕ
  pub disk_overallocate : ℤ
  pub daemon_port : ℕ
  pub daemon_token_id : Text
  pub daemon_token : Text
  pub upload_size : ℕ
  pub connection_status : NodeConnectionStatus
  pub wings_version : Option Text
  pub created_at : ℕ
  pub updated_at : ℕ

pub record Allocation : Type 0 where
  pub id : Text
  pub node_id : Text
  pub ip : Text
  pub ip_alias : Option Text
  pub port : ℕ
  pub notes : Option Text
  pub server_id : Option Text
  pub created_at : ℕ

pub record Egg : Type 0 where
  pub id : Text
  pub nest_id : Text
  pub name : Text
  pub description : Option Text
  pub author : Text
  pub docker_image : Text
  pub docker_images : List (Text × Text)
  pub startup : Text
  pub config_files : Option Text
  pub config_startup : Option Text
  pub config_stop : Option Text
  pub config_logs : Option Text
  pub script_install : Option Text
  pub script_entry : Text
  pub script_container : Text
  pub copy_script_from : Option Text
  pub created_at : ℕ
  pub updated_at : ℕ

pub record EggVariable : Type 0 where
  pub id : Text
  pub egg_id : Text
  pub name : Text
  pub description : Text
  pub env_variable : Text
  pub default_value : Text
  pub user_viewable : Bool
  pub user_editable : Bool
  pub rules : Text
  pub created_at : ℕ
  pub updated_at : ℕ

pub record Server : Type 0 where
  pub id : Text
  pub external_id : Option Text
  pub uuid : Text
  pub uuid_short : Text
  pub name : Text
  pub description : Option Text
  pub user_id : Text
  pub node_id : Text
  pub nest_id : Text
  pub egg_id : Text
  pub allocation_id : Text
  pub memory : ℕ
  pub swap : ℤ
  pub disk : ℕ
  pub io : ℤ
  pub cpu : ℕ
  pub threads : Option Text
  pub oom_disabled : Bool
  pub startup : Text
  pub image : Text
  pub env_variables : List (Text × Text)
  pub installed : ℕ
  pub status : Option ServerStatus
  pub created_at : ℕ
  pub updated_at : ℕ

pub record AuditLog : Type 0 where
  pub id : Text
  pub user_id : Option Text
  pub event : Text
  pub ip : Option Text
  pub created_at : ℕ

pub record ApiKey : Type 0 where
  pub id : Text
  pub user_id : Text
  pub key_start : Text
  pub token : Text
  pub memo : Option Text
  pub allowed_ips : List Text
  pub last_used_at : Option ℕ
  pub created_at : ℕ
  pub updated_at : ℕ

pub record Location : Type 0 where
  pub id : Text
  pub short : Text
  pub long : Text
  pub created_at : ℕ
  pub updated_at : ℕ

pub record ServerSubuser : Type 0 where
  pub id : Text
  pub server_id : Text
  pub user_id : Text
  pub permissions : List Text
  pub created_at : ℕ
  pub updated_at : ℕ

pub record Nest : Type 0 where
  pub id : Text
  pub author : Text
  pub name : Text
  pub description : Option Text
  pub created_at : ℕ
  pub updated_at : ℕ

pub record Schedule : Type 0 where
  pub id : Text
  pub server_id : Text
  pub name : Text
  pub cron_day_of_week : Text
  pub cron_day_of_month : Text
  pub cron_month : Text
  pub cron_hour : Text
  pub cron_minute : Text
  pub is_active : Bool
  pub is_processing : Bool
  pub last_run_at : Option ℕ
  pub next_run_at : Option ℕ
  pub created_at : ℕ
  pub updated_at : ℕ

pub data ScheduleTaskAction : Type 0 where
  command power backup : ScheduleTaskAction

pub record ScheduleTask : Type 0 where
  pub id : Text
  pub schedule_id : Text
  pub action : ScheduleTaskAction
  pub sequence : ℕ
  pub payload : Text
  pub time_offset : ℕ
  pub created_at : ℕ
  pub updated_at : ℕ

pub record Notification : Type 0 where
  pub id : Text
  pub user_id : Text
  pub type : Text
  pub title : Text
  pub message : Text
  pub read : Bool
  pub resource_type : Option Text
  pub resource_id : Option Text
  pub created_at : ℕ
  pub updated_at : ℕ

pub record ServerDatabase : Type 0 where
  pub id : Text
  pub server_id : Text
  pub database_host_id : Text
  pub database : Text
  pub username : Text
  pub password : Text
  pub remote : Text
  pub max_connections : ℕ
  pub created_at : ℕ
  pub updated_at : ℕ

-- Two rows that a unique column keeps apart. A null is equal to nothing.
abbrev same_present : Option Text → Option Text → Bool
same_present none o = false
same_present (some a) none = false
same_present (some a) (some b) = a == b

abbrev pub server_clash : Server → Server → Bool
server_clash a b =
    a.id == b.id
    || same_present a.external_id b.external_id
    || a.uuid_short == b.uuid_short
    || a.allocation_id == b.allocation_id

abbrev pub allocation_clash : Allocation → Allocation → Bool
allocation_clash a b =
    a.id == b.id || a.node_id == b.node_id && a.ip == b.ip && nat_eq a.port b.port

abbrev pub user_clash : User → User → Bool
user_clash a b = a.id == b.id || a.email == b.email || a.username == b.username

abbrev pub node_clash : Node → Node → Bool
node_clash a b = a.id == b.id || a.name == b.name

abbrev pub session_clash : Session → Session → Bool
session_clash a b = a.id == b.id

abbrev pub audit_log_clash : AuditLog → AuditLog → Bool
audit_log_clash a b = a.id == b.id

abbrev pub api_key_clash : ApiKey → ApiKey → Bool
api_key_clash a b = a.id == b.id

abbrev pub location_clash : Location → Location → Bool
location_clash a b = a.id == b.id || a.short == b.short

abbrev pub subuser_clash : ServerSubuser → ServerSubuser → Bool
subuser_clash a b = a.id == b.id || a.user_id == b.user_id && a.server_id == b.server_id

abbrev pub nest_clash : Nest → Nest → Bool
nest_clash a b = a.id == b.id

abbrev pub egg_clash : Egg → Egg → Bool
egg_clash a b = a.id == b.id

abbrev pub egg_variable_clash : EggVariable → EggVariable → Bool
egg_variable_clash a b = a.id == b.id

abbrev pub schedule_clash : Schedule → Schedule → Bool
schedule_clash a b = a.id == b.id

abbrev pub schedule_task_clash : ScheduleTask → ScheduleTask → Bool
schedule_task_clash a b = a.id == b.id

abbrev pub notification_clash : Notification → Notification → Bool
notification_clash a b = a.id == b.id

abbrev pub server_database_clash : ServerDatabase → ServerDatabase → Bool
server_database_clash a b = a.id == b.id
