-- ===== src/Database/Panel.antt =====
-- The state that the services share, the exceptions that they throw, and the monad of a request:
-- what a request has written before it throws stays written.
use nexus_panel.Common.{◌≡◌, Bool, true, false, Option, none, some, List, [], String}
use nexus_panel.Common.Texts.{Text}
use nexus_panel.Database.Entities.{
  User, Session, Node, Allocation, Egg, EggVariable, Server, AuditLog, ApiKey, Location,
  ServerSubuser, Nest, Schedule, ScheduleTask, Notification, ServerDatabase,
}
use nexus_panel.Nodes.HeartbeatStore.{Heartbeats}
use nexus_panel.Wings.Protocol.{NodeGrpcClient, GrpcCall, HttpCall}

-- The exceptions of @nestjs/common by their class, with the fixed part of their message.
-- `wings_error` is the `Error` of a failed call, `internal` any other.
pub data Failure : Type 0 where
  bad_request unauthorized forbidden not_found conflict : String → Failure
  invalid_variables : List (Text × List Text) → Failure
  wings_error : Text → Failure
  internal : Failure

pub data Result (A : Type 0) : Type 0 where
  ok : A → Result A
  err : Failure → Result A

-- The tables, the maps in memory, and the log of the calls that have left for the daemons.
pub record Panel : Type 0 where
  pub users : List User
  pub sessions : List Session
  pub nodes : List Node
  pub allocations : List Allocation
  pub servers : List Server
  pub eggs : List Egg
  pub egg_variables : List EggVariable
  pub audit_logs : List AuditLog
  pub api_keys : List ApiKey
  pub locations : List Location
  pub subusers : List ServerSubuser
  pub nests : List Nest
  pub schedules : List Schedule
  pub schedule_tasks : List ScheduleTask
  pub notifications : List Notification
  pub databases : List ServerDatabase
  pub heartbeats : Heartbeats
  pub clients : List (Text × NodeGrpcClient)
  pub calls : List GrpcCall
  pub http_calls : List HttpCall

abbrev pub empty_panel : Panel
empty_panel = record {
  users = [];
  sessions = [];
  nodes = [];
  allocations = [];
  servers = [];
  eggs = [];
  egg_variables = [];
  audit_logs = [];
  api_keys = [];
  locations = [];
  subusers = [];
  nests = [];
  schedules = [];
  schedule_tasks = [];
  notifications = [];
  databases = [];
  heartbeats = [];
  clients = [];
  calls = [];
  http_calls = [];
}

abbrev pub M : Type 0 → Type 0
M A = Panel → Result A × Panel

abbrev pub after : {A B : Type 0} → Result A × Panel → (A → M B) → Result B × Panel
after (ok a, p) f = f a p
after (err e, p) f = (err e, p)

infixl 5 ◌>>=◌ ◌>>◌
abbrev pub ◌>>=◌ : {A B : Type 0} → M A → (A → M B) → M B
◌>>=◌ m f p = after (m p) f

abbrev pub ◌>>◌ : {A B : Type 0} → M A → M B → M B
◌>>◌ m k p = after (m p) (λ _. k)

abbrev pub pure : {A : Type 0} → A → M A
pure a p = (ok a, p)

abbrev pub throw : {A : Type 0} → Failure → M A
throw e p = (err e, p)

abbrev pub gets : {A : Type 0} → (Panel → A) → M A
gets f p = (ok (f p), p)

abbrev pub modify : (Panel → Panel) → M (Unit {0})
modify f p = (ok tt, f p)

-- `if (test) throw e`.
abbrev pub throw_if : Bool → Failure → M (Unit {0})
throw_if true e p = (err e, p)
throw_if false e p = (ok tt, p)

-- `if (!row) throw e`.
abbrev pub or_throw : {A : Type 0} → Failure → Option A → M A
or_throw e none p = (err e, p)
or_throw e (some a) p = (ok a, p)

-- `if (test) m`.
abbrev pub when : Bool → M (Unit {0}) → M (Unit {0})
when true m = m
when false m = pure tt

-- `try { m } catch (error) { handler }`.
abbrev pub rescue : {A : Type 0} → Result A × Panel → (Failure → M A) → Result A × Panel
rescue (ok a, p) f = (ok a, p)
rescue (err e, p) f = f e p

abbrev pub catch : {A : Type 0} → M A → (Failure → M A) → M A
catch m f p = rescue (m p) f

-- A successful run determines its value and its panel.
pub ok_inj :
    {A : Type 0} {a b : A} {p q : Panel}
    → let l : Result A × Panel = (ok a, p) in l ≡ (ok b, q) → (a ≡ b) × (p ≡ q)
ok_inj e = (cc, cc)
