-- ===== src/Frontend/Socket.antt =====
-- packages/frontend/src/hooks/useServerWebSocket.ts: the hook of the page of one server, by the events of its
-- socket.
pub mod Console
pub mod Retries
pub mod Handshake
use nexus_panel.Common.{
  drop, ℕ, zero, suc, ◌+◌, ◌-◌, ◌*◌, ltb, leb, nat_eq, Bool, true, false, ◌&&◌, Option, none, some,
  List, [], ◌∷◌, ◌++◌, if◌then◌else◌, length, ◌≡◌, refl,
}
use mathlib.Core.Option.{get_or}
use nexus_panel.Common.Texts.{Text, codes, ◌==◌, drop_spaces}
use nexus_panel.Wings.Protocol.{PowerAction}
use nexus_panel.Websocket.Gateway.{ClientMessage}

pub data PowerState : Type 0 where
  running starting stopping offline : PowerState

pub data ConnectionStatus : Type 0 where
  connecting connected disconnected error : ConnectionStatus

pub record ServerStats : Type 0 where
  pub cpu_percent : ℕ
  pub memory_bytes : ℕ
  pub memory_limit_bytes : ℕ
  pub disk_bytes : ℕ
  pub disk_limit_bytes : ℕ
  pub network_rx_bytes : ℕ
  pub network_tx_bytes : ℕ
  pub uptime : ℕ

-- The `state` of a message: a number or a string.
pub data GrpcState : Type 0 where
  number : ℕ → GrpcState
  string : Text → GrpcState

-- The figures of a `stats_update`, of which any may be missing.
pub record Resources : Type 0 where
  pub cpu_percent : Option ℕ
  pub memory_bytes : Option ℕ
  pub memory_limit : Option ℕ
  pub memory_limit_bytes : Option ℕ
  pub disk_bytes : Option ℕ
  pub disk_limit : Option ℕ
  pub disk_limit_bytes : Option ℕ
  pub network_rx_bytes : Option ℕ
  pub network_tx_bytes : Option ℕ
  pub uptime : Option ℕ

pub record RawStats : Type 0 where
  pub resources : Option Resources
  pub own : Resources
  pub state : Option GrpcState

-- What comes on the channel of messages. A field of another type than the handler asks for is `none`.
pub data Message : Type 0 where
  console_output : (line : Option Text) → Message
  console_history : (lines : Option (List Text)) → Message
  stats_update : Option RawStats → Message
  power_state : Option GrpcState → Message
  auth_success other : Message

pub data Event : Type 0 where
  connect : Event
  message : Message → Event
  disconnect connect_error : Event

-- The state of the hook, with what it has emitted and the delays of the reconnections it has set, latest first.
pub record Hook : Type 0 where
  pub console_lines : List Text
  pub stats : Option ServerStats
  pub power_state : PowerState
  pub connection_status : ConnectionStatus
  pub retries : ℕ
  pub sent : List ClientMessage
  pub delays : List ℕ

abbrev pub max_lines : ℕ
max_lines = 2000

-- `xs.slice(-n)`.
abbrev pub last {ℓ} : {A : Type ℓ} → ℕ → List A → List A
last n xs = drop (length xs - n) xs

abbrev is_digit : ℕ → Bool
is_digit c = leb 48 c && leb c 57

-- The number that the digits at the start make, after the one before them.
abbrev digits : Option ℕ → Text → Option ℕ
digits n [] = n
digits n (c ∷ s) = elim (is_digit c) [
  | true ↦ digits (some (get_or n 0 * 10 + (c - 48))) s
  | false ↦ n
]

-- A number below 0 is no state, and -0 is 0.
abbrev below_zero : Option ℕ → Option ℕ
below_zero none = none
below_zero (some n) = if nat_eq n 0 then some 0 else none

abbrev signed : Text → Option ℕ
signed [] = none
signed (c ∷ s) =
    if nat_eq c b'-'
    then below_zero (digits none s)
    else if nat_eq c b'+'
    then digits none s
    else digits none (c ∷ s)

-- `parseInt(s, 10)`, where a result that is no state is `none`.
abbrev pub parse_int : Text → Option ℕ
parse_int s = signed (drop_spaces s)

-- `toLowerCase`: no letter outside of A to Z becomes a letter of the names that are compared with it.
abbrev pub to_lower_case : Text → Text
to_lower_case [] = []
to_lower_case (c ∷ s) = (if leb 65 c && leb c 90 then c + 32 else c) ∷ to_lower_case s

abbrev named : Text → PowerState
named s =
    if s == codes "running"
    then running
    else if s == codes "starting"
    then starting
    else if s == codes "stopping"
    then stopping
    else offline

abbrev numbered : Option ℕ → PowerState → PowerState
numbered none rest = rest
numbered (some n) rest =
    if nat_eq n 2
    then running
    else if nat_eq n 1
    then starting
    else if nat_eq n 3
    then stopping
    else if nat_eq n 0
    then offline
    else if nat_eq n 4
    then offline
    else rest

unfoldable pub map_grpc_state : GrpcState → PowerState
unfolding ◌==◌ drop_spaces
map_grpc_state (number n) = numbered (some n) offline
map_grpc_state (string s) = numbered (parse_int s) (named (to_lower_case s))

-- `a ?? b ?? 0`.
abbrev either : Option ℕ → Option ℕ → ℕ
either none b = get_or b 0
either (some a) b = a

abbrev pub stats_of : Resources → ServerStats
stats_of r = record {
  cpu_percent = get_or r.cpu_percent 0;
  memory_bytes = get_or r.memory_bytes 0;
  memory_limit_bytes = either r.memory_limit r.memory_limit_bytes;
  disk_bytes = get_or r.disk_bytes 0;
  disk_limit_bytes = either r.disk_limit r.disk_limit_bytes;
  network_rx_bytes = get_or r.network_rx_bytes 0;
  network_tx_bytes = get_or r.network_tx_bytes 0;
  uptime = get_or r.uptime 0;
}

abbrev pub with_state : Option GrpcState → Hook → Hook
with_state none h = h
with_state (some s) h = record h { power_state = map_grpc_state s }

abbrev pub with_line : Text → List Text → List Text
with_line line prev =
    let next = prev ++ line ∷ [] in
    if ltb max_lines (length next) then last max_lines next else next

unfoldable pub on_message : Message → Hook → Hook
on_message (console_output none) h = h
on_message (console_output (some line)) h = record h {
  console_lines = with_line line h.console_lines;
}
on_message (console_history none) h = h
on_message (console_history (some lines)) h = record h { console_lines = last max_lines lines }
on_message (stats_update none) h = h
on_message (stats_update (some raw)) h =
    with_state raw.state (record h { stats = some (stats_of (get_or raw.resources raw.own)) })
on_message (Message.power_state state) h = with_state state h
on_message auth_success h = h
on_message other h = h

-- `1000 * 2 ** retries`.
abbrev pub doubled : ℕ → ℕ
doubled zero = 1000
doubled (suc n) = 2 * doubled n

abbrev pub delay_of : ℕ → ℕ
delay_of retries = if leb (doubled retries) 30000 then doubled retries else 30000

-- What is emitted as soon as the socket is connected, in order.
abbrev pub handshake : (token server_uuid : Text) → List ClientMessage
handshake token server_uuid =
    ClientMessage.auth token server_uuid
    ∷ ClientMessage.subscribe_console
    ∷ ClientMessage.subscribe_stats
    ∷ []

abbrev pub onto_sent : List ClientMessage → List ClientMessage → List ClientMessage
onto_sent [] sent = sent
onto_sent (m ∷ ms) sent = onto_sent ms (m ∷ sent)

-- `localStorage.getItem('accessToken') || ''`.
abbrev pub token_of : Option Text → Text
token_of stored = get_or stored []

module _ (access_token : Option Text) (server_uuid : Text) where
  unfoldable pub step : Event → Hook → Hook
  step connect h = record h {
    connection_status = connected;
    retries = 0;
    sent = onto_sent (handshake (token_of access_token) server_uuid) h.sent;
  }
  step (message m) h = on_message m h
  step disconnect h = record h {
    connection_status = disconnected;
    power_state = offline;
    retries = suc h.retries;
    delays = delay_of h.retries ∷ h.delays;
  }
  step connect_error h = record h { connection_status = error }

  unfoldable pub run : List Event → Hook → Hook
  run [] h = h
  run (e ∷ es) h = run es (step e h)

abbrev pub initial : Hook
initial = record {
  console_lines = [];
  stats = none;
  power_state = offline;
  connection_status = connecting;
  retries = 0;
  sent = [];
  delays = [];
}

unfoldable send_command : Text → Hook → Hook
send_command command h = record h { sent = ClientMessage.send_command command ∷ h.sent }

unfoldable send_power_action : PowerAction → Hook → Hook
send_power_action action h = record h { sent = ClientMessage.send_power_action action ∷ h.sent }

map_grpc_state_test :
    (map_grpc_state (string (codes " 2x")) ≡ running)
    × (map_grpc_state (string (codes "Stopping")) ≡ stopping)
    × (map_grpc_state (number 7) ≡ offline)
unfolding map_grpc_state
map_grpc_state_test = (refl, refl, refl)
