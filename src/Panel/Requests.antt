-- ===== src/Panel/Requests.antt =====
-- server/internal/panel/panel.go, api_stats.go, api_logs.go: the panel's state, and what a request
-- does to it.
pub mod Guarded
pub mod Kept
pub mod Sessions
use ligend.Prelude.{
  ℕ, ◌+◌, ◌/◌, ◌%◌, ◌^◌, Bool, true, false, List, [], ◌∷◌, Option, none, some, length,
}
use ligend.Prelude.Outcome.{Outcome, ok, err, ◌>>=◌, wrap_err}
use ligend.Prelude.Bytes.{Bytes}
use ligend.Prelude.Texts.{ℤ, pos, codes}
use ligend.Config.{Config}
use ligend.Tunnel.Session.{Session}
use ligend.Tunnel.Manager.{SessionManager, list_sessions, active_sessions, deref}
use ligend.Server.{Server}
use ligend.Panel.Logs.{LogEntry, LogBuffer, new_log_buffer, add, recent}
use ligend.Panel.Http.{Method, get, Response, success, failure, method_not_allowed}
use ligend.Panel.Store.{ClientKey, Db, DbError, Bcrypt, list_client_keys}
use ligend.Panel.Tokens.{TokenLib, NewAuthError, new_auth, login_handler}
use ligend.Panel.Settings.{ProtocolConfig, ConfigUpdate, handle_protocol, handle_server_config}
use ligend.Panel.Clients.{
  CreateClientRequest, ClientsReply, KeysReply, Surroundings, handle_clients, keys_or_none,
  handle_keys,
}
use ligend.Panel.Pages.{
  TrafficDataPoint, handle_nginx_config, handle_stats_traffic, handle_stats_system, serve_frontend,
}
use ligend.Panel.Routes.{
  Handler, login, server_info, server_config, nginx_config, clients, stats_overview, stats_traffic,
  stats_system, protocol, keys, logs, frontend, Served, preflight, refused, missing, handled, serve,
}

-- The panel shares the VPN server, and its configuration with it. `jwt_secret` is its `Auth`.
pub record Panel : Type 0 where
  pub server : Server
  pub db : Db
  pub jwt_secret : Bytes
  pub log_buffer : LogBuffer

-- The argument `timestamp` is the time as the log shows it.
unfoldable pub new_panel :
    TokenLib → Option Bytes → Bool → Db → Server → Bytes → Outcome NewAuthError Panel
new_panel lib entropy answers db server timestamp = do
  (secret, db') ← new_auth lib entropy answers db
  log_buffer ←
      wrap_err (λ e. absurd e)
        (add (new_log_buffer 1000) (record {
          timestamp = timestamp;
          level = codes "INFO";
          message = codes "GOmp Studios Panel initialized";
          source = codes "system";
        }))
  ok (record { server = server; db = db'; jwt_secret = secret; log_buffer = log_buffer })

-- A body is what its JSON decodes to for the handler, or nothing; `domain` is a parameter of the path.
pub record Request : Type 0 where
  pub method : Method
  pub path : Bytes
  pub auth_header : Bytes
  pub domain : Bytes
  pub login_body : Option (Bytes × Bytes)
  pub config_body : Option ConfigUpdate
  pub protocol_body : Option ProtocolConfig
  pub client_body : Option CreateClientRequest

-- What else a request depends on: the packages, whether the database answers, what the random source
-- gives, the time in nanoseconds and how the hours before are shown, and the files that can be read.
pub record World : Type 0 where
  pub lib : TokenLib
  pub bcrypt : Bcrypt
  pub answers : Bool
  pub generated_key : Option Bytes
  pub encode_to_string : Bytes → Bytes
  pub now : ℕ
  pub hour_text : ℕ → Bytes
  pub read_file : Bytes → Option Bytes

abbrev pub seconds : World → ℕ
seconds w = w.now / 10 ^ 9

abbrev pub held_sessions : SessionManager → List ℕ → List Session
held_sessions sm [] = []
held_sessions sm (r ∷ rs) = elim (deref sm r) [
  | none ↦ held_sessions sm rs
  | some session ↦ session ∷ held_sessions sm rs
]

abbrev pub surroundings : World → Panel → Surroundings
surroundings w p = record {
  answers = w.answers;
  generated_key = w.generated_key;
  encode_to_string = w.encode_to_string;
  now = w.now;
  secret_key_base64 = p.server.cfg.secret_key_base64;
  sessions = held_sessions p.server.sessions (list_sessions p.server.sessions);
}

pub record StatsOverview : Type 0 where
  pub total_clients : ℕ
  pub active_sessions : ℕ
  pub total_traffic_up : ℕ
  pub total_traffic_down : ℕ

-- Sums of 64-bit integers.
abbrev pub total_up : List ClientKey → ℕ
total_up [] = 0
total_up (k ∷ ks) = (k.traffic_used_up + total_up ks) % 2 ^ 64

abbrev pub total_down : List ClientKey → ℕ
total_down [] = 0
total_down (k ∷ ks) = (k.traffic_used_down + total_down ks) % 2 ^ 64

-- The uptime and the speed are left out.
unfoldable pub handle_stats_overview : World → Panel → Method → Response StatsOverview
handle_stats_overview w p get =
    let ks = keys_or_none (list_client_keys w.answers p.db) in
    success (record {
      total_clients = length ks;
      active_sessions = active_sessions p.server.sessions;
      total_traffic_up = total_up ks;
      total_traffic_down = total_down ks;
    })
handle_stats_overview w p _ = failure method_not_allowed

-- `figures_shown` stands for the handler that shows figures of the machine, and no state of the panel.
pub data Reply : Type 0 where
  preflight_reply refused_reply missing_reply figures_shown : Reply
  page_shown : Bytes → Reply
  nginx_shown : Response Bytes → Reply
  traffic_shown : Response (List TrafficDataPoint) → Reply
  system_shown : Response ℕ → Reply
  logged_in : Response (Bytes × ℕ) → Reply
  config_shown : Response Config → Reply
  protocol_shown : Response ProtocolConfig → Reply
  clients_shown : Response ClientsReply → Reply
  keys_shown : Response KeysReply → Reply
  overview_shown : Response StatsOverview → Reply
  logs_shown : List LogEntry → Reply

abbrev pub on_server {ℓ} : {A : Type ℓ} → Panel → (A → Reply) → Server × A → Panel × Reply
on_server p shown (s, reply) = (record p { server = s }, shown reply)

abbrev pub on_db {ℓ} : {A : Type ℓ} → Panel → (A → Reply) → Db × A → Panel × Reply
on_db p shown (db, reply) = (record p { db = db }, shown reply)

-- The logs that a request sees; a stream sends the last five lines each second.
unfoldable pub handle_logs : Panel → Reply
handle_logs p = logs_shown (recent p.log_buffer (pos 100))

abbrev pub run_handler : World → Panel → Request → Handler → Panel × Reply
run_handler w p q login = (
  p,
  logged_in
      (login_handler w.lib w.bcrypt w.answers p.db p.jwt_secret (seconds w) q.method q.login_body),
)
run_handler w p q server_config =
    on_server p config_shown (handle_server_config p.server q.method q.config_body)
run_handler w p q protocol =
    on_server p protocol_shown (handle_protocol p.server q.method q.protocol_body)
run_handler w p q clients =
    on_db p clients_shown (handle_clients (surroundings w p) p.db q.method q.path q.client_body)
run_handler w p q keys = (
  p,
  keys_shown (handle_keys (surroundings w p) p.server.cfg.web_socket_path p.db q.method q.path),
)
run_handler w p q stats_overview = (p, overview_shown (handle_stats_overview w p q.method))
run_handler w p q logs = (p, handle_logs p)
run_handler w p q frontend = (p, page_shown (serve_frontend w.read_file))
run_handler w p q nginx_config = (p, nginx_shown (handle_nginx_config p.server q.method q.domain))
run_handler w p q stats_traffic = (p, traffic_shown (handle_stats_traffic w.hour_text q.method))
run_handler w p q stats_system = (p, system_shown (handle_stats_system p.server q.method))
run_handler w p q _ = (p, figures_shown)

abbrev pub reply_to : World → Panel → Request → Served → Panel × Reply
reply_to w p q preflight = (p, preflight_reply)
reply_to w p q refused = (p, refused_reply)
reply_to w p q missing = (p, missing_reply)
reply_to w p q (handled h) = run_handler w p q h

unfoldable pub handle_request : World → Panel → Request → Panel × Reply
handle_request w p q =
    reply_to w p q (serve w.lib p.jwt_secret (seconds w) q.method q.path q.auth_header)
