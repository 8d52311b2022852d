-- ===== src/Panel/Routes.antt =====
-- server/internal/panel/panel.go: which handler answers a request, and what stands before it.
pub mod Access
use ligend.Prelude.{
  ℕ, Bool, true, false, ◌&&◌, List, [], ◌∷◌, Option, none, some, length, leb, if◌then◌else◌,
}
use ligend.Prelude.Bytes.{Bytes}
use ligend.Prelude.Tables.{bytes_eq}
use ligend.Prelude.Texts.{codes}
use ligend.Panel.Http.{Method, options}
use ligend.Panel.Tokens.{TokenLib, authorised, after_prefix}

pub data Handler : Type 0 where
  login server_info server_config nginx_config clients stats_overview : Handler
  stats_traffic stats_system protocol keys logs frontend : Handler

-- `protected` says whether AuthMiddleware is around the handler.
pub record Route : Type 0 where
  pub pattern_text : Bytes
  pub protected : Bool
  pub handler : Handler

abbrev public_route : Bytes → Handler → Route
public_route p h = record { pattern_text = p; protected = false; handler = h }

abbrev protected_route : Bytes → Handler → Route
protected_route p h = record { pattern_text = p; protected = true; handler = h }

abbrev pub routes : List Route
routes =
    public_route (codes "/api/auth/login") login
    ∷ protected_route (codes "/api/server/info") server_info
    ∷ protected_route (codes "/api/server/config") server_config
    ∷ protected_route (codes "/api/server/nginx") nginx_config
    ∷ protected_route (codes "/api/clients") clients
    ∷ protected_route (codes "/api/clients/") clients
    ∷ protected_route (codes "/api/stats/overview") stats_overview
    ∷ protected_route (codes "/api/stats/traffic") stats_traffic
    ∷ protected_route (codes "/api/stats/system") stats_system
    ∷ protected_route (codes "/api/protocol") protocol
    ∷ protected_route (codes "/api/keys") keys
    ∷ protected_route (codes "/api/keys/") keys
    ∷ protected_route (codes "/api/logs") logs
    ∷ public_route (codes "/api/logs/stream") logs
    ∷ public_route (codes "/") frontend
    ∷ []

abbrev pub ends_in_slash : Bytes → Bool
ends_in_slash [] = false
ends_in_slash (c ∷ []) = bytes_eq (c ∷ []) (codes "/")
ends_in_slash (c ∷ d ∷ cs) = ends_in_slash (d ∷ cs)

abbrev pub is_some {ℓ} : {A : Type ℓ} → Option A → Bool
is_some none = false
is_some (some a) = true

-- `http.ServeMux`: a pattern with a slash at its end stands for every path that it starts, another
-- one for itself, and the longest pattern wins. The path has no "." or ".." and no double slash.
abbrev pub matches : Bytes → Bytes → Bool
matches pattern_text path =
    if ends_in_slash pattern_text
    then is_some (after_prefix pattern_text path)
    else bytes_eq pattern_text path

abbrev pub longer : Route → Option Route → Route
longer r none = r
longer r (some q) = if leb (length q.pattern_text) (length r.pattern_text) then r else q

unfoldable pub selected_route : List Route → Bytes → Option Route
selected_route [] path = none
selected_route (r ∷ rs) path =
    let rest = selected_route rs path in
    if matches r.pattern_text path then some (longer r rest) else rest

pub data Served : Type 0 where
  preflight refused missing : Served
  handled : Handler → Served

abbrev pub guarded : Bool → Option Route → Served
guarded passes none = missing
guarded passes (some r) =
    if r.protected then (if passes then handled r.handler else refused) else handled r.handler

abbrev pub is_options : Method → Bool
is_options options = true
is_options _ = false

-- `corsMiddleware` before the routes, and AuthMiddleware behind them.
unfoldable pub serve : TokenLib → Bytes → ℕ → Method → Bytes → Bytes → Served
serve lib secret now method path auth_header =
    if is_options method
    then preflight
    else guarded (authorised lib secret now auth_header) (selected_route routes path)
