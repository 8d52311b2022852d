-- ===== src/Examples/Runs.antt =====
-- A server that is made, gets a request, starts a client and loses it.
use mathlib.Core.List.{flatten}
use ligend.Tunnel.Pool.Subnet.{host}
use ligend.Prelude.{false, List, Option, ℕ, ◌≡◌, ◌≢◌, ◌↔◌, refl, true, [], ◌∷◌, none, some, arith}
use ligend.Prelude.Outcome.{ok}
use ligend.Prelude.Bytes.{Bytes}
use ligend.Config.{Config, defaults, secret_key}
use ligend.Auth.{Clock, new_authenticator}
use ligend.Auth.Validation.{Accepted}
use ligend.Tunnel.Packet.{ip_string, to4}
use ligend.Tunnel.Pool.{new_ip_pool}
use ligend.Tunnel.Session.{Session}
use ligend.Tunnel.Manager.{get_session, deref, new_session_manager}
use ligend.Tunnel.Manager.Invariant.{IsManager}
use ligend.Tunnel.Nat.{register}
use ligend.Server.{Server, Event, put_session}
use ligend.Server.Startup.{new_server}
use ligend.Server.Messages.{cleanup_session}
use ligend.Server.Welcome.{handle_web_socket, starts_client, welcome, Control}
use ligend.Server.Reach.{Reach, here, next, cleans_up, answers_request}
use ligend.Server.Requests.{
  AllFit, Delivered, announced, handle_web_socket-Accepted, welcome-Delivered,
}
use ligend.Server.Safety.{reachable-IsManager, empty_manager}
use ligend.Examples.Parameters.{zeros, tagging, zero_packing, zero_packing-Lz4Laws, open_mac, rng}
use ligend.Examples.Sessions.{network, player}
use ligend.Examples.Servers.{server}

abbrev pub cfg : Config
cfg = defaults (some network)

abbrev pub key_of : Bytes → Option Bytes
key_of text = some (zeros 32)

abbrev pub first : Server
first = record {
  cfg = cfg;
  auth = new_authenticator (zeros 32);
  sessions = empty_manager network;
  nat_table = [];
  tun = none;
  http_server = none;
  start_returned = false;
  udp_conn = 0;
}

pub made : new_server key_of cfg ≡ ok first
unfolding new_server secret_key new_session_manager new_ip_pool defaults empty_manager
made = refl

abbrev id_header : Bytes
id_header = b'a' ∷ []

abbrev time_header : Bytes
time_header = b'1' ∷ []

abbrev nonce_header : Bytes
nonce_header = b'2' ∷ []

abbrev clock : Clock
clock = record { checked = 100; looked_up = 100; added = 100 }

-- A request with a wrong token, and a late clean-up.
abbrev last : Server
last =
    cleanup_session
      (handle_web_socket open_mac first clock id_header time_header nonce_header true).0 player

reached : Reach tagging zero_packing open_mac first last
reached =
    next (next here (answers_request first clock id_header time_header nonce_header true))
      (cleans_up _ player)

reachable-IsManager_example :
    IsManager last.sessions
    × ((id₁ id₂ : Bytes) (r₁ r₂ : ℕ) (s₁ s₂ : Session)
        → get_session last.sessions id₁ ≡ some r₁
        → get_session last.sessions id₂ ≡ some r₂
        → deref last.sessions r₁ ≡ some s₁
        → deref last.sessions r₂ ≡ some s₂
        → id₁ ≢ id₂
        → ip_string s₁.ip ≢ ip_string s₂.ip)
unfolding defaults
reachable-IsManager_example =
    reachable-IsManager tagging zero_packing open_mac key_of cfg network 10 8 0 0 first last
      zero_packing-Lz4Laws refl refl made reached

handle_web_socket-Accepted_example :
    (((handle_web_socket open_mac server clock id_header time_header nonce_header true).1
        ≡ starts_client)
      ↔ ((id_header ≢ [])
          × (time_header ≢ [])
          × (nonce_header ≢ [])
          × Accepted open_mac server.auth clock id_header time_header nonce_header
          × (true ≡ true)))
    × ((handle_web_socket open_mac server clock id_header time_header nonce_header true).0.sessions
        ≡ server.sessions)
    × ((handle_web_socket open_mac server clock id_header time_header nonce_header true).0.nat_table
        ≡ server.nat_table)
handle_web_socket-Accepted_example =
    handle_web_socket-Accepted open_mac server clock id_header time_header nonce_header true

-- The session before it has a connection.
abbrev newcomer : Session
newcomer = record player { connections = [] }

is_v4 : to4 newcomer.ip ≡ some (host 10 8 0 2)
unfolding to4
is_v4 = refl

-- The session's name and key, 10.8.0.2/24 with the gateway 10.8.0.1, the DNS servers, and the MTU.
abbrev told : List Control
told = announced newcomer server.cfg (host 10 8 0 2) 10 8 0

fits : AllFit told
unfolding defaults flatten
fits = omega arith

welcome-Delivered_example :
    (events : List Event) × (left : Session) × (welcome (λ w. true) rng 5 server 0 newcomer
      ≡ ok (
        put_session (record server { nat_table = register server.nat_table newcomer.ip 0 }) 0 left,
        events,
      ))
    × Delivered 5 newcomer.sequence told events
unfolding defaults
welcome-Delivered_example =
    welcome-Delivered rng 5 server 0 newcomer network (host 10 8 0 2) 10 8 0 0 refl (omega arith)
      is_v4 refl refl fits
