-- ===== src/Examples/Servers.antt =====
-- The server's handlers, on messages and datagrams of a client.
use ligend.Tunnel.Session.{Session}
use ligend.Prelude.{false, ◌≡◌, refl, [], ◌∷◌, none, some}
use ligend.Prelude.Outcome.{Sat}
use ligend.Prelude.Bytes.{Bytes}
use ligend.Prelude.Tables.{lookup, bytes_keys, nat_keys}
use ligend.Config.{defaults}
use ligend.Auth.{new_authenticator}
use ligend.Tunnel.Manager.{deref}
use ligend.Server.{Server, Step, find_by_number}
use ligend.Server.Messages.{handle_message}
use ligend.Server.Clients.{handle_message-Serves}
use ligend.Server.Isolation.{OnlySession}
use ligend.Examples.Parameters.{zero_packing, zero_packing-Lz4Laws, rng}
use ligend.Examples.Sessions.{network, empty, player}

-- One session behind the reference 0, that the manager has under no name.
abbrev pub server : Server
server = record {
  cfg = defaults (some network);
  auth = new_authenticator [];
  sessions = record empty { heap = (0, player) ∷ []; next_ref = 1 };
  nat_table = (168296450, 0) ∷ [];
  tun = none;
  http_server = none;
  start_returned = false;
  udp_conn = 1;
}

-- A ping.
abbrev message : Bytes
message = 0x23 ∷ 0 ∷ 0 ∷ 2 ∷ 0 ∷ 0 ∷ 0 ∷ 5 ∷ 8 ∷ 18 ∷ []

held : deref server.sessions 0 ≡ some player
unfolding deref lookup
held = refl

handle_message-Serves_example :
    Sat
      (λ (step : Step). OnlySession 0 player server (step.0))
      (handle_message zero_packing rng server 0 player 4 message 12)
handle_message-Serves_example =
    handle_message-Serves zero_packing rng server 0 player 4 message 12 zero_packing-Lz4Laws held

found : find_by_number server.sessions 77 (0 ∷ []) ≡ some (0, player)
unfolding find_by_number deref lookup
found = refl
