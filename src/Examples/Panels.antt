-- ===== src/Examples/Panels.antt =====
-- The panel: its log, its settings and its tokens.
use ligend.Prelude.{ℕ, ◌*◌, ◌≤◌, ◌<◌, ◌≡◌, ◌↔◌, refl, true, List, [], ◌∷◌, none, some, arith}
use mathlib.Core.Option.{some-injective}
use ligend.Prelude.Outcome.{ok, panic}
use ligend.Prelude.Bytes.{Bytes}
use ligend.Prelude.Tables.{bytes_eq, beq_refl, bytes_keys}
use ligend.Prelude.Texts.{pos, negsuc, codes}
use ligend.Config.{Config, defaults}
use ligend.Protocol.Shaping.{padding_delay}
use ligend.Tunnel.Packet.{to4}
use ligend.Tunnel.Pool.Subnet.{host}
use ligend.Tunnel.Session.{Session}
use ligend.Server.Welcome.{welcome}
use ligend.Panel.Logs.{
  LogEntry, LogBuffer, new_log_buffer, add_all, recent, last_lines, recent-add_all,
}
use ligend.Panel.Http.{put, success}
use ligend.Panel.Settings.{
  ProtocolConfig, shown_protocol, handle_protocol, ConfigUpdate, handle_server_config,
}
use ligend.Panel.Settings.Changes.{handle_protocol-padding, handle_server_config-panic}
use ligend.Panel.Store.{Db, Bcrypt, BcryptLaws}
use ligend.Examples.Parameters.{rng}
use ligend.Examples.Sessions.{network, player}
use ligend.Examples.Servers.{server}

abbrev line : ℕ → LogEntry
line n = record { timestamp = []; level = codes "INFO"; message = n ∷ []; source = [] }

abbrev lines : List LogEntry
lines = line 1 ∷ line 2 ∷ line 3 ∷ []

recent-add_all_example :
    (last : LogBuffer) × (add_all (new_log_buffer 2) lines ≡ ok last)
    × ((n : ℕ) → 0 < n → n ≤ 2 → recent last (pos n) ≡ last_lines n lines)
    × ((n : ℕ) → 2 < n → recent last (pos n) ≡ last_lines 2 lines)
    × (recent last (pos 0) ≡ last_lines 2 lines)
    × ((n : ℕ) → recent last (negsuc n) ≡ last_lines 2 lines)
recent-add_all_example = recent-add_all 2 lines (omega arith)

abbrev pub settings : Config
settings = defaults (some network)

-- A least delay above the greatest.
abbrev crossed : ProtocolConfig
crossed = record (shown_protocol settings) { padding_min_sec = pos 20; padding_max_sec = pos 10 }

handle_protocol-padding_example :
    let (s', reply) = handle_protocol server put (some crossed) in
    let delay = padding_delay 700 s'.cfg.padding_min s'.cfg.padding_max in
    (reply ≡ success crossed)
    × (20 ≤ 10
        → 10 ≤ 9223372036
        → (d : ℕ) × (delay ≡ ok (pos (d * 1000000000))) × (20 ≤ d) × (d ≤ 10))
    × (20 ≤ 10 → 9223372037 ≤ 20 → 10 ≤ 18446744073 → (m : ℕ) × (delay ≡ ok (negsuc m)))
    × ((delay ≡ panic) ↔ (10 < 20))
handle_protocol-padding_example =
    handle_protocol-padding server crossed 700 20 10 refl refl (omega arith) (omega arith)
      (omega arith)

-- A subnet without its length.
abbrev pub update : ConfigUpdate
update = record {
  listen_addr = codes "9443";
  udp_port = pos 0;
  game_mode = true;
  web_socket_path = [];
  vpn_subnet = record { text = codes "10.8.0.0"; parsed = none };
  mtu = negsuc 0;
  dns = [];
  max_clients = pos 10;
}

abbrev newcomer : Session
newcomer = record player { connections = [] }

is_v4 : to4 newcomer.ip ≡ some (host 10 8 0 2)
unfolding to4
is_v4 = refl

handle_server_config-panic_example :
    let (s', reply) = handle_server_config server put (some update) in
    (reply ≡ success s'.cfg) × (welcome (λ w. true) rng 5 s' 0 newcomer ≡ panic)
handle_server_config-panic_example =
    handle_server_config-panic server update rng 5 0 newcomer (host 10 8 0 2) b'1' (codes "0.8.0.0")
      refl refl refl is_v4

-- Passwords as their own hashes.
abbrev pub plain : Bcrypt
plain = record {
  generate_from_password = λ salt password. some password;
  compare_hash_and_password = λ hash password. bytes_eq hash password;
}

pub plain-BcryptLaws : BcryptLaws plain
plain-BcryptLaws = record { compare-generate = matches }
  where
    matches :
        (salt password hash : Bytes) → some password ≡ some hash → bytes_eq hash password ≡ true
    matches salt password hash e = rw (some-injective _ _ e) (beq_refl hash)

abbrev pub db : Db
db = record { admin_users = []; client_keys = []; last_id = 0; panel_config = [] }
