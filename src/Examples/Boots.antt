-- ===== src/Examples/Boots.antt =====
-- The program's start, and its start again.
use ligend.Prelude.{ℕ, ◌↔◌, ◌≢◌, ◌+◌, ◌%◌, ◌≡◌, refl, true, [], ◌∷◌, Option, some, arith}
use mathlib.Core.Path.{subst}
use ligend.Prelude.Outcome.{ok}
use ligend.Prelude.Bytes.{Bytes}
use ligend.Prelude.Tables.{lookup, insert, bytes_keys}
use ligend.Prelude.Texts.{pos, codes}
use ligend.Config.{defaults, secret_key}
use ligend.Server.{Server}
use ligend.Server.Safety.{empty_manager-IsManager}
use ligend.Server.Startup.{start, shutdown, http_shut_down}
use ligend.Server.Reach.{shuts_down}
use ligend.Server.Shutdown.{Ends, shutdown-start}
use ligend.Panel.Logs.{add, new_log_buffer}
use ligend.Panel.Store.{init_schema, get_panel_config, set_panel_config}
use ligend.Panel.Tokens.{new_auth, authorised}
use ligend.Panel.Requests.{Panel, new_panel, handle_request}
use ligend.Panel.Requests.Kept.{WellKept}
use ligend.Panel.Requests.Guarded.{handle_request-Harmless}
use ligend.Boot.{Boot, boot, panel_port, Process, running, unless_returned, next_process, exited}
use ligend.Boot.Restart.{boot-restart}
use ligend.Boot.Running.{
  Kept, Runs, set_out, goes_on, answers, works, boot-Kept, next_process-exits,
}
use ligend.Examples.Parameters.{zeros, tagging, zero_packing, zero_packing-Lz4Laws, open_mac}
use ligend.Examples.Sessions.{network}
use ligend.Examples.Panels.{plain, db}
use ligend.Tunnel.Pool.Subnet.{host}
use ligend.Tunnel.Device.{masquerade, accept_from, accept_to, new_tun_device, configure, setup_nat}
use ligend.Examples.Machines.{Rules, count, run_cmd, laws, net}
use ligend.Examples.Runs.{cfg, key_of, first, made}
use ligend.Examples.Clients.{lib, lib-TokenLibLaws, secret, world, attempt, denied}

abbrev conditions : Boot
conditions = record {
  lib = lib;
  bcrypt = plain;
  decode_string = key_of;
  file = some cfg;
  answers = true;
  salt = [];
  flag = pos 0;
  draw = 2345;
  entropy = some secret;
  timestamp = codes "12:00";
}

has_key : secret_key key_of cfg ≡ ok (zeros 32)
unfolding secret_key
has_key = refl

boot-restart_example :
    (p : Panel) × (boot conditions db ≡ ok (p, pos (10000 + 2345 % 50000)))
    × ((salt : Bytes) (draw : ℕ) (entropy : Option Bytes) (timestamp : Bytes)
        → let again = record conditions {
          salt = salt;
          draw = draw;
          entropy = entropy;
          timestamp = timestamp;
        } in
          (p' : Panel) × (boot again p.db ≡ ok (p', pos (10000 + 2345 % 50000)))
          × (p'.jwt_secret ≡ p.jwt_secret)
          × (p'.db ≡ p.db))
unfolding lookup
boot-restart_example =
    boot-restart conditions lib-TokenLibLaws cfg (zeros 32) first db (codes "admin") secret refl
      has_key made refl refl refl refl (omega arith) refl refl refl

-- With a port given.
abbrev given : Boot
given = record conditions { flag = pos 8080 }

abbrev begun : Panel
begun = record {
  server = first;
  db = record db {
    admin_users = insert (codes "admin") (codes "admin") [];
    panel_config = insert (codes "jwt_secret") (lib.to_hex secret) [];
  };
  jwt_secret = secret;
  log_buffer = record {
    entries =
        record {
          timestamp = codes "12:00";
          level = codes "INFO";
          message = codes "GOmp Studios Panel initialized";
          source = codes "system";
        }
        ∷ [];
    max = 1000;
  };
}

booted : boot given db ≡ ok (begun, pos 8080)
unfolding boot secret_key init_schema lookup insert panel_port new_panel new_auth get_panel_config
    set_panel_config add new_log_buffer
booted = rw made refl

-- The machine once the VPN server listens.
abbrev rules : Rules
rules =
    let subnet = cfg.vpn_subnet.text in
    accept_to subnet ∷ accept_from subnet ∷ masquerade subnet ∷ []

abbrev listening : Server
listening = record first {
  tun = some (record { name = codes "tun0"; addr = 24 ∷ host 10 8 0 1; mtu = cfg.mtu });
  http_server =
      some
        (record { addr = cfg.listen_addr; web_socket_path = cfg.web_socket_path; awaited = true });
}

started : start run_cmd [] net (some (codes "tun0")) true first ≡ (rules, ok listening)
unfolding start new_tun_device configure setup_nat defaults
started = refl

-- The panel while the VPN server listens, which gets another address.
abbrev serving : Panel
serving = record begun { server = listening }

-- A request without a token, and then the signal to end.
abbrev answered : Process
answered = next_process (running serving) (world, attempt)

abbrev ended : Process
ended = unless_returned true (record serving { server = http_shut_down listening })

unmoved : (handle_request world serving attempt).0 ≡ serving
unmoved = (handle_request-Harmless world serving attempt denied).0

same_panel : answered ≡ running serving
unfolding next_process
same_panel = rw unmoved refl

run : Runs tagging zero_packing open_mac (running serving) ended
run =
    goes_on
      (subst (Runs tagging zero_packing open_mac (running serving)) same_panel
        (goes_on set_out (answers serving world attempt)))
      (works serving (http_shut_down listening) (shuts_down listening))

boot-Kept_example :
    Kept tagging zero_packing open_mac (running serving) (codes "/ws") cfg.listen_addr ended
unfolding defaults
boot-Kept_example =
    boot-Kept run_cmd [] rules net (some (codes "tun0")) true given db cfg network 10 8 0 0 begun
      (pos 8080) listening tagging zero_packing open_mac ended refl refl refl (omega arith) booted
      started zero_packing-Lz4Laws run

shutdown-start_example : Ends run_cmd count laws [] first 3 (shutdown run_cmd 3 rules listening)
shutdown-start_example =
    shutdown-start run_cmd count laws [] rules net (some (codes "tun0")) true first listening 3
      started

serving-WellKept : WellKept (codes "/ws") serving
unfolding defaults
serving-WellKept = ((refl, refl, empty_manager-IsManager network 10 8 0 0 refl), omega arith)

next_process-exits_example :
    ((next_process (running serving) (world, attempt) ≡ exited 1) ↔ (
      (handle_request world serving attempt).0.server.cfg.listen_addr
      ≢ serving.server.cfg.listen_addr))
    × (next_process (running serving) (world, attempt) ≡ exited 1
        → authorised lib secret 0 attempt.auth_header ≡ true)
next_process-exits_example = next_process-exits (codes "/ws") world serving attempt serving-WellKept
