-- ===== src/Panel/Settings.antt =====
-- server/internal/panel/api_protocol.go and api_server.go: the settings that the panel shows and changes.
-- The panel and the VPN server share one configuration. A body is what its JSON decodes to, or nothing.
pub mod Changes
pub mod Saving
use ligend.Prelude.{
  ℕ, Bool, true, false, not, ◌||◌, List, [], ◌∷◌, ◌++◌, Option, none, some, ◌==◌, if◌then◌else◌,
}
use ligend.Prelude.Bytes.{Bytes}
use ligend.Prelude.Tables.{bytes_eq}
use ligend.Prelude.Texts.{ℤ, pos, codes, positive, or_keep, nonempty}
use ligend.Config.{Config, Subnet, DnsServer}
use ligend.Config.File.{Yaml, save_config}
use ligend.Server.{Server}
use ligend.Server.Startup.{update_listen_addr}
use ligend.Panel.Http.{
  Method, get, put, Response, success, failure, bad_request, method_not_allowed,
}

pub record ProtocolConfig : Type 0 where
  pub transport : Bytes
  pub tls_fingerprint : Bytes
  pub game_mode : Bool
  pub padding_enabled : Bool
  pub padding_min_sec : ℤ
  pub padding_max_sec : ℤ
  pub compression_enabled : Bool
  pub keepalive_min_sec : ℤ
  pub keepalive_max_sec : ℤ
  pub jitter_enabled : Bool
  pub jitter_max_ms : ℤ
  pub packet_normalization : Bool
  pub awg_jc : ℤ
  pub awg_jmin : ℤ
  pub awg_jmax : ℤ
  pub awgh1 : ℕ
  pub awgh2 : ℕ
  pub awgh3 : ℕ
  pub awgh4 : ℕ

unfoldable pub shown_protocol : Config → ProtocolConfig
shown_protocol cfg = record {
  transport = codes "udp_awg";
  tls_fingerprint = codes "chrome";
  game_mode = cfg.game_mode;
  padding_enabled = not cfg.game_mode;
  padding_min_sec = pos cfg.padding_min;
  padding_max_sec = pos cfg.padding_max;
  compression_enabled = true;
  keepalive_min_sec = pos 15;
  keepalive_max_sec = pos 45;
  jitter_enabled = not cfg.game_mode;
  jitter_max_ms = pos 0;
  packet_normalization = not cfg.game_mode;
  awg_jc = pos cfg.awg_jc;
  awg_jmin = pos cfg.awg_jmin;
  awg_jmax = pos cfg.awg_jmax;
  awgh1 = cfg.awgh1;
  awgh2 = cfg.awgh2;
  awgh3 = cfg.awgh3;
  awgh4 = cfg.awgh4;
}

-- A setting that is not greater than zero is left as it was; the game mode is always taken over.
unfoldable pub changed_protocol : Config → ProtocolConfig → Config
changed_protocol cfg p = record cfg {
  game_mode = p.game_mode;
  padding_min = or_keep (positive p.padding_min_sec) cfg.padding_min;
  padding_max = or_keep (positive p.padding_max_sec) cfg.padding_max;
  awg_jc = or_keep (positive p.awg_jc) cfg.awg_jc;
  awg_jmin = or_keep (positive p.awg_jmin) cfg.awg_jmin;
  awg_jmax = or_keep (positive p.awg_jmax) cfg.awg_jmax;
  awgh1 = or_keep (positive (pos p.awgh1)) cfg.awgh1;
  awgh2 = or_keep (positive (pos p.awgh2)) cfg.awgh2;
  awgh3 = or_keep (positive (pos p.awgh3)) cfg.awgh3;
  awgh4 = or_keep (positive (pos p.awgh4)) cfg.awgh4;
}

-- The server behind the panel, after the request, and the answer.
unfoldable pub handle_protocol :
    Server → Method → Option ProtocolConfig → Server × Response ProtocolConfig
handle_protocol s get body = (s, success (shown_protocol s.cfg))
handle_protocol s put none = (s, failure bad_request)
handle_protocol s put (some p) = (record s { cfg = changed_protocol s.cfg p }, success p)
handle_protocol s _ body = (s, failure method_not_allowed)

-- The fields of a decoded configuration that the handler looks at. The DNS servers come with what they
-- parse to, as in `Config`.
pub record ConfigUpdate : Type 0 where
  pub listen_addr : Bytes
  pub udp_port : ℤ
  pub game_mode : Bool
  pub web_socket_path : Bytes
  pub vpn_subnet : Subnet
  pub mtu : ℤ
  pub dns : List DnsServer
  pub max_clients : ℤ

abbrev pub contains : ℕ → Bytes → Bool
contains c [] = false
contains c (x ∷ xs) = (x == c) || contains c xs

-- ":8443" for "8443"
abbrev pub with_colon : Bytes → Bytes
with_colon addr = if contains b':' addr then addr else b':' ∷ addr

-- The address of the panel's configuration is set first, which is the server's as well.
unfoldable pub changed_addr : Server → Bytes → Server
changed_addr s [] = s
changed_addr s (c ∷ cs) =
    let new_addr = with_colon (c ∷ cs) in
    let s' = record s { cfg = record s.cfg { listen_addr = new_addr } } in
    if bytes_eq new_addr s.cfg.listen_addr then s' else update_listen_addr s' new_addr

-- What stands under the text `text` is in `new`.
abbrev pub changed_subnet : Bytes → Subnet → Subnet → Subnet
changed_subnet [] new old = old
changed_subnet (c ∷ cs) new old = new

unfoldable pub changed_config : Server → ConfigUpdate → Server
unfolding changed_addr
changed_config s u =
    let moved = changed_addr s u.listen_addr in
    record moved {
      cfg = record moved.cfg {
        udp_port = or_keep (positive u.udp_port) moved.cfg.udp_port;
        game_mode = u.game_mode;
        web_socket_path = or_keep (nonempty u.web_socket_path) moved.cfg.web_socket_path;
        vpn_subnet = changed_subnet u.vpn_subnet.text u.vpn_subnet moved.cfg.vpn_subnet;
        mtu = or_keep (positive u.mtu) moved.cfg.mtu;
        dns = or_keep (nonempty u.dns) moved.cfg.dns;
        max_clients = or_keep (positive u.max_clients) moved.cfg.max_clients;
      };
    }

unfoldable pub handle_server_config :
    Server → Method → Option ConfigUpdate → Server × Response Config
unfolding changed_config
handle_server_config s get body = (s, success s.cfg)
handle_server_config s put none = (s, failure bad_request)
handle_server_config s put (some u) = let s' = changed_config s u in (s', success s'.cfg)
handle_server_config s _ body = (s, failure method_not_allowed)

module _ {F : Type 0} (yaml : Yaml F) (write_file : Option F → F → Option F) where
  abbrev pub saved_config : Bytes → Option F → Config → Method → Option ConfigUpdate → Option F
  saved_config path file cfg put (some u) = save_config yaml write_file path file cfg
  saved_config path file cfg _ body = file

  -- The handler with the file of the configuration, which a change is saved to.
  unfoldable pub handle_and_save :
      Bytes → Option F → Server → Method → Option ConfigUpdate → Option F × Server × Response Config
  handle_and_save path file s method body =
      let (s', reply) = handle_server_config s method body in
      (saved_config path file s'.cfg method body, s', reply)
