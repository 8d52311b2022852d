-- ===== src/Config.antt =====
-- server/internal/config/config.go: the settings. The subnet and the DNS servers come with what the
-- `net` package parses them to.
pub mod File
use ligend.Prelude.{ℕ, not, Bool, true, List, [], ◌∷◌, Option, none, some, length, ◌==◌}
use ligend.Prelude.Outcome.{Outcome, ok, err, ◌>>=◌, ◌>>◌, fail_if}
use ligend.Prelude.Bytes.{Bytes}
use ligend.Prelude.Texts.{codes}
use ligend.Tunnel.Pool.{Network}

-- A subnet's text, and the network that `net.ParseCIDR` returns for it, if it returns one.
pub record Subnet : Type 0 where
  pub text : Bytes
  pub parsed : Option Network

-- A DNS server's text, and what `net.ParseIP(text).To4()` gives for it.
pub record DnsServer : Type 0 where
  pub text : Bytes
  pub v4 : Option Bytes

pub record Config : Type 0 where
  pub listen_addr : Bytes
  pub udp_port : ℕ
  pub game_mode : Bool
  pub web_socket_path : Bytes
  pub secret_key_base64 : Bytes
  pub vpn_subnet : Subnet
  pub tun_name : Bytes
  pub mtu : ℕ
  pub dns : List DnsServer
  pub web_root : Bytes
  pub padding_min : ℕ
  pub padding_max : ℕ
  pub max_clients : ℕ
  pub awg_jc : ℕ
  pub awg_jmin : ℕ
  pub awg_jmax : ℕ
  pub awgh1 : ℕ
  pub awgh2 : ℕ
  pub awgh3 : ℕ
  pub awgh4 : ℕ

-- The argument is what `net.ParseCIDR` returns for 10.8.0.0/24.
unfoldable pub defaults : Option Network → Config
defaults network = record {
  listen_addr = codes ":8443";
  udp_port = 51820;
  game_mode = true;
  web_socket_path = codes "/ws";
  secret_key_base64 = [];
  vpn_subnet = record { text = codes "10.8.0.0/24"; parsed = network };
  tun_name = codes "ligend0";
  mtu = 1280;
  dns =
      record { text = codes "1.1.1.1"; v4 = some (1 ∷ 1 ∷ 1 ∷ 1 ∷ []) }
      ∷ record { text = codes "8.8.8.8"; v4 = some (8 ∷ 8 ∷ 8 ∷ 8 ∷ []) }
      ∷ [];
  web_root = codes "./web";
  padding_min = 3;
  padding_max = 15;
  max_clients = 254;
  awg_jc = 4;
  awg_jmin = 40;
  awg_jmax = 70;
  awgh1 = 0x7391b4a2;
  awgh2 = 0x51c3d9e8;
  awgh3 = 0x3f2a8c1e;
  awgh4 = 0x9b4a1e7d;
}

pub data KeyError : Type 0 where
  bad_base64 wrong_length : KeyError

abbrev pub decoded : Option Bytes → Outcome KeyError Bytes
decoded none = err bad_base64
decoded (some key) = ok key

-- The argument is `base64.StdEncoding.DecodeString`.
unfoldable pub secret_key : (Bytes → Option Bytes) → Config → Outcome KeyError Bytes
secret_key decode_string c = do
  key ← decoded (decode_string c.secret_key_base64)
  fail_if (not (length key == 32)) wrong_length
  ok key
