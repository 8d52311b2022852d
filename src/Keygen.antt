-- ===== src/Keygen.antt =====
-- server/cmd/ligend-keygen/main.go: the key, the path and the settings that it prints.
pub mod Credentials
use ligend.Prelude.{ℕ, zero, suc, ◌%◌, true, List, [], ◌∷◌, Option, some, length}
use ligend.Prelude.Outcome.{Outcome, ok, err, panic, ◌>>=◌, at, wrap_err}
use ligend.Prelude.Bytes.{Bytes}
use ligend.Prelude.Texts.{codes}
use ligend.Crypto.{Entropy, CryptoError, read_random}
use ligend.Config.{Config, defaults}
use ligend.Tunnel.Pool.{Network}

abbrev pub key_length : ℕ
key_length = 32

abbrev pub path_length : ℕ
path_length = 16

abbrev pub path_chars : Bytes
path_chars = codes "abcdefghijklmnopqrstuvwxyz0123456789"

-- `rand.Int` draws below the number of characters.
abbrev pub random_chars : ℕ → (ℕ → ℕ) → Outcome CryptoError Bytes
random_chars zero draw = ok []
random_chars (suc n) draw = do
  c ← at path_chars (draw n % length path_chars)
  rest ← random_chars n draw
  ok (c ∷ rest)

-- The settings that are printed for the server's file, as it reads them: those that are not printed
-- have their defaults. The first argument is what 10.8.0.0/24 parses to.
unfoldable pub printed_config : Option Network → Bytes → Bytes → Config
printed_config network path key = record (defaults network) {
  listen_addr = codes ":8443";
  web_socket_path = path;
  secret_key_base64 = key;
  vpn_subnet = record { text = codes "10.8.0.0/24"; parsed = network };
  tun_name = codes "ligend0";
  mtu = 1280;
  dns =
      record { text = codes "1.1.1.1"; v4 = some (1 ∷ 1 ∷ 1 ∷ 1 ∷ []) }
      ∷ record { text = codes "8.8.8.8"; v4 = some (8 ∷ 8 ∷ 8 ∷ 8 ∷ []) }
      ∷ [];
  web_root = codes "./web";
  padding_min = 3;
  padding_max = 15;
  max_clients = 254;
}

-- The secret key and the printed settings. The first argument is `base64.StdEncoding.EncodeToString`.
unfoldable pub generate :
    (Bytes → Bytes) → Option Network → Entropy → (ℕ → ℕ) → Outcome CryptoError (Bytes × Config)
generate encode_to_string network entropy draw = do
  key ← read_random entropy key_length
  chars ← random_chars path_length draw
  ok (key, printed_config network (b'/' ∷ chars) (encode_to_string key))
