-- ===== src/Examples/Clients.antt =====
-- Tokens of the panel, and requests with and without one.
use ligend.Prelude.{
  ◌+◌, ◌-◌, ◌*◌, ◌≤◌, ◌<◌, ◌≡◌, ◌≢◌, ◌↔◌, refl, ap, true, false, [], ◌∷◌, ◌++◌, Option, none, some,
  length, arith,
}
use ligend.Prelude.Outcome.{ok, err}
use ligend.Prelude.Bytes.{Bytes}
use ligend.Prelude.Tables.{bytes_keys}
use ligend.Prelude.Texts.{ℤ, pos, codes}
use ligend.Panel.Http.{get, put, delete, success, failure, not_found}
use ligend.Panel.Logs.{new_log_buffer}
use ligend.Panel.Tokens.{
  Claims, TokenLib, TokenLibLaws, NoDot, generate_token, validate_token, token_expired, day,
  authorised, split,
}
use ligend.Panel.Tokens.Issued.{Signed, validate_token-Signed, validate_token-generate_token}
use ligend.Panel.Clients.{
  Surroundings, CreateClientRequest, client_created, client_deleted, client_secret,
  nanoseconds_per_day, create_client, handle_clients, handle_keys, atoi,
}
use ligend.Panel.Clients.Expiry.{Before, create_client-expiry}
use ligend.Panel.Clients.Uris.{handle_clients-delete}
use ligend.Panel.Requests.{Panel, Request, World, handle_request}
use ligend.Panel.Requests.Guarded.{Harmless, handle_request-Harmless}
use ligend.Examples.Servers.{server}
use ligend.Examples.Panels.{plain, db, update}

-- An encoding above the dot.
abbrev shifted : Bytes → Bytes
shifted [] = []
shifted (c ∷ cs) = (c + 100) ∷ shifted cs

abbrev back : Bytes → Bytes
back [] = []
back (c ∷ cs) = (c - 100) ∷ back cs

abbrev spread : Bytes → Bytes
spread [] = []
spread (c ∷ cs) = 0 ∷ c ∷ spread cs

abbrev gathered : Bytes → Bytes
gathered [] = []
gathered (z ∷ []) = []
gathered (z ∷ c ∷ cs) = c ∷ gathered cs

abbrev read_claims : Bytes → Option Claims
read_claims [] = none
read_claims (exp ∷ sub) = some (record { exp = some (pos exp); sub = some sub })

abbrev pub lib : TokenLib
lib = record {
  mac = λ key text. key ++ text;
  encode = shifted;
  decode = λ text. some (back text);
  marshal = λ sub exp. exp ∷ sub;
  unmarshal = read_claims;
  valid = λ text. true;
  to_hex = spread;
  from_hex = λ text. some (gathered text);
}

back-shifted : (x : Bytes) → back (shifted x) ≡ x
back-shifted [] = refl
back-shifted (c ∷ cs) = let e : c + 100 - 100 ≡ c = omega arith in rw (e, back-shifted cs) refl

shifted-NoDot : (x : Bytes) → NoDot (shifted x)
shifted-NoDot [] = tt
shifted-NoDot (c ∷ cs) = (ground arith, shifted-NoDot cs)

gathered-spread : (x : Bytes) → gathered (spread x) ≡ x
gathered-spread [] = refl
gathered-spread (c ∷ cs) = rw (gathered-spread cs) refl

length-spread : (x : Bytes) → length (spread x) ≡ 2 * length x
length-spread [] = omega arith
length-spread (c ∷ cs) = omega (arith, length-spread cs)

pub lib-TokenLibLaws : TokenLibLaws lib
lib-TokenLibLaws = record {
  decode-encode = λ x. ap (λ (y : Bytes). some y) (back-shifted x);
  encode-NoDot = shifted-NoDot;
  unmarshal-marshal = λ sub exp valid small. refl;
  from_hex-to_hex = λ x. ap (λ (y : Bytes). some y) (gathered-spread x);
  length-to_hex = length-spread;
}

abbrev pub secret : Bytes
secret = 3 ∷ 4 ∷ []

abbrev admin : Bytes
admin = codes "admin"

abbrev token : Bytes
token = generate_token lib secret 1000 admin

validate_token-Signed_example :
    (validate_token lib secret 1500 token ≡ ok admin) ↔ Signed lib secret 1500 token admin
validate_token-Signed_example = validate_token-Signed lib lib-TokenLibLaws secret 1500 token admin

validate_token-generate_token_example :
    let answer = validate_token lib secret 1500 token in
    (1500 ≤ 1000 + day → answer ≡ ok admin) × (1000 + day < 1500 → answer ≡ err token_expired)
validate_token-generate_token_example =
    validate_token-generate_token lib lib-TokenLibLaws secret 1000 1500 admin refl (omega arith)

abbrev around : Surroundings
around = record {
  answers = true;
  generated_key = some (9 ∷ 9 ∷ []);
  encode_to_string = shifted;
  now = 5000;
  secret_key_base64 = [];
  sessions = [];
}

abbrev request : CreateClientRequest
request = record { name = codes "eve"; traffic_limit_bytes = pos 0; expires_in_days = pos 30 }

one : atoi (codes "1") ≡ some (pos 1)
unfolding atoi
one = refl

whole : split b'/' (codes "1") ≡ codes "1" ∷ []
unfolding split
whole = refl

handle_clients-delete_example :
    let (db', reply) = handle_clients around db delete (codes "/api/clients/" ++ codes "1") none in
    let shown = handle_keys around (codes "/ws") db' get (codes "/api/keys/uri/" ++ codes "1") in
    (reply ≡ success client_deleted)
    × (pos 1 ≡ pos 1 → shown ≡ failure not_found)
    × (pos 1 ≢ pos 1
        → shown ≡ handle_keys around (codes "/ws") db get (codes "/api/keys/uri/" ++ codes "1"))
handle_clients-delete_example =
    handle_clients-delete around (codes "/ws") db (codes "1") (codes "1") (pos 1) (pos 1) refl whole
      one one

create_client-expiry_example :
    (t : ℤ) × (create_client around db request ≡ (
      record db {
        client_keys =
            record {
              id = 1;
              name = codes "eve";
              secret_key = client_secret around (9 ∷ 9 ∷ []) [];
              traffic_limit_bytes = pos 0;
              traffic_used_up = 0;
              traffic_used_down = 0;
              enabled = true;
              expires_at = some t;
            }
            ∷ [];
        last_id = 1;
      },
      success client_created,
    ))
    × (30 ≤ 106751 → t ≡ pos (5000 + 30 * nanoseconds_per_day))
    × (106751 < 30 → 30 ≤ 213503 → Before t 5000)
create_client-expiry_example =
    create_client-expiry around db request 29 b'e' (codes "ve") (9 ∷ 9 ∷ []) refl refl refl refl

abbrev pub world : World
world = record {
  lib = lib;
  bcrypt = plain;
  answers = true;
  generated_key = some (9 ∷ 9 ∷ []);
  encode_to_string = shifted;
  now = 5000;
  hour_text = λ i. [];
  read_file = λ path. none;
}

abbrev panel : Panel
panel = record {
  server = record server {
    http_server = some (record {
      addr = server.cfg.listen_addr;
      web_socket_path = server.cfg.web_socket_path;
      awaited = true;
    });
  };
  db = db;
  jwt_secret = secret;
  log_buffer = new_log_buffer 1000;
}

-- A change of the settings without a token.
abbrev pub attempt : Request
attempt = record {
  method = put;
  path = codes "/api/server/config";
  auth_header = codes "Basic x";
  domain = [];
  login_body = none;
  config_body = some update;
  protocol_body = none;
  client_body = none;
}

pub denied : authorised lib secret 0 (codes "Basic x") ≡ false
unfolding authorised
denied = refl

handle_request-Harmless_example :
    let (p', reply) = handle_request world panel attempt in (p' ≡ panel) × Harmless reply
handle_request-Harmless_example = handle_request-Harmless world panel attempt denied
