-- ===== src/Panel/Clients.antt =====
-- server/internal/panel/api_clients.go and api_keys.go: the clients' keys, as the panel's administrator
-- makes, lists, shows and deletes them.
pub mod Expiry
pub mod Ids
pub mod Keys
pub mod Uris
use ligend.Prelude.{
  ℕ, ◌+◌, ◌-◌, ◌*◌, ◌%◌, ◌^◌, Bool, true, false, ◌&&◌, List, [], ◌∷◌, ◌++◌, Option, none, some, map,
  ltb, leb, ◌==◌, if◌then◌else◌,
}
use ligend.Prelude.Outcome.{Outcome, ok, err, panic}
use ligend.Prelude.Bytes.{Bytes}
use ligend.Prelude.Tables.{bytes_eq}
use ligend.Prelude.Texts.{ℤ, pos, negsuc, codes, positive}
use ligend.Tunnel.Session.{Session}
use ligend.Panel.Http.{
  Method, get, post, delete, Response, success, failure, bad_request, not_found, method_not_allowed,
  internal_server_error,
}
use ligend.Panel.Store.{
  ClientKey, Db, DbError, has_id, list_client_keys, create_client_key, delete_client_key,
}
use ligend.Panel.Tokens.{split, after_prefix}

abbrev pub trim_prefix : Bytes → Bytes → Bytes
trim_prefix prefix text = elim (after_prefix prefix text) [ none ↦ text | some rest ↦ rest ]

abbrev pub is_digit : ℕ → Bool
is_digit c = leb b'0' c && leb c b'9'

-- The number that the digits make behind the number `acc`.
abbrev pub digits_from : ℕ → Bytes → Option ℕ
digits_from acc [] = some acc
digits_from acc (c ∷ cs) =
    let rest = digits_from (acc * 10 + (c - b'0')) cs in if is_digit c then rest else none

abbrev pub digits : Bytes → Option ℕ
digits [] = none
digits (c ∷ cs) = digits_from 0 (c ∷ cs)

abbrev pub bounded : Option ℕ → Option ℤ
bounded none = none
bounded (some n) = if ltb n (2 ^ 63) then some (pos n) else none

abbrev pub negated : Option ℕ → Option ℤ
negated none = none
negated (some n) =
    if n == 0 then some (pos 0) else (if leb n (2 ^ 63) then some (negsuc (n - 1)) else none)

-- `strconv.Atoi`: a sign is allowed, and a number that is no `int64` is an error.
unfoldable pub atoi : Bytes → Option ℤ
atoi [] = none
atoi (c ∷ cs) =
    if c == b'-'
    then negated (digits cs)
    else (if c == b'+' then bounded (digits cs) else bounded (digits (c ∷ cs)))

abbrev pub nanoseconds_per_day : ℕ
nanoseconds_per_day = 24 * 3600 * 10 ^ 9

-- `m - n`
abbrev pub difference : ℕ → ℕ → ℤ
difference m n = if leb n m then pos (m - n) else negsuc (n - m - 1)

-- `now.Add(time.Duration(days) * 24 * time.Hour)`: a product of 64-bit signed integers. A sum
-- outside the range of a time stamp is not looked at.
abbrev pub added : ℕ → ℕ → ℤ
added now duration =
    if ltb duration (2 ^ 63) then pos (now + duration) else difference now (2 ^ 64 - duration)

abbrev pub expiry : ℕ → Option ℕ → Option ℤ
expiry now none = none
expiry now (some days) = some (added now (days * nanoseconds_per_day % 2 ^ 64))

pub record CreateClientRequest : Type 0 where
  pub name : Bytes
  pub traffic_limit_bytes : ℤ
  pub expires_in_days : ℤ

pub data ClientsReply : Type 0 where
  listed : List ClientKey → ClientsReply
  client_created client_deleted client_kicked : ClientsReply
  active : List Session → ClientsReply

-- What a request brings from outside: whether the database answers, what the random source gives,
-- `base64.StdEncoding.EncodeToString`, the time in nanoseconds, the key in the configuration, and
-- the sessions of the VPN server.
pub record Surroundings : Type 0 where
  pub answers : Bool
  pub generated_key : Option Bytes
  pub encode_to_string : Bytes → Bytes
  pub now : ℕ
  pub secret_key_base64 : Bytes
  pub sessions : List Session

abbrev pub listing : Db → Outcome DbError (List ClientKey) → Db × Response ClientsReply
listing db (ok ks) = (db, success (listed ks))
listing db _ = (db, failure internal_server_error)

abbrev pub or_failure : Db → ClientsReply → Outcome DbError Db → Db × Response ClientsReply
or_failure db reply (ok db') = (db', success reply)
or_failure db reply _ = (db, failure internal_server_error)

-- The key of the configuration, or the one that was generated.
abbrev pub client_secret : Surroundings → Bytes → Bytes → Bytes
client_secret around key [] = around.encode_to_string key
client_secret around key (c ∷ cs) = c ∷ cs

abbrev pub stored_client :
    Surroundings → Db → CreateClientRequest → Option Bytes → Db × Response ClientsReply
stored_client around db request none = (db, failure internal_server_error)
stored_client around db request (some key) = or_failure db client_created (
    create_client_key around.answers db request.name
      (client_secret around key around.secret_key_base64) request.traffic_limit_bytes
      (expiry around.now (positive request.expires_in_days)))

abbrev pub named_client :
    Surroundings → Db → CreateClientRequest → Bytes → Db × Response ClientsReply
named_client around db request [] = (db, failure bad_request)
named_client around db request (c ∷ cs) = stored_client around db request around.generated_key

unfoldable pub create_client : Surroundings → Db → CreateClientRequest → Db × Response ClientsReply
create_client around db request = named_client around db request request.name

abbrev pub at_root :
    Surroundings → Db → Method → Option CreateClientRequest → Db × Response ClientsReply
at_root around db get body = listing db (list_client_keys around.answers db)
at_root around db post none = (db, failure bad_request)
at_root around db post (some request) = create_client around db request
at_root around db _ body = (db, failure method_not_allowed)

abbrev pub at_active : Surroundings → Db → Method → Db × Response ClientsReply
at_active around db get = (db, success (active around.sessions))
at_active around db _ = (db, failure method_not_allowed)

abbrev pub at_id : Surroundings → Db → ℤ → List Bytes → Method → Db × Response ClientsReply
at_id around db id (action ∷ []) post =
    if bytes_eq action (codes "kick") then (db, success client_kicked) else (db, failure not_found)
at_id around db id [] delete = or_failure db client_deleted (delete_client_key around.answers db id)
at_id around db id _ _ = (db, failure not_found)

abbrev pub at_number :
    Surroundings → Db → Option ℤ → List Bytes → Method → Db × Response ClientsReply
at_number around db none rest method = (db, failure bad_request)
at_number around db (some id) rest method = at_id around db id rest method

abbrev pub at_parts : Surroundings → Db → List Bytes → Method → Db × Response ClientsReply
at_parts around db [] method = (db, failure bad_request)
at_parts around db (first ∷ rest) method = at_number around db (atoi first) rest method

abbrev pub at_path :
    Surroundings → Db → Method → Bytes → Option CreateClientRequest → Db × Response ClientsReply
at_path around db method [] body = at_root around db method body
at_path around db method (c ∷ cs) body =
    if bytes_eq (c ∷ cs) (codes "active")
    then at_active around db method
    else at_parts around db (split b'/' (c ∷ cs)) method

-- A body is what its JSON decodes to, or nothing.
unfoldable pub handle_clients :
    Surroundings → Db → Method → Bytes → Option CreateClientRequest → Db × Response ClientsReply
handle_clients around db method path body =
    at_path around db method (trim_prefix (codes "/") (trim_prefix (codes "/api/clients") path))
      body

pub data KeysReply : Type 0 where
  generated : Bytes → KeysReply
  uri_of : Bytes → Bytes → KeysReply

abbrev pub find_key : ℤ → List ClientKey → Option ClientKey
find_key id [] = none
find_key id (k ∷ ks) = if has_id id k.id then some k else find_key id ks

abbrev pub keys_or_none : Outcome DbError (List ClientKey) → List ClientKey
keys_or_none (ok ks) = ks
keys_or_none _ = []

-- The URI that a client is set up with, for the path of the WebSocket.
unfoldable pub client_uri : Bytes → ClientKey → Bytes
client_uri web_socket_path k =
    codes "ligend://legendprotocol.duckdns.org:443/"
    ++ (trim_prefix (codes "/") web_socket_path
        ++ (codes "?key=" ++ (k.secret_key ++ codes "&transport=ws&fp=chrome")))

abbrev pub found_key : Bytes → Option ClientKey → Response KeysReply
found_key web_socket_path none = failure not_found
found_key web_socket_path (some k) = success (uri_of (client_uri web_socket_path k) k.name)

abbrev pub show_key : Surroundings → Bytes → Db → Option ℤ → Response KeysReply
show_key around web_socket_path db none = failure bad_request
show_key around web_socket_path db (some id) =
    found_key web_socket_path (find_key id (keys_or_none (list_client_keys around.answers db)))

abbrev pub generate : Surroundings → Option Bytes → Response KeysReply
generate around none = failure internal_server_error
generate around (some key) = success (generated (around.encode_to_string key))

abbrev pub at_key_path : Surroundings → Bytes → Db → Method → Bytes → Response KeysReply
at_key_path around web_socket_path db post path =
    if bytes_eq path (codes "generate")
    then generate around around.generated_key
    else failure not_found
at_key_path around web_socket_path db get path = elim (after_prefix (codes "uri/") path) [
  | none ↦ failure not_found
  | some id_text ↦ show_key around web_socket_path db (atoi id_text)
]
at_key_path around web_socket_path db _ path = failure not_found

unfoldable pub handle_keys : Surroundings → Bytes → Db → Method → Bytes → Response KeysReply
handle_keys around web_socket_path db method path =
    at_key_path around web_socket_path db method
      (trim_prefix (codes "/") (trim_prefix (codes "/api/keys") path))
