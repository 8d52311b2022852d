-- ===== src/Panel/Tokens.antt =====
-- server/internal/panel/auth.go: the tokens with which an administrator uses the panel.
pub mod Parts
pub mod Issued
use ligend.Prelude.{
  ℕ, ◌+◌, ◌*◌, ◌^◌, ◌<◌, ◌≡◌, Bool, true, false, not, List, [], ◌∷◌, ◌++◌, Option, none, some,
  length, ltb, ◌==◌, if◌then◌else◌, All,
}
use ligend.Prelude.Outcome.{Outcome, ok, err, panic, ◌>>=◌, ◌>>◌, fail_if, wrap_err}
use ligend.Prelude.Bytes.{Bytes}
use ligend.Prelude.Tables.{bytes_eq}
use ligend.Prelude.Texts.{ℤ, pos, negsuc, codes}
use ligend.Panel.Http.{
  Method, post, Response, success, failure, bad_request, unauthorized, method_not_allowed,
}
use ligend.Panel.Store.{Db, DbError, Bcrypt, get_panel_config, set_panel_config, validate_user}

-- What a payload's JSON object holds: "exp" if it is a number, as `int64(exp)`, and "sub" if it is a
-- text.
pub record Claims : Type 0 where
  pub exp : Option ℤ
  pub sub : Option Bytes

-- `mac` is HMAC-SHA256 with its key first. `encode` and `decode` are base64.RawURLEncoding's,
-- `marshal sub exp` and `unmarshal` those of encoding/json, `valid` is `utf8.ValidString`, and
-- `to_hex` and `from_hex` are encoding/hex's.
pub record TokenLib : Type 0 where
  pub mac : Bytes → Bytes → Bytes
  pub encode : Bytes → Bytes
  pub decode : Bytes → Option Bytes
  pub marshal : Bytes → ℕ → Bytes
  pub unmarshal : Bytes → Option Claims
  pub valid : Bytes → Bool
  pub to_hex : Bytes → Bytes
  pub from_hex : Bytes → Option Bytes

abbrev pub NoDot : Bytes → Type 0
NoDot = All (λ c. (c == b'.') ≡ false)

-- The documented contracts. A text of valid UTF-8 outlives JSON, and a number below 2^53 is exact.
pub record TokenLibLaws (lib : TokenLib) : Type 0 where
  pub decode-encode : (x : Bytes) → lib.decode (lib.encode x) ≡ some x
  pub encode-NoDot : (x : Bytes) → NoDot (lib.encode x)
  pub unmarshal-marshal :
      (sub : Bytes) (exp : ℕ)
      → lib.valid sub ≡ true
      → exp < 2 ^ 53
      → lib.unmarshal (lib.marshal sub exp) ≡ some (record { exp = some (pos exp); sub = some sub })
  pub from_hex-to_hex : (x : Bytes) → lib.from_hex (lib.to_hex x) ≡ some x
  pub length-to_hex : (x : Bytes) → length (lib.to_hex x) ≡ 2 * length x

pub data NewAuthError : Type 0 where
  failed_query : DbError → NewAuthError
  no_randomness bad_hex : NewAuthError

abbrev pub random_secret : Option Bytes → Outcome NewAuthError Bytes
random_secret none = err no_randomness
random_secret (some secret) = ok secret

abbrev pub stored_secret : Option Bytes → Outcome NewAuthError Bytes
stored_secret none = err bad_hex
stored_secret (some secret) = ok secret

abbrev pub secret_of :
    TokenLib → Option Bytes → Bool → Db → Bytes → Outcome NewAuthError (Bytes × Db)
secret_of lib entropy answers db [] = do
  secret ← random_secret entropy
  db' ← wrap_err failed_query (set_panel_config answers db (codes "jwt_secret") (lib.to_hex secret))
  ok (secret, db')
secret_of lib entropy answers db (c ∷ cs) = do
  secret ← stored_secret (lib.from_hex (c ∷ cs))
  ok (secret, db)

-- The secret of the tokens, which the first start draws and stores. `entropy` is what the system's
-- random source gives, 32 bytes.
unfoldable pub new_auth : TokenLib → Option Bytes → Bool → Db → Outcome NewAuthError (Bytes × Db)
new_auth lib entropy answers db = do
  text ← wrap_err failed_query (get_panel_config answers db (codes "jwt_secret"))
  secret_of lib entropy answers db text

abbrev pub sign : TokenLib → Bytes → Bytes → Bytes
sign lib secret text = lib.encode (lib.mac secret text)

abbrev pub day : ℕ
day = 86400

abbrev pub header_text : Bytes
header_text = codes "{\"alg\":\"HS256\",\"typ\":\"JWT\"}"

abbrev pub joined : Bytes → Bytes → Bytes
joined xs ys = xs ++ b'.' ∷ ys

-- `now` is the time in seconds since 1970.
unfoldable pub generate_token : TokenLib → Bytes → ℕ → Bytes → Bytes
generate_token lib secret now username =
    let header = lib.encode header_text in
    let payload = lib.encode (lib.marshal username (now + day)) in
    joined (joined header payload) (sign lib secret (joined header payload))

abbrev pub push : ℕ → List Bytes → List Bytes
push c [] = (c ∷ []) ∷ []
push c (part ∷ parts) = (c ∷ part) ∷ parts

-- `strings.Split`, for a separator of one byte
unfoldable pub split : ℕ → Bytes → List Bytes
split sep [] = [] ∷ []
split sep (c ∷ cs) = let parts = split sep cs in if c == sep then [] ∷ parts else push c parts

pub data TokenError : Type 0 where
  invalid_format invalid_signature bad_base64 bad_json token_expired invalid_subject : TokenError

abbrev pub or_err {ℓ} : {A : Type ℓ} → TokenError → Option A → Outcome TokenError A
or_err e none = err e
or_err e (some a) = ok a

-- `now > exp`
abbrev pub after : ℕ → ℤ → Bool
after now (pos exp) = ltb exp now
after now (negsuc exp) = true

abbrev pub claims_user : ℕ → Claims → Outcome TokenError Bytes
claims_user now claims = do
  exp ← or_err token_expired claims.exp
  fail_if (after now exp) token_expired
  or_err invalid_subject claims.sub

unfoldable pub validate_parts : TokenLib → Bytes → ℕ → List Bytes → Outcome TokenError Bytes
validate_parts lib secret now (header ∷ payload ∷ sig ∷ []) = do
  fail_if (not (bytes_eq (sign lib secret (joined header payload)) sig)) invalid_signature
  data_bytes ← or_err bad_base64 (lib.decode payload)
  claims ← or_err bad_json (lib.unmarshal data_bytes)
  claims_user now claims
validate_parts lib secret now _ = err invalid_format

unfoldable pub validate_token : TokenLib → Bytes → ℕ → Bytes → Outcome TokenError Bytes
validate_token lib secret now token = validate_parts lib secret now (split b'.' token)

-- What is left of a text after a prefix, if it starts with it.
abbrev pub after_prefix : Bytes → Bytes → Option Bytes
after_prefix [] text = some text
after_prefix (c ∷ cs) [] = none
after_prefix (c ∷ cs) (d ∷ ds) = if c == d then after_prefix cs ds else none

abbrev pub succeeded {ℓ κ} : {E : Type ℓ} {A : Type κ} → Outcome E A → Bool
succeeded (ok a) = true
succeeded _ = false

abbrev pub token_accepted : TokenLib → Bytes → ℕ → Option Bytes → Bool
token_accepted lib secret now none = false
token_accepted lib secret now (some token) = succeeded (validate_token lib secret now token)

-- Whether the middleware lets a request with this Authorization header through. A request without
-- one has an empty header.
unfoldable pub authorised : TokenLib → Bytes → ℕ → Bytes → Bool
authorised lib secret now header =
    token_accepted lib secret now (after_prefix (codes "Bearer ") header)

-- A token and when it expires.
unfoldable pub login_handler :
    TokenLib
    → Bcrypt
    → Bool
    → Db
    → Bytes
    → ℕ
    → Method
    → Option (Bytes × Bytes)
    → Response (Bytes × ℕ)
login_handler lib bcrypt answers db secret now post none = failure bad_request
login_handler lib bcrypt answers db secret now post (some (username, password)) =
    if validate_user bcrypt answers db username password
    then success (generate_token lib secret now username, now + day)
    else failure unauthorized
login_handler lib bcrypt answers db secret now _ body = failure method_not_allowed
