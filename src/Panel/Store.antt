-- ===== src/Panel/Store.antt =====
-- server/internal/panel/db.go: the tables of the panel's database, and the statements on them. The
-- argument `answers` says whether the database executes the statement. A table's rows are in the
-- order of their insertion; a user's name and a setting's key are unique.
pub mod Users
use ligend.Prelude.{
  ℕ, suc, ◌≡◌, Bool, true, false, not, List, [], ◌∷◌, ◌++◌, Option, none, some, ◌==◌, if◌then◌else◌,
}
use ligend.Prelude.Outcome.{Outcome, ok, err, ◌>>=◌, ◌>>◌, fail_if}
use ligend.Prelude.Bytes.{Bytes}
use ligend.Prelude.Tables.{Table, lookup, insert, bytes_keys}
use ligend.Prelude.Texts.{ℤ, pos, negsuc, codes}

-- Times are in nanoseconds since 1970.
pub record ClientKey : Type 0 where
  pub id : ℕ
  pub name : Bytes
  pub secret_key : Bytes
  pub traffic_limit_bytes : ℤ
  pub traffic_used_up : ℕ
  pub traffic_used_down : ℕ
  pub enabled : Bool
  pub expires_at : Option ℤ

-- `last_id` is what AUTOINCREMENT has given last.
pub record Db : Type 0 where
  pub admin_users : Table Bytes Bytes
  pub client_keys : List ClientKey
  pub last_id : ℕ
  pub panel_config : Table Bytes Bytes

pub data DbError : Type 0 where
  not_executed unique_violated not_hashed no_rows : DbError

-- The package bcrypt: a salt is drawn for each hash.
pub record Bcrypt : Type 0 where
  pub generate_from_password : Bytes → Bytes → Option Bytes
  pub compare_hash_and_password : Bytes → Bytes → Bool

-- The documented contract: a password matches its hash.
pub record BcryptLaws (lib : Bcrypt) : Type 0 where
  pub compare-generate :
      (salt password hash : Bytes)
      → lib.generate_from_password salt password ≡ some hash
      → lib.compare_hash_and_password hash password ≡ true

abbrev pub hashed : Option Bytes → Outcome DbError Bytes
hashed none = err not_hashed
hashed (some hash) = ok hash

-- `SELECT … WHERE key = ?`, with one row at most.
abbrev pub selected : Option Bytes → Outcome DbError Bytes
selected none = err no_rows
selected (some v) = ok v

-- `INSERT INTO admin_users`
abbrev pub inserted : Db → Bytes → Bytes → Option Bytes → Outcome DbError Db
inserted db username hash none =
    ok (record db { admin_users = insert username hash db.admin_users })
inserted db username hash (some _) = err unique_violated

unfoldable pub create_user : Bcrypt → Bool → Db → Bytes → Bytes → Bytes → Outcome DbError Db
create_user lib answers db salt username password = do
  hash ← hashed (lib.generate_from_password salt password)
  fail_if (not answers) not_executed
  inserted db username hash (lookup username db.admin_users)

abbrev pub compared : Bcrypt → Bytes → Outcome DbError Bytes → Bool
compared lib password (ok hash) = lib.compare_hash_and_password hash password
compared lib password _ = false

unfoldable pub validate_user : Bcrypt → Bool → Db → Bytes → Bytes → Bool
validate_user lib answers db username password =
    if answers then compared lib password (selected (lookup username db.admin_users)) else false

-- The schema's last step: the user "admin" is there. Its error of hashing is not looked at.
abbrev pub hash_or_empty : Option Bytes → Bytes
hash_or_empty none = []
hash_or_empty (some hash) = hash

abbrev pub with_admin : Bcrypt → Bytes → Db → Option Bytes → Outcome DbError Db
with_admin lib salt db (some _) = ok db
with_admin lib salt db none =
    let hash = hash_or_empty (lib.generate_from_password salt (codes "admin")) in
    inserted db (codes "admin") hash (lookup (codes "admin") db.admin_users)

unfoldable pub init_schema : Bcrypt → Bool → Bytes → Db → Outcome DbError Db
init_schema lib answers salt db = do
  fail_if (not answers) not_executed
  with_admin lib salt db (lookup (codes "admin") db.admin_users)

unfoldable pub list_client_keys : Bool → Db → Outcome DbError (List ClientKey)
list_client_keys answers db = do fail_if (not answers) not_executed; ok db.client_keys

unfoldable pub create_client_key : Bool → Db → Bytes → Bytes → ℤ → Option ℤ → Outcome DbError Db
create_client_key answers db name secret_key limit expires_at = do
  fail_if (not answers) not_executed
  ok (record db {
    client_keys =
        db.client_keys
        ++ record {
          id = suc db.last_id;
          name = name;
          secret_key = secret_key;
          traffic_limit_bytes = limit;
          traffic_used_up = 0;
          traffic_used_down = 0;
          enabled = true;
          expires_at = expires_at;
        }
          ∷ [];
    last_id = suc db.last_id;
  })

abbrev pub has_id : ℤ → ℕ → Bool
has_id (pos n) id = n == id
has_id (negsuc n) id = false

abbrev pub without_id : ℤ → List ClientKey → List ClientKey
without_id id [] = []
without_id id (k ∷ ks) = if has_id id k.id then without_id id ks else k ∷ without_id id ks

unfoldable pub delete_client_key : Bool → Db → ℤ → Outcome DbError Db
delete_client_key answers db id = do
  fail_if (not answers) not_executed
  ok (record db { client_keys = without_id id db.client_keys })

-- A setting that is not there is empty.
abbrev pub setting : Outcome DbError Bytes → Outcome DbError Bytes
setting (err no_rows) = ok []
setting other = other

unfoldable pub get_panel_config : Bool → Db → Bytes → Outcome DbError Bytes
get_panel_config answers db key = do
  fail_if (not answers) not_executed
  setting (selected (lookup key db.panel_config))

unfoldable pub set_panel_config : Bool → Db → Bytes → Bytes → Outcome DbError Db
set_panel_config answers db key value = do
  fail_if (not answers) not_executed
  ok (record db { panel_config = insert key value db.panel_config })
