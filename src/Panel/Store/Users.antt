-- ===== src/Panel/Store/Users.antt =====
-- The users of the panel: server/internal/panel/db.go.
use ligend.Prelude.{◌≡◌, refl, true, false, none, some}
use ligend.Prelude.Outcome.{ok, err}
use ligend.Prelude.Bytes.{Bytes}
use ligend.Prelude.Tables.{lookup, insert, lookup-insert, bytes_keys, bytes_eq, beq_refl}
use ligend.Prelude.Texts.{codes}
use ligend.Panel.Store.{
  Db, unique_violated, Bcrypt, BcryptLaws, create_user, validate_user, init_schema,
}

module _ (lib : Bcrypt) (laws : BcryptLaws lib) where
  -- What `inserted` does for a name that is not there.
  inserted-Accepts :
      (db : Db) (name salt password hash : Bytes)
      → lib.generate_from_password salt password ≡ some hash
      → let db' = record db { admin_users = insert name hash db.admin_users } in
        (validate_user lib true db' name password ≡ true)
        × ((other q : Bytes)
            → bytes_eq name other ≡ false
            → validate_user lib true db' other q ≡ validate_user lib true db other q)
  unfolding validate_user
  inserted-Accepts db name salt password hash made = (
    rw (lookup-insert name name hash db.admin_users, beq_refl name)
        (laws.compare-generate salt password hash made),
    λ other q ne. rw (lookup-insert name other hash db.admin_users, ne) refl,
  )

  -- A user whose name is new and whose password can be hashed is created. Then the user's password
  -- is accepted, and the answer for the other users is what it was. A name that is taken is refused.
  pub create_user-validate_user :
      (db : Db) (salt name password hash : Bytes)
      → lib.generate_from_password salt password ≡ some hash
      → (lookup name db.admin_users ≡ none
          → (db' : Db) × (create_user lib true db salt name password ≡ ok db')
            × (validate_user lib true db' name password ≡ true)
            × ((other q : Bytes)
                → bytes_eq name other ≡ false
                → validate_user lib true db' other q ≡ validate_user lib true db other q))
        × ((old : Bytes)
            → lookup name db.admin_users ≡ some old
            → create_user lib true db salt name password ≡ err unique_violated)
  unfolding create_user
  create_user-validate_user db salt name password hash made =
      let (accepts, others) = inserted-Accepts db name salt password hash made in
      (
        λ fresh. (
          record db { admin_users = insert name hash db.admin_users },
          rw (made, fresh) refl,
          accepts,
          others,
        ),
        λ old taken. rw (made, taken) refl,
      )

  -- After the first start with an empty table of users, "admin" can log in with the password
  -- "admin". A later start changes nothing, so a user's password outlives it.
  pub init_schema-admin :
      (db : Db) (salt hash : Bytes)
      → lib.generate_from_password salt (codes "admin") ≡ some hash
      → lookup (codes "admin") db.admin_users ≡ none
      → (db' : Db) × (init_schema lib true salt db ≡ ok db')
        × (validate_user lib true db' (codes "admin") (codes "admin") ≡ true)
        × ((later : Bytes) → init_schema lib true later db' ≡ ok db')
  unfolding init_schema
  init_schema-admin db salt hash made fresh = (
    record db { admin_users = insert (codes "admin") hash db.admin_users },
    rw (fresh, made) (rw fresh refl),
    (inserted-Accepts db (codes "admin") salt (codes "admin") hash made).0,
    λ later. rw (lookup-insert (codes "admin") (codes "admin") hash db.admin_users) refl,
  )
