-- ===== src/Panel/Clients/Uris.antt =====
-- What the panel shows of a client's key from its creation to its deletion:
-- server/internal/panel/api_clients.go, api_keys.go.
use ligend.Prelude.{
  suc, ◌≡◌, ◌≢◌, refl, sym, ap, ◌∙◌, true, Bool-cases, inl, inr, [], ◌∷◌, ◌++◌, none, some,
}
use mathlib.Core.Path.{subst}
use ligend.Prelude.Bytes.{Bytes}
use ligend.Prelude.Tables.{bytes_eq, bytes_eq_iff}
use ligend.Prelude.Texts.{ℤ, codes, positive}
use ligend.Panel.Http.{get, delete, success, failure, not_found}
use ligend.Panel.Store.{ClientKey, Db, without_id, list_client_keys, delete_client_key}
use ligend.Panel.Tokens.{split}
use ligend.Panel.Clients.{
  Surroundings, CreateClientRequest, client_deleted, client_secret, expiry, atoi, handle_clients,
  find_key, handle_keys, found_key,
}
use ligend.Panel.Clients.Ids.{find_key-without_id, find_key-without_other}

-- The request for a key's URI, while the database answers, is one for the key that is found.
handle_keys-found_key :
    (around : Surroundings) (path : Bytes) (db : Db) (id_text : Bytes) (id : ℤ)
    → around.answers ≡ true
    → atoi id_text ≡ some id
    → handle_keys around path db get (codes "/api/keys/uri/" ++ id_text)
      ≡ found_key path (find_key id db.client_keys)
unfolding handle_keys list_client_keys
handle_keys-found_key around path db id_text id up is_id = rw (up, is_id) refl

abbrev pub new_key : Surroundings → Db → CreateClientRequest → Bytes → ClientKey
new_key around db request key = record {
  id = suc db.last_id;
  name = request.name;
  secret_key = client_secret around key around.secret_key_base64;
  traffic_limit_bytes = request.traffic_limit_bytes;
  traffic_used_up = 0;
  traffic_used_down = 0;
  enabled = true;
  expires_at = expiry around.now (positive request.expires_in_days);
}

abbrev with_key : Db → ClientKey → Db
with_key db k = record db { client_keys = db.client_keys ++ k ∷ []; last_id = suc db.last_id }

atoi-empty : (id : ℤ) → atoi [] ≡ some id → ⊥
unfolding atoi
atoi-empty id e = absurd (cc)

atoi-active : (t : Bytes) (id : ℤ) → atoi t ≡ some id → bytes_eq t (codes "active") ≡ true → ⊥
unfolding atoi
atoi-active t id e same =
    let word : atoi (codes "active") ≡ some id =
      subst (λ u. atoi u ≡ some id) ((bytes_eq_iff t (codes "active")).0 same) e in
    absurd (cc)

deleted :
    (around : Surroundings) (db : Db) (id_text : Bytes) (id : ℤ)
    → around.answers ≡ true
    → split b'/' id_text ≡ id_text ∷ []
    → atoi id_text ≡ some id
    → handle_clients around db delete (codes "/api/clients/" ++ id_text) none
      ≡ (record db { client_keys = without_id id db.client_keys }, success client_deleted)
unfolding handle_clients delete_client_key
deleted around db [] id up whole is_id = absurd (atoi-empty id is_id)
deleted around db (c ∷ cs) id up whole is_id =
    elim (Bool-cases (bytes_eq (c ∷ cs) (codes "active"))) [
      | inl same ↦ absurd (atoi-active (c ∷ cs) id is_id same)
      | inr differs ↦ rw (differs, whole, is_id, up) refl
    ]

-- After a client's key is deleted, no URI is shown under its id, and the URIs of the other ids are
-- what they were. The id stands in the path without a slash.
pub handle_clients-delete :
    (around : Surroundings) (path : Bytes) (db : Db) (id_text shown_text : Bytes) (id j : ℤ)
    → around.answers ≡ true
    → split b'/' id_text ≡ id_text ∷ []
    → atoi id_text ≡ some id
    → atoi shown_text ≡ some j
    → let (db', reply) = handle_clients around db delete (codes "/api/clients/" ++ id_text) none in
      let shown = handle_keys around path db' get (codes "/api/keys/uri/" ++ shown_text) in
      (reply ≡ success client_deleted)
      × (id ≡ j → shown ≡ failure not_found)
      × (id ≢ j → shown ≡ handle_keys around path db get (codes "/api/keys/uri/" ++ shown_text))
handle_clients-delete around path db id_text shown_text id j up whole is_id is_j =
    rw (deleted around db id_text id up whole is_id) (
      refl,
      λ e.
          shown
          ∙ ap (found_key path) (
              subst (λ i. find_key i (without_id id db.client_keys) ≡ none) e
                (find_key-without_id id db.client_keys)),
      λ ne.
          shown
          ∙ ap (found_key path) (find_key-without_other id j db.client_keys ne)
          ∙ sym (handle_keys-found_key around path db shown_text j up is_j),
    )
  where
    shown :
        handle_keys around path
          (record db { client_keys = without_id id db.client_keys })
          get
          (codes "/api/keys/uri/" ++ shown_text)
        ≡ found_key path (find_key j (without_id id db.client_keys))
    shown = handle_keys-found_key around path _ shown_text j up is_j
