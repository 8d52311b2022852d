-- ===== src/Panel/Clients/Keys.antt =====
-- The clients' keys through the panel's requests: server/internal/panel/api_clients.go, api_keys.go.
use ligend.Prelude.{
  refl, Bool, true, false, Bool-cases, inl, inr, List, [], ◌∷◌, Option, none, some,
}
use ligend.Prelude.Outcome.{Outcome, ok, err, panic, Returns}
use ligend.Prelude.Bytes.{Bytes}
use ligend.Prelude.Tables.{bytes_eq}
use ligend.Prelude.Texts.{ℤ, codes, positive}
use ligend.Panel.Http.{Method, get, post, put, delete, options, other}
use ligend.Panel.Store.{
  ClientKey, Db, DbError, list_client_keys, create_client_key, delete_client_key,
}
use ligend.Panel.Tokens.{split}
use ligend.Panel.Clients.Ids.{Numbered, IdsFrom-append, IdsFrom-without_id}
use ligend.Panel.Clients.{
  Surroundings, CreateClientRequest, client_created, client_deleted, client_secret, expiry, atoi,
  create_client, handle_clients, at_parts, at_id, at_number, at_active, listing, stored_client,
  named_client, at_path, at_root, ClientsReply, or_failure, trim_prefix,
}

or_failure-Numbered :
    (P : Db → Type 0) (db : Db) (reply : ClientsReply) (m : Outcome DbError Db)
    → P db
    → Returns P m
    → P (or_failure db reply m).0
or_failure-Numbered P db reply (ok db') h k = k
or_failure-Numbered P db reply (err e) h k = h
or_failure-Numbered P db reply panic h k = h

create_client_key-Numbered :
    (answers : Bool) (db : Db) (name key : Bytes) (limit : ℤ) (expires_at : Option ℤ)
    → Numbered db
    → Returns Numbered (create_client_key answers db name key limit expires_at)
unfolding create_client_key
create_client_key-Numbered false db name key limit expires_at n = tt
create_client_key-Numbered true db name key limit expires_at n =
    IdsFrom-append 0 db.client_keys db.last_id _ refl n

delete_client_key-Numbered :
    (answers : Bool) (db : Db) (id : ℤ)
    → Numbered db
    → Returns Numbered (delete_client_key answers db id)
unfolding delete_client_key
delete_client_key-Numbered false db id n = tt
delete_client_key-Numbered true db id n = IdsFrom-without_id id 0 db.client_keys db.last_id n

stored_client-Numbered :
    (around : Surroundings) (db : Db) (request : CreateClientRequest) (drawn : Option Bytes)
    → Numbered db
    → Numbered (stored_client around db request drawn).0
stored_client-Numbered around db request none n = n
stored_client-Numbered around db request (some key) n =
    or_failure-Numbered Numbered db client_created _ n (
      create_client_key-Numbered around.answers db request.name
        (client_secret around key around.secret_key_base64) request.traffic_limit_bytes
        (expiry around.now (positive request.expires_in_days)) n)

module _ (around : Surroundings) (db : Db) (n : Numbered db) where
  named_client-Numbered :
      (request : CreateClientRequest) (name : Bytes)
      → Numbered (named_client around db request name).0
  named_client-Numbered request [] = n
  named_client-Numbered request (c ∷ cs) =
      stored_client-Numbered around db request around.generated_key n

  listing-Numbered : (m : Outcome DbError (List ClientKey)) → Numbered (listing db m).0
  listing-Numbered (ok ks) = n
  listing-Numbered (err e) = n
  listing-Numbered panic = n

  at_root-Numbered :
      (method : Method) (body : Option CreateClientRequest)
      → Numbered (at_root around db method body).0
  unfolding create_client
  at_root-Numbered get body = listing-Numbered (list_client_keys around.answers db)
  at_root-Numbered post none = n
  at_root-Numbered post (some request) = named_client-Numbered request request.name
  at_root-Numbered put body = n
  at_root-Numbered delete body = n
  at_root-Numbered options body = n
  at_root-Numbered other body = n

  at_id-Numbered :
      (id : ℤ) (rest : List Bytes) (method : Method) → Numbered (at_id around db id rest method).0
  at_id-Numbered id [] delete =
      or_failure-Numbered Numbered db client_deleted _ n
        (delete_client_key-Numbered around.answers db id n)
  at_id-Numbered id (action ∷ []) post = elim (Bool-cases (bytes_eq action (codes "kick"))) [
    | inl kick ↦ rw kick n
    | inr unknown ↦ rw unknown n
  ]
  at_id-Numbered id rest method = n

  at_parts-Numbered :
      (parts : List Bytes) (method : Method) → Numbered (at_parts around db parts method).0
  at_parts-Numbered [] method = n
  at_parts-Numbered (first ∷ rest) method = at_number-Numbered (atoi first) rest method
    where
      at_number-Numbered :
          (id : Option ℤ) (rest : List Bytes) (method : Method)
          → Numbered (at_number around db id rest method).0
      at_number-Numbered none rest method = n
      at_number-Numbered (some id) rest method = at_id-Numbered id rest method

  at_active-Numbered : (method : Method) → Numbered (at_active around db method).0
  at_active-Numbered get = n
  at_active-Numbered method = n

  at_path-Numbered :
      (method : Method) (path : Bytes) (body : Option CreateClientRequest)
      → Numbered (at_path around db method path body).0
  at_path-Numbered method [] body = at_root-Numbered method body
  at_path-Numbered method (c ∷ cs) body = elim (Bool-cases (bytes_eq (c ∷ cs) (codes "active"))) [
    | inl sessions ↦ rw sessions (at_active-Numbered method)
    | inr part ↦ rw part (at_parts-Numbered (split b'/' (c ∷ cs)) method)
  ]

-- Every request to the clients keeps the ids of the keys ascending and at most the last that was
-- given, so no id stands twice and none is given again.
pub handle_clients-Numbered :
    (around : Surroundings) (db : Db) (method : Method) (path : Bytes)
    (body : Option CreateClientRequest)
    → Numbered db
    → Numbered (handle_clients around db method path body).0
unfolding handle_clients
handle_clients-Numbered around db method path body n =
    at_path-Numbered around db n method
      (trim_prefix (codes "/") (trim_prefix (codes "/api/clients") path)) body
