-- ===== src/Tunnel/Manager.antt =====
-- server/internal/tunnel/session.go: `SessionManager`. A `*Session` is a reference into a heap, so
-- that the two maps of the manager and the NAT table share one session.
pub mod Invariant
pub mod Creation
pub mod Removal
pub mod Transfer
pub mod Allocation
use ligend.Prelude.{
  ℕ, suc, ◌+◌, ◌/◌, Bool, ◌&&◌, List, [], ◌∷◌, ◌++◌, Option, none, some, length, map, ltb, leb,
  ◌==◌, if◌then◌else◌,
}
use ligend.Prelude.Outcome.{Outcome, ok, err, panic, ◌>>=◌, at, slice, wrap_err}
use ligend.Prelude.Bytes.{Bytes}
use ligend.Prelude.Tables.{Table, lookup, insert, delete, nat_keys, bytes_keys}
use ligend.Crypto.{Aead, Entropy, CryptoError}
use ligend.Protocol.Frame.{Rng}
use ligend.Tunnel.Packet.{ip_string}
use ligend.Tunnel.Pool.{Network, IpPool, PoolError, new_ip_pool, allocate, release}
use ligend.Tunnel.Session.{Session, SendError, Write, new_session, send_data_to_client}

pub record SessionManager : Type 0 where
  pub heap : Table ℕ Session
  pub next_ref : ℕ
  pub sessions : Table Bytes ℕ
  pub ip_map : Table Bytes ℕ
  pub ip_pool : IpPool
  pub closed : List ℕ

unfoldable pub new_session_manager : Option Network → Outcome PoolError SessionManager
new_session_manager subnet = do
  pool ← new_ip_pool subnet
  ok (record { heap = []; next_ref = 0; sessions = []; ip_map = []; ip_pool = pool; closed = [] })

pub data CreateError : Type 0 where
  allocate_failed : PoolError → CreateError
  session_failed : CryptoError → CreateError

-- The session enters the heap and both maps.
unfoldable pub enter : SessionManager → Bytes → Bytes → IpPool → Session → SessionManager
enter sm id ip pool session = record sm {
  heap = insert sm.next_ref session sm.heap;
  next_ref = suc sm.next_ref;
  sessions = insert id sm.next_ref sm.sessions;
  ip_map = insert (ip_string ip) sm.next_ref sm.ip_map;
  ip_pool = pool;
}

-- With the address taken: a session that cannot be made gives it back.
unfoldable pub create_with :
    SessionManager
    → Bytes
    → Bytes
    → IpPool
    → Outcome CryptoError Session
    → SessionManager × Outcome CreateError ℕ
create_with sm id ip pool (ok session) = (enter sm id ip pool session, ok sm.next_ref)
create_with sm id ip pool (err e) =
    (record sm { ip_pool = release pool ip }, err (session_failed e))
create_with sm id ip pool panic = (record sm { ip_pool = pool }, panic)

unfoldable pub create_session :
    SessionManager → Bytes → Entropy → ℕ → SessionManager × Outcome CreateError ℕ
create_session sm id entropy now = elim (allocate sm.ip_pool) [
  | ok (ip, pool) ↦ create_with sm id ip pool (new_session id ip entropy now)
  | err e ↦ (sm, err (allocate_failed e))
  | panic ↦ (sm, panic)
]

unfoldable pub get_session : SessionManager → Bytes → Option ℕ
get_session sm id = lookup id sm.sessions

unfoldable pub get_session_by_ip : SessionManager → Bytes → Option ℕ
get_session_by_ip sm ip = lookup (ip_string ip) sm.ip_map

-- What the reference points at; a reference in a map always has a session.
unfoldable pub deref : SessionManager → ℕ → Option Session
deref sm r = lookup r sm.heap

unfoldable pub remove_found : SessionManager → Bytes → Session → SessionManager
remove_found sm id session = record sm {
  sessions = delete id sm.sessions;
  ip_map = delete (ip_string session.ip) sm.ip_map;
  ip_pool = release sm.ip_pool session.ip;
  closed = sm.closed ++ session.connections;
}

unfoldable pub remove_session : SessionManager → Bytes → SessionManager
unfolding deref
remove_session sm id = elim (lookup id sm.sessions) [
  | none ↦ sm
  | some r ↦ elim (deref sm r) [ none ↦ sm | some session ↦ remove_found sm id session ]
]

unfoldable pub active_sessions : SessionManager → ℕ
active_sessions sm = length sm.sessions

-- The references in some order of the map.
unfoldable pub list_sessions : SessionManager → List ℕ
list_sessions sm = map (λ (entry : Bytes × ℕ). entry.1) sm.sessions

-- The session behind a reference is replaced.
unfoldable pub store : SessionManager → ℕ → Session → SessionManager
store sm r session = record sm { heap = insert r session sm.heap }

pub data RouteError : Type 0 where
  packet_too_short unsupported_version no_session : RouteError
  send_failed : SendError → RouteError

unfoldable pub route_destination : Bytes → Outcome RouteError Bytes
route_destination packet = if ltb (length packet) 20 then err packet_too_short else (do
  first ← at packet 0
  if first / 16 == 4
      then slice packet 16 20
      else if first / 16 == 6 && leb 40 (length packet)
      then slice packet 24 40
      else err unsupported_version)

-- The sending changes the session behind the reference.
unfoldable pub send_to :
    Aead → Entropy → Rng → SessionManager → ℕ → Bytes → SessionManager × Outcome RouteError Write
unfolding deref store
send_to aead entropy rng sm r packet = elim (deref sm r) [
  | none ↦ (sm, err no_session)
  | some s ↦
      let (s', sent) = send_data_to_client aead entropy rng s packet in
      (store sm r s', wrap_err send_failed sent)
]

unfoldable pub route_packet :
    Aead → Entropy → Rng → SessionManager → Bytes → SessionManager × Outcome RouteError Write
unfolding get_session_by_ip
route_packet aead entropy rng sm packet = elim (route_destination packet) [
  | ok dst ↦ elim (get_session_by_ip sm dst) [
    | none ↦ (sm, err no_session)
    | some r ↦ send_to aead entropy rng sm r packet
  ]
  | err e ↦ (sm, err e)
  | panic ↦ (sm, panic)
]
