-- ===== src/Tunnel/Manager/Allocation.antt =====
-- server/internal/tunnel/session.go: which address a new session gets.
use ligend.Prelude.{ℕ, ◌≡◌, refl, true, List, [], ◌∷◌, some}
use ligend.Prelude.Outcome.{ok, err}
use ligend.Prelude.Bytes.{Bytes}
use ligend.Prelude.Tables.{insert, nat_keys, bytes_keys, lookup-insert, beq_refl}
use ligend.Crypto.{Entropy, generate_session_key}
use ligend.Tunnel.Packet.{ip_string}
use ligend.Tunnel.Pool.{IpPool, no_available_addresses, allocate}
use ligend.Tunnel.Session.{Session, new_session}
use ligend.Tunnel.Manager.{
  SessionManager, allocate_failed, create_session, create_with, enter, deref,
}

pub new_session-made :
    (id ip : Bytes) (noise : ℕ → ℕ) (now : ℕ)
    → (session : Session) × (new_session id ip (some noise) now ≡ ok session)
unfolding new_session generate_session_key
new_session-made id ip noise now = (_, refl)

abbrev pub allocated : IpPool → Bytes → List Bytes → IpPool
allocated p ip rest = record p { available = rest; used = insert (ip_string ip) true p.used }

allocate-none : (p : IpPool) → p.available ≡ [] → allocate p ≡ err no_available_addresses
unfolding allocate
allocate-none p e = rw (e, allocate) refl

pub create_session-refused :
    (sm : SessionManager) (id : Bytes) (entropy : Entropy) (now : ℕ)
    → sm.ip_pool.available ≡ []
    → create_session sm id entropy now ≡ (sm, err (allocate_failed no_available_addresses))
unfolding create_session
create_session-refused sm id entropy now e = rw (allocate-none sm.ip_pool e, create_session) refl

pub allocate-first :
    (p : IpPool) (ip : Bytes) (rest : List Bytes)
    → p.available ≡ ip ∷ rest
    → allocate p ≡ ok (ip, allocated p ip rest)
unfolding allocate
allocate-first p ip rest e = rw (e, allocate) refl

pub create_session-takes :
    (sm : SessionManager) (id ip : Bytes) (q : IpPool) (session : Session) (noise : ℕ → ℕ) (now : ℕ)
    → allocate sm.ip_pool ≡ ok (ip, q)
    → new_session id ip (some noise) now ≡ ok session
    → create_session sm id (some noise) now ≡ (enter sm id ip q session, ok sm.next_ref)
unfolding create_session create_with
create_session-takes sm id ip q session noise now e made =
    rw (e, create_session, made, create_with) refl

pub deref-enter :
    (sm : SessionManager) (id ip : Bytes) (q : IpPool) (session : Session)
    → deref (enter sm id ip q session) sm.next_ref ≡ some session
unfolding deref enter
deref-enter sm id ip q session =
    rw (lookup-insert sm.next_ref sm.next_ref session sm.heap, beq_refl sm.next_ref) refl
