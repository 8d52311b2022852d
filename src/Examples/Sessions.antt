-- ===== src/Examples/Sessions.antt =====
-- Addresses, sessions and the NAT table, for the network 10.8.0.0/24.
use ligend.Prelude.{ℕ, ◌≤◌, ◌≡◌, ◌↔◌, refl, true, false, [], ◌∷◌, none, some, All}
use mathlib.Core.Option.{none-ne-some}
use ligend.Prelude.Outcome.{ok, err}
use ligend.Prelude.Bytes.{Bytes}
use ligend.Prelude.Tables.{lookup, insert, bytes_keys}
use ligend.Crypto.{generate_session_key}
use ligend.Tunnel.Packet.{dst_ip_from_packet}
use ligend.Tunnel.Pool.{Network, network_pool, pool_addresses, allocate, no_available_addresses}
use ligend.Tunnel.Pool.Invariant.{IsPool, capacity}
use ligend.Tunnel.Pool.Subnet.{IsClient, host, network_pool-IsPool}
use ligend.Tunnel.Session.{Session, new_session}
use ligend.Tunnel.Manager.{
  SessionManager, create_session, create_with, enter, get_session, remove_session, deref,
  allocate_failed,
}
use ligend.Tunnel.Manager.Invariant.{IsManager, Registered}
use ligend.Tunnel.Manager.Creation.{Creates, create_session-Creates}
use ligend.Tunnel.Manager.Removal.{Removes, remove_session-Removes}
use ligend.Examples.Parameters.{zeros}

abbrev pub network : Network
network = record { ip = host 10 8 0 0; ones = 24; contains = λ ip. true }

network_pool-IsPool_example :
    IsPool (network_pool network)
    × All (IsClient network 10 8 0) (network_pool network).available
    × ((network_pool network).used ≡ [])
    × ((network_pool network).gateway ≡ host 10 8 0 1)
    × (((j : ℕ) → 2 ≤ j → j ≤ 254 → true ≡ true) → capacity (network_pool network) ≡ 253)
network_pool-IsPool_example = network_pool-IsPool network 10 8 0 0 refl

fresh-IsPool : IsPool (network_pool network)
fresh-IsPool = (network_pool-IsPool network 10 8 0 0 refl).0

abbrev pub empty : SessionManager
empty = record {
  heap = [];
  next_ref = 0;
  sessions = [];
  ip_map = [];
  ip_pool = network_pool network;
  closed = [];
}

empty-IsManager : IsManager empty
unfolding lookup
empty-IsManager = record {
  pool = fresh-IsPool;
  by_id = λ id r h. absurd (none-ne-some _ h);
  by_ip = λ key r h. absurd (none-ne-some _ h);
  fresh = λ r s h. absurd (none-ne-some _ h);
}

abbrev name : Bytes
name = b'a' ∷ []

empty_lookup : lookup name empty.sessions ≡ none
unfolding lookup
empty_lookup = refl

create_session-Creates_example :
    Creates empty name (create_session empty name (some (λ n. n)) 5)
    × (((create_session empty name (some (λ n. n)) 5).1
          ≡ err (allocate_failed no_available_addresses))
        ↔ (empty.ip_pool.available ≡ []))
create_session-Creates_example =
    create_session-Creates empty name (some (λ n. n)) 5 empty-IsManager empty_lookup

abbrev occupied : SessionManager
occupied = (create_session empty name (some (λ n. n)) 5).0

creates : Creates empty name (create_session empty name (some (λ n. n)) 5)
creates = (create_session-Creates empty name (some (λ n. n)) 5 empty-IsManager empty_lookup).0

remove_session-Removes_example :
    (get_session occupied name ≡ none → remove_session occupied name ≡ occupied)
    × ((r : ℕ) (s : Session)
        → get_session occupied name ≡ some r
        → deref occupied r ≡ some s
        → Removes occupied name s (remove_session occupied name))
remove_session-Removes_example = remove_session-Removes occupied name creates.valid

registered : Registered occupied name 0
unfolding create_session create_with allocate new_session generate_session_key network_pool
    pool_addresses
registered = creates.done.1

found : lookup name occupied.sessions ≡ some 0
unfolding create_session create_with allocate new_session generate_session_key network_pool
    pool_addresses enter lookup insert
found = refl

abbrev pub player : Session
player = record {
  id = b'a' ∷ [];
  ip = host 10 8 0 2;
  session_key = zeros 32;
  connections = 4 ∷ [];
  created_at = 0;
  last_active = 0;
  sequence = 4294967295;
  is_udp = false;
  udp_addr = some 9;
  udp_conn = some 1;
  numeric_id = 77;
  game_mode = false;
  awgh4 = 0x9b4a1e7d;
}

-- A UDP packet to 10.8.0.2.
abbrev pub datagram : Bytes
datagram = 69 ∷ 0 ∷ 0 ∷ 20 ∷ 0 ∷ 0 ∷ 0 ∷ 0 ∷ 64 ∷ 17 ∷ 0 ∷ 0 ∷ 8 ∷ 8 ∷ 8 ∷ 8 ∷ 10 ∷ 8 ∷ 0 ∷ 2 ∷ []

pub destination : dst_ip_from_packet datagram ≡ ok (some (host 10 8 0 2))
unfolding dst_ip_from_packet
destination = refl
