-- ===== src/Tunnel/Pool.antt =====
-- server/internal/tunnel/session.go: `IPPool`, the addresses that a subnet has left. Free addresses
-- queue up: the first is handed out, and one that comes back goes to the end.
pub mod Invariant
pub mod Subnet
use ligend.Prelude.{
  ℕ, zero, suc, ◌+◌, Bool, true, false, not, List, [], ◌∷◌, ◌++◌, Option, none, some, if◌then◌else◌,
}
use ligend.Prelude.Outcome.{Outcome, ok, err, panic}
use ligend.Prelude.Bytes.{Bytes}
use ligend.Prelude.Tables.{Table, lookup, insert, delete, bytes_keys}
use ligend.Tunnel.Packet.{ip_string}

-- What `net.ParseCIDR` returns: the network's address, the length of its mask and `Contains`.
pub record Network : Type 0 where
  pub ip : Bytes
  pub ones : ℕ
  pub contains : Bytes → Bool

pub record IpPool : Type 0 where
  pub network : Network
  pub gateway : Bytes
  pub available : List Bytes
  pub used : Table Bytes Bool

pub data PoolError : Type 0 where
  bad_cidr no_available_addresses : PoolError

-- `addr[len(addr)-1] = b`, on a copy that is not empty.
abbrev pub set_last : Bytes → ℕ → Bytes
set_last [] b = []
set_last (x ∷ []) b = b ∷ []
set_last (x ∷ y ∷ xs) b = x ∷ set_last (y ∷ xs) b

-- The loop over the last byte: `n` values from `i` on.
unfoldable pub pool_addresses : Network → ℕ → ℕ → List Bytes
pool_addresses network zero i = []
pool_addresses network (suc n) i =
    let rest = pool_addresses network n (i + 1) in
    if network.contains (set_last network.ip i) then set_last network.ip i ∷ rest else rest

-- The fields of the pool of a parsed network; 2 to 254 are 253 values.
unfoldable pub network_pool : Network → IpPool
network_pool network = record {
  network = network;
  gateway = set_last network.ip 1;
  available = pool_addresses network 253 2;
  used = [];
}

-- An empty address would fail at the index of the gateway's last byte.
unfoldable pub new_ip_pool : Option Network → Outcome PoolError IpPool
new_ip_pool none = err bad_cidr
new_ip_pool (some network) = elim network.ip [ [] ↦ panic | b ∷ bs ↦ ok (network_pool network) ]

-- The address and the pool after the call.
unfoldable pub allocate : IpPool → Outcome PoolError (Bytes × IpPool)
allocate p = elim p.available [
  | [] ↦ err no_available_addresses
  | ip ∷ rest ↦ ok (ip, record p { available = rest; used = insert (ip_string ip) true p.used })
]

-- `p.used[key]`: a missing key reads `false`.
abbrev pub flag_of : Option Bool → Bool
flag_of none = false
flag_of (some b) = b

unfoldable pub is_used : IpPool → Bytes → Bool
is_used p ip = flag_of (lookup (ip_string ip) p.used)

unfoldable pub release : IpPool → Bytes → IpPool
unfolding is_used
release p ip =
    if not (is_used p ip)
    then p
    else record p { used = delete (ip_string ip) p.used; available = p.available ++ ip ∷ [] }
