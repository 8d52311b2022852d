-- ===== src/Tunnel/Pool/Subnet.antt =====
-- The pool of a fresh IPv4 network.
use ligend.Prelude.{
  ℕ, zero, suc, ◌+◌, ◌≤◌, ◌<◌, ◌≡◌, refl, ap, inl, inr, true, [], ◌∷◌, length, All, All-mono,
  Bool-cases, arith,
}
use ligend.Prelude.Bytes.{Bytes}
use ligend.Prelude.Tables.{lookup}
use ligend.Tunnel.Packet.{ip_string}
use ligend.Tunnel.Pool.{Network, network_pool, pool_addresses, set_last}
use ligend.Tunnel.Pool.Invariant.{IsPool, AllApart, Apart, Differs, IsAbsent, capacity}

-- The address of a host in the network.
abbrev pub host : ℕ → ℕ → ℕ → ℕ → Bytes
host a b c i = a ∷ b ∷ c ∷ i ∷ []

host-Differs : (a b c i j : ℕ) → i < j → Differs (host a b c i) (host a b c j)
unfolding ip_string
host-Differs a b c i j h = ground arith

-- The addresses from `i` on lie in the network and end in `i` up to `i + n - 1`.
abbrev InRange : Network → ℕ → ℕ → ℕ → ℕ → ℕ → Bytes → Type 0
InRange network a b c i n ip =
    (j : ℕ) × (ip ≡ host a b c j) × (i ≤ j) × (j < i + n) × (network.contains ip ≡ true)

InRange-suc :
    (network : Network) (a b c i n : ℕ) (ip : Bytes)
    → InRange network a b c (i + 1) n ip
    → InRange network a b c i (suc n) ip
InRange-suc network a b c i n ip (j, e, lo, hi, inside) = (j, e, omega arith, omega arith, inside)

InRange-Differs :
    (network : Network) (a b c i n : ℕ) (ip : Bytes)
    → InRange network a b c (i + 1) n ip
    → Differs (host a b c i) ip
InRange-Differs network a b c i n ip (j, e, lo, hi, inside) =
    rw e (host-Differs a b c i j (omega arith))

module _ (network : Network) (a b c d : ℕ) (is_v4 : network.ip ≡ host a b c d) where
  last_byte : (i : ℕ) → set_last network.ip i ≡ host a b c i
  last_byte i = rw is_v4

  addresses-InRange : (n i : ℕ) → All (InRange network a b c i n) (pool_addresses network n i)
  unfolding pool_addresses
  addresses-InRange zero i = tt
  addresses-InRange (suc n) i =
      rw (last_byte i) (elim (Bool-cases (network.contains (host a b c i))) [
        | inl inside ↦
            rw inside
              ((i, refl, omega arith, omega arith, inside), widen (addresses-InRange n (i + 1)))
        | inr outside ↦ rw outside (widen (addresses-InRange n (i + 1)))
      ])
    where
      widen :
          All (InRange network a b c (i + 1) n) (pool_addresses network n (i + 1))
          → All (InRange network a b c i (suc n)) (pool_addresses network n (i + 1))
      widen =
          All-mono (InRange network a b c (i + 1) n) (InRange network a b c i (suc n)) _
            (λ ip. InRange-suc network a b c i n ip)

  addresses_apart : (n i : ℕ) → AllApart (pool_addresses network n i)
  unfolding pool_addresses
  addresses_apart zero i = tt
  addresses_apart (suc n) i =
      rw (last_byte i) (elim (Bool-cases (network.contains (host a b c i))) [
        | inl inside ↦ rw inside (apart, addresses_apart n (i + 1))
        | inr outside ↦ rw outside (addresses_apart n (i + 1))
      ])
    where
      apart : Apart (host a b c i) (pool_addresses network n (i + 1))
      apart =
          All-mono (InRange network a b c (i + 1) n) (Differs (host a b c i)) _
            (λ ip. InRange-Differs network a b c i n ip) (addresses-InRange n (i + 1))

  length-pool_addresses :
      (n i : ℕ)
      → ((j : ℕ) → i ≤ j → j < i + n → network.contains (host a b c j) ≡ true)
      → length (pool_addresses network n i) ≡ n
  unfolding pool_addresses
  length-pool_addresses zero i all = refl
  length-pool_addresses (suc n) i all =
      rw (last_byte i, all i (omega arith) (omega arith))
        (ap suc (length-pool_addresses n (i + 1) λ j lo hi. all j (omega arith) (omega arith)))

-- The addresses that a pool may hold: of the network, and ending in 2 to 254.
abbrev pub IsClient : Network → ℕ → ℕ → ℕ → Bytes → Type 0
IsClient network a b c ip =
    (j : ℕ) × (ip ≡ host a b c j) × (2 ≤ j) × (j ≤ 254) × (network.contains ip ≡ true)

-- The fresh pool of an IPv4 network is valid and has no address in use; its addresses lie in the
-- network and end in 2 to 254, so neither the gateway's is among them nor the network's or the
-- broadcast address of a /24; where the network contains all of these, the pool holds 253.
pub network_pool-IsPool :
    (network : Network) (a b c d : ℕ)
    → network.ip ≡ host a b c d
    → IsPool (network_pool network)
      × All (IsClient network a b c) (network_pool network).available
      × ((network_pool network).used ≡ [])
      × ((network_pool network).gateway ≡ host a b c 1)
      × (((j : ℕ) → 2 ≤ j → j ≤ 254 → network.contains (host a b c j) ≡ true)
          → capacity (network_pool network) ≡ 253)
unfolding network_pool
network_pool-IsPool network a b c d is_v4 = (
  record {
    distinct = addresses_apart network a b c d is_v4 253 2;
    free = free;
    keys = tt;
    marks = tt;
  },
  All-mono (InRange network a b c 2 253) (IsClient network a b c) _
      (λ ip (j, e, lo, hi, inside). (j, e, lo, omega arith, inside))
      (addresses-InRange network a b c d is_v4 253 2),
  refl,
  last_byte network a b c d is_v4 1,
  λ all. omega (
    arith,
    length-pool_addresses network a b c d is_v4 253 2 (λ j lo hi. all j lo (omega arith)),
  ),
)
  where
    free : All (IsAbsent []) (pool_addresses network 253 2)
    free =
        All-mono (InRange network a b c 2 253) (IsAbsent []) _ (λ ip h. unfold lookup in refl)
          (addresses-InRange network a b c d is_v4 253 2)
