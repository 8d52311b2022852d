-- ===== src/Tunnel/Nat.antt =====
-- server/internal/tunnel/nat.go: `NATTable`, from IPv4 addresses as numbers to sessions. The address
-- of an IPv6 packet reads 0.
pub mod Routing
use ligend.Prelude.{ℕ, Option, none, some, length}
use ligend.Prelude.Outcome.{Outcome, ok, err, panic, ◌>>=◌}
use ligend.Prelude.Bytes.{Bytes}
use ligend.Prelude.Tables.{Table, lookup, insert, delete, nat_keys}
use ligend.Tunnel.Packet.{ip_to_uint32, src_ip_from_packet, dst_ip_from_packet}

abbrev pub NatTable : Type 0
NatTable = Table ℕ ℕ

unfoldable pub register : NatTable → Bytes → ℕ → NatTable
register nat ip session = insert (ip_to_uint32 ip) session nat

unfoldable pub unregister : NatTable → Bytes → NatTable
unregister nat ip = delete (ip_to_uint32 ip) nat

unfoldable pub lookup_by_ip : NatTable → Bytes → Option ℕ
lookup_by_ip nat ip = lookup (ip_to_uint32 ip) nat

abbrev pub lookup_address : NatTable → Option Bytes → Option ℕ
lookup_address nat none = none
lookup_address nat (some ip) = lookup_by_ip nat ip

unfoldable pub lookup_by_packet_dst : NatTable → Bytes → Outcome ⊥ (Option ℕ)
lookup_by_packet_dst nat packet = do ip ← dst_ip_from_packet packet; ok (lookup_address nat ip)

unfoldable pub lookup_by_packet_src : NatTable → Bytes → Outcome ⊥ (Option ℕ)
lookup_by_packet_src nat packet = do ip ← src_ip_from_packet packet; ok (lookup_address nat ip)

unfoldable pub nat_count : NatTable → ℕ
nat_count nat = length nat
