-- ===== src/Tunnel/Nat/Routing.antt =====
-- server/internal/tunnel/nat.go: what the NAT table answers for a packet after it was changed.
use ligend.Prelude.{
  take, drop, arith, Option, inl, inr, Bool-cases, ◌≤◌, ◌/◌, ◌&&◌, ltb, leb, ltb→le, length, ◌==◌,
  ℕ, ◌≡◌, ◌≢◌, refl, none, some, ne→==,
}
use ligend.Prelude.Outcome.{at-ok, slice-ok, ok}
use ligend.Prelude.Bytes.{Bytes}
use ligend.Prelude.Tables.{nat_keys, lookup-insert, lookup-delete, beq_refl}
use ligend.Tunnel.Packet.{ip_to_uint32, dst_ip_from_packet}
use ligend.Tunnel.Nat.{NatTable, register, unregister, lookup_by_ip, lookup_by_packet_dst}

-- A packet of any length is looked up without a panic.
pub lookup_by_packet_dst-ok :
    (nat : NatTable) (packet : Bytes)
    → (found : Option ℕ) × (lookup_by_packet_dst nat packet ≡ ok found)
unfolding lookup_by_packet_dst dst_ip_from_packet
lookup_by_packet_dst-ok nat packet = elim (Bool-cases (ltb (length packet) 20)) [
  | inl short ↦ (none, rw short refl)
  | inr long ↦
      let room : 20 ≤ length packet = ltb→le (length packet) 20 long in
      let (first, e) = at-ok {E = ⊥} packet 0 (omega arith) in
      elim (Bool-cases (first / 16 == 4)) [
        | inl v4 ↦ (
          lookup_by_ip nat (take 4 (drop 16 packet)),
          rw (long, e, v4, slice-ok {E = ⊥} packet 16 20 (omega arith) room) refl,
        )
        | inr not_v4 ↦ elim (Bool-cases (first / 16 == 6 && leb 40 (length packet))) [
          | inl v6 ↦ (
            lookup_by_ip nat (take 16 (drop 24 packet)),
            rw (long, e, not_v4, v6, slice-ok {E = ⊥} packet 24 40 (omega arith) (ground arith))
                refl,
          )
          | inr other ↦ (none, rw (long, e, not_v4, other) refl)
        ]
      ]
]

-- With a session registered, a packet finds it if its destination is the same address as a number,
-- and any other packet finds what it found before.
pub lookup_by_packet_dst-register :
    (nat : NatTable) (ip d packet : Bytes) (r : ℕ)
    → dst_ip_from_packet packet ≡ ok (some d)
    → ((ip_to_uint32 ip ≡ ip_to_uint32 d)
        → lookup_by_packet_dst (register nat ip r) packet ≡ ok (some r))
      × ((ip_to_uint32 ip ≢ ip_to_uint32 d)
          → lookup_by_packet_dst (register nat ip r) packet ≡ lookup_by_packet_dst nat packet)
unfolding lookup_by_packet_dst lookup_by_ip register
lookup_by_packet_dst-register nat ip d packet r e = (
  λ same.
      rw (e, same, lookup-insert (ip_to_uint32 d) (ip_to_uint32 d) r nat, beq_refl (ip_to_uint32 d))
        refl,
  λ apart. rw (e, lookup-insert (ip_to_uint32 ip) (ip_to_uint32 d) r nat, ne→== _ _ apart) refl,
)

-- With an address unregistered, a packet to it finds no session, whoever had registered it.
pub lookup_by_packet_dst-unregister :
    (nat : NatTable) (ip d packet : Bytes)
    → dst_ip_from_packet packet ≡ ok (some d)
    → ip_to_uint32 ip ≡ ip_to_uint32 d
    → lookup_by_packet_dst (unregister nat ip) packet ≡ ok none
unfolding lookup_by_packet_dst lookup_by_ip unregister
lookup_by_packet_dst-unregister nat ip d packet e same =
    rw (e, same, lookup-delete (ip_to_uint32 d) (ip_to_uint32 d) nat, beq_refl (ip_to_uint32 d))
      refl
