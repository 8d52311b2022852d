-- ===== src/Tunnel/Packet.antt =====
-- server/internal/tunnel/session.go: the addresses in an IP packet, and what the program uses of Go's
-- `net.IP`. An address is its bytes, 4 or 16 of them.
use ligend.Prelude.{
  ℕ, ◌/◌, ◌&&◌, [], ◌∷◌, Option, none, some, length, take, drop, ltb, leb, ◌==◌, if◌then◌else◌,
}
use ligend.Prelude.Outcome.{Outcome, ok, ◌>>=◌, at, slice}
use ligend.Prelude.Bytes.{Bytes, join32}
use ligend.Prelude.Tables.{bytes_eq}

-- The first 12 bytes of an IPv4 address in its 16-byte form.
abbrev pub mapped_prefix : Bytes
mapped_prefix = 0 ∷ 0 ∷ 0 ∷ 0 ∷ 0 ∷ 0 ∷ 0 ∷ 0 ∷ 0 ∷ 0 ∷ 255 ∷ 255 ∷ []

-- `ip.To4()`
unfoldable pub to4 : Bytes → Option Bytes
to4 ip =
    if length ip == 4
    then some ip
    else if length ip == 16 && bytes_eq (take 12 ip) mapped_prefix
    then some (drop 12 ip)
    else none

-- `ip.String()` up to renaming: it serves as a map key only, and tells two addresses apart unless
-- they are the two forms of one IPv4 address.
unfoldable pub ip_string : Bytes → Bytes
unfolding to4
ip_string ip = elim (to4 ip) [ none ↦ ip | some v4 ↦ v4 ]

-- `binary.BigEndian.Uint32` of the four bytes that `to4` leaves; fewer do not occur.
abbrev pub word : Bytes → ℕ
word (a ∷ b ∷ c ∷ d ∷ rest) = join32 a b c d
word _ = 0

unfoldable pub ip_to_uint32 : Bytes → ℕ
unfolding to4
ip_to_uint32 ip = elim (to4 ip) [ none ↦ 0 | some v4 ↦ word v4 ]

-- The two helpers differ in the places of the address alone.
abbrev pub ip_from_packet : ℕ → ℕ → ℕ → ℕ → Bytes → Outcome ⊥ (Option Bytes)
ip_from_packet lo4 hi4 lo6 hi6 packet = if ltb (length packet) 20 then ok none else (do
  first ← at packet 0
  if first / 16 == 4
      then (do ip ← slice packet lo4 hi4; ok (some ip))
      else if first / 16 == 6 && leb 40 (length packet)
      then (do ip ← slice packet lo6 hi6; ok (some ip))
      else ok none)

unfoldable pub src_ip_from_packet : Bytes → Outcome ⊥ (Option Bytes)
src_ip_from_packet = ip_from_packet 12 16 8 24

unfoldable pub dst_ip_from_packet : Bytes → Outcome ⊥ (Option Bytes)
dst_ip_from_packet = ip_from_packet 16 20 24 40
