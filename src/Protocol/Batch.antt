-- ===== src/Protocol/Batch.antt =====
-- server/internal/protocol/batch.go: many packets in one DATA payload. Go's buffer of the computed
-- size is modelled by the bound that each write meets: past it, the slice expression panics.
pub mod Encoding
pub mod Decoding
use ligend.Prelude.{
  ℕ, zero, suc, ◌+◌, ◌%◌, Bool, ◌||◌, if◌then◌else◌, List, [], ◌∷◌, ◌++◌, Option, none, some,
  length, ltb, leb, ◌==◌,
}
use ligend.Prelude.Outcome.{Outcome, ok, err, panic, ◌>>=◌, ◌>>◌, fail_if, slice}
use ligend.Prelude.Bytes.{Bytes, put16, uint16}

abbrev pub flag_batch_mode : ℕ
flag_batch_mode = 0x10

abbrev pub max_batch_size : ℕ
max_batch_size = 64

abbrev pub max_batch_bytes : ℕ
max_batch_bytes = 60000

pub record BatchEncoder : Type 0 where
  pub packets : List Bytes
  pub size : ℕ

unfoldable pub new_batch_encoder : BatchEncoder
new_batch_encoder = record { packets = []; size = 0 }

-- The encoder after the call, and whether it should be flushed.
unfoldable pub add : BatchEncoder → Bytes → BatchEncoder × Bool
add b packet =
    let packets = b.packets ++ packet ∷ [] in
    let size = b.size + (length packet + 2) in
    (
      record { packets = packets; size = size },
      leb max_batch_size (length packets) || leb max_batch_bytes size,
    )

unfoldable pub reset : BatchEncoder → BatchEncoder
reset b = record { packets = []; size = 0 }

unfoldable pub count : BatchEncoder → ℕ
count b = length b.packets

-- A slice expression whose upper bound is `i`, on a buffer of `total` bytes.
abbrev pub check_bound : ℕ → ℕ → Outcome ⊥ (Unit {0})
check_bound i total = if leb i total then ok tt else panic

-- The loop of `Flush`, from `offset` on.
unfoldable pub write_packets : ℕ → ℕ → List Bytes → Outcome ⊥ Bytes
write_packets total offset [] = do check_bound offset total; ok []
write_packets total offset (pkt ∷ rest) = do
  check_bound (offset + 2) total
  tail ← write_packets total (offset + (2 + length pkt)) rest
  ok (put16 (length pkt % 65536) ++ (pkt ++ tail))

unfoldable pub flush : BatchEncoder → Outcome ⊥ (Option Bytes × BatchEncoder)
flush b = elim b.packets [
  | [] ↦ ok (none, b)
  | pkt ∷ rest ↦ do
    entries ← write_packets (2 + b.size) 2 (pkt ∷ rest)
    ok (some (put16 (length (pkt ∷ rest) % 65536) ++ entries), reset b)
]

pub data BatchError : Type 0 where
  batch_too_short invalid_count truncated overflows : BatchError

-- The loop of `DecodeBatch`: the packets that are still to come, from `offset` on.
unfoldable pub read_packets : Bytes → ℕ → ℕ → Outcome BatchError (List Bytes)
read_packets bytes zero offset = ok []
read_packets bytes (suc n) offset = do
  fail_if (ltb (length bytes) (offset + 2)) truncated
  pkt_len ← uint16 bytes offset
  fail_if (ltb (length bytes) (offset + 2 + pkt_len)) overflows
  pkt ← slice bytes (offset + 2) (offset + 2 + pkt_len)
  rest ← read_packets bytes n (offset + 2 + pkt_len)
  ok (pkt ∷ rest)

unfoldable pub decode_batch : Bytes → Outcome BatchError (List Bytes)
decode_batch bytes = do
  fail_if (ltb (length bytes) 2) batch_too_short
  packet_count ← uint16 bytes 0
  fail_if (packet_count == 0 || ltb max_batch_size packet_count) invalid_count
  read_packets bytes packet_count 2
