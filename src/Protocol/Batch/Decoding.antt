-- ===== src/Protocol/Batch/Decoding.antt =====
-- `decode_batch` on any bytes.
use ligend.Prelude.{
  ℕ, zero, suc, ◌+◌, ◌-◌, ◌≤◌, ◌≡◌, refl, ap, ◌||◌, List, [], ◌∷◌, length, take, drop, length-take,
  length-drop, ltb, ltb→le, ◌==◌, arith,
}
use ligend.Prelude.Outcome.{Outcome, Sat, Sat-then, Sat-check, Sat-slice, Sat-mono}
use ligend.Prelude.Bytes.{Bytes, uint16, Reads16, uint16-Reads16}
use ligend.Protocol.Batch.{
  BatchError, read_packets, decode_batch, max_batch_size, batch_too_short, invalid_count, truncated,
  overflows,
}
use ligend.Protocol.Batch.Encoding.{entries_size}

-- These many packets, which with their length prefixes stand behind `offset` in the input, one
-- behind the other.
abbrev pub StandsAt : Bytes → ℕ → List Bytes → Type 0
StandsAt bytes offset [] = offset ≤ length bytes
StandsAt bytes offset (p ∷ ps) =
    Reads16 bytes offset (length p)
    × (p ≡ take (length p) (drop (offset + 2) bytes))
    × StandsAt bytes (offset + 2 + length p) ps

abbrev Found : Bytes → ℕ → ℕ → List Bytes → Type 0
Found bytes n offset ps = (length ps ≡ n) × StandsAt bytes offset ps

entry_Found :
    (bytes : Bytes) (n offset m : ℕ) (ps : List Bytes)
    → offset + 2 + m ≤ length bytes
    → Reads16 bytes offset m
    → Found bytes n (offset + 2 + m) ps
    → Found bytes
        (suc n)
        offset
        (take (offset + 2 + m - (offset + 2)) (drop (offset + 2) bytes) ∷ ps)
entry_Found bytes n offset m ps fits em (counted, stands) =
    let cut : offset + 2 + m - (offset + 2) ≡ m = omega arith in
    let back = drop (offset + 2) bytes in
    let size : length (take m back) ≡ m =
      omega (arith, length-take m back, length-drop (offset + 2) bytes) in
    rw (cut, size) (ap suc counted, (em, refl, stands))

read_packets-Found :
    (bytes : Bytes) (n offset : ℕ)
    → offset ≤ length bytes
    → Sat (Found bytes n offset) (read_packets bytes n offset)
unfolding read_packets
read_packets-Found bytes zero offset h = (refl, h)
read_packets-Found bytes (suc n) offset h =
    let P = Found bytes (suc n) offset in
    Sat-check P (ltb (length bytes) (offset + 2)) truncated _ λ prefixed.
      let room : offset + 2 ≤ length bytes = ltb→le (length bytes) (offset + 2) prefixed in
      Sat-then P (Reads16 bytes offset) (uint16 bytes offset) _
        (uint16-Reads16 BatchError bytes offset (omega arith))
        λ m em. Sat-check P (ltb (length bytes) (offset + 2 + m)) overflows _ λ whole.
          let fits : offset + 2 + m ≤ length bytes = ltb→le (length bytes) (offset + 2 + m) whole in
          Sat-slice P bytes (offset + 2) (offset + 2 + m) _ (omega arith) fits (
            Sat-then P (Found bytes n (offset + 2 + m)) (read_packets bytes n (offset + 2 + m)) _
              (read_packets-Found bytes n (offset + 2 + m) fits)
              λ ps found. entry_Found bytes n offset m ps fits em found)

-- On any input `decode_batch` returns an error or 1 to 64 packets, as many as the first two bytes
-- say, which stand in the input one behind the other, each of the length that its prefix states.
-- It never indexes out of range.
pub decode_batch-StandsAt :
    (bytes : Bytes)
    → Sat
        (λ ps.
          (1 ≤ length ps)
          × (length ps ≤ max_batch_size)
          × Reads16 bytes 0 (length ps)
          × StandsAt bytes 2 ps)
        (decode_batch bytes)
unfolding decode_batch
decode_batch-StandsAt bytes = Sat-check P (ltb (length bytes) 2) batch_too_short _ λ long.
    let room : 2 ≤ length bytes = ltb→le (length bytes) 2 long in
    Sat-then P (Reads16 bytes 0) (uint16 bytes 0) _
      (uint16-Reads16 BatchError bytes 0 (omega arith))
      λ n en. Sat-check P (n == 0 || ltb max_batch_size n) invalid_count _ λ valid.
        weaken n en (ground arith) (read_packets bytes n 2) (read_packets-Found bytes n 2 room)
  where
    P : List Bytes → Type 0
    P ps =
        (1 ≤ length ps)
        × (length ps ≤ max_batch_size)
        × Reads16 bytes 0 (length ps)
        × StandsAt bytes 2 ps

    weaken :
        (n : ℕ)
        → Reads16 bytes 0 n
        → (1 ≤ n) × (n ≤ max_batch_size)
        → (m : Outcome BatchError (List Bytes)) → Sat (Found bytes n 2) m
        → Sat P m
    weaken n en (lo, hi) =
        Sat-mono (Found bytes n 2) P λ ps (counted, stands). rw counted (lo, hi, en, stands)

-- What a packet takes in the input: all that were read lie within it.
pub StandsAt-entries_size :
    (bytes : Bytes) (offset : ℕ) (ps : List Bytes)
    → StandsAt bytes offset ps
    → offset + entries_size ps ≤ length bytes
StandsAt-entries_size bytes offset [] h = omega arith
StandsAt-entries_size bytes offset (p ∷ ps) h =
    omega (arith, StandsAt-entries_size bytes (offset + 2 + length p) ps h.2)
