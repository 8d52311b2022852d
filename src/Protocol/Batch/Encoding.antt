-- ===== src/Protocol/Batch/Encoding.antt =====
-- What the encoder accumulates and writes, and that `decode_batch` reads it back.
use ligend.Prelude.{
  ℕ, suc, ◌+◌, ◌-◌, ◌/◌, ◌%◌, ◌≤◌, ◌<◌, ◌≡◌, refl, sym, ap, ◌∙◌, false, List, [], ◌∷◌, ◌++◌,
  append_assoc, some, length, take, All, length-append, get_elem?, get_elem?-append_right,
  drop-append_right, take-length_append, le→ltb, le→leb, ne→==, arith,
}
use ligend.Prelude.Outcome.{ok, slice, slice-ok, ◌>>=◌}
use ligend.Prelude.Bytes.{Bytes, put16, uint16, join16, join16-put16_mod}
use ligend.Protocol.Batch.{
  BatchEncoder, BatchError, new_batch_encoder, add, reset, flush, write_packets, read_packets,
  decode_batch, max_batch_size, max_batch_bytes,
}

-- What the entries of these packets take on the wire.
abbrev pub entries_size : List Bytes → ℕ
entries_size [] = 0
entries_size (pkt ∷ rest) = 2 + length pkt + entries_size rest

-- The entries themselves.
abbrev pub entries : List Bytes → Bytes
entries [] = []
entries (pkt ∷ rest) = put16 (length pkt % 65536) ++ (pkt ++ entries rest)

-- The counter of the encoder is the size of its entries.
abbrev pub IsBatch : BatchEncoder → Type 0
IsBatch b = b.size ≡ entries_size b.packets

abbrev pub IsShort : Bytes → Type 0
IsShort p = length p < 65536

entries_size-append :
    (xs ys : List Bytes) → entries_size (xs ++ ys) ≡ entries_size xs + entries_size ys
entries_size-append [] ys = omega arith
entries_size-append (x ∷ xs) ys = omega (arith, entries_size-append xs ys)

pub add-IsBatch : (b : BatchEncoder) (p : Bytes) → IsBatch b → IsBatch (add b p).0
unfolding add
add-IsBatch b p h = omega (arith, entries_size-append b.packets (p ∷ []))

write_packets-entries :
    (total offset : ℕ) (ps : List Bytes)
    → offset + entries_size ps ≤ total
    → write_packets total offset ps ≡ ok (entries ps)
unfolding write_packets
write_packets-entries total offset [] h = rw (le→leb offset total (omega arith))
write_packets-entries total offset (p ∷ ps) h = rw (
  le→leb (offset + 2) total (omega arith),
  write_packets-entries total (offset + (2 + length p)) ps (omega arith),
)

-- One round of `read_packets`, on an entry that is there.
read_entry :
    (xs p : Bytes) (n i m : ℕ)
    → i + 2 + m ≤ length xs
    → uint16 {E = BatchError} xs i ≡ ok m
    → slice {E = BatchError} xs (i + 2) (i + 2 + m) ≡ ok p
    → read_packets xs (suc n) i ≡ (read_packets xs n (i + 2 + m) >>= λ ps. ok (p ∷ ps))
unfolding read_packets
read_entry xs p n i m h e₁ e₂ =
    rw (le→ltb (length xs) (i + 2) (omega arith), e₁, le→ltb (length xs) (i + 2 + m) h, e₂)

-- The entry that stands behind a prefix.
module _ (pre p rest : Bytes) (short : IsShort p) where
  abbrev whole : Bytes
  whole = pre ++ (put16 (length p % 65536) ++ (p ++ rest))

  entry_fits : length pre + 2 + length p ≤ length whole
  entry_fits =
      omega
        (arith, length-append pre (put16 (length p % 65536) ++ (p ++ rest)), length-append p rest)

  entry_length : uint16 {E = BatchError} whole (length pre) ≡ ok (length p)
  entry_length = rw (first, second) (ap ok (join16-put16_mod (length p % 65536) ∙ omega arith))
    where
      tail : Bytes
      tail = put16 (length p % 65536) ++ (p ++ rest)

      first : get_elem? whole (length pre) ≡ some (length p % 65536 / 256 % 256)
      first =
          ap (get_elem? whole) (let e : length pre ≡ length pre + 0 = omega arith in e)
          ∙ get_elem?-append_right pre tail 0

      second : get_elem? whole (length pre + 1) ≡ some (length p % 65536 % 256)
      second = get_elem?-append_right pre tail 1

  entry_payload : slice {E = BatchError} whole (length pre + 2) (length pre + 2 + length p) ≡ ok p
  entry_payload =
      slice-ok whole (length pre + 2) (length pre + 2 + length p) (omega arith) entry_fits
      ∙ ap ok (
          ap (take (length pre + 2 + length p - (length pre + 2))) (drop-append_right pre _ 2)
          ∙ ap (λ (k : ℕ). take k (p ++ rest))
              (let e : length pre + 2 + length p - (length pre + 2) ≡ length p = omega arith in e)
          ∙ take-length_append p rest)

read_packets-entries :
    (pre : Bytes) (ps : List Bytes)
    → All IsShort ps
    → read_packets (pre ++ entries ps) (length ps) (length pre) ≡ ok ps
read_packets-entries pre [] h = unfold read_packets in refl
read_packets-entries pre (p ∷ ps) h =
    read_entry (pre ++ entries (p ∷ ps)) p (length ps) (length pre) (length p)
      (entry_fits pre p (entries ps) h.0) (entry_length pre p (entries ps) h.0)
      (entry_payload pre p (entries ps) h.0)
    ∙ rw (regroup, moved) (rw (read_packets-entries pre' ps h.1))
  where
    head : Bytes
    head = put16 (length p % 65536) ++ p

    pre' : Bytes
    pre' = pre ++ head

    regroup : pre ++ entries (p ∷ ps) ≡ pre' ++ entries ps
    regroup =
        ap (◌++◌ pre) (sym (append_assoc (put16 (length p % 65536)) p (entries ps)))
        ∙ sym (append_assoc pre head (entries ps))

    moved : length pre + 2 + length p ≡ length pre'
    moved = omega (arith, length-append pre head)

flush-entries :
    (ps : List Bytes)
    → 0 < length ps
    → flush (record { packets = ps; size = entries_size ps })
      ≡ ok (some (put16 (length ps % 65536) ++ entries ps), new_batch_encoder)
unfolding flush reset new_batch_encoder
flush-entries [] h = absurd (omega arith)
flush-entries (p ∷ ps) h =
    rw (write_packets-entries (2 + entries_size (p ∷ ps)) 2 (p ∷ ps) (omega arith))

decode_batch-entries :
    (ps : List Bytes)
    → 0 < length ps
    → length ps ≤ max_batch_size
    → All IsShort ps
    → decode_batch (put16 (length ps % 65536) ++ entries ps) ≡ ok ps
unfolding decode_batch
decode_batch-entries ps some_packets few short =
    rw
      (
        read_count,
        le→ltb (length wire) 2 (omega arith),
        ne→== (length ps) 0 (omega arith),
        le→ltb max_batch_size (length ps) few,
      )
      (read_packets-entries (put16 (length ps % 65536)) ps short)
  where
    wire : Bytes
    wire = put16 (length ps % 65536) ++ entries ps

    read_count : join16 (length ps % 65536 / 256 % 256) (length ps % 65536 % 256) ≡ length ps
    read_count = join16-put16_mod (length ps % 65536) ∙ omega arith

-- Flushing an encoder that holds 1 to 64 packets, each shorter than 2^16 bytes, empties it and
-- gives bytes from which `decode_batch` reads exactly those packets, in order.
pub decode_batch-flush :
    (b : BatchEncoder)
    → IsBatch b
    → 0 < length b.packets
    → length b.packets ≤ max_batch_size
    → All IsShort b.packets
    → (wire : Bytes) × (flush b ≡ ok (some wire, new_batch_encoder))
      × (decode_batch wire ≡ ok b.packets)
decode_batch-flush b v some_packets few short = (
  put16 (length b.packets % 65536) ++ entries b.packets,
  ap (λ (n : ℕ). flush (record { packets = b.packets; size = n })) v
      ∙ flush-entries b.packets some_packets,
  decode_batch-entries b.packets some_packets few short,
)

-- An encoder that has not asked for a flush yet.
abbrev pub IsOpen : BatchEncoder → Type 0
IsOpen b = (length b.packets < max_batch_size) × (b.size < max_batch_bytes)

-- A packet added to an encoder with fewer than 64 packets and fewer than 60000 bytes leaves at most 64
-- packets, and a payload below 2^16 bytes if the packet has at most 3532 bytes; unless a flush is asked
-- for, the encoder is below both limits again.
pub add-bounds :
    (b : BatchEncoder) (p : Bytes)
    → IsOpen b
    → ((add b p).1 ≡ false → IsOpen (add b p).0)
      × (length (add b p).0.packets ≤ max_batch_size)
      × (length p ≤ 3532 → 2 + (add b p).0.size < 65536)
unfolding add
add-bounds b p h = (
  λ e. ground (arith, length-append b.packets (p ∷ [])),
  omega (arith, length-append b.packets (p ∷ [])),
  λ k. omega arith,
)
