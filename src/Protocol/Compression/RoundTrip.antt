-- ===== src/Protocol/Compression/RoundTrip.antt =====
-- Compression loses nothing, never grows a frame, and decompression is bounded.
use ligend.Prelude.{
  ℕ, ◌-◌, ◌*◌, ◌/◌, ◌%◌, ◌≤◌, ◌<◌, ◌≡◌, ◌≢◌, refl, ap, ◌∙◌, inl, inr, true, false, [], ◌∷◌, ◌++◌,
  bit_and, bit_or, Option, none, some, length, take, drop, take-length, ltb, leb, le→ltb, ltb→le,
  le→leb, Bool-cases, Option-cases, arith,
}
use ligend.Prelude.Outcome.{ok, Sat, Sat-then, Sat-check, Sat-slice, wrap_err}
use ligend.Prelude.Bytes.{
  Bytes, put32, uint32, join32, join32-put32_mod, agree_below, agree_below_sound, Reads32,
  uint32-Reads32,
}
use ligend.Crypto.{Lz4, Lz4Laws, compress_lz4, decompress_lz4, compressed_or, or_fail, lz4_failed}
use ligend.Protocol.Frame.{Frame, flag_compressed, has_flag}
use ligend.Protocol.Compression.{
  clear_flag, with_compressed, compress_frame, decompress_payload, decompress_frame,
  DecompressError, compressed_too_short, size_too_large, decompress_failed,
}

-- Setting the flag shows, and clearing it again gives the flags back that lacked it.
flag_set : (b : ℕ) → b < 256 → bit_and (bit_or b flag_compressed) flag_compressed ≡ 2
unfolding agree_below
flag_set = agree_below_sound _ (λ _. 2) 256 refl

flag_cleared :
    (b : ℕ)
    → b < 256
    → clear_flag (bit_or b flag_compressed) flag_compressed ≡ clear_flag b flag_compressed
unfolding agree_below
flag_cleared = agree_below_sound _ _ 256 refl

-- The three ways through `compress_frame`: the frame itself, or LZ4's output where it saves a tenth.
pub data Compressed (z : Lz4) (f g : Frame) : Type 0 where
  kept : g ≡ f → Compressed z f g
  packed :
      (c : Bytes) (n : ℕ)
      → z.compress_block f.payload n ≡ some c
      → c ≢ []
      → 256 ≤ length f.payload
      → length c < length f.payload * 9 / 10
      → g ≡ record {
        version = f.version;
        type = f.type;
        flags = bit_or f.flags flag_compressed;
        sequence = f.sequence;
        payload = put32 (length f.payload % 4294967296) ++ c;
      }
      → Compressed z f g

with_compressed-Compressed :
    (z : Lz4) (f : Frame) (c : Bytes) (n : ℕ)
    → z.compress_block f.payload n ≡ some c
    → 256 ≤ length f.payload
    → Compressed z f (with_compressed f (compressed_or f.payload c))
unfolding with_compressed
with_compressed-Compressed z f [] n e big =
    kept (rw (le→leb (length f.payload * 9 / 10) (length f.payload) (omega arith)))
with_compressed-Compressed z f (c ∷ cs) n e big =
    elim (Bool-cases (leb (length f.payload * 9 / 10) (length (c ∷ cs)))) [
      | inl poor ↦ kept (rw poor)
      | inr good ↦ packed (c ∷ cs) n e (λ q. cc) big (ground arith) (rw good)
    ]

pub compress_frame-Compressed : (z : Lz4) (f : Frame) → Compressed z f (compress_frame z f)
unfolding compress_frame compress_lz4
compress_frame-Compressed z f = elim (Bool-cases (ltb (length f.payload) 256)) [
  | inl small ↦ kept (rw small)
  | inr big ↦
      elim (Option-cases (z.compress_block f.payload (z.compress_block_bound (length f.payload)))) [
        | inl e ↦ kept (rw (big, e))
        | inr (c, e) ↦
            rw (big, e) (with_compressed-Compressed z f c _ e (ltb→le (length f.payload) 256 big))
      ]
]

-- A compressed frame is never longer than the original: LZ4's output replaces a payload only where
-- it stays shorter with the four bytes of the original size in front.
pub length-compress_frame :
    (z : Lz4) (f : Frame) → length (compress_frame z f).payload ≤ length f.payload
length-compress_frame z f = elim (compress_frame-Compressed z f) [
  | kept e ↦ omega (arith, ap (λ (g : Frame). length g.payload) e)
  | packed c n _ _ big short e ↦ omega (arith, ap (λ (g : Frame). length g.payload) e)
]

-- Decompressing LZ4's output behind the original size.
decompress_sized :
    (z : Lz4) (version type flags sequence n : ℕ) (c out : Bytes)
    → n ≤ 65535
    → z.uncompress_block c n ≡ some out
    → decompress_payload z (record {
      version = version;
      type = type;
      flags = flags;
      sequence = sequence;
      payload = put32 (n % 4294967296) ++ c;
    })
      ≡ ok (record {
        version = version;
        type = type;
        flags = clear_flag flags flag_compressed;
        sequence = sequence;
        payload = out;
      })
unfolding decompress_payload decompress_lz4
decompress_sized z version type flags sequence n c out short e = rw (
  size_is,
  le→ltb (length wire) 4 (omega arith),
  le→ltb 65535 n short,
  le→leb 4 (length wire) (omega arith),
  le→leb (length wire) (length wire) (omega arith),
  rest_is,
  e,
)
  where
    wire : Bytes
    wire = put32 (n % 4294967296) ++ c

    size_is :
        join32
          (n % 4294967296 / 16777216 % 256)
          (n % 4294967296 / 65536 % 256)
          (n % 4294967296 / 256 % 256)
          (n % 4294967296 % 256)
        ≡ n
    size_is = join32-put32_mod (n % 4294967296) ∙ omega arith

    rest_is : take (length wire - 4) c ≡ c
    rest_is =
        ap (λ (k : ℕ). take k c) (let e : length wire - 4 ≡ length c = omega arith in e)
        ∙ take-length c

-- A frame of at most 65535 bytes that is not marked as compressed comes back unchanged through
-- `compress_frame` and `decompress_frame`, whether LZ4 was used or not; for any LZ4 that keeps its
-- documentation.
pub decompress-compress :
    (z : Lz4) (f : Frame)
    → Lz4Laws z
    → length f.payload ≤ 65535
    → f.flags < 256
    → has_flag f.flags flag_compressed ≡ false
    → decompress_frame z (compress_frame z f) ≡ ok f
unfolding decompress_frame
decompress-compress z f laws short byte plain = elim (compress_frame-Compressed z f) [
  | kept e ↦ rw (e, plain)
  | packed c n ec nonempty big saves e ↦
      rw (e, flag_set f.flags byte)
        (decompress_sized z f.version f.type _ f.sequence (length f.payload) c f.payload short
            (laws.uncompress-compress f.payload c n ec nonempty)
          ∙ ap (λ (b : ℕ). ok (record f { flags = b })) (flag_cleared f.flags byte ∙ ground arith))
]

-- Decompressing any frame with the flag ends in an error or a frame of the same type whose payload is
-- at most 65535 bytes long, and never indexes out of range; for any LZ4 that keeps its documentation.
pub decompress_frame-bounded :
    (z : Lz4) (f : Frame)
    → Lz4Laws z
    → has_flag f.flags flag_compressed ≡ true
    → Sat (λ g. (length g.payload ≤ 65535) × (g.type ≡ f.type)) (decompress_frame z f)
unfolding decompress_frame decompress_payload decompress_lz4
decompress_frame-bounded z f laws marked = rw marked (
    Sat-check P (ltb (length f.payload) 4) compressed_too_short _ λ sized.
      let room : 4 ≤ length f.payload = ltb→le (length f.payload) 4 sized in
      Sat-then P (Reads32 f.payload 0) (uint32 f.payload 0) _
        (uint32-Reads32 DecompressError f.payload 0 (omega arith))
        λ n en. Sat-check P (ltb 65535 n) size_too_large _ λ small.
          Sat-slice P f.payload 4 (length f.payload) _ room (omega arith) (
            Sat-then P (λ out. length out ≤ 65535)
              (wrap_err decompress_failed (or_fail (z.uncompress_block (back) n) lz4_failed)) _
              (output n (ltb→le 65535 n small) (z.uncompress_block back n) refl)
              λ out h. (h, refl)))
  where
    P : Frame → Type 0
    P g = (length g.payload ≤ 65535) × (g.type ≡ f.type)

    back : Bytes
    back = take (length f.payload - 4) (drop 4 f.payload)

    output :
        (n : ℕ)
        → n ≤ 65535
        → (o : Option Bytes) → z.uncompress_block back n ≡ o
        → Sat
            (λ (out : Bytes). length out ≤ 65535)
            (wrap_err decompress_failed (or_fail o lz4_failed))
    output n h none e = tt
    output n h (some out) e = omega (arith, laws.length-uncompress back out n e)
