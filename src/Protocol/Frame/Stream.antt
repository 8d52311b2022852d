-- ===== src/Protocol/Frame/Stream.antt =====
-- server/internal/protocol/frame.go: `DecodeFromReader`, on the bytes that a stream still holds.
use ligend.Prelude.{
  ◌/◌, ◌<◌, ◌≡◌, bit_and, ◌∷◌, ◌++◌, append_assoc, length, take, drop, take-length_append,
  drop-length_append, length-append, ltb, le→ltb, arith,
}
use ligend.Prelude.Outcome.{Outcome, ok, ◌>>=◌, ◌>>◌, fail_if, at}
use ligend.Prelude.Bytes.{Bytes, uint16, uint32, join16-put16, join32-put32_mod}
use ligend.Protocol.Frame.{Frame, Rng, encode, padding, header_size}
use ligend.Protocol.Frame.RoundTrip.{IsFrame, first_byte, first_byte_halves}

pub data ReadError : Type 0 where
  read_header read_payload : ReadError

-- The frame, and what the stream holds behind it. The version is not looked at, and the padding is
-- not read.
unfoldable pub decode_from_reader : Bytes → Outcome ReadError (Frame × Bytes)
decode_from_reader stream = do
  fail_if (ltb (length stream) header_size) read_header
  first ← at stream 0
  flags ← at stream 1
  payload_len ← uint16 stream 2
  sequence ← uint32 stream 4
  fail_if (ltb (length (drop header_size stream)) payload_len) read_payload
  ok (
    record {
      version = bit_and (first / 16) 0x0f;
      type = bit_and first 0x0f;
      flags = flags;
      sequence = sequence;
      payload = take payload_len (drop header_size stream);
    },
    drop payload_len (drop header_size stream),
  )

-- Behind an encoded frame shorter than 2^16 bytes, the reader returns that frame and leaves the stream
-- at the frame's padding: without the padding flag the next frame follows there, and with it the
-- padding and its count stand in between.
pub decode_from_reader-encode :
    (rng : Rng) (f : Frame) (rest : Bytes)
    → IsFrame f
    → length f.payload < 65536
    → decode_from_reader (encode rng f ++ rest) ≡ ok (f, padding rng f.flags ++ rest)
unfolding encode decode_from_reader
decode_from_reader-encode rng f rest v short =
    rw
      (
        first_byte f.version f.type v.is_version v.nibble,
        append_assoc f.payload (padding rng f.flags) rest,
        le→ltb (length (0 ∷ 0 ∷ 0 ∷ 0 ∷ 0 ∷ 0 ∷ 0 ∷ 0 ∷ body)) 8 (omega arith),
        join16-put16 (length f.payload) short,
        le→ltb (length body) (length f.payload)
            (omega (arith, length-append f.payload (padding rng f.flags ++ rest))),
        take-length_append f.payload (padding rng f.flags ++ rest),
        drop-length_append f.payload (padding rng f.flags ++ rest),
        (first_byte_halves f.type v.nibble).0,
        (first_byte_halves f.type v.nibble).1,
        join32-put32_mod f.sequence,
      )
      (ground (arith, v.is_version, v.word))
  where
    body : Bytes
    body = f.payload ++ (padding rng f.flags ++ rest)
