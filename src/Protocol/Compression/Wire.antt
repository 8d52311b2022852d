-- ===== src/Protocol/Compression/Wire.antt =====
-- Frames that are compressed where that saves something, and then sent.
use ligend.Prelude.{ℕ, ◌/◌, ◌≤◌, ◌<◌, ◌≡◌, refl, sym, bit_or, length, arith}
use mathlib.Core.Path.{subst}
use ligend.Prelude.Outcome.{ok}
use ligend.Prelude.Bytes.{agree_below, agree_below_sound}
use ligend.Crypto.{Lz4}
use ligend.Protocol.Frame.{Frame, Rng, encode, decode, flag_compressed}
use ligend.Protocol.Frame.RoundTrip.{IsFrame, decode-encode}
use ligend.Protocol.Compression.{compress_frame}
use ligend.Protocol.Compression.RoundTrip.{
  kept, packed, compress_frame-Compressed, length-compress_frame,
}

flag_byte : (b : ℕ) → b < 256 → bit_or b flag_compressed / 256 ≡ 0
unfolding agree_below
flag_byte = agree_below_sound _ (λ _. 0) 256 refl

compress_frame-IsFrame : (z : Lz4) (f : Frame) → IsFrame f → IsFrame (compress_frame z f)
compress_frame-IsFrame z f v = elim (compress_frame-Compressed z f) [
  | kept e ↦ subst IsFrame (sym e) v
  | packed c n _ _ big short e ↦ subst IsFrame (sym e) (record {
    is_version = v.is_version;
    nibble = v.nibble;
    byte = omega (arith, flag_byte f.flags v.byte);
    word = v.word;
  })
]

pub decode-compress_frame :
    (z : Lz4) (rng : Rng) (f : Frame)
    → IsFrame f
    → rng.roll < 128
    → length f.payload ≤ 65535
    → decode (encode rng (compress_frame z f)) ≡ ok (compress_frame z f)
decode-compress_frame z rng f v rolled short =
    (decode-encode rng (compress_frame z f) (compress_frame-IsFrame z f v) rolled).1
      (omega (arith, length-compress_frame z f))
