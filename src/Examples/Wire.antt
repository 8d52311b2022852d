-- ===== src/Examples/Wire.antt =====
-- The wire formats: frames, batches, compression, transport packets and sizes.
use ligend.Prelude.{◌≤◌, ◌<◌, ◌≡◌, ◌↔◌, refl, [], ◌∷◌, some, length, All, arith}
use ligend.Prelude.Outcome.{ok, Sat}
use ligend.Prelude.Bytes.{Bytes, IsByte, Reads16}
use ligend.Protocol.Frame.{
  padding, Frame, Rng, encode, decode, has_flag, new_data_frame, flag_has_padding, flag_compressed,
  protocol_version,
}
use ligend.Protocol.Frame.RoundTrip.{IsFrame, decode-encode}
use ligend.Protocol.Frame.Decoding.{Decodes, decode-Decodes}
use ligend.Protocol.Batch.{BatchEncoder, new_batch_encoder, flush, decode_batch, max_batch_size}
use ligend.Protocol.Batch.Encoding.{decode_batch-flush}
use ligend.Protocol.Batch.Decoding.{StandsAt, decode_batch-StandsAt}
use ligend.Protocol.Compression.{compress_frame, decompress_frame}
use ligend.Protocol.Compression.RoundTrip.{decompress-compress}
use ligend.Protocol.Awg.{encode_awg_data_packet, decode_awg_data_packet}
use ligend.Protocol.Awg.RoundTrip.{decode-encode_awg}
use ligend.Examples.Parameters.{
  zeros, length-zeros, tagging, tagging-AeadLaws, zero_packing, zero_packing-Lz4Laws, rng,
}

-- A padded frame with three bytes.
abbrev padded : Frame
padded = record { version = 2; type = 1; flags = 1; sequence = 70000; payload = 9 ∷ 8 ∷ 7 ∷ [] }

padded-IsFrame : IsFrame padded
padded-IsFrame = record {
  is_version = refl;
  nibble = omega arith;
  byte = omega arith;
  word = omega arith;
}

decode-encode_example : (decode (encode rng padded) ≡ ok padded) ↔ (3 < 65536)
decode-encode_example = decode-encode rng padded padded-IsFrame (omega arith)

abbrev wire : Bytes
wire = 0x21 ∷ 0 ∷ 0 ∷ 2 ∷ 0 ∷ 0 ∷ 0 ∷ 5 ∷ 17 ∷ 18 ∷ []

abbrev from_wire : Frame
from_wire = record { version = 2; type = 1; flags = 0; sequence = 5; payload = 17 ∷ 18 ∷ [] }

wire-IsByte : All IsByte wire
wire-IsByte = (
  omega arith,
  (
    omega arith,
    (
      omega arith,
      (
        omega arith,
        (
          omega arith,
          (omega arith, (omega arith, (omega arith, (omega arith, (omega arith, tt))))),
        ),
      ),
    ),
  ),
)

decode-wire : decode wire ≡ ok from_wire
unfolding decode ligend.Protocol.Frame.decode_payload
decode-wire = refl

decode-Decodes_example : Sat (Decodes wire) (decode wire)
decode-Decodes_example = decode-Decodes wire

abbrev one : BatchEncoder
one = record { packets = (1 ∷ 2 ∷ []) ∷ []; size = 4 }

abbrev two : BatchEncoder
two = record { packets = (1 ∷ 2 ∷ []) ∷ (3 ∷ []) ∷ []; size = 7 }

decode_batch-flush_example :
    (bytes : Bytes) × (flush two ≡ ok (some bytes, new_batch_encoder))
    × (decode_batch bytes ≡ ok two.packets)
decode_batch-flush_example =
    decode_batch-flush two refl (omega arith) (omega arith) (omega arith, (omega arith, tt))

abbrev batch : Bytes
batch = 0 ∷ 2 ∷ 0 ∷ 2 ∷ 1 ∷ 2 ∷ 0 ∷ 1 ∷ 3 ∷ []

decode_batch-StandsAt_example :
    Sat
      (λ ps.
        (1 ≤ length ps)
        × (length ps ≤ max_batch_size)
        × Reads16 batch 0 (length ps)
        × StandsAt batch 2 ps)
      (decode_batch batch)
decode_batch-StandsAt_example = decode_batch-StandsAt batch

-- 300 zeros, which the packing shortens.
abbrev compressible : Frame
compressible = record { version = 2; type = 1; flags = 4; sequence = 3; payload = zeros 300 }

decompress-compress_example :
    decompress_frame zero_packing (compress_frame zero_packing compressible) ≡ ok compressible
decompress-compress_example =
    decompress-compress zero_packing compressible zero_packing-Lz4Laws
      (omega (arith, length-zeros 300)) (omega arith) refl

decode-encode_awg_example :
    (bytes : Bytes) × (encode_awg_data_packet tagging
        (some (λ n. 3))
        0x9b4a1e7d
        77
        4
        (zeros 32)
        (69 ∷ 1 ∷ [])
      ≡ ok bytes)
    × (decode_awg_data_packet tagging 0x9b4a1e7d (zeros 32) bytes ≡ ok (77, 4, 69 ∷ 1 ∷ []))
decode-encode_awg_example =
    decode-encode_awg tagging (λ n. 3) 0x9b4a1e7d 77 4 (zeros 32) (69 ∷ 1 ∷ []) tagging-AeadLaws
      refl (omega arith) (omega arith) (omega arith)
