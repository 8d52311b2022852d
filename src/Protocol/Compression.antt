-- ===== src/Protocol/Compression.antt =====
-- server/internal/protocol/batch.go: `CompressFrame` and `DecompressFrame`.
pub mod RoundTrip
pub mod Wire
use ligend.Prelude.{
  ℕ, ◌+◌, ◌-◌, ◌*◌, ◌/◌, ◌%◌, not, ◌++◌, bit_and, bit_or, length, ltb, leb, if◌then◌else◌,
}
use ligend.Prelude.Outcome.{Outcome, ok, err, panic, ◌>>=◌, ◌>>◌, fail_if, slice, wrap_err}
use ligend.Prelude.Bytes.{Bytes, put32, uint32}
use ligend.Crypto.{Lz4, CryptoError, compress_lz4, decompress_lz4}
use ligend.Protocol.Frame.{Frame, flag_compressed, has_flag}

-- `flags &^ mask`
abbrev pub clear_flag : ℕ → ℕ → ℕ
clear_flag flags mask = flags - bit_and flags mask

-- The frame with its payload compressed, if that saves a tenth.
unfoldable pub with_compressed : Frame → Bytes → Frame
with_compressed f compressed =
    if leb (length f.payload * 9 / 10) (length compressed) then f else record {
      version = f.version;
      type = f.type;
      flags = bit_or f.flags flag_compressed;
      sequence = f.sequence;
      payload = put32 (length f.payload % 4294967296) ++ compressed;
    }

unfoldable pub compress_frame : Lz4 → Frame → Frame
compress_frame z f = if ltb (length f.payload) 256 then f else elim (compress_lz4 z f.payload) [
  | ok compressed ↦ with_compressed f compressed
  | err e ↦ f
  | panic ↦ f
]

pub data DecompressError : Type 0 where
  compressed_too_short size_too_large : DecompressError
  decompress_failed : CryptoError → DecompressError

unfoldable pub decompress_payload : Lz4 → Frame → Outcome DecompressError Frame
decompress_payload z f = do
  fail_if (ltb (length f.payload) 4) compressed_too_short
  orig_size ← uint32 f.payload 0
  fail_if (ltb 65535 orig_size) size_too_large
  compressed ← slice f.payload 4 (length f.payload)
  decompressed ← wrap_err decompress_failed (decompress_lz4 z compressed orig_size)
  ok (record {
    version = f.version;
    type = f.type;
    flags = clear_flag f.flags flag_compressed;
    sequence = f.sequence;
    payload = decompressed;
  })

unfoldable pub decompress_frame : Lz4 → Frame → Outcome DecompressError Frame
decompress_frame z f =
    if not (has_flag f.flags flag_compressed) then ok f else decompress_payload z f
