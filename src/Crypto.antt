-- ===== src/Crypto.antt =====
-- server/internal/crypto/crypto.go. ChaCha20-Poly1305 and LZ4 are third-party packages: each is a
-- record of functions, and what their documentation promises is a record of laws beside it.
pub mod Laws
use ligend.Prelude.{
  ℕ, zero, suc, ◌+◌, ◌≤◌, ◌≡◌, ◌≢◌, not, List, [], ◌∷◌, ◌++◌, Option, none, some, length, ltb, ◌==◌,
  if◌then◌else◌,
}
use ligend.Prelude.Outcome.{Outcome, ok, err, ◌>>=◌, ◌>>◌, fail_if, slice}
use ligend.Prelude.Bytes.{Bytes, random_bytes}

abbrev pub key_size : ℕ
key_size = 32

abbrev pub nonce_size : ℕ
nonce_size = 12

abbrev pub tag_size : ℕ
tag_size = 16

-- `aead.Seal(nonce, nonce, plaintext, nil)` without the nonce in front, and `aead.Open`.
pub record Aead : Type 0 where
  pub seal : Bytes → Bytes → Bytes → Bytes
  pub unseal : Bytes → Bytes → Bytes → Option Bytes

pub record AeadLaws (a : Aead) : Type 0 where
  pub unseal-seal : (key nonce p : Bytes) → a.unseal key nonce (a.seal key nonce p) ≡ some p
  pub length-seal : (key nonce p : Bytes) → length (a.seal key nonce p) ≡ length p + tag_size

-- `CompressBlockBound`, `CompressBlock` into a buffer of the given size and `UncompressBlock`; a
-- result is the part of the buffer that was written, and `none` an error.
pub record Lz4 : Type 0 where
  pub compress_block_bound : ℕ → ℕ
  pub compress_block : Bytes → ℕ → Option Bytes
  pub uncompress_block : Bytes → ℕ → Option Bytes

pub record Lz4Laws (z : Lz4) : Type 0 where
  pub uncompress-compress :
      (src c : Bytes) (n : ℕ)
      → z.compress_block src n ≡ some c
      → c ≢ []
      → z.uncompress_block c (length src) ≡ some src
  pub length-uncompress : (c d : Bytes) (n : ℕ) → z.uncompress_block c n ≡ some d → length d ≤ n

-- What a call reads from `crypto/rand`, or that the read fails.
abbrev pub Entropy : Type 0
Entropy = Option (ℕ → ℕ)

pub data CryptoError : Type 0 where
  no_entropy bad_key data_too_short authentication_failed lz4_failed : CryptoError

abbrev pub read_random : Entropy → ℕ → Outcome CryptoError Bytes
read_random none n = err no_entropy
read_random (some noise) n = ok (random_bytes noise n)

unfoldable pub generate_session_key : Entropy → Outcome CryptoError Bytes
generate_session_key entropy = read_random entropy key_size

unfoldable pub encrypt_payload : Aead → Entropy → Bytes → Bytes → Outcome CryptoError Bytes
encrypt_payload aead entropy key plaintext = do
  fail_if (not (length key == key_size)) bad_key
  nonce ← read_random entropy nonce_size
  ok (nonce ++ aead.seal key nonce plaintext)

abbrev pub or_fail {ℓ} : {A : Type ℓ} → Option A → CryptoError → Outcome CryptoError A
or_fail none e = err e
or_fail (some a) e = ok a

unfoldable pub decrypt_payload : Aead → Bytes → Bytes → Outcome CryptoError Bytes
decrypt_payload aead key bytes = do
  fail_if (not (length key == key_size)) bad_key
  fail_if (ltb (length bytes) nonce_size) data_too_short
  nonce ← slice bytes 0 nonce_size
  ciphertext ← slice bytes nonce_size (length bytes)
  or_fail (aead.unseal key nonce ciphertext) authentication_failed

-- LZ4 writes nothing for incompressible data, which is then returned as it is.
abbrev pub compressed_or : Bytes → Bytes → Bytes
compressed_or bytes [] = bytes
compressed_or bytes (c ∷ cs) = c ∷ cs

unfoldable pub compress_lz4 : Lz4 → Bytes → Outcome CryptoError Bytes
compress_lz4 z bytes = do
  compressed ← or_fail (z.compress_block bytes (z.compress_block_bound (length bytes))) lz4_failed
  ok (compressed_or bytes compressed)

unfoldable pub decompress_lz4 : Lz4 → Bytes → ℕ → Outcome CryptoError Bytes
decompress_lz4 z compressed max_output_size =
    or_fail (z.uncompress_block compressed max_output_size) lz4_failed
