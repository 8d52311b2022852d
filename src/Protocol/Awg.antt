-- ===== src/Protocol/Awg.antt =====
-- server/internal/protocol/awg.go: the AmneziaWG 3.1 datagrams. A transport packet is the header H4,
-- the session's number, a sequence number and the encrypted IP packet.
pub mod RoundTrip
pub mod Header
use ligend.Prelude.{
  ℕ, suc, ◌+◌, ◌-◌, ◌*◌, ◌%◌, not, List, [], ◌∷◌, ◌++◌, length, ltb, leb, ◌==◌, if◌then◌else◌,
}
use ligend.Prelude.Outcome.{Outcome, ok, err, ◌>>=◌, ◌>>◌, fail_if, slice, wrap_err}
use ligend.Prelude.Bytes.{Bytes, random_bytes, put32, put64, uint32, uint64}
use ligend.Crypto.{Aead, Entropy, CryptoError, encrypt_payload, decrypt_payload}

pub record AwgParams : Type 0 where
  pub jc : ℕ
  pub jmin : ℕ
  pub jmax : ℕ
  pub s1 : ℕ
  pub s2 : ℕ
  pub h1 : ℕ
  pub h2 : ℕ
  pub h3 : ℕ
  pub h4 : ℕ

unfoldable pub default_awg_params : AwgParams
default_awg_params = record {
  jc = 4;
  jmin = 40;
  jmax = 70;
  s1 = 16;
  s2 = 16;
  h1 = 0x7391b4a2;
  h2 = 0x51c3d9e8;
  h3 = 0x3f2a8c1e;
  h4 = 0x9b4a1e7d;
}

-- The upper bound that the function goes on with.
abbrev pub junk_max : ℕ → ℕ → ℕ
junk_max min_size max_size = if leb max_size min_size then min_size + 30 else max_size

-- `first` is the byte drawn for the size, `noise` what fills the packet.
unfoldable pub generate_junk_packet : ℕ → (ℕ → ℕ) → ℕ → ℕ → Bytes
generate_junk_packet first noise min_size max_size =
    random_bytes noise (min_size + first % (junk_max min_size max_size - min_size + 1))

unfoldable pub encode_awg_data_packet :
    Aead → Entropy → ℕ → ℕ → ℕ → Bytes → Bytes → Outcome CryptoError Bytes
encode_awg_data_packet aead entropy h4 session_id seq session_key ip_packet = do
  encrypted ← encrypt_payload aead entropy session_key ip_packet
  ok (put32 h4 ++ (put64 session_id ++ (put32 seq ++ encrypted)))

pub data AwgError : Type 0 where
  awg_too_short invalid_header : AwgError
  decrypt_failed : CryptoError → AwgError

abbrev pub min_awg_size : ℕ
min_awg_size = 16 + 12 + 16

-- The session's number, the sequence number and the IP packet.
unfoldable pub decode_awg_data_packet : Aead → ℕ → Bytes → Bytes → Outcome AwgError (ℕ × ℕ × Bytes)
decode_awg_data_packet aead h4 session_key bytes = do
  fail_if (ltb (length bytes) min_awg_size) awg_too_short
  header ← uint32 bytes 0
  fail_if (not (header == h4)) invalid_header
  session_id ← uint64 bytes 4
  seq ← uint32 bytes 12
  body ← slice bytes 16 (length bytes)
  decrypted ← wrap_err decrypt_failed (decrypt_payload aead session_key body)
  ok (session_id, seq, decrypted)
