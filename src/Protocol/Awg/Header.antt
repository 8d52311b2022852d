-- ===== src/Protocol/Awg/Header.antt =====
-- The first fields of a transport packet, as the server reads them before it knows the session.
use ligend.Prelude.{
  ℕ, ◌+◌, ◌*◌, ◌/◌, ◌%◌, ◌≤◌, ◌<◌, ◌≡◌, false, ap, ◌∙◌, ◌++◌, some, length, ltb, le→ltb, arith,
}
use ligend.Prelude.Outcome.{ok}
use ligend.Prelude.Bytes.{Bytes, put32, put64, uint32, uint64, join32, join32-put32_mod}
use ligend.Crypto.{Aead, AeadLaws, key_size}
use ligend.Crypto.Laws.{decrypt-encrypt}
use ligend.Protocol.Awg.{encode_awg_data_packet, decode_awg_data_packet, min_awg_size}
use ligend.Protocol.Awg.RoundTrip.{decode_parts}

-- The packet is long enough, and has the header and the session's number in front.
abbrev pub HasHeader : ℕ → ℕ → Bytes → Type 0
HasHeader h4 id wire =
    (ltb (length wire) 4 ≡ false)
    × (ltb (length wire) min_awg_size ≡ false)
    × (uint32 {E = ⊥} wire 0 ≡ ok h4)
    × (uint64 {E = ⊥} wire 4 ≡ ok id)

pub header_of :
    (h4 id : ℕ) (c : Bytes)
    → h4 < 4294967296
    → id < 18446744073709551616
    → 32 ≤ length c
    → HasHeader h4 id (put32 h4 ++ (put64 id ++ c))
header_of h4 id c h₁ h₂ long = (
  le→ltb (length wire) 4 (omega arith),
  le→ltb (length wire) min_awg_size (omega arith),
  ap (λ (n : ℕ). ok n) (join32-put32_mod h4 ∙ omega arith),
  ap (λ (n : ℕ). ok n) (joined ∙ omega arith),
)
  where
    wire : Bytes
    wire = put32 h4 ++ (put64 id ++ c)

    joined :
        join32
              (id / 4294967296 / 16777216 % 256)
              (id / 4294967296 / 65536 % 256)
              (id / 4294967296 / 256 % 256)
              (id / 4294967296 % 256)
            * 4294967296
          + join32 (id / 16777216 % 256) (id / 65536 % 256) (id / 256 % 256) (id % 256)
        ≡ id / 4294967296 % 4294967296 * 4294967296 + id % 4294967296
    joined = rw (join32-put32_mod (id / 4294967296), join32-put32_mod id)

pub encode_awg-HasHeader :
    (aead : Aead) (noise : ℕ → ℕ) (h4 id seq : ℕ) (key p : Bytes)
    → AeadLaws aead
    → length key ≡ key_size
    → h4 < 4294967296
    → id < 18446744073709551616
    → seq < 4294967296
    → (wire : Bytes) × (encode_awg_data_packet aead (some noise) h4 id seq key p ≡ ok wire)
      × HasHeader h4 id wire
      × (decode_awg_data_packet aead h4 key wire ≡ ok (id, seq, p))
unfolding encode_awg_data_packet
encode_awg-HasHeader aead noise h4 id seq key p laws hk h₁ h₂ h₃ =
    let (c, e, d, size) = decrypt-encrypt aead noise key p laws hk in
    (
      put32 h4 ++ (put64 id ++ (put32 seq ++ c)),
      rw e,
      header_of h4 id (put32 seq ++ c) h₁ h₂ (omega arith),
      decode_parts aead h4 id seq key c p h₁ h₂ h₃ (omega arith) d,
    )
