-- ===== src/Protocol/Awg/RoundTrip.antt =====
-- Transport packets survive the wire; junk packets keep to their bounds.
use ligend.Prelude.{
  ℕ, ◌+◌, ◌-◌, ◌*◌, ◌/◌, ◌%◌, ◌≤◌, ◌<◌, ◌≡◌, ◌≢◌, refl, ap, ◌∙◌, not, ◌++◌, some, length, take,
  take-length, ltb, ltb→le, ◌==◌, le→ltb, le→leb, eq→==, arith,
}
use ligend.Prelude.Outcome.{
  Outcome, ok, err, panic, Sat, Sat-check, Sat-then, Sat-slice, Sat-ne-panic, wrap_err,
}
use ligend.Prelude.Bytes.{
  Bytes, put32, put64, uint32, uint64, join32, join32-put32_mod, length-random_bytes, Reads32,
  uint32-Reads32,
}
use ligend.Crypto.{Aead, AeadLaws, CryptoError, key_size, decrypt_payload}
use ligend.Crypto.Laws.{decrypt-encrypt, decrypt_payload-ne-panic}
use ligend.Protocol.Awg.{
  AwgError, encode_awg_data_packet, decode_awg_data_packet, min_awg_size, generate_junk_packet,
  awg_too_short, invalid_header, decrypt_failed,
}

-- The packet has between `min_size` and the greater of the bounds many bytes; an upper bound that
-- is not above the lower one is replaced by `min_size + 30`.
pub length-generate_junk_packet :
    (first : ℕ) (noise : ℕ → ℕ) (lo hi : ℕ)
    → (lo ≤ length (generate_junk_packet first noise lo hi))
      × (hi ≤ lo → length (generate_junk_packet first noise lo hi) ≤ lo + 30)
      × (lo < hi → length (generate_junk_packet first noise lo hi) ≤ hi)
unfolding generate_junk_packet
length-generate_junk_packet first noise lo hi =
    rw length-random_bytes (ground arith, λ h. ground arith, λ h. ground arith)

-- What `decode_awg_data_packet` makes of a header and an encrypted body.
pub decode_parts :
    (aead : Aead) (h4 id seq : ℕ) (key c p : Bytes)
    → h4 < 4294967296
    → id < 18446744073709551616
    → seq < 4294967296
    → 28 ≤ length c
    → decrypt_payload aead key c ≡ ok p
    → decode_awg_data_packet aead h4 key (put32 h4 ++ (put64 id ++ (put32 seq ++ c)))
      ≡ ok (id, seq, p)
unfolding decode_awg_data_packet
decode_parts aead h4 id seq key c p h₁ h₂ h₃ long e =
    rw
      (
        le→ltb (length wire) min_awg_size (omega arith),
        header_is,
        eq→== h4 h4 refl,
        seq_is,
        le→leb 16 (length wire) (omega arith),
        le→leb (length wire) (length wire) (omega arith),
        body_is,
        e,
      )
      (ap (λ (n : ℕ). ok (n, seq, p)) (joined ∙ omega arith))
  where
    wire : Bytes
    wire = put32 h4 ++ (put64 id ++ (put32 seq ++ c))

    header_is : join32 (h4 / 16777216 % 256) (h4 / 65536 % 256) (h4 / 256 % 256) (h4 % 256) ≡ h4
    header_is = join32-put32_mod h4 ∙ omega arith

    seq_is : join32 (seq / 16777216 % 256) (seq / 65536 % 256) (seq / 256 % 256) (seq % 256) ≡ seq
    seq_is = join32-put32_mod seq ∙ omega arith

    joined :
        join32
              (id / 4294967296 / 16777216 % 256)
              (id / 4294967296 / 65536 % 256)
              (id / 4294967296 / 256 % 256)
              (id / 4294967296 % 256)
            * 4294967296
          + join32 (id / 16777216 % 256) (id / 65536 % 256) (id / 256 % 256) (id % 256)
        ≡ id / 4294967296 % 4294967296 * 4294967296 + id % 4294967296
    joined = rw (join32-put32_mod (id / 4294967296), join32-put32_mod id)

    body_is : take (length wire - 16) c ≡ c
    body_is =
        ap (λ (k : ℕ). take k c) (let e : length wire - 16 ≡ length c = omega arith in e)
        ∙ take-length c

-- A transport packet made under a 32-byte key decodes under that key and header to the session's
-- number, the sequence number and the IP packet, for all values of those fields in their Go types and
-- any AEAD that keeps its documentation; if randomness is at hand, it can be made.
pub decode-encode_awg :
    (aead : Aead) (noise : ℕ → ℕ) (h4 id seq : ℕ) (key p : Bytes)
    → AeadLaws aead
    → length key ≡ key_size
    → h4 < 4294967296
    → id < 18446744073709551616
    → seq < 4294967296
    → (wire : Bytes) × (encode_awg_data_packet aead (some noise) h4 id seq key p ≡ ok wire)
      × (decode_awg_data_packet aead h4 key wire ≡ ok (id, seq, p))
unfolding encode_awg_data_packet
decode-encode_awg aead noise h4 id seq key p laws hk h₁ h₂ h₃ =
    let (c, e, d, size) = decrypt-encrypt aead noise key p laws hk in
    (
      put32 h4 ++ (put64 id ++ (put32 seq ++ c)),
      rw e,
      decode_parts aead h4 id seq key c p h₁ h₂ h₃ (omega arith) d,
    )

-- Any datagram: decoding ends in an error or a result, and never indexes out of range.
pub decode_awg_data_packet-ne-panic :
    (aead : Aead) (h4 : ℕ) (key bytes : Bytes) → decode_awg_data_packet aead h4 key bytes ≢ panic
unfolding decode_awg_data_packet
decode_awg_data_packet-ne-panic aead h4 key bytes = Sat-ne-panic P _ (
    Sat-check P (ltb (length bytes) min_awg_size) awg_too_short _ λ long.
      let room : 44 ≤ length bytes = ltb→le (length bytes) min_awg_size long in
      Sat-then P (Reads32 bytes 0) (uint32 bytes 0) _
        (uint32-Reads32 AwgError bytes 0 (omega arith))
        λ header _. Sat-check P (not (header == h4)) invalid_header _ λ _.
          Sat-then P (λ _. Unit) (uint64 bytes 4) _ (session_id room)
            λ id _.
              Sat-then P (Reads32 bytes 12) (uint32 bytes 12) _
                (uint32-Reads32 AwgError bytes 12 (omega arith))
                λ seq _. Sat-slice P bytes 16 (length bytes) _ (omega arith) (omega arith) (
                  Sat-then P (λ _. Unit) (wrap_err decrypt_failed (decrypt_payload aead key _)) _
                    (decrypts _ (decrypt_payload-ne-panic aead key _)) λ d _. tt))
  where
    P : ℕ × ℕ × Bytes → Type 0
    P _ = Unit

    session_id : 44 ≤ length bytes → Sat (λ (v : ℕ). Unit {0}) (uint64 {E = AwgError} bytes 4)
    session_id room =
        Sat-then (λ (v : ℕ). Unit {0}) (Reads32 bytes 4) (uint32 bytes 4) _
          (uint32-Reads32 AwgError bytes 4 (omega arith))
          λ a _.
            Sat-then (λ (v : ℕ). Unit {0}) (Reads32 bytes 8) (uint32 bytes 8) _
              (uint32-Reads32 AwgError bytes 8 (omega arith)) λ b _. tt

    decrypts :
        (m : Outcome CryptoError Bytes)
        → m ≢ panic
        → Sat (λ (v : Bytes). Unit {0}) (wrap_err decrypt_failed m)
    decrypts (ok a) h = tt
    decrypts (err e) h = tt
    decrypts panic h = absurd (h refl)
