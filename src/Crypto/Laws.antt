-- ===== src/Crypto/Laws.antt =====
-- Payloads survive encryption, and decryption of any bytes ends in a value or an error.
use ligend.Prelude.{
  ℕ, ◌+◌, ◌-◌, ◌≤◌, ◌≡◌, ◌≢◌, sym, ap, ◌∙◌, not, ◌++◌, some, none, Option, length, take, drop,
  length-append, take-length_append, drop-length_append, take-drop_rest, le→ltb, ltb→le, eq→==, ltb,
  ◌==◌, arith,
}
use ligend.Prelude.Outcome.{
  ok, panic, slice-zero, slice-ok, Sat, Sat-check, Sat-slice, Sat-ne-panic,
}
use ligend.Prelude.Bytes.{Bytes, random_bytes, length-random_bytes}
use ligend.Crypto.{
  Aead, AeadLaws, CryptoError, bad_key, data_too_short, authentication_failed, encrypt_payload,
  decrypt_payload, or_fail, key_size, nonce_size,
}

-- A nonce and the ciphertext behind it are told apart again.
decrypt_parts :
    (aead : Aead) (key nonce c p : Bytes)
    → length key ≡ key_size
    → length nonce ≡ nonce_size
    → aead.unseal key nonce c ≡ some p
    → decrypt_payload aead key (nonce ++ c) ≡ ok p
unfolding decrypt_payload
decrypt_parts aead key nonce c p hk hn e =
    let size : length (nonce ++ c) ≡ 12 + length c = omega (arith, length-append nonce c) in
    rw (
      eq→== (length key) key_size hk,
      le→ltb (length (nonce ++ c)) nonce_size (omega arith),
      slice-zero {E = CryptoError} (nonce ++ c) nonce_size (omega arith),
      slice-ok {E = CryptoError} (nonce ++ c) nonce_size (length (nonce ++ c)) (omega arith)
          (omega arith),
      front,
      back,
      e,
    )
  where
    front : take nonce_size (nonce ++ c) ≡ nonce
    front = ap (λ (k : ℕ). take k (nonce ++ c)) (sym hn) ∙ take-length_append nonce c

    back : take (length (nonce ++ c) - nonce_size) (drop nonce_size (nonce ++ c)) ≡ c
    back =
        take-drop_rest nonce_size (nonce ++ c)
        ∙ ap (λ (k : ℕ). drop k (nonce ++ c)) (sym hn)
        ∙ drop-length_append nonce c

-- What `encrypt_payload` made under a key of 32 bytes, `decrypt_payload` opens under that key, and
-- it is 28 bytes longer than the plaintext.
pub decrypt-encrypt :
    (aead : Aead) (noise : ℕ → ℕ) (key p : Bytes)
    → AeadLaws aead
    → length key ≡ key_size
    → (c : Bytes) × (encrypt_payload aead (some noise) key p ≡ ok c)
      × (decrypt_payload aead key c ≡ ok p)
      × (length c ≡ length p + 28)
unfolding encrypt_payload
decrypt-encrypt aead noise key p laws hk = (
  nonce ++ aead.seal key nonce p,
  rw (eq→== (length key) key_size hk),
  decrypt_parts aead key nonce _ p hk (length-random_bytes noise 12) (laws.unseal-seal key nonce p),
  omega (arith, laws.length-seal key nonce p),
)
  where
    nonce : Bytes
    nonce = random_bytes noise nonce_size

-- Decryption never indexes out of range.
pub decrypt_payload-ne-panic : (aead : Aead) (key xs : Bytes) → decrypt_payload aead key xs ≢ panic
unfolding decrypt_payload
decrypt_payload-ne-panic aead key xs = Sat-ne-panic P _ (
    Sat-check P (not (length key == key_size)) bad_key _ λ _.
      Sat-check P (ltb (length xs) nonce_size) data_too_short _ λ long.
        let room : 12 ≤ length xs = ltb→le (length xs) nonce_size long in
        Sat-slice P xs 0 nonce_size _ (omega arith) room
          (Sat-slice P xs nonce_size (length xs) _ room (omega arith) (or_fail-Sat _)))
  where
    P : Bytes → Type 0
    P _ = Unit

    or_fail-Sat : (o : Option Bytes) → Sat P (or_fail o authentication_failed)
    or_fail-Sat none = tt
    or_fail-Sat (some a) = tt
