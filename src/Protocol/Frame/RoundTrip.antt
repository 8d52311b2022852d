-- ===== src/Protocol/Frame/RoundTrip.antt =====
-- What `encode` writes, `decode` reads back.
use ligend.Prelude.{
  ℕ, ◌+◌, ◌-◌, ◌*◌, ◌/◌, ◌%◌, ◌≤◌, ◌<◌, ◌≡◌, sym, ap, ◌∙◌, ap₂, ◌↔◌, inl, inr, bit_and, bit_or,
  true, false, [], ◌∷◌, some, ◌++◌, append_assoc, append-nil, length, take, length-append,
  take-append, take-length, length-take, get_elem?, get_elem?-append_last, le→ltb, le→leb,
  Bool-cases, arith,
}
use ligend.Prelude.Outcome.{Outcome, ok, err, panic, slice-zero}
use ligend.Prelude.Bytes.{
  Bytes, random_bytes, length-random_bytes, join16, join32, join16-put16_mod, join32-put32_mod,
  low_nibble, join_nibbles,
}
use ligend.Protocol.Frame.{
  Frame, Rng, DecodeError, padding, encode, decode_payload, decode, has_flag, flag_has_padding,
  protocol_version,
}

-- A frame whose fields fit their Go types, of the version that `decode` accepts.
pub record IsFrame (f : Frame) : Type 0 where
  pub is_version : f.version ≡ protocol_version
  pub nibble : f.type < 16
  pub byte : f.flags < 256
  pub word : f.sequence < 4294967296

-- The count that ends a padded tail, and the length of that tail.
last_of_padding :
    (p r : Bytes) (b : ℕ)
    → get_elem? (p ++ (r ++ b ∷ [])) (length (p ++ (r ++ b ∷ [])) - 1) ≡ some b
last_of_padding p r b = rw (← append_assoc p r (b ∷ [])) (
    let e : length ((p ++ r) ++ b ∷ []) - 1 ≡ length (p ++ r) =
      omega (arith, length-append (p ++ r) (b ∷ [])) in
    rw e (get_elem?-append_last (p ++ r) b))

strip_padding :
    (flags n b : ℕ) (xs : Bytes)
    → has_flag flags flag_has_padding ≡ true
    → get_elem? xs (length xs - 1) ≡ some b
    → n + b + 1 ≤ length xs
    → decode_payload flags n xs ≡ ok (take n xs)
unfolding decode_payload
strip_padding flags n b xs yes_pad last fits =
    rw (yes_pad, le→ltb (length xs) 1 (omega arith), last, le→ltb (length xs) (n + b + 1) fits)
      (slice-zero xs n (omega arith))

no_padding :
    (flags n : ℕ) (xs : Bytes)
    → has_flag flags flag_has_padding ≡ false
    → n ≤ length xs
    → decode_payload flags n xs ≡ ok (take n xs)
unfolding decode_payload
no_padding flags n xs no_pad fits = rw (no_pad, le→ltb (length xs) n fits) (slice-zero xs n fits)

decode_payload-padding :
    (rng : Rng) (flags n : ℕ) (p : Bytes)
    → rng.roll < 128
    → n ≤ length p
    → decode_payload flags n (p ++ padding rng flags) ≡ ok (take n p)
unfolding padding
decode_payload-padding rng flags n p hr hn = elim (Bool-cases (has_flag flags flag_has_padding)) [
  | inl yes_pad ↦ rw yes_pad (
      strip_padding flags n ((rng.roll + 1) % 256) (p ++ (pad ++ count ∷ [])) yes_pad
        (last_of_padding p pad count) fits
      ∙ ap ok (take-append n p (pad ++ count ∷ []) hn))
  | inr no_pad ↦ rw (no_pad, append-nil) (no_padding flags n p no_pad hn)
]
  where
    pad : Bytes
    pad = random_bytes rng.noise (rng.roll + 1)

    count : ℕ
    count = (rng.roll + 1) % 256

    fits : n + count + 1 ≤ length (p ++ (pad ++ count ∷ []))
    fits = omega (
      arith,
      length-append p (pad ++ count ∷ []),
      length-append pad (count ∷ []),
      length-random_bytes rng.noise (rng.roll + 1),
    )

-- `decode` on the eight bytes of a header and what follows them.
decode_header :
    (first flags a b c d e g : ℕ) (rest payload : Bytes)
    → bit_and (first / 16) 0x0f ≡ protocol_version
    → decode_payload flags (join16 a b) rest ≡ ok payload
    → decode (first ∷ flags ∷ a ∷ b ∷ c ∷ d ∷ e ∷ g ∷ rest)
      ≡ ok (record {
        version = protocol_version;
        type = bit_and first 0x0f;
        flags = flags;
        sequence = join32 c d e g;
        payload = payload;
      })
unfolding decode
decode_header first flags a b c d e g rest payload v p =
    let size : ℕ = length (first ∷ flags ∷ a ∷ b ∷ c ∷ d ∷ e ∷ g ∷ rest) in
    rw (
      le→ltb size 8 (omega arith),
      v,
      le→leb 8 size (omega arith),
      le→leb size size (omega arith),
      rest_is,
      p,
    )
  where
    rest_is : take (length (first ∷ flags ∷ a ∷ b ∷ c ∷ d ∷ e ∷ g ∷ rest) - 8) rest ≡ rest
    rest_is =
        ap (λ (k : ℕ). take k rest)
          (let e : length (first ∷ flags ∷ a ∷ b ∷ c ∷ d ∷ e ∷ g ∷ rest) - 8 ≡ length rest =
              omega arith in
            e)
        ∙ take-length rest

-- The first byte of a frame of the current version.
pub first_byte :
    (v t : ℕ) → v ≡ protocol_version → t < 16 → bit_or (v * 16 % 256) (bit_and t 0x0f) ≡ 32 + t
first_byte v t e h =
    rw (e, low_nibble t (omega arith))
      (let lo : t % 16 ≡ (32 + t) % 16 = omega arith in
        let hi : 32 ≡ (32 + t) / 16 * 16 = omega arith in
        ap₂ bit_or hi lo ∙ join_nibbles (32 + t) (omega arith))

-- The two halves of that byte, as they are read.
pub first_byte_halves :
    (t : ℕ)
    → t < 16
    → (bit_and ((32 + t) / 16) 0x0f ≡ protocol_version) × (bit_and (32 + t) 0x0f ≡ t)
first_byte_halves t h = (
  rw (low_nibble ((32 + t) / 16) (omega arith)) (omega arith),
  rw (low_nibble (32 + t) (omega arith)) (omega arith),
)

-- `decode` returns the frame that was encoded, with any padding stripped and its payload cut to
-- its length modulo 2^16.
decode-encode_cut :
    (rng : Rng) (f : Frame)
    → IsFrame f
    → rng.roll < 128
    → decode (encode rng f) ≡ ok (record f { payload = take (length f.payload % 65536) f.payload })
unfolding encode
decode-encode_cut rng f v hr = rw (first_byte f.version f.type v.is_version v.nibble) (
    decode_header (32 + f.type) f.flags _ _ _ _ _ _ (f.payload ++ padding rng f.flags)
      (take n f.payload) (first_byte_halves f.type v.nibble).0 payload_is
    ∙ ground (arith, (first_byte_halves f.type v.nibble).1, join32-put32_mod f.sequence))
  where
    n : ℕ
    n = length f.payload % 65536

    payload_is :
        decode_payload f.flags
          (join16 (length f.payload / 256 % 256) (length f.payload % 256))
          (f.payload ++ padding rng f.flags)
        ≡ ok (take n f.payload)
    payload_is =
        rw (join16-put16_mod (length f.payload))
          (decode_payload-padding rng f.flags n f.payload hr (omega arith))

abbrev size_of : Outcome DecodeError Frame → ℕ
size_of (ok f) = length f.payload
size_of (err e) = 0
size_of panic = 0

-- A frame of the current version, its fields within their Go types, survives the wire, padded or not,
-- exactly if its payload is shorter than 2^16 bytes; for every draw of `rand.Intn(128)`.
pub decode-encode :
    (rng : Rng) (f : Frame)
    → IsFrame f
    → rng.roll < 128
    → (decode (encode rng f) ≡ ok f) ↔ (length f.payload < 65536)
decode-encode rng f v hr = (cut_short, whole)
  where
    n : ℕ
    n = length f.payload % 65536

    whole : length f.payload < 65536 → decode (encode rng f) ≡ ok f
    whole h =
        decode-encode_cut rng f v hr
        ∙ ap (λ (k : ℕ). ok (record f { payload = take k f.payload })) (omega arith)
        ∙ ap (λ (p : Bytes). ok (record f { payload = p })) (take-length f.payload)

    cut_short : decode (encode rng f) ≡ ok f → length f.payload < 65536
    cut_short e =
        let same : ok (record f { payload = take n f.payload }) ≡ ok f =
          sym (decode-encode_cut rng f v hr) ∙ e in
        omega
          (arith, ap (λ (r : Outcome DecodeError Frame). size_of r) same, length-take n f.payload)
