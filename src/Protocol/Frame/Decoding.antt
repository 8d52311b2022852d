-- ===== src/Protocol/Frame/Decoding.antt =====
-- `decode` on any bytes, sent by whom it may be.
use ligend.Prelude.{
  ℕ, ◌+◌, ◌-◌, ◌/◌, ◌≤◌, ◌<◌, ◌≡◌, refl, sym, ap, ◌∙◌, inl, inr, bit_and, true, false, not, length,
  take, drop, take-drop_rest, length-drop, length-take, get_elem?-drop, All, get_elem?-All,
  All-take, All-drop, Bool-cases, ltb, ltb→le, ◌==◌, arith, get_elem?, some,
}
use mathlib.Core.Path.{subst}
use ligend.Prelude.Outcome.{ok, Sat, Sat-then, Sat-check, Sat-at, Sat-slice, Sat-ok, slice-zero}
use ligend.Prelude.Bytes.{
  Bytes, IsByte, uint16, uint32, Reads16, uint16-Reads16, Reads32, uint32-Reads32, Reads16-lt,
  Reads32-lt, low_nibble,
}
use ligend.Protocol.Frame.RoundTrip.{IsFrame, decode-encode}
use ligend.Protocol.Frame.{
  Frame, Rng, encode, DecodeError, frame_too_short, unsupported_version, no_data_after_header,
  too_short_for_padding, too_short_for_payload, decode_payload, decode, has_flag, flag_has_padding,
  protocol_version, header_size,
}

-- The payload returned is the front of what follows the header, of the declared length.
abbrev IsFront : ℕ → ℕ → Bytes → Bytes → Type 0
IsFront flags n xs p =
    (p ≡ take n xs)
    × (n ≤ length xs)
    × (has_flag flags flag_has_padding ≡ true
        → (pad : ℕ) × (get_elem? xs (length xs - 1) ≡ some pad) × (n + pad + 1 ≤ length xs))

decode_payload-IsFront :
    (flags n : ℕ) (xs : Bytes) → Sat (IsFront flags n xs) (decode_payload flags n xs)
unfolding decode_payload
decode_payload-IsFront flags n xs = elim (Bool-cases (has_flag flags flag_has_padding)) [
  | inl padded ↦ rw padded (
      Sat-check P (ltb (length xs) 1) no_data_after_header _ λ some_data.
        Sat-at P xs (length xs - 1) _ (omega (arith, ltb→le (length xs) 1 some_data)) λ pad last.
          Sat-check P (ltb (length xs) (n + pad + 1)) too_short_for_padding _ λ enough.
            let fits : n + pad + 1 ≤ length xs = ltb→le (length xs) (n + pad + 1) enough in
            let room : n ≤ length xs = omega arith in
            rw (slice-zero xs n room) (refl, room, λ _. (pad, last, fits)))
  | inr bare ↦ rw bare (
      Sat-check P (ltb (length xs) n) too_short_for_payload _ λ enough.
        let room : n ≤ length xs = ltb→le (length xs) n enough in
        rw (slice-zero xs n room) (refl, room, λ e. absurd (cc)))
]
  where
    P : Bytes → Type 0
    P = IsFront flags n xs

-- What a decoded frame says of the bytes that it was read from.
pub record Decodes (bytes : Bytes) (f : Frame) : Type 0 where
  pub header : header_size ≤ length bytes
  pub current : f.version ≡ protocol_version
  pub type_byte : (b : ℕ) × (get_elem? bytes 0 ≡ some b) × (f.type ≡ bit_and b 0x0f)
  pub flags_byte : get_elem? bytes 1 ≡ some f.flags
  pub sequence_bytes : Reads32 bytes 4 f.sequence
  pub declared : Reads16 bytes 2 (length f.payload)
  pub fits : header_size + length f.payload ≤ length bytes
  pub front : f.payload ≡ take (length f.payload) (drop header_size bytes)
  pub padded :
      has_flag f.flags flag_has_padding ≡ true
      → (pad : ℕ) × (get_elem? bytes (length bytes - 1) ≡ some pad)
        × (header_size + length f.payload + pad + 1 ≤ length bytes)

header-Decodes :
    (bytes p : Bytes) (first flags n sequence : ℕ)
    → 8 ≤ length bytes
    → get_elem? bytes 0 ≡ some first
    → get_elem? bytes 1 ≡ some flags
    → Reads16 bytes 2 n
    → Reads32 bytes 4 sequence
    → not (bit_and (first / 16) 0x0f == protocol_version) ≡ false
    → IsFront flags n (drop header_size bytes) p
    → Decodes bytes (record {
      version = bit_and (first / 16) 0x0f;
      type = bit_and first 0x0f;
      flags = flags;
      sequence = sequence;
      payload = p;
    })
header-Decodes bytes p first flags n sequence long e0 e1 en es current (front, room, pads) =
    record {
      header = long;
      current = ground arith;
      type_byte = (first, e0, refl);
      flags_byte = e1;
      sequence_bytes = es;
      declared = subst (Reads16 bytes 2) (sym size) en;
      fits = omega (arith, size, length-drop 8 bytes);
      front = rw size front;
      padded = λ h.
          let (pad, last, enough) = pads h in
          (pad, last_is pad last enough, omega (arith, size, length-drop 8 bytes));
    }
  where
    size : length p ≡ n
    size = omega (arith, ap length front, length-take n (drop 8 bytes))

    last_is :
        (pad : ℕ)
        → get_elem? (drop 8 bytes) (length (drop 8 bytes) - 1) ≡ some pad
        → n + pad + 1 ≤ length (drop 8 bytes)
        → get_elem? bytes (length bytes - 1) ≡ some pad
    last_is pad last enough =
        ap (get_elem? bytes) (
          let e : length bytes - 1 ≡ 8 + (length (drop 8 bytes) - 1) =
            omega (arith, length-drop 8 bytes) in
          e)
        ∙ sym (get_elem?-drop 8 bytes (length (drop 8 bytes) - 1))
        ∙ last

-- On any input `decode` returns an error or a frame of the current version that stands in the input:
-- flags and type from the first two bytes, and the payload right behind the header, of the declared
-- length, with the padding that the last byte counts behind it. It never indexes out of range.
pub decode-Decodes : (bytes : Bytes) → Sat (Decodes bytes) (decode bytes)
unfolding decode
decode-Decodes bytes = Sat-check P (ltb (length bytes) header_size) frame_too_short _ λ long.
    let header : 8 ≤ length bytes = ltb→le (length bytes) 8 long in
    Sat-at P bytes 0 _ (omega arith) λ first e0. Sat-at P bytes 1 _ (omega arith) λ flags e1.
      Sat-then P (Reads16 bytes 2) (uint16 bytes 2) _
        (uint16-Reads16 DecodeError bytes 2 (omega arith))
        λ n en.
          Sat-then P (Reads32 bytes 4) (uint32 bytes 4) _
            (uint32-Reads32 DecodeError bytes 4 (omega arith))
            λ sequence es.
              Sat-check P (not (bit_and (first / 16) 0x0f == protocol_version)) unsupported_version
                _
                λ current. Sat-slice P bytes header_size (length bytes) _ header (omega arith) (
                  rw (take-drop_rest 8 bytes) (
                    Sat-then P (IsFront flags n rest) (decode_payload flags n rest) _
                      (decode_payload-IsFront flags n rest)
                      λ p front.
                        header-Decodes bytes p first flags n sequence header e0 e1 en es current
                          front))
  where
    rest : Bytes
    rest = drop header_size bytes

    P : Frame → Type 0
    P = Decodes bytes

-- Every frame that `decode` returns for a byte string is well formed, its fields within their Go
-- types, with a payload of bytes shorter than 2^16.
pub decode-IsFrame :
    (bytes : Bytes) (f : Frame)
    → All IsByte bytes
    → decode bytes ≡ ok f
    → IsFrame f × (length f.payload < 65536) × All IsByte f.payload
decode-IsFrame bytes f bs e = (
  record {
    is_version = d.current;
    nibble = nibble;
    byte = get_elem?-All IsByte bytes 1 bs d.flags_byte;
    word = Reads32-lt bytes 4 f.sequence bs d.sequence_bytes;
  },
  Reads16-lt bytes 2 (length f.payload) bs d.declared,
  rw d.front (All-take IsByte _ _ (All-drop IsByte 8 bytes bs)),
)
  where
    d : Decodes bytes f
    d = Sat-ok (Decodes bytes) (decode bytes) f (decode-Decodes bytes) e

    nibble : f.type < 16
    nibble =
        let (b, eb, et) = d.type_byte in
        omega (arith, et, low_nibble b (get_elem?-All IsByte bytes 0 bs eb))

-- Encoding a frame that `decode` accepted from a byte string, under any draw of `rand.Intn(128)` for its
-- padding, and decoding it gives it back.
pub decode-encode-decode :
    (bytes : Bytes) (f : Frame) (rng : Rng)
    → All IsByte bytes
    → rng.roll < 128
    → decode bytes ≡ ok f
    → decode (encode rng f) ≡ ok f
decode-encode-decode bytes f rng bs hr e =
    let (v, short, _) = decode-IsFrame bytes f bs e in (decode-encode rng f v hr).1 short
