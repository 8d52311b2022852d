-- ===== src/Keygen/Credentials.antt =====
-- The program's key generator and the server's start fit together.
use ligend.Prelude.{
  ℕ, not, false, ◌==◌, zero, suc, ◌%◌, ◌≡◌, refl, ap, [], ◌∷◌, Option, some, length, All, get_elem?,
  get_elem?-lt, arith,
}
use ligend.Prelude.Outcome.{ok}
use ligend.Prelude.Bytes.{Bytes, random_bytes, length-random_bytes}
use ligend.Config.{Config, defaults, secret_key}
use ligend.Tunnel.Pool.{Network}
use ligend.Panel.Settings.Saving.{StartsFrom, new_server-StartsFrom}
use ligend.Keygen.{path_chars, random_chars, path_length, key_length, printed_config, generate}

-- One of the characters of the alphabet.
abbrev pub IsPathChar : ℕ → Type 0
IsPathChar c = (i : ℕ) × (get_elem? path_chars i ≡ some c)

random_chars-IsPathChar :
    (n : ℕ) (draw : ℕ → ℕ)
    → (chars : Bytes) × (random_chars n draw ≡ ok chars) × (length chars ≡ n) × All IsPathChar chars
random_chars-IsPathChar zero draw = ([], refl, refl, tt)
random_chars-IsPathChar (suc n) draw =
    let (chars, e, len, fine) = random_chars-IsPathChar n draw in
    let (c, found) = get_elem?-lt path_chars (draw n % length path_chars) (omega arith) in
    (c ∷ chars, rw (found, e) refl, ap suc len, ((draw n % length path_chars, found), fine))

secret_key-encoded :
    (decode_string : Bytes → Option Bytes) (cfg : Config) (key : Bytes)
    → decode_string cfg.secret_key_base64 ≡ some key
    → length key ≡ 32
    → secret_key decode_string cfg ≡ ok key
unfolding secret_key
secret_key-encoded decode_string cfg key e len =
    let fits : not (length key == 32) ≡ false = ground (arith, len) in rw (e, fits) refl

-- What the key generator promises of a key and the settings that it prints with it.
abbrev pub Fits :
    (Bytes → Bytes) → (Bytes → Option Bytes) → Option Network → Bytes × Config → Type 0
Fits encode_to_string decode_string network (key, cfg) =
    (secret_key decode_string cfg ≡ ok key)
    × StartsFrom decode_string cfg
    × ((chars : Bytes) × (length chars ≡ 16)
        × All IsPathChar chars
        × (cfg ≡ record (defaults network) {
          web_socket_path = b'/' ∷ chars;
          secret_key_base64 = encode_to_string key;
        }))

-- Where the system's random source answers, the key generator prints a key and settings that the
-- server starts from, with that key: a path of sixteen letters and digits behind a slash, the
-- encoded key, and otherwise the defaults; for a decoding that undoes the encoding.
pub generate-Fits :
    (encode_to_string : Bytes → Bytes) (decode_string : Bytes → Option Bytes)
    (network : Option Network) (noise draw : ℕ → ℕ)
    → ((bs : Bytes) → decode_string (encode_to_string bs) ≡ some bs)
    → (printed : Bytes × Config) × (generate encode_to_string network (some noise) draw
        ≡ ok printed)
      × Fits encode_to_string decode_string network printed
unfolding generate printed_config defaults
generate-Fits encode_to_string decode_string network noise draw undoes =
    let key : Bytes = random_bytes noise key_length in
    let (chars, e, len, fine) = random_chars-IsPathChar path_length draw in
    let cfg : Config = printed_config network (b'/' ∷ chars) (encode_to_string key) in
    let accepted : secret_key decode_string cfg ≡ ok key =
      secret_key-encoded decode_string cfg key (undoes key)
        (length-random_bytes noise key_length) in
    (
      (key, cfg),
      rw e refl,
      (accepted, new_server-StartsFrom decode_string cfg key accepted, (chars, len, fine, refl)),
    )
