-- ===== src/Examples/Parameters.antt =====
-- Functions that stand for the third-party packages, and keep what their documentation promises.
use ligend.Prelude.{
  ℕ, ◌+◌, ◌-◌, ◌≡◌, ◌≢◌, refl, sym, ap, ◌∙◌, inl, inr, ◌⊎◌, true, false, [], ◌∷◌, ◌++◌, some,
  length, take, replicate, length-append, length-replicate, take-length_append, Bool-cases,
  if◌then◌else◌, arith,
}
use mathlib.Core.Option.{some-injective}
use ligend.Prelude.Bytes.{Bytes}
use ligend.Prelude.Tables.{bytes_eq, bytes_eq_iff}
use ligend.Crypto.{Aead, AeadLaws, Lz4, Lz4Laws, tag_size}
use ligend.Auth.{AuthLib, AuthLibLaws}
use ligend.Protocol.Frame.{Rng}

abbrev pub zeros : ℕ → Bytes
zeros n = replicate n 0

pub length-zeros : (n : ℕ) → length (zeros n) ≡ n
length-zeros n = length-replicate n 0

-- The text itself with an empty tag.
abbrev pub tagging : Aead
tagging = record {
  seal = λ key nonce p. p ++ zeros tag_size;
  unseal = λ key nonce c. some (take (length c - tag_size) c);
}

untagged : (p : Bytes) → take (length (p ++ zeros 16) - 16) (p ++ zeros 16) ≡ p
untagged p =
    ap (λ (n : ℕ). take n (p ++ zeros 16))
      (let e : length (p ++ zeros 16) - 16 ≡ length p = omega (arith, length-append p (zeros 16)) in
        e)
    ∙ take-length_append p (zeros 16)

pub tagging-AeadLaws : AeadLaws tagging
tagging-AeadLaws = record {
  unseal-seal = λ key nonce p. ap (λ (q : Bytes). some q) (untagged p);
  length-seal = λ key nonce p. length-append p (zeros 16);
}

-- Zeros are packed into one byte, and nothing else is.
abbrev pub zero_packing : Lz4
zero_packing = record {
  compress_block_bound = λ n. n + 16;
  compress_block = λ src n. if bytes_eq src (zeros (length src)) then some (7 ∷ []) else some [];
  uncompress_block = λ c n. some (zeros n);
}

pub zero_packing-Lz4Laws : Lz4Laws zero_packing
zero_packing-Lz4Laws = record {
  uncompress-compress = λ src c n. unpacked src c (Bool-cases (bytes_eq src (zeros (length src))));
  length-uncompress = λ c d n e. omega (arith, length-zeros n, ap length (some-injective _ _ e));
}
  where
    unpacked :
        (src c : Bytes)
        → (bytes_eq src (zeros (length src)) ≡ true) ⊎ (bytes_eq src (zeros (length src)) ≡ false)
        → (if bytes_eq src (zeros (length src)) then some (7 ∷ []) else some []) ≡ some c
        → c ≢ []
        → some (zeros (length src)) ≡ some src
    unpacked src c (inl all_zero) e ne =
        ap (λ (q : Bytes). some q) (sym ((bytes_eq_iff src (zeros (length src))).0 all_zero))
    unpacked src c (inr other) e ne = absurd (ne (sym (some-injective _ _ (cc))))

-- A MAC that shows what it covers.
abbrev pub open_mac : AuthLib
open_mac = record { duration_of_float = λ x. x; mac = λ key message. key ++ message }

pub open_mac-AuthLibLaws : AuthLibLaws open_mac
open_mac-AuthLibLaws = record { exact = λ x h. refl }

abbrev pub rng : Rng
rng = record { roll = 6; noise = λ n. 5 }
