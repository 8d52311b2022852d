-- ===== src/Panel/Tokens/Issued.antt =====
-- Which tokens are accepted: server/internal/panel/auth.go.
use ligend.Prelude.{
  ℕ, ◌+◌, ◌^◌, ◌≤◌, ◌<◌, ◌≡◌, ◌↔◌, refl, ap, Bool, true, false, not, List, [], ◌∷◌, Option, none,
  some, length, ltb, arith,
}
use ligend.Prelude.Outcome.{Outcome, ok, err, ok-injective, fail_if, ◌>>=◌, ◌>>◌}
use ligend.Prelude.Bytes.{Bytes}
use ligend.Prelude.Tables.{bytes_eq, bytes_eq_iff, beq_refl, bytes_keys, lookup, insert}
use ligend.Prelude.Texts.{ℤ, pos, codes}
use ligend.Panel.Store.{Db, get_panel_config, set_panel_config}
use ligend.Panel.Tokens.{
  Claims, TokenLib, TokenLibLaws, NoDot, joined, sign, day, header_text, generate_token, split,
  TokenError, or_err, invalid_signature, invalid_subject, bad_base64, bad_json, token_expired,
  after, claims_user, validate_parts, validate_token, secret_of, new_auth,
}
use ligend.Panel.Tokens.Parts.{split-three, split-joined_three}

-- What a payload says of its user, to a reader at `now`.
abbrev pub Says : TokenLib → ℕ → Bytes → Bytes → Type 0
Says lib now payload user =
    (data_bytes : Bytes) × (claims : Claims) × (exp : ℤ) × (lib.decode payload ≡ some data_bytes)
    × (lib.unmarshal data_bytes ≡ some claims)
    × (claims.exp ≡ some exp)
    × (after now exp ≡ false)
    × (claims.sub ≡ some user)

-- A token signed with the secret, whose payload has not expired and names the user.
abbrev pub Signed : TokenLib → Bytes → ℕ → Bytes → Bytes → Type 0
Signed lib secret now token user =
    (header : Bytes) × (payload : Bytes) × (token
      ≡ joined (joined header payload) (sign lib secret (joined header payload)))
    × NoDot header
    × NoDot payload
    × Says lib now payload user

or_err-ok {ℓ κ} :
    {A : Type ℓ} {B : Type κ} (e : TokenError) (o : Option A) (f : A → Outcome TokenError B) (b : B)
    → (or_err e o >>= f) ≡ ok b
    → (a : A) × (o ≡ some a) × (f a ≡ ok b)
or_err-ok e none f b h = absurd (cc)
or_err-ok e (some a) f b h = (a, refl, h)

or_err-some {ℓ} :
    {A : Type ℓ} (e : TokenError) (o : Option A) (a : A) → or_err e o ≡ ok a → o ≡ some a
or_err-some e none a h = absurd (cc)
or_err-some e (some b) a h = ap (λ x. some x) (ok-injective h)

fail_if-ok {κ} :
    {B : Type κ} (c : Bool) (e : TokenError) (m : Outcome TokenError B) (b : B)
    → (fail_if c e >> m) ≡ ok b
    → (c ≡ false) × (m ≡ ok b)
fail_if-ok true e m b h = absurd (cc)
fail_if-ok false e m b h = (refl, h)

claims_user-ok :
    (now : ℕ) (claims : Claims) (user : Bytes)
    → claims_user now claims ≡ ok user
    → (exp : ℤ) × (claims.exp ≡ some exp) × (after now exp ≡ false) × (claims.sub ≡ some user)
claims_user-ok now claims user e =
    let (exp, is_exp, later) = or_err-ok token_expired claims.exp _ user e in
    let (fresh, named) = fail_if-ok (after now exp) token_expired _ user later in
    (exp, is_exp, fresh, or_err-some invalid_subject claims.sub user named)

signature-Signed :
    (lib : TokenLib) (secret : Bytes) (now : ℕ) (header payload sig user : Bytes)
    → validate_parts lib secret now (header ∷ payload ∷ sig ∷ []) ≡ ok user
    → (sign lib secret (joined header payload) ≡ sig) × Says lib now payload user
unfolding validate_parts
signature-Signed lib secret now header payload sig user e =
    let (signed, h) =
      fail_if-ok (not (bytes_eq (sign lib secret (joined header payload)) sig)) invalid_signature _
        user e in
    let (data_bytes, is_data, h') = or_err-ok bad_base64 (lib.decode payload) _ user h in
    let (claims, is_claims, h'') = or_err-ok bad_json (lib.unmarshal data_bytes) _ user h' in
    (
      (bytes_eq_iff (sign lib secret (joined header payload)) sig).0 (not-false _ signed),
      let (exp, is_exp, fresh, named) = claims_user-ok now claims user h'' in
          (data_bytes, claims, exp, is_data, is_claims, is_exp, fresh, named),
    )
  where
    not-false : (b : Bool) → not b ≡ false → b ≡ true
    not-false true h = refl
    not-false false h = absurd (cc)

parts-Signed :
    (lib : TokenLib) (secret : Bytes) (now : ℕ) (parts : List Bytes) (user : Bytes)
    → validate_parts lib secret now parts ≡ ok user
    → (header : Bytes) × (payload : Bytes) × (parts
        ≡ header ∷ payload ∷ sign lib secret (joined header payload) ∷ [])
      × Says lib now payload user
parts-Signed lib secret now (header ∷ payload ∷ sig ∷ []) user e =
    let (signed, says) = signature-Signed lib secret now header payload sig user e in
    (header, payload, rw signed refl, says)
parts-Signed lib secret now [] user e = absurd (unfold validate_parts in cc)
parts-Signed lib secret now (x ∷ []) user e = absurd (unfold validate_parts in cc)
parts-Signed lib secret now (x ∷ y ∷ []) user e = absurd (unfold validate_parts in cc)
parts-Signed lib secret now (x ∷ y ∷ z ∷ w ∷ parts) user e = absurd (unfold validate_parts in cc)

Says-ok :
    (lib : TokenLib) (secret : Bytes) (now : ℕ) (header payload user : Bytes)
    → Says lib now payload user
    → validate_parts lib secret now
        (header ∷ payload ∷ sign lib secret (joined header payload) ∷ [])
      ≡ ok user
unfolding validate_parts
Says-ok lib secret now header payload user (data_bytes, claims, exp, d, c, x, fresh, named) =
    rw (beq_refl (sign lib secret (joined header payload)), d, c, x, fresh, named) refl

module _ (lib : TokenLib) (laws : TokenLibLaws lib) (secret : Bytes) (now : ℕ) where
  -- The panel takes a token for a user's exactly if it consists of a header and a payload without
  -- dots and their signature with the panel's secret, and the payload decodes to claims that name
  -- the user and have an expiry that has not passed.
  pub validate_token-Signed :
      (token user : Bytes)
      → (validate_token lib secret now token ≡ ok user) ↔ Signed lib secret now token user
  unfolding validate_token
  validate_token-Signed token user = (
    λ e.
        let (header, payload, parts, says) =
          parts-Signed lib secret now (split b'.' token) user e in
        let (whole, h, p) = split-three token header payload _ parts in
        (header, payload, whole, h, p, says),
    λ (header, payload, whole, h, p, says).
        rw (whole, split-joined_three header payload _ h p (laws.encode-NoDot _))
          (Says-ok lib secret now header payload user says),
  )

generate-parts :
    (lib : TokenLib)
    → TokenLibLaws lib
    → (secret : Bytes) (issued now : ℕ) (user : Bytes) → lib.valid user ≡ true
    → issued + day < 2 ^ 53
    → validate_token lib secret now (generate_token lib secret issued user)
      ≡ claims_user now (record { exp = some (pos (issued + day)); sub = some user })
unfolding validate_token generate_token validate_parts
generate-parts lib laws secret issued now user valid small =
    rw
      (
        split-joined_three (lib.encode header_text) (lib.encode (lib.marshal user (issued + day)))
            (sign lib secret
              (joined (lib.encode header_text) (lib.encode (lib.marshal user (issued + day)))))
            (laws.encode-NoDot _) (laws.encode-NoDot _) (laws.encode-NoDot _),
        beq_refl (
            sign lib secret
              (joined (lib.encode header_text) (lib.encode (lib.marshal user (issued + day))))),
        laws.decode-encode (lib.marshal user (issued + day)),
        laws.unmarshal-marshal user (issued + day) valid small,
      )
      refl

-- The token of a user whose name is valid UTF-8 is accepted as that user's for a day after it was
-- issued, and refused as expired from then on.
pub validate_token-generate_token :
    (lib : TokenLib)
    → TokenLibLaws lib
    → (secret : Bytes) (issued now : ℕ) (user : Bytes) → lib.valid user ≡ true
    → issued + day < 2 ^ 53
    → let answer = validate_token lib secret now (generate_token lib secret issued user) in
      (now ≤ issued + day → answer ≡ ok user) × (issued + day < now → answer ≡ err token_expired)
validate_token-generate_token lib laws secret issued now user valid small =
    rw (generate-parts lib laws secret issued now user valid small)
      (λ h. rw (not-late h) refl, λ h. rw (late h) refl)
  where
    not-late : now ≤ issued + day → ltb (issued + day) now ≡ false
    not-late h = ground arith

    late : issued + day < now → ltb (issued + day) now ≡ true
    late h = ground arith

-- A secret that is stored is taken, whatever the random source gives.
pub new_auth-stored :
    (lib : TokenLib)
    → TokenLibLaws lib
    → (db : Db) (secret : Bytes) (entropy : Option Bytes)
    → lookup (codes "jwt_secret") db.panel_config ≡ some (lib.to_hex secret)
    → 0 < length secret
    → new_auth lib entropy true db ≡ ok (secret, db)
unfolding new_auth get_panel_config
new_auth-stored lib laws db secret entropy stored long = rw stored (
    read_back (lib.to_hex secret) (laws.from_hex-to_hex secret)
      (omega (arith, laws.length-to_hex secret)))
  where
    read_back :
        (text : Bytes)
        → lib.from_hex text ≡ some secret
        → 0 < length text
        → secret_of lib entropy true db text ≡ ok (secret, db)
    read_back [] e h = absurd (omega arith)
    read_back (c ∷ cs) e h = rw e refl

pub new_auth-fresh :
    (lib : TokenLib) (db : Db) (secret : Bytes)
    → lookup (codes "jwt_secret") db.panel_config ≡ none
    → new_auth lib (some secret) true db
      ≡ ok (
        secret,
        record db {
          panel_config = insert (codes "jwt_secret") (lib.to_hex secret) db.panel_config;
        },
      )
unfolding new_auth get_panel_config set_panel_config
new_auth-fresh lib db secret fresh = rw fresh refl
