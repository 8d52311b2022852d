-- ===== src/Panel/Tokens/Parts.antt =====
-- The parts of a token between its dots.
use ligend.Prelude.{
  ℕ, ◌≡◌, ◌≢◌, refl, sym, ap, ◌∙◌, false, Bool-cases, inl, inr, List, [], ◌∷◌, ◌==◌, ==_iff,
  append_assoc, All,
}
use mathlib.Core.Path.{subst}
use ligend.Prelude.Bytes.{Bytes}
use ligend.Panel.Tokens.{NoDot, joined, push, split}

abbrev Join : List Bytes → Bytes
Join [] = []
Join (part ∷ []) = part
Join (part ∷ next_part ∷ parts) = joined part (Join (next_part ∷ parts))

abbrev Parted : Bytes → List Bytes → Type 0
Parted text parts = (parts ≢ []) × (Join parts ≡ text) × All NoDot parts

Parted-push :
    (c : ℕ) (cs : Bytes) (parts : List Bytes)
    → (c == b'.') ≡ false
    → Parted cs parts
    → Parted (c ∷ cs) (push c parts)
Parted-push c cs [] ne (some_part, e, a) = absurd (some_part refl)
Parted-push c cs (part ∷ []) ne (some_part, e, a) =
    ((λ h. cc), ap (λ (t : Bytes). c ∷ t) e, ((ne, a.0), tt))
Parted-push c cs (part ∷ p ∷ parts) ne (some_part, e, a) =
    ((λ h. cc), ap (λ (t : Bytes). c ∷ t) e, ((ne, a.0), a.1))

Parted-dot : (cs : Bytes) (parts : List Bytes) → Parted cs parts → Parted (b'.' ∷ cs) ([] ∷ parts)
Parted-dot cs [] (some_part, e, a) = absurd (some_part refl)
Parted-dot cs (p ∷ parts) (some_part, e, a) = ((λ h. cc), ap (λ (t : Bytes). b'.' ∷ t) e, (tt, a))

pub split-Parted : (text : Bytes) → Parted text (split b'.' text)
unfolding split
split-Parted [] = ((λ h. cc), refl, (tt, tt))
split-Parted (c ∷ cs) = elim (Bool-cases (c == b'.')) [
  | inl dot ↦ rw (dot, (==_iff c b'.').0 dot) (Parted-dot cs (split b'.' cs) (split-Parted cs))
  | inr ne ↦ rw ne (Parted-push c cs (split b'.' cs) ne (split-Parted cs))
]

-- A text with three parts is these with dots between them.
pub split-three :
    (text header payload sig : Bytes)
    → split b'.' text ≡ header ∷ payload ∷ sig ∷ []
    → (text ≡ joined (joined header payload) sig) × NoDot header × NoDot payload
split-three text header payload sig e =
    let found : Parted text (header ∷ payload ∷ sig ∷ []) =
      subst (Parted text) e (split-Parted text) in
    (sym found.1 ∙ sym (append_assoc header (b'.' ∷ payload) (b'.' ∷ sig)), found.2.0, found.2.1.0)

pub split-NoDot : (xs : Bytes) → NoDot xs → split b'.' xs ≡ xs ∷ []
unfolding split
split-NoDot [] a = refl
split-NoDot (x ∷ xs) a = rw (a.0, split-NoDot xs a.1) refl

pub split-joined : (xs ys : Bytes) → NoDot xs → split b'.' (joined xs ys) ≡ xs ∷ split b'.' ys
unfolding split
split-joined [] ys a = refl
split-joined (x ∷ xs) ys a = rw (a.0, split-joined xs ys a.1) refl

pub split-joined_three :
    (header payload sig : Bytes)
    → NoDot header
    → NoDot payload
    → NoDot sig
    → split b'.' (joined (joined header payload) sig) ≡ header ∷ payload ∷ sig ∷ []
split-joined_three header payload sig a b c =
    rw
      (
        append_assoc header (b'.' ∷ payload) (b'.' ∷ sig),
        split-joined header (joined payload sig) a,
        split-joined payload sig b,
        split-NoDot sig c,
      )
      refl
