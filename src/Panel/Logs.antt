-- ===== src/Panel/Logs.antt =====
-- server/internal/panel/api_logs.go: `LogBuffer`, the latest lines of the log.
pub mod Stream
use ligend.Prelude.{
  ℕ, zero, suc, ◌+◌, ◌-◌, ◌≤◌, ◌<◌, ◌≡◌, refl, sym, ap, ◌∙◌, inl, inr, List, [], ◌∷◌, ◌++◌,
  append-nil, append_assoc, Option, none, some, length, drop, length-append, length-drop,
  take-drop_rest, leb, ltb, Bool-cases, min, if◌then◌else◌, arith,
}
use ligend.Prelude.Outcome.{Outcome, ok, ◌>>=◌, slice, slice-ok}
use ligend.Prelude.Bytes.{Bytes}
use ligend.Prelude.Texts.{ℤ, pos, negsuc, positive}

pub record LogEntry : Type 0 where
  pub timestamp : Bytes
  pub level : Bytes
  pub message : Bytes
  pub source : Bytes

pub record LogBuffer : Type 0 where
  pub entries : List LogEntry
  pub max : ℕ

unfoldable pub new_log_buffer : ℕ → LogBuffer
new_log_buffer max = record { entries = []; max = max }

-- `lb.entries[1:]` of a full buffer
abbrev pub make_room : LogBuffer → Outcome ⊥ (List LogEntry)
make_room lb =
    if leb lb.max (length lb.entries) then slice lb.entries 1 (length lb.entries) else ok lb.entries

-- The entry comes with its time.
unfoldable pub add : LogBuffer → LogEntry → Outcome ⊥ LogBuffer
add lb entry = do kept ← make_room lb; ok (record lb { entries = kept ++ entry ∷ [] })

abbrev pub limit_of : Option ℕ → ℕ → ℕ
limit_of none n = n
limit_of (some limit) n = if ltb n limit then n else limit

-- The copied slice is never out of range.
unfoldable pub recent : LogBuffer → ℤ → List LogEntry
recent lb limit =
    drop (length lb.entries - limit_of (positive limit) (length lb.entries)) lb.entries

abbrev pub add_all : LogBuffer → List LogEntry → Outcome ⊥ LogBuffer
add_all lb [] = ok lb
add_all lb (entry ∷ rest) = do next ← add lb entry; add_all next rest

-- The specification: the last `n` of the lines ever written.
abbrev pub last_lines : ℕ → List LogEntry → List LogEntry
last_lines n history = drop (length history - n) history

pub drop_append {ℓ} :
    {A : Type ℓ} (n : ℕ) (xs ys : List A) → n ≤ length xs → drop n (xs ++ ys) ≡ drop n xs ++ ys
drop_append zero xs ys h = refl
drop_append (suc n) [] ys h = absurd (omega arith)
drop_append (suc n) (x ∷ xs) ys h = drop_append n xs ys (omega arith)

pub drop-nil {ℓ} : {A : Type ℓ} (m : ℕ) → drop {A = A} m [] ≡ []
drop-nil zero = refl
drop-nil (suc m) = refl

drop-drop {ℓ} : {A : Type ℓ} (m n : ℕ) (xs : List A) → drop m (drop n xs) ≡ drop (n + m) xs
drop-drop m zero xs = ap (λ (k : ℕ). drop k xs) (omega arith)
drop-drop m (suc n) [] = drop-nil m ∙ sym (drop-nil (suc n + m))
drop-drop m (suc n) (x ∷ xs) =
    drop-drop m n xs
    ∙ ap (λ (k : ℕ). drop k (x ∷ xs)) (let e : suc (n + m) ≡ suc n + m = omega arith in e)

-- The buffer holds the last lines of the history.
abbrev pub Holds : LogBuffer → List LogEntry → Type 0
Holds lb history = lb.entries ≡ last_lines lb.max history

length-Holds :
    (lb : LogBuffer) (history : List LogEntry)
    → Holds lb history
    → length lb.entries ≡ min lb.max (length history)
length-Holds lb history h =
    omega (arith, ap length h, length-drop (length history - lb.max) history)

pub recent-Holds :
    (lb : LogBuffer) (history : List LogEntry) (n : ℕ)
    → Holds lb history
    → 0 < n
    → n ≤ lb.max
    → recent lb (pos n) ≡ last_lines n history
unfolding recent
recent-Holds lb history zero h some_lines few = absurd (omega arith)
recent-Holds lb history (suc n) h some_lines few =
    let len : ℕ = length lb.entries in
    let limited : limit_of (some (suc n)) len ≡ min (suc n) len = ground arith in
    ap (drop (len - limit_of (some (suc n)) len)) h
    ∙ drop-drop (len - limit_of (some (suc n)) len) (length history - lb.max) history
    ∙ ap (λ (j : ℕ). drop j history) (omega (arith, limited, length-Holds lb history h))

add-Holds :
    (lb : LogBuffer) (history : List LogEntry) (entry : LogEntry)
    → 0 < lb.max
    → Holds lb history
    → (next : LogBuffer) × (add lb entry ≡ ok next)
      × (next.max ≡ lb.max)
      × Holds next (history ++ entry ∷ [])
unfolding add
add-Holds lb history entry some_room h = elim (Bool-cases (leb lb.max (length lb.entries))) [
  | inr room ↦
      let short : length history - lb.max ≡ 0 = ground (arith, size) in
      let still : length (history ++ entry ∷ []) - lb.max ≡ 0 =
        ground (arith, size, length-append history (entry ∷ [])) in
      (
        record lb { entries = lb.entries ++ entry ∷ [] },
        rw room refl,
        refl,
        ap (λ (xs : List LogEntry). xs ++ entry ∷ []) (h ∙ ap (λ (k : ℕ). drop k history) short)
            ∙ ap (λ (k : ℕ). drop k (history ++ entry ∷ [])) (sym still),
      )
  | inl full ↦
      let long : lb.max ≤ length history = ground (arith, size) in
      let one_more : length history - lb.max + 1 ≡ length (history ++ entry ∷ []) - lb.max =
        omega (arith, length-append history (entry ∷ [])) in
      (
        record lb { entries = drop 1 lb.entries ++ entry ∷ [] },
        rw
            (
              full,
              slice-ok {E = ⊥} lb.entries 1 (length lb.entries) (ground (arith, size))
                  (omega arith),
              take-drop_rest 1 lb.entries,
            )
            refl,
        refl,
        ap (λ (xs : List LogEntry). drop 1 xs ++ entry ∷ []) h
            ∙ ap (λ (xs : List LogEntry). xs ++ entry ∷ [])
                (drop-drop 1 (length history - lb.max) history)
            ∙ sym (drop_append (length history - lb.max + 1) history (entry ∷ []) (omega arith))
            ∙ ap (λ (k : ℕ). drop k (history ++ entry ∷ [])) one_more,
      )
]
  where
    size : length lb.entries ≡ min lb.max (length history)
    size = length-Holds lb history h

pub add_all-Holds :
    (lb : LogBuffer) (history entries : List LogEntry)
    → 0 < lb.max
    → Holds lb history
    → (last : LogBuffer) × (add_all lb entries ≡ ok last)
      × (last.max ≡ lb.max)
      × Holds last (history ++ entries)
add_all-Holds lb history [] room h =
    (lb, refl, refl, h ∙ ap (last_lines lb.max) (sym (append-nil history)))
add_all-Holds lb history (entry ∷ rest) room h =
    let (next, e, same, holds) = add-Holds lb history entry room h in
    let (last, f, still, ends) =
      add_all-Holds next (history ++ entry ∷ []) rest (rw same room) holds in
    (
      last,
      rw (e, f),
      still ∙ same,
      ends ∙ ap (last_lines last.max) (append_assoc history (entry ∷ []) rest),
    )

-- A buffer with room for at least one line takes any sequence of lines without a panic, and answers for
-- a limit between 1 and its size with the last so many lines of the sequence, or all of them if they
-- are fewer; for any other limit with as many as it holds.
pub recent-add_all :
    (max : ℕ) (history : List LogEntry)
    → 0 < max
    → (last : LogBuffer) × (add_all (new_log_buffer max) history ≡ ok last)
      × ((n : ℕ) → 0 < n → n ≤ max → recent last (pos n) ≡ last_lines n history)
      × ((n : ℕ) → max < n → recent last (pos n) ≡ last_lines max history)
      × (recent last (pos 0) ≡ last_lines max history)
      × ((n : ℕ) → recent last (negsuc n) ≡ last_lines max history)
unfolding recent new_log_buffer
recent-add_all max history room =
    let (last, e, same, h) =
      add_all-Holds (new_log_buffer max) [] history room (sym (drop-nil (0 - max))) in
    (
      last,
      e,
      λ n some_lines few.
          newest last h same n n (limited n (length last.entries) some_lines) (omega arith),
      λ n many.
          newest last h same n max (limited n (length last.entries) (omega arith)) (omega arith),
      every last h same,
      λ n. every last h same,
    )
  where
    limited : (n len : ℕ) → 0 < n → limit_of (positive (pos n)) len ≡ min n len
    limited zero len h = absurd (omega arith)
    limited (suc n) len h = ground arith

    newest :
        (last : LogBuffer) (h : Holds last history)
        → last.max ≡ max
        → (n k : ℕ)
        → limit_of (positive (pos n)) (length last.entries) ≡ min n (length last.entries)
        → min n max ≡ k
        → drop
            (length last.entries - limit_of (positive (pos n)) (length last.entries))
            last.entries
          ≡ last_lines k history
    newest last h same n k e small =
        ap
          (λ (xs : List LogEntry).
            drop (length last.entries - limit_of (positive (pos n)) (length last.entries)) xs)
          h
        ∙ drop-drop (length last.entries - limit_of (positive (pos n)) (length last.entries))
            (length history - last.max) history
        ∙ ap (λ (j : ℕ). drop j history) (omega (arith, e, length-Holds last history h))

    every :
        (last : LogBuffer) (h : Holds last history)
        → last.max ≡ max
        → drop (length last.entries - length last.entries) last.entries ≡ last_lines max history
    every last h same =
        ap (λ (j : ℕ). drop j last.entries)
          (let e : length last.entries - length last.entries ≡ 0 = omega arith in e)
        ∙ h
        ∙ ap (λ (k : ℕ). last_lines k history) same
