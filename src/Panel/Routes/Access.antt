-- ===== src/Panel/Routes/Access.antt =====
-- What a request without a valid token can reach: server/internal/panel/panel.go.
use ligend.Prelude.{
  ℕ, ◌≡◌, refl, sym, ap, ◌∙◌, ◌⊎◌, inl, inr, Bool, true, false, Bool-cases, List, [], ◌∷◌, ◌++◌,
  Option, none, some, length, leb, All, if◌then◌else◌,
}
use mathlib.Core.Path.{subst}
use mathlib.Core.Option.{some-injective}
use ligend.Prelude.Bytes.{Bytes}
use ligend.Prelude.Tables.{bytes_eq, bytes_eq_iff}
use ligend.Prelude.Texts.{codes}
use ligend.Panel.Http.{Method}
use ligend.Panel.Tokens.{TokenLib, authorised}
use ligend.Panel.Routes.{
  Handler, login, clients, keys, logs, frontend, Route, routes, matches, longer, selected_route,
  preflight, refused, handled, guarded, is_options, serve,
}

longer-cases : (r : Route) (o : Option Route) → (longer r o ≡ r) ⊎ (o ≡ some (longer r o))
longer-cases r none = inl refl
longer-cases r (some q) = elim (Bool-cases (leb (length q.pattern_text) (length r.pattern_text))) [
  | inl wins ↦ inl (rw wins refl)
  | inr loses ↦ inr (rw loses refl)
]

-- The route that is selected stands in the table and matches the path.
selected_route-All :
    (P : Route → Type 0) (path : Bytes) (rs : List Route) (found : Route)
    → All P rs
    → selected_route rs path ≡ some found
    → P found × (matches found.pattern_text path ≡ true)
unfolding selected_route
selected_route-All P path [] found a e = absurd (cc)
selected_route-All P path (r ∷ rs) found a e = elim (Bool-cases (matches r.pattern_text path)) [
  | inr other ↦ selected_route-All P path rs found a.1 (rw other at e)
  | inl here ↦
      let e' : longer r (selected_route rs path) ≡ found = some-injective _ _ (rw here at e) in
      elim (longer-cases r (selected_route rs path)) [
        | inl it ↦
            let same : r ≡ found = sym it ∙ e' in
            (subst P same a.0, subst (λ q. matches q.pattern_text path ≡ true) same here)
        | inr rest ↦ selected_route-All P path rs found a.1 (rest ∙ (rw e' refl))
      ]
]

-- A route is protected, or it is one of the three that are not.
abbrev Known : Route → Type 0
Known r =
    (r.protected ≡ true)
    ⊎ (r ≡ record { pattern_text = codes "/api/auth/login"; protected = false; handler = login })
    ⊎ (r ≡ record { pattern_text = codes "/api/logs/stream"; protected = false; handler = logs })
    ⊎ (r ≡ record { pattern_text = codes "/"; protected = false; handler = frontend })

infixr 3 ◌▹◌
◌▹◌ : {A B : Type 0} → A → B → A × B
a ▹ b = (a, b)

routes-Known : All Known routes
routes-Known =
    inr (inl refl)
    ▹ protected
    ▹ protected
    ▹ protected
    ▹ protected
    ▹ protected
    ▹ protected
    ▹ protected
    ▹ protected
    ▹ protected
    ▹ protected
    ▹ protected
    ▹ protected
    ▹ inr (inr (inl refl))
    ▹ inr (inr (inr refl))
    ▹ tt
  where
    protected :
        {p : Bytes} {h : Handler}
        → Known (record { pattern_text = p; protected = true; handler = h })
    protected = inl refl

-- What may be reached without a token.
abbrev pub Open : Bytes → Handler → Type 0
Open path h =
    ((h ≡ login) × (path ≡ codes "/api/auth/login"))
    ⊎ ((h ≡ logs) × (path ≡ codes "/api/logs/stream"))
    ⊎ (h ≡ frontend)

exact : (text path : Bytes) → bytes_eq text path ≡ true → path ≡ text
exact text path e = sym ((bytes_eq_iff text path).0 e)

handled-injective : {h k : Handler} → handled h ≡ handled k → h ≡ k
handled-injective e = cc

-- Without a token the middleware lets the handlers through that it does not stand before.
guarded-handled :
    (r : Route) (h : Handler)
    → guarded false (some r) ≡ handled h
    → (r.protected ≡ false) × (r.handler ≡ h)
guarded-handled r h e = elim (Bool-cases r.protected) [
  | inl locked ↦ let stopped : refused ≡ handled h = rw locked at e in absurd (cc)
  | inr free ↦ (free, handled-injective (rw free at e))
]

guarded-Open :
    (path : Bytes) (r : Route) (h : Handler)
    → Known r
    → matches r.pattern_text path ≡ true
    → (r.protected ≡ false) × (r.handler ≡ h)
    → Open path h
guarded-Open path r h (inl locked) m (free, is_h) = absurd (cc)
guarded-Open path r h (inr (inl it)) m (free, is_h) = inl (
  sym is_h ∙ ap (λ (q : Route). q.handler) it,
  exact (codes "/api/auth/login") path (subst (λ q. matches q.pattern_text path ≡ true) it m),
)
guarded-Open path r h (inr (inr (inl it))) m (free, is_h) = inr (
    inl (
      sym is_h ∙ ap (λ (q : Route). q.handler) it,
      exact (codes "/api/logs/stream") path (subst (λ q. matches q.pattern_text path ≡ true) it m),
    ))
guarded-Open path r h (inr (inr (inr it))) m (free, is_h) =
    inr (inr (sym is_h ∙ ap (λ (q : Route). q.handler) it))

served-selected :
    (passes : Bool) (o : Option Route) (h : Handler)
    → guarded passes o ≡ handled h
    → (r : Route) × (o ≡ some r)
served-selected passes none h e = absurd (cc)
served-selected passes (some r) h e = (r, refl)

module _ (lib : TokenLib) (secret : Bytes) (now : ℕ) (method : Method) (header : Bytes) where
  -- A request without an accepted token reaches the login, the logs at the path of their stream, or
  -- the frontend, and no other handler.
  pub serve-Open :
      (path : Bytes) (h : Handler)
      → authorised lib secret now header ≡ false
      → serve lib secret now method path header ≡ handled h
      → Open path h
  unfolding serve
  serve-Open path h denied e = elim (Bool-cases (is_options method)) [
    | inl is_preflight ↦ let stopped : preflight ≡ handled h = rw is_preflight at e in absurd (cc)
    | inr asked ↦
        let e' : guarded false (selected_route routes path) ≡ handled h = rw (asked, denied) at e in
        let (r, found) = served-selected false (selected_route routes path) h e' in
        let (known, m) = selected_route-All Known path routes r routes-Known found in
        guarded-Open path r h known m (guarded-handled r h (rw found at e'))
  ]

  -- What stands below the paths of the clients and of the keys goes to their handlers, if the
  -- request has an accepted token, and is refused otherwise; only a preflight request is answered
  -- without one.
  pub serve-protected :
      (rest : Bytes)
      → is_options method ≡ false
      → let passes = authorised lib secret now header in
        (serve lib secret now method (codes "/api/clients/" ++ rest) header
          ≡ (if passes then handled clients else refused))
        × (serve lib secret now method (codes "/api/keys/" ++ rest) header
            ≡ (if passes then handled keys else refused))
  unfolding serve selected_route
  serve-protected rest asked = rw asked (refl, refl)
