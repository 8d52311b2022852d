-- ===== src/Panel/Requests/Guarded.antt =====
-- What a request without a valid token can do: server/internal/panel.
use ligend.Prelude.{◌≡◌, refl, sym, inl, inr, false}
use mathlib.Core.Path.{subst}
use ligend.Panel.Tokens.{authorised}
use ligend.Panel.Routes.{Handler, Served, preflight, refused, missing, handled, serve}
use ligend.Panel.Routes.Access.{Open, serve-Open}
use ligend.Panel.Requests.{
  Panel, Request, World, seconds, Reply, preflight_reply, refused_reply, missing_reply, page_shown,
  logged_in, logs_shown, handle_logs, run_handler, reply_to, handle_request,
}

-- An answer that says nothing of the configuration, the clients and their keys.
abbrev pub Harmless : Reply → Type 0
Harmless preflight_reply = Unit
Harmless refused_reply = Unit
Harmless missing_reply = Unit
Harmless (page_shown page) = Unit
Harmless (logged_in reply) = Unit
Harmless (logs_shown entries) = Unit
Harmless _ = ⊥

abbrev Untouched : Panel → Panel × Reply → Type 0
Untouched p (p', reply) = (p' ≡ p) × Harmless reply

run_handler-Untouched :
    (w : World) (p : Panel) (q : Request) (h : Handler)
    → Open q.path h
    → Untouched p (run_handler w p q h)
unfolding handle_logs
run_handler-Untouched w p q h (inl (is_login, at)) =
    subst (λ k. Untouched p (run_handler w p q k)) (sym is_login) (refl, tt)
run_handler-Untouched w p q h (inr (inl (is_logs, at))) =
    subst (λ k. Untouched p (run_handler w p q k)) (sym is_logs) (refl, tt)
run_handler-Untouched w p q h (inr (inr is_frontend)) =
    subst (λ k. Untouched p (run_handler w p q k)) (sym is_frontend) (refl, tt)

reply_to-Untouched :
    (w : World) (p : Panel) (q : Request) (v : Served)
    → ((h : Handler) → v ≡ handled h → Open q.path h)
    → Untouched p (reply_to w p q v)
reply_to-Untouched w p q preflight reaches = (refl, tt)
reply_to-Untouched w p q refused reaches = (refl, tt)
reply_to-Untouched w p q missing reaches = (refl, tt)
reply_to-Untouched w p q (handled h) reaches = run_handler-Untouched w p q h (reaches h refl)

-- A request without an accepted token leaves the panel, its database, the VPN server and their
-- configuration as they are, and its answer shows nothing of the configuration, the clients and
-- their keys: it is empty, a refusal, a page, an answer of the login or the log.
pub handle_request-Harmless :
    (w : World) (p : Panel) (q : Request)
    → authorised w.lib p.jwt_secret (seconds w) q.auth_header ≡ false
    → let (p', reply) = handle_request w p q in (p' ≡ p) × Harmless reply
unfolding handle_request
handle_request-Harmless w p q denied =
    reply_to-Untouched w p q (serve w.lib p.jwt_secret (seconds w) q.method q.path q.auth_header)
      (λ h e. serve-Open w.lib p.jwt_secret (seconds w) q.method q.auth_header q.path h denied e)
