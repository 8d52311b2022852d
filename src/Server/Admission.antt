-- ===== src/Server/Admission.antt =====
-- server/internal/server/server.go: what the start of a client does to the server.
use ligend.Prelude.{
  ℕ, ◌≡◌, refl, sym, inl, inr, Bool, true, false, List, [], ◌∷◌, none, some, Option-cases,
}
use mathlib.Core.Path.{subst}
use ligend.Prelude.Outcome.{Outcome, ok, err, panic, Returns, ◌>>=◌}
use ligend.Prelude.Bytes.{Bytes}
use ligend.Crypto.{Entropy}
use ligend.Protocol.Frame.{Rng, new_control_frame}
use ligend.Tunnel.Session.{Session, Write, next_seq, send_frame, SendError, add_connection}
use ligend.Tunnel.Manager.{SessionManager, CreateError, create_session, deref, get_session}
use ligend.Tunnel.Manager.Invariant.{IsManager}
use ligend.Tunnel.Manager.Creation.{create_session-Creates}
use ligend.Server.{Server, Step}
use ligend.Server.Steps.{cleanup_session-Keeps, put_session-IsManager}
use ligend.Server.Welcome.{
  Control, sends, gives_up, crashes, Sent, after_write, send_controls, initial_controls, prepared,
  with_nat_entry, settled, welcome, started, start_client,
}

-- The session has the name and the address of the other.
abbrev pub SameIdentity : Session → Session → Type 0
SameIdentity session new = (new.id ≡ session.id) × (new.ip ≡ session.ip)

abbrev SentBy : Session → Sent → Type 0
SentBy session sent = SameIdentity session (sent.0)

after_write-SentBy :
    (session next : Session) (b : Bool) (w : Write) (later : Outcome ⊥ Sent)
    → SameIdentity session next
    → Returns (SentBy session) later
    → Returns (SentBy session) (after_write b w next later)
after_write-SentBy session next false w later same h = same
after_write-SentBy session next true w (ok sent) same h = h
after_write-SentBy session next true w (err e) same h = tt
after_write-SentBy session next true w panic same h = tt

send_controls-SentBy :
    (delivered : Write → Bool) (rng : Rng) (session first : Session) (controls : List Control)
    → SameIdentity first session
    → Returns (SentBy first) (send_controls delivered rng session controls)
unfolding send_controls next_seq
send_controls-SentBy delivered rng session first [] same = same
send_controls-SentBy delivered rng session first (gives_up ∷ rest) same = same
send_controls-SentBy delivered rng session first (crashes ∷ rest) same = tt
send_controls-SentBy delivered rng session first (sends subtype payload ∷ rest) same =
    by_frame (send_frame rng next (new_control_frame subtype payload (next_seq session).0))
      (send_controls-SentBy delivered rng next first rest same)
  where
    next : Session
    next = (next_seq session).1

    by_frame :
        (m : Outcome SendError Write)
        → Returns (SentBy first) (send_controls delivered rng next rest)
        → Returns (SentBy first) (elim m [
          | err e ↦ ok (next, [], false)
          | panic ↦ panic
          | ok w ↦ after_write (delivered w) w next (send_controls delivered rng next rest)
        ])
    by_frame (err e) later = same
    by_frame panic later = tt
    by_frame (ok w) later =
        after_write-SentBy first next (delivered w) w (send_controls delivered rng next rest) same
          later

abbrev Agrees : Step → Type 0
Agrees step = IsManager (step.0).sessions

settled-Agrees :
    (conn : ℕ) (s : Server) (r : ℕ) (session : Session) (sent : Sent)
    → deref s.sessions r ≡ some session
    → SentBy session sent
    → IsManager s.sessions
    → Agrees (settled conn s r sent)
settled-Agrees conn s r session (last, events, true) held (same_id, same_ip) v =
    put_session-IsManager s r session last held same_id same_ip v
settled-Agrees conn s r session (last, events, false) held (same_id, same_ip) v =
    cleanup_session-Keeps _ last (put_session-IsManager s r session last held same_id same_ip v)

welcome-Agrees :
    (delivered : Write → Bool) (rng : Rng) (conn : ℕ) (s : Server) (r : ℕ) (session : Session)
    → deref s.sessions r ≡ some session
    → IsManager s.sessions
    → Returns Agrees (welcome delivered rng conn s r session)
unfolding welcome
welcome-Agrees delivered rng conn s r session held v =
    by_sent
      (send_controls delivered rng (prepared s.cfg session conn) (initial_controls s.cfg session))
      (send_controls-SentBy delivered rng (prepared s.cfg session conn) session
        (initial_controls s.cfg session) (unfold add_connection in (refl, refl)))
  where
    by_sent :
        (m : Outcome ⊥ Sent)
        → Returns (SentBy session) m
        → Returns Agrees (do sent ← m; ok (settled conn (with_nat_entry s r session) r sent))
    by_sent (ok sent) same =
        settled-Agrees conn (with_nat_entry s r session) r session sent held same v
    by_sent (err e) same = tt
    by_sent panic same = tt

-- A client that starts keeps the parts in agreement, where the name that is drawn is not taken.
pub start_client-Agrees :
    (delivered : Write → Bool) (rng : Rng) (s : Server) (conn : ℕ) (id : Bytes) (entropy : Entropy)
    (now : ℕ)
    → IsManager s.sessions
    → get_session s.sessions id ≡ none
    → Returns
        (λ (step : Step). IsManager (step.0).sessions)
        (start_client delivered rng s conn id entropy now)
unfolding start_client get_session
start_client-Agrees delivered rng s conn id entropy now v new =
    by_result (create_session s.sessions id entropy now)
      (create_session-Creates s.sessions id entropy now v new).0.valid
  where
    by_result :
        (x : SessionManager × Outcome CreateError ℕ)
        → IsManager x.0
        → Returns Agrees (started delivered rng conn s x)
    by_result (sm, err e) w = w
    by_result (sm, panic) w = tt
    by_result (sm, ok r) w = elim (Option-cases (deref sm r)) [
      | inl e ↦ subst (Returns Agrees) (sym (dangling e)) w
      | inr (session, e) ↦
          subst (Returns Agrees) (sym (welcomed session e))
            (welcome-Agrees delivered rng conn (record s { sessions = sm }) r session e w)
    ]
      where
        dangling :
            deref sm r ≡ none
            → started delivered rng conn s (sm, ok r) ≡ ok (record s { sessions = sm }, [])
        dangling e = rw (started, e) refl

        welcomed :
            (session : Session)
            → deref sm r ≡ some session
            → started delivered rng conn s (sm, ok r)
              ≡ welcome delivered rng conn (record s { sessions = sm }) r session
        welcomed session e = rw (started, e) refl
