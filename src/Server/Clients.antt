-- ===== src/Server/Clients.antt =====
-- server/internal/server/server.go: `clientReadLoop` on any message of a client.
use ligend.Prelude.{
  ℕ, ◌≡◌, refl, sym, inl, inr, List, [], ◌∷◌, none, some, ◌==◌, Bool-cases, Option-cases,
  if◌then◌else◌,
}
use mathlib.Core.Path.{subst}
use ligend.Prelude.Outcome.{Outcome, ok, err, panic, Sat, Sat-mono, ◌>>=◌}
use ligend.Prelude.Bytes.{Bytes}
use ligend.Prelude.Tables.{nat_keys}
use ligend.Crypto.{Lz4, Lz4Laws}
use ligend.Protocol.Frame.{
  Frame, Rng, DecodeError, ControlError, decode, new_control_frame, new_keepalive_frame,
  control_subtype, control_data, type_data, type_control, type_keepalive, type_migrate,
  ctrl_disconnect, ctrl_ping, ctrl_pong, ctrl_session_init,
}
use ligend.Protocol.Frame.Decoding.{Decodes, decode-Decodes}
use ligend.Protocol.Compression.{DecompressError, decompress_frame}
use ligend.Tunnel.Session.{Session, touch, next_seq}
use ligend.Tunnel.Manager.{deref, get_session}
use ligend.Server.{Server, Event, Step, closes, put_session}
use ligend.Server.Messages.{
  reply, handle_control_frame, handle_migrate, migrate_ack, data_events, handle_frame,
  handle_decoded, handle_message,
}
use ligend.Server.Inputs.{data_events-ok, control_subtype-ok, control_data-ok, decompress_frame-ok}
use ligend.Server.Isolation.{
  OnlySession, OnlySession-refl, OnlySession-trans, put_session-OnlySession, put_session-deref,
}

-- What one round of the read loop must do: return, with at most this session changed.
abbrev pub Serves : ℕ → Session → Server → Outcome ⊥ Step → Type 0
Serves r session s m = Sat (λ (step : Step). OnlySession r session s (step.0)) m

reply-Serves :
    (rng : Rng) (s : Server) (r : ℕ) (session : Session) (conn : ℕ) (frame : ℕ → Frame)
    → OnlySession r session s ((reply rng s r session conn frame).0)
unfolding reply next_seq
reply-Serves rng s r session conn frame = put_session-OnlySession s r session _ refl refl

module _ (rng : Rng) (s : Server) (r : ℕ) (session : Session) (conn : ℕ)
    (held : deref s.sessions r ≡ some session) where
  handle_control_frame-Serves :
      (f : Frame) → Serves r session s (handle_control_frame rng s r session conn f)
  unfolding handle_control_frame
  handle_control_frame-Serves f = by_subtype (control_subtype f) (control_subtype-ok f)
    where
      pong :
          (m : Outcome ControlError Bytes)
          → Sat (λ _. Unit {0}) m
          → Serves r session s (elim m [
            | ok ping ↦ ok (reply rng s r session conn (new_control_frame ctrl_pong ping))
            | err e ↦ ok (s, [])
            | panic ↦ panic
          ])
      pong (ok ping) h = reply-Serves rng s r session conn (new_control_frame ctrl_pong ping)
      pong (err e) h = OnlySession-refl r session s held
      pong panic h = h

      by_subtype :
          (m : Outcome ControlError ℕ)
          → Sat (λ _. Unit {0}) m
          → Serves r session s (elim m [
            | err e ↦ ok (s, [])
            | panic ↦ panic
            | ok subtype ↦
                if subtype == ctrl_disconnect
                then ok (s, closes conn ∷ [])
                else if subtype == ctrl_ping
                then elim (control_data f) [
                  | ok ping ↦ ok (reply rng s r session conn (new_control_frame ctrl_pong ping))
                  | err e ↦ ok (s, [])
                  | panic ↦ panic
                ]
                else ok (s, [])
          ])
      by_subtype (err e) h = OnlySession-refl r session s held
      by_subtype panic h = h
      by_subtype (ok subtype) h = elim (Bool-cases (subtype == ctrl_disconnect)) [
        | inl e ↦ rw e (OnlySession-refl r session s held)
        | inr e ↦ elim (Bool-cases (subtype == ctrl_ping)) [
          | inl p ↦ rw (e, p) (pong (control_data f) (control_data-ok f))
          | inr p ↦ rw (e, p) (OnlySession-refl r session s held)
        ]
      ]

  handle_migrate-Serves :
      (f : Frame) → Serves r session s (ok (handle_migrate rng s r session conn f))
  unfolding handle_migrate
  handle_migrate-Serves f = elim (Option-cases (get_session s.sessions f.payload)) [
    | inl e ↦ subst (Serves r session s) (sym (ignored e)) (OnlySession-refl r session s held)
    | inr (old, e) ↦
        subst (Serves r session s) (sym (acknowledged old e))
          (reply-Serves rng s r session conn (new_control_frame ctrl_session_init migrate_ack))
  ]
    where
      ignored :
          get_session s.sessions f.payload ≡ none
          → ◌≡◌ {A = Outcome ⊥ Step} (ok (handle_migrate rng s r session conn f)) (ok (s, []))
      ignored e = rw (handle_migrate, e) refl

      acknowledged :
          (old : ℕ)
          → get_session s.sessions f.payload ≡ some old
          → ◌≡◌ {A = Outcome ⊥ Step}
              (ok (handle_migrate rng s r session conn f))
              (ok (reply rng s r session conn (new_control_frame ctrl_session_init migrate_ack)))
      acknowledged old e = rw (handle_migrate, e) refl

  handle_frame-Serves : (f : Frame) → Serves r session s (handle_frame rng s r session conn f)
  unfolding handle_frame
  handle_frame-Serves f = elim (Bool-cases (f.type == type_data)) [
    | inl e ↦ rw e (forwards (data_events f) (data_events-ok f))
    | inr e ↦ elim (Bool-cases (f.type == type_control)) [
      | inl c ↦ rw (e, c) (handle_control_frame-Serves f)
      | inr c ↦ elim (Bool-cases (f.type == type_keepalive)) [
        | inl k ↦ rw (e, c, k) (reply-Serves rng s r session conn new_keepalive_frame)
        | inr k ↦ elim (Bool-cases (f.type == type_migrate)) [
          | inl m ↦ rw (e, c, k, m) (handle_migrate-Serves f)
          | inr m ↦ rw (e, c, k, m) (OnlySession-refl r session s held)
        ]
      ]
    ]
  ]
    where
      forwards :
          (m : Outcome ⊥ (List Event))
          → Sat (λ _. Unit {0}) m
          → Serves r session s (do events ← m; ok (s, events))
      forwards (ok events) h = OnlySession-refl r session s held
      forwards (err e) h = absurd e
      forwards panic h = h

handle_decoded-Serves :
    (z : Lz4) (rng : Rng) (s : Server) (r : ℕ) (session : Session) (conn : ℕ) (f : Frame)
    → Lz4Laws z
    → deref s.sessions r ≡ some session
    → Serves r session s (handle_decoded z rng s r session conn f)
unfolding handle_decoded
handle_decoded-Serves z rng s r session conn f laws held =
    by_frame (decompress_frame z f) (decompress_frame-ok z f laws)
  where
    by_frame :
        (m : Outcome DecompressError Frame)
        → Sat (λ _. Unit {0}) m
        → Serves r session s (elim m [
          | ok plain ↦ handle_frame rng s r session conn plain
          | err e ↦ ok (s, [])
          | panic ↦ panic
        ])
    by_frame (ok plain) h = handle_frame-Serves rng s r session conn held plain
    by_frame (err e) h = OnlySession-refl r session s held
    by_frame panic h = h

-- Whatever bytes a client sends, one round of the read loop on its session returns, without a panic,
-- and at most this session has changed then, which keeps its name and address: the names, the addresses,
-- the pool, the NAT table and every other session are the same; for any LZ4 that keeps its
-- documentation.
pub handle_message-Serves :
    (z : Lz4) (rng : Rng) (s : Server) (r : ℕ) (session : Session) (conn : ℕ) (message : Bytes)
    (now : ℕ)
    → Lz4Laws z
    → deref s.sessions r ≡ some session
    → Sat
        (λ (step : Step). OnlySession r session s (step.0))
        (handle_message z rng s r session conn message now)
unfolding handle_message touch
handle_message-Serves z rng s r session conn message now laws held =
    by_frame (decode message) (decode-Decodes message)
  where
    touched : Server
    touched = put_session s r (touch session now)

    stored : OnlySession r session s touched
    stored = put_session-OnlySession s r session (touch session now) refl refl

    there : deref touched.sessions r ≡ some (touch session now)
    there = put_session-deref s r (touch session now)

    by_frame :
        (m : Outcome DecodeError Frame)
        → Sat (Decodes message) m
        → Serves r session s (elim m [
          | ok frame ↦ handle_decoded z rng touched r (touch session now) conn frame
          | err e ↦ ok (touched, [])
          | panic ↦ panic
        ])
    by_frame (ok frame) h =
        Sat-mono (λ (step : Step). OnlySession r (touch session now) touched (step.0))
          (λ (step : Step). OnlySession r session s (step.0))
          (λ step kept.
            OnlySession-trans r session (touch session now) s touched (step.0) refl refl stored
              kept)
          (handle_decoded z rng touched r (touch session now) conn frame)
          (handle_decoded-Serves z rng touched r (touch session now) conn frame laws there)
    by_frame (err e) h = stored
    by_frame panic h = h
