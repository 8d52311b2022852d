-- ===== src/Server/Steps.antt =====
-- server/internal/server/server.go: each handler keeps the session manager's parts in agreement.
use ligend.Prelude.{
  ℕ, ◌≡◌, refl, sym, ap, ◌∙◌, inl, inr, Bool, true, false, ◌||◌, List, [], ◌∷◌, Option, none, some,
  length, ◌==◌, Bool-cases, Option-cases,
}
use mathlib.Core.Path.{subst}
use mathlib.Core.Option.{some-injective, none-ne-some}
use ligend.Prelude.Outcome.{Outcome, ok, err, panic, Sat}
use ligend.Prelude.Bytes.{Bytes}
use ligend.Prelude.Tables.{nat_keys, bytes_keys}
use ligend.Crypto.{Aead, Entropy}
use ligend.Protocol.Frame.{Rng}
use ligend.Tunnel.Session.{Session, touch, next_seq, send_data_to_client}
use ligend.Tunnel.Manager.{SessionManager, CreateError, create_session, deref, get_session}
use ligend.Tunnel.Manager.Invariant.{IsManager}
use ligend.Tunnel.Manager.Creation.{Creates, create_session-Creates}
use ligend.Tunnel.Manager.Removal.{remove_session-IsManager}
use ligend.Server.{
  Server, Step, put_session, find_by_number, handle_transport, dispatch_transport, handle_datagram,
  created, handle_handshake, start_udp_session,
}
use ligend.Server.Messages.{cleanup_session, kick_session, send_packet, handle_tun_packet}
use ligend.Server.Datagrams.{handle_datagram-Sat}
use ligend.Tunnel.Nat.Routing.{lookup_by_packet_dst-ok}
use ligend.Server.Isolation.{put_session-OnlySession, OnlySession-IsManager}

-- The step ends with a manager whose parts agree.
abbrev pub Keeps : Outcome ⊥ Step → Type 0
Keeps m = Sat (λ (step : Step). IsManager (step.0).sessions) m

pub put_session-IsManager :
    (s : Server) (r : ℕ) (session new : Session)
    → deref s.sessions r ≡ some session
    → new.id ≡ session.id
    → new.ip ≡ session.ip
    → IsManager s.sessions
    → IsManager (put_session s r new).sessions
put_session-IsManager s r session new held same_id same_ip v =
    OnlySession-IsManager r session s (put_session s r new) held
      (put_session-OnlySession s r session new same_id same_ip) v

pub cleanup_session-Keeps :
    (s : Server) (session : Session)
    → IsManager s.sessions
    → IsManager (cleanup_session s session).sessions
unfolding cleanup_session
cleanup_session-Keeps s session v = remove_session-IsManager s.sessions session.id v

pub kick_session-Keeps :
    (s : Server) (id : Bytes) → IsManager s.sessions → IsManager ((kick_session s id).0).sessions
unfolding kick_session
kick_session-Keeps s id v = elim (Option-cases (get_session s.sessions id)) [
  | inl gone ↦ subst (λ (x : Server × Bool). IsManager (x.0).sessions) (sym (unknown gone)) v
  | inr (r, found) ↦ elim (Option-cases (deref s.sessions r)) [
    | inl none_there ↦
        subst (λ (x : Server × Bool). IsManager (x.0).sessions) (sym (dangling r found none_there))
          v
    | inr (session, held) ↦
        subst (λ (x : Server × Bool). IsManager (x.0).sessions) (sym (kicked r session found held))
          (cleanup_session-Keeps s session v)
  ]
]
  where
    unknown : get_session s.sessions id ≡ none → kick_session s id ≡ (s, false)
    unknown e = rw (kick_session, e) refl

    dangling :
        (r : ℕ)
        → get_session s.sessions id ≡ some r
        → deref s.sessions r ≡ none
        → kick_session s id ≡ (s, false)
    dangling r e f = rw (kick_session, e, f) refl

    kicked :
        (r : ℕ) (session : Session)
        → get_session s.sessions id ≡ some r
        → deref s.sessions r ≡ some session
        → kick_session s id ≡ (cleanup_session s session, true)
    kicked r session e f = rw (kick_session, e, f) refl

pub find_by_number-deref :
    (sm : SessionManager) (number : ℕ) (listing : List ℕ) (r : ℕ) (session : Session)
    → find_by_number sm number listing ≡ some (r, session)
    → deref sm r ≡ some session
unfolding find_by_number
find_by_number-deref sm number [] r session e = absurd (none-ne-some _ e)
find_by_number-deref sm number (q ∷ rest) r session e = elim (Option-cases (deref sm q)) [
  | inl gone ↦ find_by_number-deref sm number rest r session (rw (find_by_number, gone) at e)
  | inr (item, held) ↦ elim (Bool-cases (item.numeric_id == number || item.is_udp)) [
    | inr other ↦
        find_by_number-deref sm number rest r session (rw (find_by_number, held, other) at e)
    | inl hit ↦
        let same : ◌≡◌ {A = ℕ × Session} (q, item) (r, session) =
          some-injective _ _ (rw (find_by_number, held, hit) at e) in
        ap (λ (x : ℕ × Session). deref sm x.0) (sym same)
        ∙ held
        ∙ ap (λ (x : ℕ × Session). some (x.1)) same
  ]
]

dispatch_transport-Keeps :
    (aead : Aead) (s : Server) (bytes : Bytes) (remote now : ℕ) (listing : List ℕ) (number : ℕ)
    → IsManager s.sessions
    → IsManager ((dispatch_transport aead s bytes remote now listing number).0).sessions
unfolding dispatch_transport
dispatch_transport-Keeps aead s bytes remote now listing number v =
    elim (Option-cases (find_by_number s.sessions number listing)) [
      | inl e ↦ subst P (sym (unknown e)) v
      | inr ((r, session), e) ↦ subst P (sym (found r session e)) (served r session e)
    ]
  where
    P : Step → Type 0
    P step = IsManager (step.0).sessions

    unknown :
        find_by_number s.sessions number listing ≡ none
        → dispatch_transport aead s bytes remote now listing number ≡ (s, [])
    unknown e = rw (dispatch_transport, e) refl

    found :
        (r : ℕ) (session : Session)
        → find_by_number s.sessions number listing ≡ some (r, session)
        → dispatch_transport aead s bytes remote now listing number
          ≡ handle_transport aead s bytes remote now r session
    found r session e = rw (dispatch_transport, e) refl

    served :
        (r : ℕ) (session : Session)
        → find_by_number s.sessions number listing ≡ some (r, session)
        → IsManager ((handle_transport aead s bytes remote now r session).0).sessions
    served r session e =
        unfold handle_transport in
        put_session-IsManager s r session
          (record (touch session now) { udp_addr = some remote; udp_conn = some s.udp_conn })
          (find_by_number-deref s.sessions number listing r session e) (unfold touch in refl)
          (unfold touch in refl) v

-- A session made by the manager is started, whatever comes of it.
module _ (s : Server) (id : Bytes) (entropy : Entropy) (now : ℕ) (v : IsManager s.sessions)
    (new : get_session s.sessions id ≡ none) where
  made : Creates s.sessions id (create_session s.sessions id entropy now)
  made = (create_session-Creates s.sessions id entropy now v (unfold get_session in new)).0

  handle_handshake-Keeps :
      (remote : ℕ) → IsManager ((handle_handshake s remote id entropy now).0).sessions
  unfolding handle_handshake
  handle_handshake-Keeps remote = go (create_session s.sessions id entropy now) made.valid
    where
      go :
          (x : SessionManager × Outcome CreateError ℕ)
          → IsManager x.0
          → IsManager
              ((created s x λ s' r session. start_udp_session s' remote r session).0).sessions
      go (sm, err e) w = w
      go (sm, panic) w = w
      go (sm, ok r) w = elim (Option-cases (deref sm r)) [
        | inl e ↦ subst P (sym (dangling e)) w
        | inr (session, e) ↦ subst P (sym (starts session e)) (
            unfold start_udp_session in
            put_session-IsManager (record s { sessions = sm }) r session _ e refl refl w)
      ]
        where
          P : Step → Type 0
          P step = IsManager (step.0).sessions

          dangling :
              deref sm r ≡ none
              → created s (sm, ok r) (λ s' q session. start_udp_session s' remote q session)
                ≡ (record s { sessions = sm }, [])
          dangling e = rw (created, e) refl

          starts :
              (session : Session)
              → deref sm r ≡ some session
              → created s (sm, ok r) (λ s' q session. start_udp_session s' remote q session)
                ≡ start_udp_session (record s { sessions = sm }) remote r session
          starts session e = rw (created, e) refl

-- A datagram keeps the parts in agreement, where a handshake draws a name that is not taken.
pub handle_datagram-Keeps :
    (aead : Aead) (s : Server) (bytes : Bytes) (remote : ℕ) (listing : List ℕ) (id : Bytes)
    (entropy : Entropy) (now : ℕ)
    → IsManager s.sessions
    → get_session s.sessions id ≡ none
    → Keeps (handle_datagram aead s bytes remote listing id entropy now)
handle_datagram-Keeps aead s bytes remote listing id entropy now v new =
    handle_datagram-Sat _ aead s bytes remote listing id entropy now v
      (λ number. dispatch_transport-Keeps aead s bytes remote now listing number v)
      (handle_handshake-Keeps s id entropy now v new remote)

pub handle_tun_packet-Keeps :
    (aead : Aead) (entropy : Entropy) (rng : Rng) (s : Server) (packet : Bytes)
    → IsManager s.sessions
    → Keeps (handle_tun_packet aead entropy rng s packet)
unfolding handle_tun_packet
handle_tun_packet-Keeps aead entropy rng s packet v = elim (Bool-cases (length packet == 0)) [
  | inl empty ↦ rw empty v
  | inr some_bytes ↦
      let (found, e) = lookup_by_packet_dst-ok s.nat_table packet in
      rw (some_bytes, e) (by_found found)
]
  where
    by_found :
        (found : Option ℕ)
        → Keeps (
            ok (elim found [
              | none ↦ (s, [])
              | some r ↦ elim (deref s.sessions r) [
                | none ↦ (s, [])
                | some session ↦ send_packet aead entropy rng s r session packet
              ]
            ]))
    by_found none = v
    by_found (some r) = elim (Option-cases (deref s.sessions r)) [
      | inl e ↦ subst Keeps (sym (dangling e)) v
      | inr (session, e) ↦ subst Keeps (sym (sent session e)) (send_packet-Keeps session e)
    ]
      where
        dangling :
            deref s.sessions r ≡ none
            → ◌≡◌ {A = Outcome ⊥ Step}
                (ok (elim (deref s.sessions r) [
                  | none ↦ (s, [])
                  | some session ↦ send_packet aead entropy rng s r session packet
                ]))
                (ok (s, []))
        dangling e = rw e refl

        sent :
            (session : Session)
            → deref s.sessions r ≡ some session
            → ◌≡◌ {A = Outcome ⊥ Step}
                (ok (elim (deref s.sessions r) [
                  | none ↦ (s, [])
                  | some session ↦ send_packet aead entropy rng s r session packet
                ]))
                (ok (send_packet aead entropy rng s r session packet))
        sent session e = rw e refl

        send_packet-Keeps :
            (session : Session)
            → deref s.sessions r ≡ some session
            → Keeps (ok (send_packet aead entropy rng s r session packet))
        send_packet-Keeps session e =
            unfold send_packet send_data_to_client next_seq in
            put_session-IsManager s r session _ e refl refl v
