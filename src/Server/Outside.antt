-- ===== src/Server/Outside.antt =====
-- server/internal/server/server.go: what the server's goroutines never touch.
use ligend.Prelude.{
  ℕ, ◌≡◌, refl, Bool, true, false, Bool-cases, inl, inr, List, [], ◌∷◌, Option, none, some, length,
  ◌==◌, if◌then◌else◌,
}
use ligend.Prelude.Outcome.{Outcome, ok, err, panic, Sat, Returns, ◌>>=◌}
use ligend.Prelude.Bytes.{Bytes}
use ligend.Auth.{AuthLib, Clock}
use ligend.Crypto.{Aead, Entropy}
use ligend.Protocol.Frame.{Rng}
use ligend.Tunnel.Session.{Session, Write}
use ligend.Tunnel.Manager.{SessionManager, CreateError, create_session, deref, get_session}
use ligend.Tunnel.Nat.{lookup_by_packet_dst}
use ligend.Server.{
  Server, Step, Event, put_session, find_by_number, handle_transport, dispatch_transport, created,
  start_udp_session, handle_handshake, handle_datagram,
}
use ligend.Server.Datagrams.{handle_datagram-Sat}
use ligend.Server.Messages.{cleanup_session, kick_session, send_packet, handle_tun_packet}
use ligend.Server.Startup.{start_awg_listener}
use ligend.Server.Welcome.{
  Sent, send_controls, initial_controls, prepared, with_nat_entry, settled, welcome, started,
  start_client, handle_web_socket,
}

-- The configuration, the HTTP server, and whether `Start` has returned, are the same.
abbrev pub SameOutside : Server → Server → Type 0
SameOutside s s' =
    (s'.cfg ≡ s.cfg) × (s'.http_server ≡ s.http_server) × (s'.start_returned ≡ s.start_returned)

abbrev After : {X : Type 0} → Server → Server × X → Type 0
After s (s', x) = SameOutside s s'

pub cleanup_session-SameOutside :
    (s : Server) (session : Session) → SameOutside s (cleanup_session s session)
unfolding cleanup_session
cleanup_session-SameOutside s session = (refl, refl, refl)

pub kick_session-SameOutside : (s : Server) (id : Bytes) → SameOutside s (kick_session s id).0
unfolding kick_session cleanup_session
kick_session-SameOutside s id = by_name (get_session s.sessions id)
  where
    by_session :
        (o : Option Session)
        → After {X = Bool} s
            (elim o [ none ↦ (s, false) | some session ↦ (cleanup_session s session, true) ])
    by_session none = (refl, refl, refl)
    by_session (some session) = cleanup_session-SameOutside s session

    by_name :
        (o : Option ℕ)
        → After {X = Bool} s (elim o [
          | none ↦ (s, false)
          | some r ↦ elim (deref s.sessions r) [
            | none ↦ (s, false)
            | some session ↦ (cleanup_session s session, true)
          ]
        ])
    by_name none = (refl, refl, refl)
    by_name (some r) = by_session (deref s.sessions r)

dispatch_transport-SameOutside :
    (aead : Aead) (s : Server) (bytes : Bytes) (remote now : ℕ) (listing : List ℕ) (number : ℕ)
    → SameOutside s (dispatch_transport aead s bytes remote now listing number).0
unfolding dispatch_transport handle_transport put_session
dispatch_transport-SameOutside aead s bytes remote now listing number =
    go (find_by_number s.sessions number listing)
  where
    go :
        (o : Option (ℕ × Session))
        → After {X = List Event} s (elim o [
          | none ↦ (s, [])
          | some (r, session) ↦ handle_transport aead s bytes remote now r session
        ])
    go none = (refl, refl, refl)
    go (some (r, session)) = (refl, refl, refl)

handle_handshake-SameOutside :
    (s : Server) (remote : ℕ) (id : Bytes) (entropy : Entropy) (now : ℕ)
    → SameOutside s (handle_handshake s remote id entropy now).0
unfolding handle_handshake start_udp_session put_session
handle_handshake-SameOutside s remote id entropy now =
    by_result (create_session s.sessions id entropy now)
  where
    by_session :
        (sm : SessionManager) (r : ℕ) (o : Option Session)
        → After {X = List Event} s (elim o [
          | none ↦ (record s { sessions = sm }, [])
          | some session ↦ start_udp_session (record s { sessions = sm }) remote r session
        ])
    by_session sm r none = (refl, refl, refl)
    by_session sm r (some session) = (refl, refl, refl)

    by_result :
        (x : SessionManager × Outcome CreateError ℕ)
        → SameOutside s (created s x λ s' r session. start_udp_session s' remote r session).0
    by_result (sm, err e) = (refl, refl, refl)
    by_result (sm, panic) = (refl, refl, refl)
    by_result (sm, ok r) = by_session sm r (deref sm r)

pub handle_datagram-SameOutside :
    (aead : Aead) (s : Server) (bytes : Bytes) (remote : ℕ) (listing : List ℕ) (id : Bytes)
    (entropy : Entropy) (now : ℕ)
    → Sat
        (λ (step : Step). SameOutside s step.0)
        (handle_datagram aead s bytes remote listing id entropy now)
handle_datagram-SameOutside aead s bytes remote listing id entropy now =
    handle_datagram-Sat (λ (step : Step). SameOutside s step.0) aead s bytes remote listing id
      entropy now (refl, refl, refl)
      (λ number. dispatch_transport-SameOutside aead s bytes remote now listing number)
      (handle_handshake-SameOutside s remote id entropy now)

pub handle_tun_packet-SameOutside :
    (aead : Aead) (entropy : Entropy) (rng : Rng) (s : Server) (packet : Bytes)
    → Returns (λ (step : Step). SameOutside s step.0) (handle_tun_packet aead entropy rng s packet)
unfolding handle_tun_packet send_packet put_session
handle_tun_packet-SameOutside aead entropy rng s packet = elim (Bool-cases (length packet == 0)) [
  | inl empty ↦ rw empty (refl, refl, refl)
  | inr some_bytes ↦ rw some_bytes (by_lookup (lookup_by_packet_dst s.nat_table packet))
]
  where
    by_session :
        (r : ℕ) (o : Option Session)
        → After {X = List Event} s (elim o [
          | none ↦ (s, [])
          | some session ↦ send_packet aead entropy rng s r session packet
        ])
    by_session r none = (refl, refl, refl)
    by_session r (some session) = (refl, refl, refl)

    by_found :
        (o : Option ℕ)
        → After {X = List Event} s (elim o [
          | none ↦ (s, [])
          | some r ↦ elim (deref s.sessions r) [
            | none ↦ (s, [])
            | some session ↦ send_packet aead entropy rng s r session packet
          ]
        ])
    by_found none = (refl, refl, refl)
    by_found (some r) = by_session r (deref s.sessions r)

    by_lookup :
        (m : Outcome ⊥ (Option ℕ))
        → Returns
            (λ (step : Step). SameOutside s step.0)
            (do
              found ← m
              ok (elim found [
                | none ↦ (s, [])
                | some r ↦ elim (deref s.sessions r) [
                  | none ↦ (s, [])
                  | some session ↦ send_packet aead entropy rng s r session packet
                ]
              ]))
    by_lookup (ok found) = by_found found
    by_lookup (err e) = tt
    by_lookup panic = tt

settled-SameOutside :
    (conn : ℕ) (s : Server) (r : ℕ) (sent : Sent) → SameOutside s (settled conn s r sent).0
unfolding put_session cleanup_session
settled-SameOutside conn s r (last, events, true) = (refl, refl, refl)
settled-SameOutside conn s r (last, events, false) = (refl, refl, refl)

welcome-SameOutside :
    (delivered : Write → Bool) (rng : Rng) (conn : ℕ) (s : Server) (r : ℕ) (session : Session)
    → Returns (λ (step : Step). SameOutside s step.0) (welcome delivered rng conn s r session)
unfolding welcome
welcome-SameOutside delivered rng conn s r session =
    by_sent
      (send_controls delivered rng (prepared s.cfg session conn) (initial_controls s.cfg session))
  where
    by_sent :
        (m : Outcome ⊥ Sent)
        → Returns
            (λ (step : Step). SameOutside s step.0)
            (do sent ← m; ok (settled conn (with_nat_entry s r session) r sent))
    by_sent (ok sent) = settled-SameOutside conn (with_nat_entry s r session) r sent
    by_sent (err e) = tt
    by_sent panic = tt

pub start_client-SameOutside :
    (delivered : Write → Bool) (rng : Rng) (s : Server) (conn : ℕ) (id : Bytes) (entropy : Entropy)
    (now : ℕ)
    → Returns
        (λ (step : Step). SameOutside s step.0)
        (start_client delivered rng s conn id entropy now)
unfolding start_client
start_client-SameOutside delivered rng s conn id entropy now =
    by_result (create_session s.sessions id entropy now)
  where
    by_session :
        (sm : SessionManager) (r : ℕ) (o : Option Session)
        → Returns
            (λ (step : Step). SameOutside s step.0)
            (elim o [
              | none ↦ ok (record s { sessions = sm }, [])
              | some session ↦ welcome delivered rng conn (record s { sessions = sm }) r session
            ])
    by_session sm r none = (refl, refl, refl)
    by_session sm r (some session) =
        welcome-SameOutside delivered rng conn (record s { sessions = sm }) r session

    by_result :
        (x : SessionManager × Outcome CreateError ℕ)
        → Returns (λ (step : Step). SameOutside s step.0) (started delivered rng conn s x)
    by_result (sm, err e) = (refl, refl, refl)
    by_result (sm, panic) = tt
    by_result (sm, ok r) = by_session sm r (deref sm r)

pub handle_web_socket-SameOutside :
    (lib : AuthLib) (s : Server) (clock : Clock) (request_id timestamp nonce : Bytes)
    (upgraded : Bool)
    → SameOutside s (handle_web_socket lib s clock request_id timestamp nonce upgraded).0
unfolding handle_web_socket
handle_web_socket-SameOutside lib s clock [] timestamp nonce upgraded = (refl, refl, refl)
handle_web_socket-SameOutside lib s clock (c ∷ cs) [] nonce upgraded = (refl, refl, refl)
handle_web_socket-SameOutside lib s clock (c ∷ cs) (t ∷ ts) [] upgraded = (refl, refl, refl)
handle_web_socket-SameOutside lib s clock (c ∷ cs) (t ∷ ts) (n ∷ ns) upgraded = (refl, refl, refl)

pub start_awg_listener-SameOutside :
    (s : Server) (socket : Option ℕ) → SameOutside s (start_awg_listener s socket)
unfolding start_awg_listener
start_awg_listener-SameOutside s socket = by_port (s.cfg.udp_port == 0) socket
  where
    by_port :
        (closed : Bool) (o : Option ℕ)
        → SameOutside s
            (if closed then s else elim o [ none ↦ s | some conn ↦ record s { udp_conn = conn } ])
    by_port true o = (refl, refl, refl)
    by_port false none = (refl, refl, refl)
    by_port false (some conn) = (refl, refl, refl)
