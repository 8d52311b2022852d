-- ===== src/Server/Welcome.antt =====
-- server/internal/server/server.go: a WebSocket client from its request to the read loop. The padding
-- generator, which starts between the last message and the loop, is Protocol/Generator.antt.
use ligend.Prelude.{ℕ, ◌/◌, ◌%◌, Bool, true, false, List, [], ◌∷◌, ◌++◌, Option, none, some}
use ligend.Prelude.Outcome.{Outcome, ok, err, panic, ◌>>=◌}
use ligend.Prelude.Bytes.{Bytes}
use ligend.Config.{Config, DnsServer}
use ligend.Crypto.{Entropy}
use ligend.Protocol.Frame.{
  Rng, new_control_frame, ctrl_session_init, ctrl_session_key, ctrl_ip_assign, ctrl_dns_config,
  ctrl_mtu_update,
}
use ligend.Tunnel.Packet.{to4}
use ligend.Tunnel.Pool.{set_last}
use ligend.Tunnel.Session.{Session, Write, next_seq, add_connection, send_frame}
use ligend.Tunnel.Manager.{create_session, deref}
use ligend.Tunnel.Nat.{register}
use ligend.Server.{Server, Event, writes, closes, Step, put_session}
use ligend.Tunnel.Pool.{Network}
use ligend.Tunnel.Manager.{CreateError, SessionManager}
use ligend.Auth.{AuthLib, AuthError, Clock, validate}
use ligend.Server.Messages.{cleanup_session}

abbrev pub bytes_if_some : Option Bytes → Bytes
bytes_if_some none = []
bytes_if_some (some v4) = v4

abbrev pub dns_payload : List DnsServer → Bytes
dns_payload [] = []
dns_payload (d ∷ rest) = bytes_if_some d.v4 ++ dns_payload rest

abbrev pub or_zeros : Option Bytes → Bytes
or_zeros none = 0 ∷ 0 ∷ 0 ∷ 0 ∷ []
or_zeros (some v4) = v4

-- What the function does next: it sends a control message, returns an error, or panics.
pub data Control : Type 0 where
  sends : ℕ → Bytes → Control
  gives_up : Control
  crashes : Control

-- A subnet that does not parse gives a nil network, whose address is read.
abbrev pub network_controls : Config → Bytes → Option Network → List Control
network_controls cfg ip none = crashes ∷ []
network_controls cfg ip (some network) =
    sends ctrl_ip_assign (ip ++ 24 ∷ set_last (or_zeros (to4 network.ip)) 1)
    ∷ sends ctrl_dns_config (dns_payload cfg.dns)
    ∷ sends ctrl_mtu_update ((cfg.mtu / 256 % 256) ∷ (cfg.mtu % 256) ∷ [])
    ∷ []

abbrev pub later_controls : Config → Option Bytes → List Control
later_controls cfg none = gives_up ∷ []
later_controls cfg (some ip) = network_controls cfg ip cfg.vpn_subnet.parsed

unfoldable pub initial_controls : Config → Session → List Control
initial_controls cfg session =
    sends ctrl_session_init session.id
    ∷ sends ctrl_session_key session.session_key
    ∷ later_controls cfg (to4 session.ip)

-- The session, what was written, and whether the function returned without an error.
abbrev pub Sent : Type 0
Sent = Session × List Event × Bool

abbrev pub after_write : Bool → Write → Session → Outcome ⊥ Sent → Outcome ⊥ Sent
after_write true w session later = do
  (last, events, done) ← later
  ok (last, writes w ∷ events, done)
after_write false w session later = ok (session, writes w ∷ [], false)

-- Sends the frames one by one, until a write fails; `delivered` says which writes succeed.
unfoldable pub send_controls : (Write → Bool) → Rng → Session → List Control → Outcome ⊥ Sent
send_controls delivered rng session [] = ok (session, [], true)
send_controls delivered rng session (gives_up ∷ rest) = ok (session, [], false)
send_controls delivered rng session (crashes ∷ rest) = panic
send_controls delivered rng session (sends subtype payload ∷ rest) =
    let (seq, session') = next_seq session in
    let later = send_controls delivered rng session' rest in
    elim (send_frame rng session' (new_control_frame subtype payload seq)) [
      | err e ↦ ok (session', [], false)
      | panic ↦ panic
      | ok w ↦ after_write (delivered w) w session' later
    ]

-- The session as `handleClient` prepares it.
abbrev pub prepared : Config → Session → ℕ → Session
prepared cfg session conn =
    add_connection (record session { game_mode = cfg.game_mode; awgh4 = cfg.awgh4 }) conn

-- The session stands in the NAT table before the first message is sent.
abbrev pub with_nat_entry : Server → ℕ → Session → Server
with_nat_entry s r session = record s { nat_table = register s.nat_table session.ip r }

abbrev pub settled : ℕ → Server → ℕ → Sent → Step
settled conn s r (last, events, true) = (put_session s r last, events)
settled conn s r (last, events, false) =
    (cleanup_session (put_session s r last) last, events ++ closes conn ∷ [])

-- The first part of `handleClient`, up to the read loop: a session whose handshake fails is cleaned
-- up again, and its connection closed.
unfoldable pub welcome : (Write → Bool) → Rng → ℕ → Server → ℕ → Session → Outcome ⊥ Step
unfolding send_controls
welcome delivered rng conn s r session = do
  sent ← send_controls delivered rng (prepared s.cfg session conn) (initial_controls s.cfg session)
  ok (settled conn (with_nat_entry s r session) r sent)

abbrev pub started :
    (Write → Bool) → Rng → ℕ → Server → SessionManager × Outcome CreateError ℕ → Outcome ⊥ Step
started delivered rng conn s (sm, ok r) = elim (deref sm r) [
  | none ↦ ok (record s { sessions = sm }, [])
  | some session ↦ welcome delivered rng conn (record s { sessions = sm }) r session
]
started delivered rng conn s (sm, err e) = ok (record s { sessions = sm }, closes conn ∷ [])
started delivered rng conn s (sm, panic) = panic

unfoldable pub start_client :
    (Write → Bool) → Rng → Server → ℕ → Bytes → Entropy → ℕ → Outcome ⊥ Step
start_client delivered rng s conn session_id entropy now =
    started delivered rng conn s (create_session s.sessions session_id entropy now)

-- What becomes of an HTTP request at the secret path.
pub data Reaction : Type 0 where
  serves_cover_site upgrade_fails starts_client : Reaction

abbrev pub reaction : Bool → Outcome AuthError (Unit {0}) → Reaction
reaction upgraded (err e) = serves_cover_site
reaction upgraded panic = serves_cover_site
reaction true (ok _) = starts_client
reaction false (ok _) = upgrade_fails

-- `upgraded` says whether the upgrade succeeds. The client's goroutine, which is started then, begins
-- with `start_client`.
unfoldable pub handle_web_socket :
    AuthLib → Server → Clock → Bytes → Bytes → Bytes → Bool → Server × Reaction
handle_web_socket lib s clock [] timestamp nonce upgraded = (s, serves_cover_site)
handle_web_socket lib s clock request_id [] nonce upgraded = (s, serves_cover_site)
handle_web_socket lib s clock request_id timestamp [] upgraded = (s, serves_cover_site)
handle_web_socket lib s clock request_id timestamp nonce upgraded =
    let (auth, answer) = validate lib s.auth clock request_id timestamp nonce in
    (record s { auth = auth }, reaction upgraded answer)
