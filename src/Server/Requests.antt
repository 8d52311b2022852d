-- ===== src/Server/Requests.antt =====
-- server/internal/server/server.go: which requests start a client, and what a client is sent first.
use mathlib.Core.List.{flatten}
use ligend.Config.{Config, DnsServer}
use ligend.Tunnel.Pool.{Network}
use ligend.Tunnel.Pool.Subnet.{host}
use ligend.Prelude.{
  ap, inl, inr, ltb, Option-cases, take-drop_rest, ◌/◌, ◌%◌, ◌++◌, ℕ, ◌<◌, ◌≡◌, ◌≢◌, ◌↔◌, refl,
  Bool, true, false, List, [], ◌∷◌, none, some, length, arith,
}
use ligend.Prelude.Outcome.{Outcome, ok, err, panic, slice-ok}
use ligend.Prelude.Bytes.{Bytes}
use ligend.Auth.{AuthLib, AuthError, Clock, validate}
use ligend.Auth.Validation.{Accepted, validate-Accepted}
use ligend.Protocol.Frame.{
  Frame, Rng, encode, decode, new_control_frame, ControlError, control_subtype, control_data,
}
use ligend.Protocol.Frame.RoundTrip.{IsFrame, decode-encode}
use ligend.Tunnel.Packet.{to4}
use ligend.Tunnel.Session.{
  Session, Write, ws_write, bump_seq, next_seq, primary_conn, send_frame, add_connection,
}
use ligend.Tunnel.Nat.{register}
use ligend.Server.{Server, Event, writes, put_session}
use ligend.Server.Welcome.{
  Control, sends, gives_up, crashes, dns_payload, send_controls, initial_controls, prepared,
  welcome, starts_client, reaction, handle_web_socket,
}

reaction_iff :
    (upgraded : Bool) (answer : Outcome AuthError (Unit {0}))
    → (reaction upgraded answer ≡ starts_client) ↔ ((answer ≡ ok tt) × (upgraded ≡ true))
reaction_iff true (ok _) = (λ e. (refl, refl), λ h. refl)
reaction_iff false (ok _) = (λ e. absurd (cc), λ h. absurd (cc (h.1)))
reaction_iff upgraded (err e) = (λ e. absurd (cc), λ h. absurd (cc (h.0)))
reaction_iff upgraded panic = (λ e. absurd (cc), λ h. absurd (cc (h.0)))

-- A client is started exactly for a request that has the three headers, whose token is accepted, and
-- whose upgrade succeeds; any other request is answered by the cover site or ends there. Sessions and
-- addresses stay as they are.
pub handle_web_socket-Accepted :
    (lib : AuthLib) (s : Server) (clock : Clock) (request_id timestamp nonce : Bytes)
    (upgraded : Bool)
    → (((handle_web_socket lib s clock request_id timestamp nonce upgraded).1 ≡ starts_client) ↔ (
        (request_id ≢ [])
        × (timestamp ≢ [])
        × (nonce ≢ [])
        × Accepted lib s.auth clock request_id timestamp nonce
        × (upgraded ≡ true)))
      × ((handle_web_socket lib s clock request_id timestamp nonce upgraded).0.sessions
          ≡ s.sessions)
      × ((handle_web_socket lib s clock request_id timestamp nonce upgraded).0.nat_table
          ≡ s.nat_table)
unfolding handle_web_socket
handle_web_socket-Accepted lib s clock [] t n up =
    ((λ e. absurd (cc), λ h. absurd (h.0 refl)), refl, refl)
handle_web_socket-Accepted lib s clock (x ∷ xs) [] n up =
    ((λ e. absurd (cc), λ h. absurd (h.1 refl)), refl, refl)
handle_web_socket-Accepted lib s clock (x ∷ xs) (y ∷ ys) [] up =
    ((λ e. absurd (cc), λ h. absurd (h.2 refl)), refl, refl)
handle_web_socket-Accepted lib s clock (x ∷ xs) (y ∷ ys) (z ∷ zs) up =
    let answer = (validate lib s.auth clock (x ∷ xs) (y ∷ ys) (z ∷ zs)).1 in
    let accepted = (validate-Accepted lib s.auth clock (x ∷ xs) (y ∷ ys) (z ∷ zs)).0 in
    (
      (
        λ e.
            let (fine, yes_up) = (reaction_iff up answer).0 e in
            (λ f. cc, λ f. cc, λ f. cc, accepted.0 fine, yes_up),
        λ h. (reaction_iff up answer).1 (accepted.1 (h.3), h.4),
      ),
      refl,
      refl,
    )

-- The client reads a control message with this subtype, content and number.
pub record Reads (wire : Bytes) (subtype : ℕ) (content : Bytes) (seq : ℕ) : Type 0 where
  pub frame : Frame
  pub decodes : decode wire ≡ ok frame
  pub has_subtype : control_subtype frame ≡ ok subtype
  pub has_content : control_data frame ≡ ok content
  pub numbered : frame.sequence ≡ seq

-- Each event is a frame to the connection, as which the client reads the control message with the next
-- number.
abbrev pub Delivered : ℕ → ℕ → List Control → List Event → Type 0
Delivered conn seq [] [] = Unit
Delivered conn seq (sends subtype content ∷ rest) (writes (ws_write c wire) ∷ events) =
    (c ≡ conn)
    × Reads wire subtype content (bump_seq seq)
    × Delivered conn (bump_seq seq) rest events
Delivered conn seq _ _ = ⊥

-- Control messages that fit a frame, and no failure among them.
abbrev pub AllFit : List Control → Type 0
AllFit [] = Unit
AllFit (sends subtype payload ∷ rest) = (length payload < 65535) × AllFit rest
AllFit (gives_up ∷ rest) = ⊥
AllFit (crashes ∷ rest) = ⊥

-- The session after so many messages.
abbrev pub counted : Session → List Control → Session
counted session [] = session
counted session (c ∷ cs) = counted ((next_seq session).1) cs

control_IsFrame :
    (subtype : ℕ) (payload : Bytes) (seq : ℕ)
    → IsFrame (new_control_frame subtype payload (bump_seq seq))
unfolding new_control_frame
control_IsFrame subtype payload seq = record {
  is_version = refl;
  nibble = omega arith;
  byte = omega arith;
  word = omega arith;
}

control_data_lem :
    (subtype : ℕ) (payload : Bytes) (seq : ℕ)
    → control_data (new_control_frame subtype payload seq) ≡ ok payload
unfolding control_data new_control_frame
control_data_lem subtype [] seq = refl
control_data_lem subtype (b ∷ bs) seq =
    let long : ltb (length (subtype ∷ b ∷ bs)) 2 ≡ false = ground arith in
    rw
      (
        long,
        slice-ok {E = ControlError} (subtype ∷ b ∷ bs) 1 (length (subtype ∷ b ∷ bs)) (omega arith)
            (omega arith),
        take-drop_rest 1 (subtype ∷ b ∷ bs),
      )
      refl

new_control_frame-Reads :
    (rng : Rng) (subtype : ℕ) (payload : Bytes) (seq : ℕ)
    → rng.roll < 128
    → length payload < 65535
    → Reads
        (encode rng (new_control_frame subtype payload (bump_seq seq)))
        subtype
        payload
        (bump_seq seq)
unfolding new_control_frame control_subtype
new_control_frame-Reads rng subtype payload seq rolled fit = record {
  frame = new_control_frame subtype payload (bump_seq seq);
  decodes =
      (decode-encode rng (new_control_frame subtype payload (bump_seq seq))
          (control_IsFrame subtype payload seq) rolled).1
        (omega arith);
  has_subtype =
      (let some_bytes : ltb (length (subtype ∷ payload)) 1 ≡ false = ground arith in
        rw some_bytes refl);
  has_content = control_data_lem subtype payload (bump_seq seq);
  numbered = refl;
}

abbrev everything : Write → Bool
everything w = true

send_controls-Delivered :
    (rng : Rng) (session : Session) (conn : ℕ) (controls : List Control)
    → primary_conn session ≡ some conn
    → rng.roll < 128
    → AllFit controls
    → (events : List Event) × (send_controls everything rng session controls
        ≡ ok (counted session controls, events, true))
      × Delivered conn session.sequence controls events
unfolding send_controls send_frame next_seq primary_conn
send_controls-Delivered rng session conn [] primary rolled fit = ([], refl, tt)
send_controls-Delivered rng session conn (gives_up ∷ rest) primary rolled fit = absurd fit
send_controls-Delivered rng session conn (crashes ∷ rest) primary rolled fit = absurd fit
send_controls-Delivered rng session conn (sends subtype payload ∷ rest) primary rolled fit =
    let frame = new_control_frame subtype payload (bump_seq session.sequence) in
    let next = (next_seq session).1 in
    let still : primary_conn next ≡ some conn = primary in
    let (events, e, d) = send_controls-Delivered rng next conn rest still rolled fit.1 in
    (
      writes (ws_write conn (encode rng frame)) ∷ events,
      rw (send_controls, sent still, e) refl,
      (refl, new_control_frame-Reads rng subtype payload session.sequence rolled fit.0, d),
    )
  where
    sent :
        primary_conn ((next_seq session).1) ≡ some conn
        → send_frame rng
            ((next_seq session).1)
            (new_control_frame subtype payload ((next_seq session).0))
          ≡ ok (
              ws_write conn (encode rng (new_control_frame subtype payload ((next_seq session).0))))
    sent p = rw (send_frame, p) refl

-- The four-byte addresses among the DNS servers, in their order.
abbrev pub v4_addresses : List DnsServer → List Bytes
v4_addresses [] = []
v4_addresses (d ∷ rest) = elim d.v4 [ none ↦ v4_addresses rest | some v4 ↦ v4 ∷ v4_addresses rest ]

dns_payload_lem : (ds : List DnsServer) → dns_payload ds ≡ flatten (v4_addresses ds)
unfolding flatten
dns_payload_lem [] = refl
dns_payload_lem (d ∷ rest) = elim (Option-cases d.v4) [
  | inl e ↦ rw e (dns_payload_lem rest)
  | inr (v4, e) ↦ rw e (ap (λ (xs : Bytes). v4 ++ xs) (dns_payload_lem rest))
]

-- What a client must be told, with the numbers of the subtypes: the session's name (1), its key (6),
-- its address with a prefix of 24 bits and the gateway, whose last byte is 1 (2), the DNS servers (3)
-- and the MTU in two bytes, the upper first (4).
abbrev pub announced : Session → Config → Bytes → ℕ → ℕ → ℕ → List Control
announced session cfg v4 a b c =
    sends 1 session.id
    ∷ sends 6 session.session_key
    ∷ sends 2 (v4 ++ 24 ∷ a ∷ b ∷ c ∷ 1 ∷ [])
    ∷ sends 3 (flatten (v4_addresses cfg.dns))
    ∷ sends 4 ((cfg.mtu / 256 % 256) ∷ (cfg.mtu % 256) ∷ [])
    ∷ []

initial_controls-announced :
    (cfg : Config) (session : Session) (v4 : Bytes) (network : Network) (a b c d : ℕ)
    → to4 session.ip ≡ some v4
    → cfg.vpn_subnet.parsed ≡ some network
    → network.ip ≡ host a b c d
    → initial_controls cfg session ≡ announced session cfg v4 a b c
unfolding initial_controls
initial_controls-announced cfg session v4 network a b c d is_v4 parsed subnet =
    rw (is_v4, parsed, subnet, host_to4, dns_payload_lem cfg.dns) refl
  where
    host_to4 : to4 (host a b c d) ≡ some (host a b c d)
    host_to4 = unfold to4 in refl

-- A client whose session has an IPv4 address and no connection yet, on a server with an IPv4 subnet, is
-- sent, if all writes succeed, exactly five frames to its connection, with the numbers that follow the
-- session's. It reads from them, in this order, control messages with the session's name (1), its key
-- (6), its address with the prefix 24 and the subnet's first three bytes and 1 as the gateway (2), the
-- IPv4 addresses among the DNS servers (3), and the MTU modulo 2^16 in two bytes (4). The session is
-- reached under its address then. The name, the key and the DNS servers must fit a frame.
pub welcome-Delivered :
    (rng : Rng) (conn : ℕ) (s : Server) (r : ℕ) (session : Session) (network : Network) (v4 : Bytes)
    (a b c d : ℕ)
    → session.connections ≡ []
    → rng.roll < 128
    → to4 session.ip ≡ some v4
    → s.cfg.vpn_subnet.parsed ≡ some network
    → network.ip ≡ host a b c d
    → AllFit (announced session s.cfg v4 a b c)
    → (events : List Event) × (last : Session) × (welcome (λ w. true) rng conn s r session
        ≡ ok (
          put_session (record s { nat_table = register s.nat_table session.ip r }) r last,
          events,
        ))
      × Delivered conn session.sequence (announced session s.cfg v4 a b c) events
unfolding welcome send_frame next_seq primary_conn add_connection
welcome-Delivered rng conn s r session network v4 a b c d fresh rolled is_v4 parsed subnet fit =
    let told = announced session s.cfg v4 a b c in
    let (events, e, delivered) =
      send_controls-Delivered rng (prepared s.cfg session conn) conn told (rw fresh refl) rolled
        fit in
    (
      events,
      counted (prepared s.cfg session conn) told,
      rw (initial_controls-announced s.cfg session v4 network a b c d is_v4 parsed subnet, e) refl,
      delivered,
    )

-- On a server whose subnet does not parse, every client with an IPv4 address to which the first two
-- messages are delivered makes the server panic.
pub welcome-panic :
    (rng : Rng) (conn : ℕ) (s : Server) (r : ℕ) (session : Session) (v4 : Bytes)
    → s.cfg.vpn_subnet.parsed ≡ none
    → session.connections ≡ []
    → to4 session.ip ≡ some v4
    → welcome (λ w. true) rng conn s r session ≡ panic
unfolding welcome send_frame next_seq primary_conn add_connection send_controls initial_controls
welcome-panic rng conn s r session v4 unparsed fresh is_v4 = rw (is_v4, unparsed, fresh) refl
