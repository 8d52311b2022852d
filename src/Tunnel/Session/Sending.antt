-- ===== src/Tunnel/Session/Sending.antt =====
-- server/internal/tunnel/session.go: what the peer reads of a packet that `SendDataToClient` sends.
use ligend.Prelude.{
  ℕ, ◌/◌, ◌≤◌, ◌<◌, ◌≡◌, refl, inl, inr, Bool, true, false, ◌||◌, some, length, ltb, ltb→le, ◌==◌,
  Bool-cases, arith,
}
use ligend.Prelude.Outcome.{ok, at-ok}
use ligend.Prelude.Bytes.{Bytes}
use ligend.Crypto.{Aead, AeadLaws, key_size}
use ligend.Protocol.Frame.{Frame, Rng, decode, encode, new_data_frame, type_data, protocol_version}
use ligend.Protocol.Frame.RoundTrip.{IsFrame, decode-encode}
use ligend.Protocol.Awg.{decode_awg_data_packet}
use ligend.Protocol.Awg.RoundTrip.{decode-encode_awg}
use ligend.Tunnel.Session.{
  Session, ws_write, udp_write, SendError, is_game_packet, data_flags, bump_seq, next_seq,
  primary_conn, send_frame, send_over_websocket, send_data_to_client,
}

is_game_packet-ok : (packet : Bytes) → (b : Bool) × (is_game_packet packet ≡ ok b)
unfolding is_game_packet
is_game_packet-ok packet = elim (Bool-cases (ltb (length packet) 20)) [
  | inl short ↦ (false, rw short refl)
  | inr long ↦
      let room : 20 ≤ length packet = ltb→le (length packet) 20 long in
      let (first, e) = at-ok {E = SendError} packet 0 (omega arith) in
      let (proto, f) = at-ok {E = SendError} packet 9 (omega arith) in
      elim (Bool-cases (first / 16 == 4)) [
        | inl v4 ↦ (proto == 17 || proto == 1, rw (long, e, v4, f) refl)
        | inr other ↦ (false, rw (long, e, other) refl)
      ]
]

data_flags_byte :
    (game_mode is_game : Bool) (sequence : ℕ) → data_flags game_mode is_game sequence < 256
unfolding data_flags
data_flags_byte true is_game sequence = omega arith
data_flags_byte false true sequence = omega arith
data_flags_byte false false sequence = ground arith

-- The data frame that carries the packet.
abbrev pub carried : Session → Bytes → Bool → Frame
carried s packet is_game = record {
  version = protocol_version;
  type = type_data;
  flags = data_flags s.game_mode is_game (bump_seq s.sequence);
  sequence = bump_seq s.sequence;
  payload = packet;
}

-- For a session that is not on UDP, a packet shorter than 2^16 bytes goes to the primary connection,
-- and the bytes written decode to a DATA frame with that packet and the session's next number, its
-- flags set by the game mode, by whether the packet is a game packet and by the session's counter; for
-- every draw of `rand.Intn(128)`.
pub send_data_to_client-websocket :
    (aead : Aead) (noise : ℕ → ℕ) (rng : Rng) (s : Session) (packet : Bytes) (conn : ℕ)
    → s.is_udp ≡ false
    → primary_conn s ≡ some conn
    → length packet < 65536
    → rng.roll < 128
    → (wire : Bytes) × (is_game : Bool) × (send_data_to_client aead (some noise) rng s packet
        ≡ ((next_seq s).1, ok (ws_write conn wire)))
      × (is_game_packet packet ≡ ok is_game)
      × (decode wire ≡ ok (carried s packet is_game))
unfolding send_data_to_client send_over_websocket send_frame next_seq new_data_frame primary_conn
send_data_to_client-websocket aead noise rng s packet conn ws primary short rolled =
    let (is_game, game) = is_game_packet-ok packet in
    let frame : IsFrame (carried s packet is_game) = record {
      is_version = refl;
      nibble = omega arith;
      byte = data_flags_byte s.game_mode is_game (bump_seq s.sequence);
      word = omega arith;
    } in
    (
      encode rng (carried s packet is_game),
      is_game,
      rw (ws, game, send_frame, primary) refl,
      game,
      (decode-encode rng (carried s packet is_game) frame rolled).1 short,
    )

-- For a session on UDP with a return address, a packet goes to that address, and the datagram decodes
-- under the session's key and header to its number, its next sequence number and the packet.
pub send_data_to_client-udp :
    (aead : Aead) (noise : ℕ → ℕ) (rng : Rng) (s : Session) (packet : Bytes) (addr conn : ℕ)
    → AeadLaws aead
    → s.is_udp ≡ true
    → s.udp_addr ≡ some addr
    → s.udp_conn ≡ some conn
    → length s.session_key ≡ key_size
    → s.awgh4 < 4294967296
    → s.numeric_id < 18446744073709551616
    → (wire : Bytes) × (send_data_to_client aead (some noise) rng s packet
        ≡ ((next_seq s).1, ok (udp_write conn addr wire)))
      × (decode_awg_data_packet aead s.awgh4 s.session_key wire
          ≡ ok (s.numeric_id, bump_seq s.sequence, packet))
unfolding send_data_to_client next_seq
send_data_to_client-udp aead noise rng s packet addr conn laws udp to via sized header number =
    let (wire, sent, read) =
      decode-encode_awg aead noise s.awgh4 s.numeric_id (bump_seq s.sequence) s.session_key packet
        laws sized header number (omega arith) in
    (wire, rw (udp, to, via, sent) refl, read)
