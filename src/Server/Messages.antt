-- ===== src/Server/Messages.antt =====
-- server/internal/server/server.go: the messages of WebSocket clients, the clean-up, and the packets
-- that the TUN device hands in.
use ligend.Prelude.{
  ℕ, Bool, true, false, List, [], ◌∷◌, none, some, length, map, ◌==◌, if◌then◌else◌,
}
use ligend.Prelude.Outcome.{Outcome, ok, err, panic, ◌>>=◌}
use ligend.Prelude.Bytes.{Bytes}
use ligend.Crypto.{Aead, Lz4, Entropy}
use ligend.Protocol.Frame.{
  Frame, Rng, encode, decode, has_flag, new_control_frame, new_keepalive_frame, control_subtype,
  control_data, type_data, type_control, type_keepalive, type_migrate, ctrl_disconnect, ctrl_ping,
  ctrl_pong, ctrl_session_init,
}
use ligend.Protocol.Compression.{decompress_frame}
use ligend.Protocol.Batch.{flag_batch_mode, decode_batch}
use ligend.Tunnel.Session.{
  Session, Write, ws_write, next_seq, touch, send_data_to_client, SendError,
}
use ligend.Tunnel.Manager.{get_session, remove_session, deref}
use ligend.Tunnel.Nat.{unregister, lookup_by_packet_dst}
use ligend.Server.{Server, Event, writes, tun_writes, closes, Step, put_session}

unfoldable pub cleanup_session : Server → Session → Server
cleanup_session s session = record s {
  nat_table = unregister s.nat_table session.ip;
  sessions = remove_session s.sessions session.id;
}

-- Whether a session was kicked, beside the new state.
unfoldable pub kick_session : Server → Bytes → Server × Bool
unfolding cleanup_session
kick_session s id = elim (get_session s.sessions id) [
  | none ↦ (s, false)
  | some r ↦ elim (deref s.sessions r) [
    | none ↦ (s, false)
    | some session ↦ (cleanup_session s session, true)
  ]
]

-- A frame that answers the client takes the session's next number.
unfoldable pub reply : Rng → Server → ℕ → Session → ℕ → (ℕ → Frame) → Step
reply rng s r session conn frame =
    let (seq, session') = next_seq session in
    (put_session s r session', writes (ws_write conn (encode rng (frame seq))) ∷ [])

unfoldable pub handle_control_frame : Rng → Server → ℕ → Session → ℕ → Frame → Outcome ⊥ Step
unfolding reply
handle_control_frame rng s r session conn frame = elim (control_subtype frame) [
  | err e ↦ ok (s, [])
  | panic ↦ panic
  | ok subtype ↦
      if subtype == ctrl_disconnect
      then ok (s, closes conn ∷ [])
      else if subtype == ctrl_ping
      then elim (control_data frame) [
        | ok ping ↦ ok (reply rng s r session conn (new_control_frame ctrl_pong ping))
        | err e ↦ ok (s, [])
        | panic ↦ panic
      ]
      else ok (s, [])
]

-- "migrate_ack"
abbrev pub migrate_ack : Bytes
migrate_ack = b'm' ∷ b'i' ∷ b'g' ∷ b'r' ∷ b'a' ∷ b't' ∷ b'e' ∷ b'_' ∷ b'a' ∷ b'c' ∷ b'k' ∷ []

unfoldable pub handle_migrate : Rng → Server → ℕ → Session → ℕ → Frame → Step
unfolding reply
handle_migrate rng s r session new_conn frame = elim (get_session s.sessions frame.payload) [
  | none ↦ (s, [])
  | some old ↦ reply rng s r session new_conn (new_control_frame ctrl_session_init migrate_ack)
]

-- The packets of a DATA frame, for the TUN device.
unfoldable pub data_events : Frame → Outcome ⊥ (List Event)
data_events frame =
    if length frame.payload == 0
    then ok []
    else if has_flag frame.flags flag_batch_mode
    then elim (decode_batch frame.payload) [
      | ok packets ↦ ok (map tun_writes packets)
      | err e ↦ ok []
      | panic ↦ panic
    ]
    else ok (tun_writes frame.payload ∷ [])

-- The switch over the frame's type; fragments, padding and unknown types are logged or ignored.
unfoldable pub handle_frame : Rng → Server → ℕ → Session → ℕ → Frame → Outcome ⊥ Step
unfolding reply handle_migrate handle_control_frame data_events
handle_frame rng s r session conn frame =
    if frame.type == type_data
    then (do events ← data_events frame; ok (s, events))
    else if frame.type == type_control
    then handle_control_frame rng s r session conn frame
    else if frame.type == type_keepalive
    then ok (reply rng s r session conn new_keepalive_frame)
    else if frame.type == type_migrate
    then ok (handle_migrate rng s r session conn frame)
    else ok (s, [])

-- A decoded frame, decompressed first where its flag says so.
unfoldable pub handle_decoded : Lz4 → Rng → Server → ℕ → Session → ℕ → Frame → Outcome ⊥ Step
handle_decoded z rng s r session conn frame = elim (decompress_frame z frame) [
  | ok plain ↦ handle_frame rng s r session conn plain
  | err e ↦ ok (s, [])
  | panic ↦ panic
]

-- One round of `clientReadLoop`, on a message that was read.
unfoldable pub handle_message : Lz4 → Rng → Server → ℕ → Session → ℕ → Bytes → ℕ → Outcome ⊥ Step
handle_message z rng s r session conn message now =
    let touched = touch session now in
    elim (decode message) [
      | ok frame ↦ handle_decoded z rng (put_session s r touched) r touched conn frame
      | err e ↦ ok (put_session s r touched, [])
      | panic ↦ panic
    ]

abbrev pub sent_event : Outcome SendError Write → List Event
sent_event (ok w) = writes w ∷ []
sent_event (err e) = []
sent_event panic = []

unfoldable pub send_packet : Aead → Entropy → Rng → Server → ℕ → Session → Bytes → Step
send_packet aead entropy rng s r session packet =
    let (session', sent) = send_data_to_client aead entropy rng session packet in
    (put_session s r session', sent_event sent)

-- One round of `tunReadLoop`, on a packet that was read.
unfoldable pub handle_tun_packet : Aead → Entropy → Rng → Server → Bytes → Outcome ⊥ Step
unfolding send_packet
handle_tun_packet aead entropy rng s packet = if length packet == 0 then ok (s, []) else (do
  found ← lookup_by_packet_dst s.nat_table packet
  ok (elim found [
    | none ↦ (s, [])
    | some r ↦ elim (deref s.sessions r) [
      | none ↦ (s, [])
      | some session ↦ send_packet aead entropy rng s r session packet
    ]
  ]))
