-- ===== src/Tunnel/Session.antt =====
-- server/internal/tunnel/session.go: `Session`. A connection and a remote address are numbers; a
-- write on the network is a value that says what is written where.
pub mod Sending
use ligend.Prelude.{
  ℕ, suc, ◌+◌, ◌*◌, ◌/◌, ◌%◌, Bool, true, false, ◌&&◌, ◌||◌, List, [], ◌∷◌, ◌++◌, Option, none,
  some, bit_or, length, ltb, leb, ◌==◌, if◌then◌else◌,
}
use ligend.Prelude.Outcome.{Outcome, ok, err, panic, ◌>>=◌, at, wrap_err}
use ligend.Prelude.Bytes.{Bytes, uint64}
use ligend.Crypto.{Aead, Entropy, CryptoError, generate_session_key}
use ligend.Protocol.Frame.{Frame, Rng, encode, new_data_frame, flag_urgent, flag_has_padding}
use ligend.Protocol.Awg.{encode_awg_data_packet}

pub record Session : Type 0 where
  pub id : Bytes
  pub ip : Bytes
  pub session_key : Bytes
  pub connections : List ℕ
  pub created_at : ℕ
  pub last_active : ℕ
  pub sequence : ℕ
  pub is_udp : Bool
  pub udp_addr : Option ℕ
  pub udp_conn : Option ℕ
  pub numeric_id : ℕ
  pub game_mode : Bool
  pub awgh4 : ℕ

unfoldable pub new_session : Bytes → Bytes → Entropy → ℕ → Outcome CryptoError Session
new_session id ip entropy now = do
  session_key ← generate_session_key entropy
  numeric_id ← (if leb 8 (length session_key) then uint64 session_key 0 else ok 0)
  ok (record {
    id = id;
    ip = ip;
    session_key = session_key;
    connections = [];
    created_at = now;
    last_active = now;
    sequence = 0;
    is_udp = false;
    udp_addr = none;
    udp_conn = none;
    numeric_id = numeric_id;
    game_mode = true;
    awgh4 = 0x9b4a1e7d;
  })

unfoldable pub add_connection : Session → ℕ → Session
add_connection s conn = record s { connections = s.connections ++ conn ∷ [] }

-- The first occurrence goes.
abbrev pub remove_first : ℕ → List ℕ → List ℕ
remove_first conn [] = []
remove_first conn (c ∷ cs) = if c == conn then cs else c ∷ remove_first conn cs

unfoldable pub remove_connection : Session → ℕ → Session
remove_connection s conn = record s { connections = remove_first conn s.connections }

abbrev pub first_of_list {ℓ} : {A : Type ℓ} → List A → Option A
first_of_list [] = none
first_of_list (x ∷ xs) = some x

unfoldable pub primary_conn : Session → Option ℕ
primary_conn s = first_of_list s.connections

-- The atomic 32-bit counter: the new value, which is the answer.
abbrev pub bump_seq : ℕ → ℕ
bump_seq n = (n + 1) % 4294967296

unfoldable pub next_seq : Session → ℕ × Session
next_seq s = (bump_seq s.sequence, record s { sequence = bump_seq s.sequence })

unfoldable pub touch : Session → ℕ → Session
touch s now = record s { last_active = now }

pub data Write : Type 0 where
  ws_write : ℕ → Bytes → Write
  udp_write : ℕ → ℕ → Bytes → Write

pub data SendError : Type 0 where
  no_active_connection : SendError
  encrypt_failed : CryptoError → SendError

-- The write that is made; its own error is passed on by the source.
unfoldable pub send_frame : Rng → Session → Frame → Outcome SendError Write
send_frame rng s frame = elim (primary_conn s) [
  | none ↦ err no_active_connection
  | some conn ↦ ok (ws_write conn (encode rng frame))
]

-- IPv4, and UDP or ICMP in it.
unfoldable pub is_game_packet : Bytes → Outcome SendError Bool
is_game_packet packet = if ltb (length packet) 20 then ok false else (do
  first ← at packet 0
  if first / 16 == 4 then (do proto ← at packet 9; ok (proto == 17 || proto == 1)) else ok false)

-- The flags of a data frame, by the mode, the packet and the counter after the frame took its number.
unfoldable pub data_flags : Bool → Bool → ℕ → ℕ
data_flags game_mode is_game sequence =
    if game_mode || is_game
    then bit_or 0 flag_urgent
    else if sequence % 4 == 0
    then bit_or 0 flag_has_padding
    else 0

unfoldable pub send_over_websocket : Rng → Session → Bytes → Outcome SendError Write
send_over_websocket rng s packet = do
  is_game ← is_game_packet packet
  send_frame rng s (record (new_data_frame packet s.sequence) {
    flags = data_flags s.game_mode is_game s.sequence;
  })

abbrev pub send_over_udp : Aead → Entropy → Session → Bytes → ℕ → ℕ → Outcome SendError Write
send_over_udp aead entropy s packet addr conn = do
  wire ←
      wrap_err encrypt_failed
        (encode_awg_data_packet aead entropy s.awgh4 s.numeric_id s.sequence s.session_key packet)
  ok (udp_write conn addr wire)

abbrev pub send_by :
    Aead → Entropy → Rng → Session → Bytes → Bool → Option ℕ → Option ℕ → Outcome SendError Write
send_by aead entropy rng s packet true (some addr) (some conn) =
    send_over_udp aead entropy s packet addr conn
send_by aead entropy rng s packet _ _ _ = send_over_websocket rng s packet

-- Both ways take the next sequence number first, so the session changes also where sending fails.
unfoldable pub send_data_to_client :
    Aead → Entropy → Rng → Session → Bytes → Session × Outcome SendError Write
send_data_to_client aead entropy rng s packet =
    let s' = (next_seq s).1 in
    (s', send_by aead entropy rng s' packet s.is_udp s.udp_addr s.udp_conn)
