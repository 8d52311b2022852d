-- ===== src/Server.antt =====
-- server/internal/server/server.go: the handlers. Each takes what it reads from the network, the
-- random source and the clock as arguments, and returns the new state and what it did outside.
pub mod Messages
pub mod Welcome
pub mod Startup
pub mod Shutdown
pub mod Steps
pub mod Admission
pub mod Reach
pub mod Safety
pub mod Requests
pub mod Datagrams
pub mod Isolation
pub mod Inputs
pub mod Clients
pub mod Exhaustion
pub mod Handshakes
pub mod Outside
pub mod Rounds
pub mod Delivery
pub mod DatagramDelivery
use ligend.Prelude.{
  ℕ, ◌+◌, ◌/◌, ◌%◌, ◌*◌, Bool, true, false, not, ◌||◌, List, [], ◌∷◌, ◌++◌, Option, none, some,
  length, map, ltb, ◌==◌, if◌then◌else◌,
}
use ligend.Prelude.Outcome.{Outcome, ok, err, panic, ◌>>=◌}
use ligend.Prelude.Bytes.{Bytes, put32, put64, uint32, uint64}
use ligend.Config.{Config}
use ligend.Auth.{Authenticator}
use ligend.Crypto.{Aead, Lz4, Entropy}
use ligend.Protocol.Frame.{
  Frame, Rng, encode, decode, has_flag, new_control_frame, new_keepalive_frame, control_subtype,
  control_data, flag_compressed, type_data, type_control, type_keepalive, type_migrate,
  ctrl_disconnect, ctrl_ping, ctrl_pong, ctrl_session_init,
}
use ligend.Protocol.Compression.{decompress_frame}
use ligend.Protocol.Batch.{flag_batch_mode, decode_batch}
use ligend.Protocol.Awg.{decode_awg_data_packet, min_awg_size}
use ligend.Tunnel.Packet.{to4}
use ligend.Tunnel.Device.{TunDevice}
use ligend.Tunnel.Session.{
  Session, Write, ws_write, udp_write, next_seq, touch, add_connection, send_data_to_client,
  SendError,
}
use ligend.Tunnel.Manager.{
  SessionManager, CreateError, create_session, get_session, remove_session, deref, store,
}
use ligend.Tunnel.Nat.{NatTable, register, unregister, lookup_by_packet_dst}

-- An HTTP server: its address, the path at which it takes clients, and whether it is the one whose end
-- `Start` waits for.
pub record HttpServer : Type 0 where
  pub addr : Bytes
  pub web_socket_path : Bytes
  pub awaited : Bool

-- `udp_conn` is 0 until the UDP socket is open. `start_returned` says that `Start` has returned, which
-- is always with an error.
pub record Server : Type 0 where
  pub cfg : Config
  pub auth : Authenticator
  pub sessions : SessionManager
  pub nat_table : NatTable
  pub tun : Option TunDevice
  pub http_server : Option HttpServer
  pub start_returned : Bool
  pub udp_conn : ℕ

-- What a handler does outside: a write on the network, a packet for the TUN device, a hang-up.
pub data Event : Type 0 where
  writes : Write → Event
  tun_writes : Bytes → Event
  closes : ℕ → Event

abbrev pub Step : Type 0
Step = Server × List Event

unfoldable pub put_session : Server → ℕ → Session → Server
put_session s r session = record s { sessions = store s.sessions r session }

-- The first session of the listing with the number, or that is a UDP session at all.
unfoldable pub find_by_number : SessionManager → ℕ → List ℕ → Option (ℕ × Session)
find_by_number sm number [] = none
find_by_number sm number (r ∷ rest) = elim (deref sm r) [
  | none ↦ find_by_number sm number rest
  | some item ↦
      let later = find_by_number sm number rest in
      if item.numeric_id == number || item.is_udp then some (r, item) else later
]

abbrev pub packet_event : Bytes → List Event
packet_event [] = []
packet_event (b ∷ bs) = tun_writes (b ∷ bs) ∷ []

-- The packet of a transport datagram, if it decodes.
unfoldable pub deliver : Aead → ℕ → Session → Bytes → List Event
deliver aead h4 session bytes = elim (decode_awg_data_packet aead h4 session.session_key bytes) [
  | ok (id, seq, packet) ↦ packet_event packet
  | err e ↦ []
  | panic ↦ []
]

-- A transport datagram for a session: its address is set before the packet is decoded.
unfoldable pub handle_transport : Aead → Server → Bytes → ℕ → ℕ → ℕ → Session → Step
handle_transport aead s bytes remote now r session = (
  put_session s r
      (record (touch session now) { udp_addr = some remote; udp_conn = some s.udp_conn }),
  deliver aead s.cfg.awgh4 session bytes,
)

abbrev pub four_bytes : Option Bytes → Bytes
four_bytes none = 0 ∷ 0 ∷ 0 ∷ 0 ∷ []
four_bytes (some v4) = v4

-- The answer to a handshake: H2, the session's number, its address and the MTU.
unfoldable pub handshake_response : Config → Session → Bytes
handshake_response cfg session =
    put32 cfg.awgh2
    ++ (put64 session.numeric_id ++ (four_bytes (to4 session.ip) ++ put32 (cfg.mtu % 4294967296)))

unfoldable pub start_udp_session : Server → ℕ → ℕ → Session → Step
start_udp_session s remote r session = (
  record (put_session s r (record session {
    is_udp = true;
    udp_addr = some remote;
    udp_conn = some s.udp_conn;
    game_mode = true;
    awgh4 = s.cfg.awgh4;
  })) { nat_table = register s.nat_table session.ip r },
  writes (udp_write s.udp_conn remote (handshake_response s.cfg session)) ∷ [],
)

abbrev pub created :
    Server → SessionManager × Outcome CreateError ℕ → (Server → ℕ → Session → Step) → Step
created s (sm, ok r) k = elim (deref sm r) [
  | none ↦ (record s { sessions = sm }, [])
  | some session ↦ k (record s { sessions = sm }) r session
]
created s (sm, err e) k = (record s { sessions = sm }, [])
created s (sm, panic) k = (record s { sessions = sm }, [])

unfoldable pub handle_handshake : Server → ℕ → Bytes → Entropy → ℕ → Step
handle_handshake s remote session_id entropy now =
    created s (create_session s.sessions session_id entropy now)
      λ s' r session. start_udp_session s' remote r session

-- A transport datagram of full length: `listing` is the order in which the map of sessions is walked.
unfoldable pub dispatch_transport : Aead → Server → Bytes → ℕ → ℕ → List ℕ → ℕ → Step
dispatch_transport aead s bytes remote now listing number =
    elim (find_by_number s.sessions number listing) [
      | none ↦ (s, [])
      | some (r, session) ↦ handle_transport aead s bytes remote now r session
    ]

-- One round of `awgReadLoop`.
unfoldable pub handle_datagram :
    Aead → Server → Bytes → ℕ → List ℕ → Bytes → Entropy → ℕ → Outcome ⊥ Step
handle_datagram aead s bytes remote listing session_id entropy now =
    if ltb (length bytes) 4 then ok (s, []) else (do
      magic ← uint32 bytes 0
      if magic == s.cfg.awgh4
          then if ltb (length bytes) min_awg_size then ok (s, []) else (do
            number ← uint64 bytes 4
            ok (dispatch_transport aead s bytes remote now listing number))
          else if magic == s.cfg.awgh1
          then ok (handle_handshake s remote session_id entropy now)
          else ok (s, []))
