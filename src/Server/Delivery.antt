-- ===== src/Server/Delivery.antt =====
-- server/internal/server/server.go: packets from a client to the TUN device, and back.
use ligend.Prelude.{
  ℕ, Bool, All, ◌≡◌, ◌≢◌, ◌≤◌, ◌<◌, refl, false, true, List, [], ◌∷◌, some, length, map, ◌==◌,
  arith,
}
use ligend.Prelude.Outcome.{Outcome, ok}
use ligend.Prelude.Bytes.{Bytes}
use ligend.Crypto.{Aead, AeadLaws, Lz4, Lz4Laws, key_size}
use ligend.Protocol.Frame.{Frame, Rng, encode, decode, has_flag, type_data, flag_compressed}
use ligend.Protocol.Frame.RoundTrip.{IsFrame}
use ligend.Protocol.Compression.{compress_frame}
use ligend.Protocol.Compression.RoundTrip.{decompress-compress}
use ligend.Protocol.Compression.Wire.{decode-compress_frame}
use ligend.Protocol.Batch.{
  BatchEncoder, flag_batch_mode, max_batch_size, flush, new_batch_encoder, decode_batch,
}
use ligend.Protocol.Batch.Encoding.{IsBatch, IsShort, decode_batch-flush}
use ligend.Protocol.Awg.{decode_awg_data_packet}
use ligend.Tunnel.Session.{
  Session, Write, ws_write, udp_write, touch, primary_conn, next_seq, bump_seq, send_data_to_client,
}
use ligend.Tunnel.Session.Sending.{carried, send_data_to_client-websocket, send_data_to_client-udp}
use ligend.Tunnel.Manager.{deref}
use ligend.Tunnel.Nat.{lookup_by_packet_dst}
use ligend.Server.{Server, Step, Event, writes, tun_writes, put_session}
use ligend.Server.Messages.{
  data_events, handle_frame, handle_decoded, handle_message, send_packet, handle_tun_packet,
}

-- A frame with data as a client makes it, before it is compressed.
pub record IsData (f : Frame) : Type 0 where
  pub frame : IsFrame f
  pub data_type : f.type ≡ type_data
  pub plain : has_flag f.flags flag_compressed ≡ false
  pub short : length f.payload ≤ 65535

-- The packets that such a frame is made of: its payload, or those of a batch.
pub data Carries (f : Frame) : List Bytes → Type 0 where
  one : has_flag f.flags flag_batch_mode ≡ false → f.payload ≢ [] → Carries f (f.payload ∷ [])
  many :
      (b : BatchEncoder)
      → has_flag f.flags flag_batch_mode ≡ true
      → IsBatch b
      → 0 < length b.packets
      → length b.packets ≤ max_batch_size
      → All IsShort b.packets
      → flush b ≡ ok (some f.payload, new_batch_encoder)
      → Carries f b.packets

some_length : (x : ℕ) (xs : Bytes) → (length (x ∷ xs) == 0) ≡ false
some_length x xs = ground arith

module _ (z : Lz4) (laws : Lz4Laws z) (rng client_rng : Rng) (rolled : client_rng.roll < 128)
    (s : Server) (r : ℕ) (session : Session) (conn now : ℕ) where
  -- What the server does with the frame that the client compresses and sends.
  abbrev pub receives : Frame → Outcome ⊥ Step
  receives f = handle_message z rng s r session conn (encode client_rng (compress_frame z f)) now

  receives-events :
      (f : Frame) (events : List Event)
      → IsData f
      → data_events f ≡ ok events
      → receives f ≡ ok (put_session s r (touch session now), events)
  unfolding handle_message handle_decoded handle_frame
  receives-events f events v e =
      rw
        (
          handle_message,
          decode-compress_frame z client_rng f v.frame rolled v.short,
          handle_decoded,
          decompress-compress z f laws v.short v.frame.byte v.plain,
          handle_frame,
          v.data_type,
          e,
        )
        refl

  data_events-one :
      (f : Frame) (payload : Bytes)
      → f.payload ≡ payload
      → has_flag f.flags flag_batch_mode ≡ false
      → payload ≢ []
      → data_events f ≡ ok (tun_writes payload ∷ [])
  unfolding data_events
  data_events-one f [] e single some_bytes = absurd (some_bytes refl)
  data_events-one f (x ∷ xs) e single some_bytes =
      rw (data_events, e, some_length x xs, single) refl

  data_events-many :
      (f : Frame) (payload : Bytes) (packets : List Bytes)
      → f.payload ≡ payload
      → has_flag f.flags flag_batch_mode ≡ true
      → decode_batch payload ≡ ok packets
      → data_events f ≡ ok (map tun_writes packets)
  unfolding data_events decode_batch
  data_events-many f [] packets e batch d = absurd (cc)
  data_events-many f (x ∷ xs) packets e batch d =
      rw (data_events, e, some_length x xs, batch, d) refl

  -- A client's DATA frame, compressed where that saves something and padded as its flags say, hands
  -- the TUN device exactly the packets that it carries, in their order: its payload, or the packets
  -- of a batch. The session was used now, and nothing else of the server changes; for any LZ4 that
  -- keeps its documentation, and every draw of `rand.Intn(128)`.
  pub handle_message-Carries :
      (f : Frame) (packets : List Bytes)
      → IsData f
      → Carries f packets
      → receives f ≡ ok (put_session s r (touch session now), map tun_writes packets)
  handle_message-Carries f _ v (one single some_bytes) =
      receives-events f _ v (data_events-one f f.payload refl single some_bytes)
  handle_message-Carries f _ v (many b batch is_batch some_packets few short flushed) =
      let (wire, flushed', read) = decode_batch-flush b is_batch some_packets few short in
      let same : wire ≡ f.payload = cc (flushed, flushed') in
      receives-events f _ v (data_events-many f f.payload b.packets refl batch (rw same at read))

-- Where a session can be reached.
pub data Reachable (session : Session) : Type 0 where
  over_websocket :
      (conn : ℕ) → session.is_udp ≡ false → primary_conn session ≡ some conn → Reachable session
  over_udp :
      (addr conn : ℕ)
      → session.is_udp ≡ true
      → session.udp_addr ≡ some addr
      → session.udp_conn ≡ some conn
      → length session.session_key ≡ key_size
      → session.awgh4 < 4294967296
      → session.numeric_id < 18446744073709551616
      → Reachable session

-- What is written reaches the session's client, which reads the packet from it: in a DATA frame on its
-- primary connection, or in a datagram to its address under its key.
pub data Reads (aead : Aead) (session : Session) (packet : Bytes) : Write → Type 0 where
  in_frame :
      (conn : ℕ) (wire : Bytes) (is_game : Bool)
      → primary_conn session ≡ some conn
      → decode wire ≡ ok (carried session packet is_game)
      → Reads aead session packet (ws_write conn wire)
  in_datagram :
      (conn addr : ℕ) (wire : Bytes)
      → session.udp_addr ≡ some addr
      → decode_awg_data_packet aead session.awgh4 session.session_key wire
        ≡ ok (session.numeric_id, bump_seq session.sequence, packet)
      → Reads aead session packet (udp_write conn addr wire)

module _ (aead : Aead) (laws : AeadLaws aead) (noise : ℕ → ℕ) (rng : Rng)
    (rolled : rng.roll < 128) where
  sent_to :
      (session : Session) (packet : Bytes)
      → Reachable session
      → length packet < 65536
      → (w : Write) × (send_data_to_client aead (some noise) rng session packet
          ≡ ((next_seq session).1, ok w))
        × Reads aead session packet w
  sent_to session packet (over_websocket conn ws primary) short =
      let (wire, is_game, sent, game, read) =
        send_data_to_client-websocket aead noise rng session packet conn ws primary short rolled in
      (ws_write conn wire, sent, in_frame conn wire is_game primary read)
  sent_to session packet (over_udp addr conn udp at_addr through sized header number) short =
      let (wire, sent, read) =
        send_data_to_client-udp aead noise rng session packet addr conn laws udp at_addr through
          sized header number in
      (udp_write conn addr wire, sent, in_datagram conn addr wire at_addr read)

  -- A packet that the TUN device hands to the server goes to the session at its destination, and to no
  -- other: what is written is one message, from which that session's client reads the packet. Only
  -- the session's counter has changed then. So it is for every session that can be reached, by
  -- WebSocket or by UDP, and every packet shorter than 2^16 bytes; for any cipher that keeps its
  -- documentation, and every draw of `rand.Intn(128)`.
  pub handle_tun_packet-Reads :
      (s : Server) (r : ℕ) (session : Session) (packet : Bytes)
      → packet ≢ []
      → length packet < 65536
      → lookup_by_packet_dst s.nat_table packet ≡ ok (some r)
      → deref s.sessions r ≡ some session
      → Reachable session
      → (w : Write) × (handle_tun_packet aead (some noise) rng s packet
          ≡ ok (put_session s r (next_seq session).1, writes w ∷ []))
        × Reads aead session packet w
  unfolding handle_tun_packet send_packet
  handle_tun_packet-Reads s r session [] some_bytes short found held reachable =
      absurd (some_bytes refl)
  handle_tun_packet-Reads s r session (x ∷ xs) some_bytes short found held reachable =
      let (w, sent, read) = sent_to session (x ∷ xs) reachable short in
      (w, rw (some_length x xs, found, held, sent) refl, read)
