-- ===== src/Server/DatagramDelivery.antt =====
-- server/internal/server/server.go: packets from a client on UDP to the TUN device.
use ligend.Prelude.{ℕ, ◌≡◌, ◌≢◌, ◌<◌, refl, true, List, [], ◌∷◌, some, length, ◌==◌, eq→==}
use ligend.Prelude.Outcome.{ok}
use ligend.Prelude.Bytes.{Bytes}
use ligend.Crypto.{Aead, AeadLaws, Entropy, key_size}
use ligend.Protocol.Awg.{encode_awg_data_packet, decode_awg_data_packet}
use ligend.Protocol.Awg.Header.{encode_awg-HasHeader}
use ligend.Tunnel.Session.{Session, touch}
use ligend.Server.{
  Server, tun_writes, packet_event, put_session, find_by_number, deliver, handle_transport,
  dispatch_transport, handle_datagram,
}

-- The session as a datagram from the sender leaves it.
abbrev pub heard_from : Server → ℕ → ℕ → Session → Session
heard_from s remote now session = record (touch session now) {
  udp_addr = some remote;
  udp_conn = some s.udp_conn;
}

packet_event-some : (packet : Bytes) → packet ≢ [] → packet_event packet ≡ tun_writes packet ∷ []
packet_event-some [] some_bytes = absurd (some_bytes refl)
packet_event-some (b ∷ bs) some_bytes = refl

module _ (aead : Aead) (laws : AeadLaws aead) (s : Server) (remote now : ℕ) (listing : List ℕ) where
  dispatched :
      (r : ℕ) (session : Session) (wire packet : Bytes) (seq : ℕ)
      → find_by_number s.sessions session.numeric_id listing ≡ some (r, session)
      → decode_awg_data_packet aead s.cfg.awgh4 session.session_key wire
        ≡ ok (session.numeric_id, seq, packet)
      → packet ≢ []
      → dispatch_transport aead s wire remote now listing session.numeric_id
        ≡ (put_session s r (heard_from s remote now session), tun_writes packet ∷ [])
  unfolding dispatch_transport handle_transport deliver
  dispatched r session wire packet seq found read some_bytes =
      rw (dispatch_transport, found, deliver, read, packet_event-some packet some_bytes) refl

  -- What a client on UDP encrypts under its session's key and sends with its session's number, reaches
  -- the TUN device unchanged, where the listing of the sessions comes to that session first. The
  -- session was used then, and answers go to the sender; nothing else changes. So it is for every
  -- sequence number, also one that was there before, and any cipher that keeps its documentation.
  pub handle_datagram-Carries :
      (noise : ℕ → ℕ) (r : ℕ) (session : Session) (packet id : Bytes) (seq : ℕ) (entropy : Entropy)
      → find_by_number s.sessions session.numeric_id listing ≡ some (r, session)
      → length session.session_key ≡ key_size
      → s.cfg.awgh4 < 4294967296
      → session.numeric_id < 18446744073709551616
      → seq < 4294967296
      → packet ≢ []
      → (wire : Bytes) × (encode_awg_data_packet aead
            (some noise)
            s.cfg.awgh4
            session.numeric_id
            seq
            session.session_key
            packet
          ≡ ok wire)
        × (handle_datagram aead s wire remote listing id entropy now
            ≡ ok (put_session s r (heard_from s remote now session), tun_writes packet ∷ []))
  unfolding handle_datagram
  handle_datagram-Carries noise r session packet id seq entropy found sized header number word
        some_bytes =
      let (wire, sent, (some_header, long, magic, numbered), read) =
        encode_awg-HasHeader aead noise s.cfg.awgh4 session.numeric_id seq session.session_key
          packet laws sized header number word in
      let same : (s.cfg.awgh4 == s.cfg.awgh4) ≡ true = eq→== s.cfg.awgh4 s.cfg.awgh4 refl in
      (
        wire,
        sent,
        simp
            (
              some_header,
              magic,
              same,
              long,
              numbered,
              dispatched r session wire packet seq found read some_bytes,
            )
            refl,
      )
