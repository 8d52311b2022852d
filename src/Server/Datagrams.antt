-- ===== src/Server/Datagrams.antt =====
-- server/internal/server/server.go: `awgReadLoop` on any datagram, and the NAT table that it fills.
use ligend.Prelude.{
  ℕ, ◌≤◌, ◌≡◌, ◌≢◌, inl, inr, false, List, [], some, length, ltb, ltb→le, ◌==◌, Bool-cases,
  if◌then◌else◌, arith,
}
use ligend.Prelude.Outcome.{ok, panic, Sat, Sat-then, Sat-ne-panic, ◌>>=◌}
use ligend.Prelude.Bytes.{Bytes, uint32, uint64, uint32-Reads32, Reads32}
use ligend.Prelude.Tables.{nat_keys}
use ligend.Crypto.{Aead, Entropy}
use ligend.Protocol.Awg.{min_awg_size}
use ligend.Tunnel.Session.{Session}
use ligend.Tunnel.Manager.{deref}
use ligend.Server.{Server, Step, dispatch_transport, handle_datagram, handle_handshake}

-- The session behind the reference was used now, and answers go to the sender.
pub record Answers (remote now r : ℕ) (s : Server) : Type 0 where
  pub session : Session
  pub held : deref s.sessions r ≡ some session
  pub answered : session.udp_addr ≡ some remote
  pub through : session.udp_conn ≡ some s.udp_conn
  pub used : session.last_active ≡ now

-- What holds of the three things that a datagram can do, holds of every round.
pub handle_datagram-Sat :
    (P : Step → Type 0) (aead : Aead) (s : Server) (bytes : Bytes) (remote : ℕ) (listing : List ℕ)
    (session_id : Bytes) (entropy : Entropy) (now : ℕ)
    → P (s, [])
    → ((number : ℕ) → P (dispatch_transport aead s bytes remote now listing number))
    → P (handle_handshake s remote session_id entropy now)
    → Sat P (handle_datagram aead s bytes remote listing session_id entropy now)
unfolding handle_datagram
handle_datagram-Sat P aead s bytes remote listing session_id entropy now ignores dispatches shakes =
    elim (Bool-cases (ltb (length bytes) 4)) [
      | inl short ↦ rw short ignores
      | inr long ↦
          let room : 4 ≤ length bytes = ltb→le (length bytes) 4 long in
          rw long (
            Sat-then P (Reads32 bytes 0) (uint32 bytes 0) _ (uint32-Reads32 ⊥ bytes 0 (omega arith))
              λ magic _. by_magic magic)
    ]
  where
    by_number :
        ltb (length bytes) min_awg_size ≡ false
        → Sat {E = ⊥} P (do
          number ← uint64 bytes 4
          ok (dispatch_transport aead s bytes remote now listing number))
    by_number long =
        let room : 44 ≤ length bytes = ltb→le (length bytes) min_awg_size long in
        Sat-then P (λ (v : ℕ). Unit {0}) (uint64 bytes 4) _
          (Sat-then (λ (v : ℕ). Unit {0}) (Reads32 bytes 4) (uint32 bytes 4) _
            (uint32-Reads32 ⊥ bytes 4 (omega arith))
            λ a _.
              Sat-then (λ (v : ℕ). Unit {0}) (Reads32 bytes 8) (uint32 bytes 8) _
                (uint32-Reads32 ⊥ bytes 8 (omega arith)) λ b _. tt)
          λ number _. dispatches number

    by_magic :
        (magic : ℕ)
        → Sat {E = ⊥} P (
            if magic == s.cfg.awgh4
            then if ltb (length bytes) min_awg_size then ok (s, []) else (do
              number ← uint64 bytes 4
              ok (dispatch_transport aead s bytes remote now listing number))
            else if magic == s.cfg.awgh1
            then ok (handle_handshake s remote session_id entropy now)
            else ok (s, []))
    by_magic magic = elim (Bool-cases (magic == s.cfg.awgh4)) [
      | inl t ↦ elim (Bool-cases (ltb (length bytes) min_awg_size)) [
        | inl short ↦ rw (t, short) ignores
        | inr long ↦ rw (t, long) (by_number long)
      ]
      | inr n ↦ elim (Bool-cases (magic == s.cfg.awgh1)) [
        | inl h ↦ rw (n, h) shakes
        | inr h ↦ rw (n, h) ignores
      ]
    ]

-- A datagram never makes the read loop panic, whatever its bytes are and whoever sends it.
pub handle_datagram-ne-panic :
    (aead : Aead) (s : Server) (bytes : Bytes) (remote : ℕ) (listing : List ℕ) (session_id : Bytes)
    (entropy : Entropy) (now : ℕ)
    → handle_datagram aead s bytes remote listing session_id entropy now ≢ panic
handle_datagram-ne-panic aead s bytes remote listing session_id entropy now =
    Sat-ne-panic (λ (step : Step). Unit {0}) _
      (handle_datagram-Sat _ aead s bytes remote listing session_id entropy now tt (λ number. tt)
        tt)
