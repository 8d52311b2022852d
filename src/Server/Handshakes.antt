-- ===== src/Server/Handshakes.antt =====
-- server/internal/server/server.go: what the answer to a handshake tells of the session's key.
use ligend.Prelude.{
  ℕ, ◌+◌, ◌*◌, ◌/◌, ◌%◌, ◌<◌, ◌≡◌, refl, ap, ◌∙◌, List, [], ◌∷◌, ◌++◌, some, take, arith,
}
use ligend.Prelude.Outcome.{Outcome, ok}
use ligend.Prelude.Bytes.{Bytes, random_bytes, put32, put64, join32}
use ligend.Crypto.{key_size, generate_session_key}
use ligend.Tunnel.Packet.{to4}
use ligend.Tunnel.Pool.{IpPool}
use ligend.Tunnel.Session.{Session, udp_write, new_session}
use ligend.Tunnel.Manager.{SessionManager, CreateError, enter}
use ligend.Tunnel.Manager.Allocation.{
  allocated, allocate-first, create_session-refused, create_session-takes, deref-enter,
}
use ligend.Server.{
  Server, Step, Event, writes, four_bytes, created, handle_handshake, start_udp_session,
  handshake_response,
}
use ligend.Server.Exhaustion.{free, created-found}

-- The answer with a front of eight bytes, if an address is free.
abbrev pub answer : Server → ℕ → Bytes → List Bytes → List Event
answer s remote front [] = []
answer s remote front (ip ∷ rest) =
    writes (
      udp_write s.udp_conn remote
        (put32 s.cfg.awgh2 ++ (front ++ (four_bytes (to4 ip) ++ put32 (s.cfg.mtu % 4294967296)))))
    ∷ []

put32-join32 :
    (a b c d : ℕ)
    → a < 256
    → b < 256
    → c < 256
    → d < 256
    → put32 (join32 a b c d) ≡ a ∷ b ∷ c ∷ d ∷ []
put32-join32 a b c d ha hb hc hd =
    let e₁ : join32 a b c d / 16777216 % 256 ≡ a = omega arith in
    let e₂ : join32 a b c d / 65536 % 256 ≡ b = omega arith in
    let e₃ : join32 a b c d / 256 % 256 ≡ c = omega arith in
    let e₄ : join32 a b c d % 256 ≡ d = omega arith in rw (e₁, e₂, e₃, e₄) refl

put64-halves : (hi lo : ℕ) → lo < 4294967296 → put64 (hi * 4294967296 + lo) ≡ put32 hi ++ put32 lo
put64-halves hi lo h =
    let v : ℕ = hi * 4294967296 + lo in
    let e₀ : v / 4294967296 ≡ hi = omega arith in
    let e₁ : v / 16777216 % 256 ≡ lo / 16777216 % 256 = omega arith in
    let e₂ : v / 65536 % 256 ≡ lo / 65536 % 256 = omega arith in
    let e₃ : v / 256 % 256 ≡ lo / 256 % 256 = omega arith in
    let e₄ : v % 256 ≡ lo % 256 = omega arith in rw (e₀, e₁, e₂, e₃, e₄) refl

-- The number of a session is the front of its key.
numbered :
    (id ip : Bytes) (noise : ℕ → ℕ) (now : ℕ)
    → ((i : ℕ) → noise i < 256)
    → (session : Session) × (new_session id ip (some noise) now ≡ ok session)
      × (session.ip ≡ ip)
      × (session.session_key ≡ random_bytes noise key_size)
      × (put64 session.numeric_id ≡ take 8 (random_bytes noise key_size))
unfolding new_session generate_session_key
numbered id ip noise now bytes =
    let hi : ℕ = join32 (noise 31) (noise 30) (noise 29) (noise 28) in
    let lo : ℕ = join32 (noise 27) (noise 26) (noise 25) (noise 24) in
    let small : lo < 4294967296 = omega (arith, bytes 27, bytes 26, bytes 25, bytes 24) in
    (
      _,
      refl,
      refl,
      refl,
      put64-halves hi lo small
          ∙ (let e₁ =
                put32-join32 (noise 31) (noise 30) (noise 29) (noise 28) (bytes 31) (bytes 30)
                  (bytes 29) (bytes 28) in
              let e₂ =
                put32-join32 (noise 27) (noise 26) (noise 25) (noise 24) (bytes 27) (bytes 26)
                  (bytes 25) (bytes 24) in
              ap (λ (x : Bytes). x ++ put32 lo) e₁
              ∙ ap (λ (x : Bytes). noise 31 ∷ noise 30 ∷ noise 29 ∷ noise 28 ∷ x) e₂),
    )

start_udp_session-answer :
    (s : Server) (sm : SessionManager) (remote r : ℕ) (session : Session) (ip front : Bytes)
    (rest : List Bytes)
    → put64 session.numeric_id ≡ front
    → session.ip ≡ ip
    → (start_udp_session (record s { sessions = sm }) remote r session).1
      ≡ answer s remote front (ip ∷ rest)
unfolding start_udp_session handshake_response
start_udp_session-answer s sm remote r session ip front rest shown at_ip =
    ap
      (λ (x : Bytes).
        writes (
          udp_write s.udp_conn remote (
            put32 s.cfg.awgh2
            ++ (x ++ (four_bytes (to4 session.ip) ++ put32 (s.cfg.mtu % 4294967296)))))
        ∷ [])
      shown
    ∙ ap (λ (x : Bytes). answer s remote front (x ∷ rest)) at_ip

-- The answer to a handshake shows H2, the first eight bytes of the new session's key in the clear, the
-- session's address and the MTU, and nothing else of the key: two keys with the same front have the
-- same answer. Without a free address there is none. So it is where the system's random source
-- answers, with bytes.
pub handle_handshake-answer :
    (s : Server) (remote : ℕ) (id : Bytes) (noise : ℕ → ℕ) (now : ℕ)
    → ((i : ℕ) → noise i < 256)
    → (handle_handshake s remote id (some noise) now).1
      ≡ answer s remote (take 8 (random_bytes noise key_size)) (free s)
unfolding handle_handshake
handle_handshake-answer s remote id noise now bytes = go (free s) refl
  where
    starts : Server → ℕ → Session → Step
    starts s' r x = start_udp_session s' remote r x

    front : Bytes
    front = take 8 (random_bytes noise key_size)

    go :
        (xs : List Bytes)
        → free s ≡ xs
        → (handle_handshake s remote id (some noise) now).1 ≡ answer s remote front xs
    go [] e =
        ap (λ (r : SessionManager × Outcome CreateError ℕ). (created s r starts).1)
          (create_session-refused s.sessions id (some noise) now e)
    go (ip ∷ rest) e =
        let (session, made, at_ip, key, shown) = numbered id ip noise now bytes in
        let q : IpPool = allocated s.sessions.ip_pool ip rest in
        ap (λ (r : SessionManager × Outcome CreateError ℕ). (created s r starts).1)
          (create_session-takes s.sessions id ip q session noise now
            (allocate-first s.sessions.ip_pool ip rest e) made)
        ∙ ap (λ (step : Step). step.1)
            (created-found s (enter s.sessions id ip q session) s.sessions.next_ref session starts
              (deref-enter s.sessions id ip q session))
        ∙ start_udp_session-answer s (enter s.sessions id ip q session) remote s.sessions.next_ref
            session ip front rest shown at_ip
