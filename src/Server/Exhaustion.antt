-- ===== src/Server/Exhaustion.antt =====
-- server/internal/server/server.go: what handshakes without any proof do to the pool of addresses.
use ligend.Prelude.{
  ℕ, zero, suc, ◌≤◌, ◌≡◌, ◌≢◌, refl, sym, ap, ◌∙◌, Bool, true, false, List, [], ◌∷◌, Option, none,
  some, length, drop, ltb, ◌==◌, All, arith,
}
use mathlib.Core.Path.{subst}
use ligend.Prelude.Outcome.{Outcome, ok, Sat, Sat-then, ◌>>=◌}
use ligend.Prelude.Bytes.{Bytes, uint32}
use ligend.Prelude.Tables.{nat_keys, bytes_keys}
use ligend.Config.{Config}
use ligend.Crypto.{Aead, Entropy}
use ligend.Protocol.Frame.{Rng}
use ligend.Tunnel.Pool.{IpPool}
use ligend.Tunnel.Session.{Session, Write}
use ligend.Tunnel.Manager.{SessionManager, CreateError, enter, deref, store}
use ligend.Tunnel.Manager.Allocation.{
  new_session-made, allocated, allocate-first, create_session-refused, create_session-takes,
  deref-enter,
}
use ligend.Server.{
  Server, Step, closes, created, put_session, handle_handshake, start_udp_session,
  dispatch_transport, handle_transport, find_by_number, handle_datagram,
}
use ligend.Server.Datagrams.{handle_datagram-Sat}
use ligend.Server.Welcome.{start_client}

-- A datagram, its sender, and what the system's random source and clock answer then.
pub record Datagram : Type 0 where
  pub bytes : Bytes
  pub remote : ℕ
  pub listing : List ℕ
  pub session_id : Bytes
  pub noise : ℕ → ℕ
  pub now : ℕ

-- The rounds of `awgReadLoop`, one for each datagram.
abbrev pub receive_all : Aead → Server → List Datagram → Outcome ⊥ Server
receive_all aead s [] = ok s
receive_all aead s (d ∷ rest) = do
  (s', events) ← handle_datagram aead s d.bytes d.remote d.listing d.session_id (some d.noise) d.now
  receive_all aead s' rest

-- The datagram begins with H1; no more is asked of a handshake.
abbrev pub IsHandshake : ℕ → Datagram → Type 0
IsHandshake h1 d = (4 ≤ length d.bytes) × (uint32 {E = ⊥} d.bytes 0 ≡ ok h1)

abbrev pub free : Server → List Bytes
free s = s.sessions.ip_pool.available

-- Of the free addresses the first is taken.
abbrev Takes : Server → Server → Type 0
Takes s s' = (free s' ≡ drop 1 (free s)) × (s'.cfg ≡ s.cfg)

pub created-found :
    (s : Server) (sm : SessionManager) (r : ℕ) (session : Session) (k : Server → ℕ → Session → Step)
    → deref sm r ≡ some session
    → created s (sm, ok r) k ≡ k (record s { sessions = sm }) r session
created-found s sm r session k e = rw (e, created) refl

entered-Takes :
    (s : Server) (id ip : Bytes) (q : IpPool) (session : Session) (remote : ℕ)
    → q.available ≡ drop 1 (free s)
    → Takes s
        (start_udp_session
          (record s { sessions = enter s.sessions id ip q session })
          remote
          s.sessions.next_ref
          session).0
unfolding enter start_udp_session put_session store
entered-Takes s id ip q session remote e = (e, refl)

handle_handshake-Takes :
    (s : Server) (remote : ℕ) (id : Bytes) (noise : ℕ → ℕ) (now : ℕ)
    → Takes s (handle_handshake s remote id (some noise) now).0
unfolding handle_handshake
handle_handshake-Takes s remote id noise now = go (free s) refl
  where
    starts : Server → ℕ → Session → Step
    starts s' r x = start_udp_session s' remote r x

    go : (xs : List Bytes) → free s ≡ xs → Takes s (handle_handshake s remote id (some noise) now).0
    go [] e =
        subst (λ (r : SessionManager × Outcome CreateError ℕ). Takes s (created s r starts).0)
          (sym (create_session-refused s.sessions id (some noise) now e)) (rw e (refl, refl))
    go (ip ∷ rest) e =
        let (session, made) = new_session-made id ip noise now in
        let q : IpPool = allocated s.sessions.ip_pool ip rest in
        subst (λ (r : SessionManager × Outcome CreateError ℕ). Takes s (created s r starts).0)
          (sym (
            create_session-takes s.sessions id ip q session noise now
              (allocate-first s.sessions.ip_pool ip rest e) made))
          (subst (λ (step : Step). Takes s step.0)
            (sym (
              created-found s (enter s.sessions id ip q session) s.sessions.next_ref session starts
                (deref-enter s.sessions id ip q session)))
            (entered-Takes s id ip q session remote (rw e refl)))

handle_datagram-handshake :
    (aead : Aead) (cfg : Config) (s : Server) (d : Datagram)
    → s.cfg ≡ cfg
    → cfg.awgh1 ≢ cfg.awgh4
    → IsHandshake cfg.awgh1 d
    → handle_datagram aead s d.bytes d.remote d.listing d.session_id (some d.noise) d.now
      ≡ ok (handle_handshake s d.remote d.session_id (some d.noise) d.now)
unfolding handle_datagram
handle_datagram-handshake aead cfg s d e differ (long, begins) =
    let short : ltb (length d.bytes) 4 ≡ false = ground arith in
    let other : (cfg.awgh1 == cfg.awgh4) ≡ false = ground arith in
    let same : (cfg.awgh1 == cfg.awgh1) ≡ true = ground arith in
    simp (short, begins, e, other, same) refl

drop-drop_one : (n : ℕ) (xs : List Bytes) → drop n (drop 1 xs) ≡ drop (suc n) xs
drop-drop_one zero [] = refl
drop-drop_one (suc n) [] = refl
drop-drop_one n (x ∷ xs) = refl

drop-all : (n : ℕ) (xs : List Bytes) → length xs ≤ n → drop n xs ≡ []
drop-all zero [] h = refl
drop-all zero (x ∷ xs) h = absurd (omega arith)
drop-all (suc n) [] h = refl
drop-all (suc n) (x ∷ xs) h = drop-all n xs (omega arith)

-- So many handshakes take so many addresses.
abbrev Taken : ℕ → Server → Outcome ⊥ Server → Type 0
Taken n s m = (s' : Server) × (m ≡ ok s') × (free s' ≡ drop n (free s))

receive_all-Taken :
    (aead : Aead) (cfg : Config) (s : Server) (attack : List Datagram)
    → s.cfg ≡ cfg
    → cfg.awgh1 ≢ cfg.awgh4
    → All (IsHandshake cfg.awgh1) attack
    → Taken (length attack) s (receive_all aead s attack)
receive_all-Taken aead cfg s [] e differ hs = (s, refl, refl)
receive_all-Taken aead cfg s (d ∷ rest) e differ (h, hs) =
    let s₁ : Server = (handle_handshake s d.remote d.session_id (some d.noise) d.now).0 in
    let (taken, same) = handle_handshake-Takes s d.remote d.session_id d.noise d.now in
    let (s', received, left) = receive_all-Taken aead cfg s₁ rest (same ∙ e) differ hs in
    let begun : receive_all aead s (d ∷ rest) ≡ receive_all aead s₁ rest =
      rw (handle_datagram-handshake aead cfg s d e differ h) refl in
    (
      s',
      begun ∙ received,
      left ∙ ap (drop (length rest)) taken ∙ drop-drop_one (length rest) (free s),
    )

-- No address is free, and none becomes so by any datagrams; every client is hung up on.
abbrev pub IsExhausted : Aead → Server → Type 0
IsExhausted aead s =
    (free s ≡ [])
    × ((delivered : Write → Bool) (rng : Rng) (conn : ℕ) (id : Bytes) (entropy : Entropy) (now : ℕ)
        → start_client delivered rng s conn id entropy now ≡ ok (s, closes conn ∷ []))
    × ((later : List Datagram) → Sat (λ (s' : Server). free s' ≡ []) (receive_all aead s later))

-- What leaves the pool empty.
abbrev StaysEmpty : Step → Type 0
StaysEmpty step = free step.0 ≡ []

receive-StaysEmpty :
    (aead : Aead) (s : Server) (d : Datagram)
    → free s ≡ []
    → Sat StaysEmpty
        (handle_datagram aead s d.bytes d.remote d.listing d.session_id (some d.noise) d.now)
unfolding dispatch_transport handle_transport put_session store
receive-StaysEmpty aead s d e =
    handle_datagram-Sat StaysEmpty aead s d.bytes d.remote d.listing d.session_id (some d.noise)
      d.now e dispatched
      ((handle_handshake-Takes s d.remote d.session_id d.noise d.now).0 ∙ rw e refl)
  where
    by_session :
        (found : Option (ℕ × Session)) (number : ℕ)
        → find_by_number s.sessions number d.listing ≡ found
        → StaysEmpty (dispatch_transport aead s d.bytes d.remote d.now d.listing number)
    by_session none number f = rw (f, dispatch_transport) e
    by_session (some (r, session)) number f = rw (f, dispatch_transport) e

    dispatched :
        (number : ℕ)
        → StaysEmpty (dispatch_transport aead s d.bytes d.remote d.now d.listing number)
    dispatched number = by_session (find_by_number s.sessions number d.listing) number refl

receive_all-StaysEmpty :
    (aead : Aead) (s : Server) (later : List Datagram)
    → free s ≡ []
    → Sat (λ (s' : Server). free s' ≡ []) (receive_all aead s later)
receive_all-StaysEmpty aead s [] e = e
receive_all-StaysEmpty aead s (d ∷ rest) e =
    Sat-then (λ (s' : Server). free s' ≡ []) StaysEmpty
      (handle_datagram aead s d.bytes d.remote d.listing d.session_id (some d.noise) d.now) _
      (receive-StaysEmpty aead s d e) λ (s₁, events) e₁. receive_all-StaysEmpty aead s₁ rest e₁

start_client-refused :
    (delivered : Write → Bool) (rng : Rng) (s : Server) (conn : ℕ) (id : Bytes) (entropy : Entropy)
    (now : ℕ)
    → free s ≡ []
    → start_client delivered rng s conn id entropy now ≡ ok (s, closes conn ∷ [])
unfolding start_client
start_client-refused delivered rng s conn id entropy now e =
    rw (create_session-refused s.sessions id entropy now e) refl

-- As many datagrams as there are free addresses, of which nothing is asked but that they begin with
-- H1, exhaust a server whose H1 is not its H4, where the system's random source answers: no address is
-- free then, every client is hung up on, and no datagrams free an address.
pub receive_all-Exhausts :
    (aead : Aead) (s : Server) (attack : List Datagram)
    → s.cfg.awgh1 ≢ s.cfg.awgh4
    → All (IsHandshake s.cfg.awgh1) attack
    → length (free s) ≤ length attack
    → (s' : Server) × (receive_all aead s attack ≡ ok s') × IsExhausted aead s'
receive_all-Exhausts aead s attack differ hs enough =
    let (s', received, left) = receive_all-Taken aead s.cfg s attack refl differ hs in
    let e : free s' ≡ [] = left ∙ drop-all (length attack) (free s) enough in
    (
      s',
      received,
      (
        e,
        λ delivered rng conn id entropy now.
            start_client-refused delivered rng s' conn id entropy now e,
        λ later. receive_all-StaysEmpty aead s' later e,
      ),
    )
