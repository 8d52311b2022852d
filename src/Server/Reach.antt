-- ===== src/Server/Reach.antt =====
-- server/internal/server/server.go: the states of a running server, over every order of its goroutines'
-- rounds. A round that draws a session's name draws one that is not taken.
use ligend.Prelude.{ℕ, ◌≡◌, refl, Bool, List, Option, none, some, [], ◌∷◌, arith}
use ligend.Prelude.Outcome.{ok, Sat-ok, Returns-ok}
use ligend.Prelude.Bytes.{Bytes}
use ligend.Prelude.Tables.{bytes_keys, nat_keys}
use ligend.Crypto.{Aead, Lz4, Lz4Laws, Entropy}
use ligend.Auth.{AuthLib, Clock}
use ligend.Protocol.Frame.{Rng}
use ligend.Tunnel.Session.{Session, Write}
use ligend.Tunnel.Manager.{deref, get_session}
use ligend.Tunnel.Manager.Invariant.{IsManager}
use ligend.Server.{Server, Step, Event, handle_datagram}
use ligend.Server.Messages.{cleanup_session, kick_session, handle_message, handle_tun_packet}
use ligend.Server.Welcome.{start_client, handle_web_socket}
use ligend.Server.Startup.{start_awg_listener, http_shut_down}
use ligend.Panel.Requests.{Panel, World, Request, handle_request}
use ligend.Panel.Requests.Sessions.{handle_request-sessions}
use ligend.Server.Clients.{handle_message-Serves}
use ligend.Server.Isolation.{OnlySession-IsManager}
use ligend.Server.Steps.{
  cleanup_session-Keeps, kick_session-Keeps, handle_datagram-Keeps, handle_tun_packet-Keeps,
}
use ligend.Server.Admission.{start_client-Agrees}

module _ (aead : Aead) (z : Lz4) (lib : AuthLib) where
  -- One round of one goroutine. A clean-up may come late, for a session that is gone already.
  pub data Round : Server → Server → Type 0 where
    reads_message :
        (s s' : Server) (rng : Rng) (r : ℕ) (session : Session) (conn : ℕ) (message : Bytes)
        (now : ℕ) (events : List Event)
        → deref s.sessions r ≡ some session
        → handle_message z rng s r session conn message now ≡ ok (s', events)
        → Round s s'
    reads_datagram :
        (s s' : Server) (bytes : Bytes) (remote : ℕ) (listing : List ℕ) (id : Bytes)
        (entropy : Entropy) (now : ℕ) (events : List Event)
        → get_session s.sessions id ≡ none
        → handle_datagram aead s bytes remote listing id entropy now ≡ ok (s', events)
        → Round s s'
    reads_packet :
        (s s' : Server) (entropy : Entropy) (rng : Rng) (packet : Bytes) (events : List Event)
        → handle_tun_packet aead entropy rng s packet ≡ ok (s', events)
        → Round s s'
    answers_request :
        (s : Server) (clock : Clock) (request_id timestamp nonce : Bytes) (upgraded : Bool)
        → Round s ((handle_web_socket lib s clock request_id timestamp nonce upgraded).0)
    starts_client :
        (s s' : Server) (delivered : Write → Bool) (rng : Rng) (conn : ℕ) (id : Bytes)
        (entropy : Entropy) (now : ℕ) (events : List Event)
        → get_session s.sessions id ≡ none
        → start_client delivered rng s conn id entropy now ≡ ok (s', events)
        → Round s s'
    cleans_up : (s : Server) (session : Session) → Round s (cleanup_session s session)
    kicks : (s : Server) (id : Bytes) → Round s ((kick_session s id).0)
    listens : (s : Server) (socket : Option ℕ) → Round s (start_awg_listener s socket)
    shuts_down : (s : Server) → Round s (http_shut_down s)

  -- A request to the panel takes its turn among these rounds, whatever else the panel is.
  pub data Reach (first : Server) : Server → Type 0 where
    here : Reach first first
    next : {s s' : Server} → Reach first s → Round s s' → Reach first s'
    administers :
        {s : Server}
        → Reach first s
        → (w : World) (p : Panel) (q : Request) → p.server ≡ s
        → Reach first (handle_request w p q).0.server

  handle_web_socket-sessions :
      (s : Server) (clock : Clock) (request_id timestamp nonce : Bytes) (upgraded : Bool)
      → (handle_web_socket lib s clock request_id timestamp nonce upgraded).0.sessions ≡ s.sessions
  unfolding handle_web_socket
  handle_web_socket-sessions s clock [] timestamp nonce upgraded = refl
  handle_web_socket-sessions s clock (c ∷ cs) [] nonce upgraded = refl
  handle_web_socket-sessions s clock (c ∷ cs) (t ∷ ts) [] upgraded = refl
  handle_web_socket-sessions s clock (c ∷ cs) (t ∷ ts) (n ∷ ns) upgraded = refl

  start_awg_listener-sessions :
      (s : Server) (socket : Option ℕ) → (start_awg_listener s socket).sessions ≡ s.sessions
  unfolding start_awg_listener
  start_awg_listener-sessions s none = ground arith
  start_awg_listener-sessions s (some conn) = ground arith

  pub Round-IsManager :
      (s s' : Server) → Lz4Laws z → Round s s' → IsManager s.sessions → IsManager s'.sessions
  Round-IsManager _ _ laws (reads_message s s' rng r session conn message now events held e) v =
      OnlySession-IsManager r session s s' held
        (Sat-ok _ (handle_message z rng s r session conn message now) (s', events)
          (handle_message-Serves z rng s r session conn message now laws held) e)
        v
  Round-IsManager _ _ laws (reads_datagram s s' bytes remote listing id entropy now events new e)
        v =
      Sat-ok (λ (step : Step). IsManager (step.0).sessions)
        (handle_datagram aead s bytes remote listing id entropy now) (s', events)
        (handle_datagram-Keeps aead s bytes remote listing id entropy now v new) e
  Round-IsManager _ _ laws (reads_packet s s' entropy rng packet events e) v =
      Sat-ok (λ (step : Step). IsManager (step.0).sessions)
        (handle_tun_packet aead entropy rng s packet) (s', events)
        (handle_tun_packet-Keeps aead entropy rng s packet v) e
  Round-IsManager _ _ laws (answers_request s clock request_id timestamp nonce upgraded) v =
      rw (handle_web_socket-sessions s clock request_id timestamp nonce upgraded) v
  Round-IsManager _ _ laws (starts_client s s' delivered rng conn id entropy now events new e) v =
      Returns-ok (λ (step : Step). IsManager (step.0).sessions)
        (start_client delivered rng s conn id entropy now) (s', events)
        (start_client-Agrees delivered rng s conn id entropy now v new) e
  Round-IsManager _ _ laws (cleans_up s session) v = cleanup_session-Keeps s session v
  Round-IsManager _ _ laws (kicks s id) v = kick_session-Keeps s id v
  Round-IsManager _ _ laws (listens s socket) v = rw (start_awg_listener-sessions s socket) v
  Round-IsManager _ _ laws (shuts_down s) v = v

  pub Reach-IsManager :
      (first s : Server)
      → Lz4Laws z
      → IsManager first.sessions
      → Reach first s
      → IsManager s.sessions
  Reach-IsManager first _ laws v here = v
  Reach-IsManager first _ laws v (next {s} {s'} r m) =
      Round-IsManager s s' laws m (Reach-IsManager first s laws v r)
  Reach-IsManager first _ laws v (administers {s} r w p q e) =
      let held : IsManager p.server.sessions = rw e (Reach-IsManager first s laws v r) in
      rw (handle_request-sessions w p q) held
