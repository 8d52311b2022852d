-- ===== src/Boot/Running.antt =====
-- The program from its start on, while the panel answers requests: main.go.
use ligend.Prelude.{
  ℕ, ◌≡◌, ◌≢◌, ◌↔◌, refl, sym, ap, ◌⊎◌, ◌∙◌, inl, inr, Bool, true, false, Bool-cases, List, Option,
  some,
}
use ligend.Prelude.Outcome.{ok, panic, Returns-ok}
use ligend.Prelude.Bytes.{Bytes}
use ligend.Prelude.Texts.{ℤ}
use ligend.Config.{Config}
use ligend.Tunnel.Pool.{Network}
use ligend.Tunnel.Pool.Subnet.{host}
use ligend.Tunnel.Device.{Command, NetLib}
use ligend.Crypto.{Aead, Entropy, Lz4, Lz4Laws}
use ligend.Auth.{AuthLib}
use ligend.Server.{Server, handle_datagram}
use ligend.Server.Messages.{handle_message, handle_tun_packet}
use ligend.Server.Welcome.{start_client}
use ligend.Protocol.Shaping.{padding_delay}
use ligend.Protocol.Frame.{Rng}
use ligend.Tunnel.Session.{Session, Write}
use ligend.Server.Shutdown.{returned_awaited}
use ligend.Server.Outside.{SameOutside}
use ligend.Server.Reach.{Round, Round-IsManager}
use ligend.Server.Rounds.{Round-SameOutside}
use ligend.Server.Startup.{start, http_shut_down}
use ligend.Panel.Store.{Db}
use ligend.Panel.Tokens.{authorised}
use ligend.Panel.Clients.Ids.{Numbered}
use ligend.Panel.Requests.{Panel, Request, World, seconds, handle_request}
use ligend.Panel.Requests.Guarded.{handle_request-Harmless}
use ligend.Panel.Requests.Kept.{WellKept, PanelTurns, handle_request-Turns}
use ligend.Boot.{Boot, boot, Process, running, exited, unless_returned, next_process}
use ligend.Boot.Order.{Ready, boot-Assembled, Started, start-Started}

module _ (aead : Aead) (z : Lz4) (lib : AuthLib) where
  -- A goroutine that panics, at this state of the server: a client's, before or in its read loop or in
  -- its padding generator, or one that reads datagrams or the TUN device.
  pub data Crash (s : Server) : Type 0 where
    client_crashes :
        (delivered : Write → Bool) (rng : Rng) (conn : ℕ) (id : Bytes) (entropy : Entropy) (now : ℕ)
        → start_client delivered rng s conn id entropy now ≡ panic
        → Crash s
    message_crashes :
        (rng : Rng) (r : ℕ) (session : Session) (conn : ℕ) (message : Bytes) (now : ℕ)
        → handle_message z rng s r session conn message now ≡ panic
        → Crash s
    padding_crashes :
        (draw : ℕ) → padding_delay draw s.cfg.padding_min s.cfg.padding_max ≡ panic → Crash s
    datagram_crashes :
        (bytes : Bytes) (remote : ℕ) (listing : List ℕ) (id : Bytes) (entropy : Entropy) (now : ℕ)
        → handle_datagram aead s bytes remote listing id entropy now ≡ panic
        → Crash s
    packet_crashes :
        (entropy : Entropy) (rng : Rng) (packet : Bytes)
        → handle_tun_packet aead entropy rng s packet ≡ panic
        → Crash s

  -- A request to the panel is answered, or one of the server's goroutines does one round, or panics,
  -- which ends the program with status 2.
  pub data Progress : Process → Process → Type 0 where
    answers :
        (p : Panel) (w : World) (q : Request)
        → Progress (running p) (next_process (running p) (w, q))
    works :
        (p : Panel) (s' : Server)
        → Round aead z lib p.server s'
        → Progress (running p) (unless_returned s'.start_returned (record p { server = s' }))
    breaks_down : (p : Panel) → Crash p.server → Progress (running p) (exited 2)

  pub data Runs (first : Process) : Process → Type 0 where
    set_out : Runs first first
    goes_on : {now later : Process} → Runs first now → Progress now later → Runs first later

  -- What a program is whose panel started at `path` and `addr`.
  abbrev pub Kept : Process → Bytes → Bytes → Process → Type 0
  Kept first path addr (running p) = WellKept path p × (p.server.cfg.listen_addr ≡ addr)
  Kept first path addr (exited status) =
      (status ≡ 1) ⊎ ((status ≡ 2) × (p : Panel) × Runs first (running p) × Crash p.server)

  unless_returned-Kept :
      (first : Process) (path addr : Bytes) (p p' : Panel) (returned : Bool)
      → p'.server.start_returned ≡ returned
      → p.server.cfg.listen_addr ≡ addr
      → PanelTurns path p p'
      → Kept first path addr (unless_returned returned p')
  unless_returned-Kept first path addr p p' true e same turns = inl refl
  unless_returned-Kept first path addr p p' false e same (inl (k, stays), n) =
      ((k, n), stays ∙ same)
  unless_returned-Kept first path addr p p' false e same (inr (ended, moved), n) = absurd (cc)

  works-Kept :
      (first : Process) (path addr : Bytes) (p : Panel) (s' : Server)
      → Lz4Laws z
      → Round aead z lib p.server s'
      → Kept first path addr (running p)
      → Kept first path addr (unless_returned s'.start_returned (record p { server = s' }))
  works-Kept first path addr p s' laws m (((there, up, v), n), same) =
      by_end s'.start_returned refl (Round-SameOutside aead z lib p.server s' laws m)
    where
      by_end :
          (returned : Bool)
          → s'.start_returned ≡ returned
          → SameOutside p.server s' ⊎ (s' ≡ http_shut_down p.server)
          → Kept first path addr (unless_returned returned (record p { server = s' }))
      by_end true e how = inl refl
      by_end false e (inl (cfg, http, returned)) = (
        (
          (
            http
                ∙ there
                ∙ ap
                    (λ (c : Config).
                      some
                        (record { addr = c.listen_addr; web_socket_path = path; awaited = true }))
                    (sym cfg),
            e,
            Round-IsManager aead z lib p.server s' laws m v,
          ),
          n,
        ),
        ap (λ (c : Config). c.listen_addr) cfg ∙ same,
      )
      by_end false e (inr down) =
          let ended : s'.start_returned ≡ true =
            ap (λ (x : Server). x.start_returned) down
            ∙ returned_awaited p.server.start_returned p.server.http_server p.server.cfg.listen_addr
                path there in
          absurd (cc (e, ended))

  Progress-Kept :
      (first : Process) (path addr : Bytes) (now later : Process)
      → Lz4Laws z
      → Runs first now
      → Progress now later
      → Kept first path addr now
      → Kept first path addr later
  unfolding next_process
  Progress-Kept first path addr _ _ laws run (answers p w q) (k, same) =
      unless_returned-Kept first path addr p (handle_request w p q).0 _ refl same
        (handle_request-Turns path w p q k)
  Progress-Kept first path addr _ _ laws run (works p s' m) kept =
      works-Kept first path addr p s' laws m kept
  Progress-Kept first path addr _ _ laws run (breaks_down p crash) kept = inr (refl, p, run, crash)

  Runs-Kept :
      (path addr : Bytes) (first last : Process)
      → Lz4Laws z
      → Kept first path addr first
      → Runs first last
      → Kept first path addr last
  Runs-Kept path addr first _ laws kept set_out = kept
  Runs-Kept path addr first _ laws kept (goes_on {now} {later} run m) =
      Progress-Kept first path addr now later laws run m
        (Runs-Kept path addr first now laws kept run)

-- From the start of the program on, on an IPv4 subnet and a database whose keys have ascending ids:
-- whatever requests the panel answers, with or without a token, among whatever rounds of the server's
-- goroutines, also ones that panic, the program has ended with status 1, or with status 2 by the panic
-- of a goroutine at a state that the run came to before, or its server listens at the address and takes
-- clients at the path of the configuration that it started with, the address is still the configured
-- one, the sessions agree with one another, and the ids of the clients' keys ascend; for any LZ4 that
-- keeps its documentation.
pub boot-Kept :
    {H : Type 0} (run_cmd : H → Command → H × Bool) (h h' : H) (net : NetLib)
    (opened : Option Bytes) (listens : Bool) (b : Boot) (db : Db) (cfg : Config) (network : Network)
    (a₁ a₂ a₃ a₄ : ℕ) (p : Panel) (port : ℤ) (s : Server) (aead : Aead) (z : Lz4) (lib : AuthLib)
    (last : Process)
    → b.file ≡ some cfg
    → cfg.vpn_subnet.parsed ≡ some network
    → network.ip ≡ host a₁ a₂ a₃ a₄
    → Numbered db
    → boot b db ≡ ok (p, port)
    → start run_cmd h net opened listens p.server ≡ (h', ok s)
    → Lz4Laws z
    → Runs aead z lib (running (record p { server = s })) last
    → Kept aead z lib
        (running (record p { server = s }))
        p.server.cfg.web_socket_path
        p.server.cfg.listen_addr
        last
boot-Kept run_cmd h h' net opened listens b db cfg network a₁ a₂ a₃ a₄ p port s aead z lib last file
      parsed is_v4 n booted started laws run =
    let (v, numbered) =
      Returns-ok Ready (boot b db) (p, port)
        (boot-Assembled network a₁ a₂ a₃ a₄ is_v4 b cfg db file parsed n) booted in
    let (k, same) =
      Returns-ok (Started p.server) (start run_cmd h net opened listens p.server).1 s
        (start-Started run_cmd p.server v h net opened listens) (rw started refl) in
    Runs-Kept aead z lib p.server.cfg.web_socket_path p.server.cfg.listen_addr
      (running (record p { server = s })) last laws ((k, numbered), rw same refl) run

exits :
    (path : Bytes) (p p' : Panel) (returned : Bool)
    → p'.server.start_returned ≡ returned
    → PanelTurns path p p'
    → (unless_returned returned p' ≡ exited 1)
      ↔ (p'.server.cfg.listen_addr ≢ p.server.cfg.listen_addr)
exits path p p' true e (inl ((there, up, v), stays), n) = absurd (cc)
exits path p p' true e (inr (ended, moved), n) = (λ _. moved, λ _. refl)
exits path p p' false e (inl (k, stays), n) = (λ x. absurd (cc), λ moved. absurd (moved stays))
exits path p p' false e (inr (ended, moved), n) = absurd (cc)

-- A request ends the program exactly if it changes the address at which the VPN server listens: the
-- server that `Start` waits for is shut down then. Only a request with an accepted token does so.
pub next_process-exits :
    (path : Bytes) (w : World) (p : Panel) (q : Request)
    → WellKept path p
    → ((next_process (running p) (w, q) ≡ exited 1)
        ↔ ((handle_request w p q).0.server.cfg.listen_addr ≢ p.server.cfg.listen_addr))
      × (next_process (running p) (w, q) ≡ exited 1
          → authorised w.lib p.jwt_secret (seconds w) q.auth_header ≡ true)
unfolding next_process
next_process-exits path w p q k = (
  ends,
  λ e. elim (Bool-cases (authorised w.lib p.jwt_secret (seconds w) q.auth_header)) [
    | inl accepted ↦ accepted
    | inr denied ↦ absurd (ends.0 e (rw ((handle_request-Harmless w p q denied).0) refl))
  ],
)
  where
    ends :
        (next_process (running p) (w, q) ≡ exited 1)
        ↔ ((handle_request w p q).0.server.cfg.listen_addr ≢ p.server.cfg.listen_addr)
    ends = exits path p (handle_request w p q).0 _ refl (handle_request-Turns path w p q k)
