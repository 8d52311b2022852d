-- ===== src/Panel/Requests/Kept.antt =====
-- What every request to the panel keeps: server/internal/panel.
use ligend.Prelude.{
  ◌≡◌, ◌≢◌, ◌⊎◌, refl, inl, inr, true, false, Bool-cases, [], ◌∷◌, Option, none, some,
}
use ligend.Prelude.Bytes.{Bytes}
use ligend.Prelude.Tables.{bytes_eq, bytes_eq_iff}
use ligend.Tunnel.Manager.Invariant.{IsManager}
use ligend.Server.{Server}
use ligend.Server.Startup.{update_listen_addr}
use ligend.Panel.Http.{Method, get, post, put, delete, options, other}
use ligend.Panel.Settings.{
  ProtocolConfig, changed_protocol, handle_protocol, ConfigUpdate, with_colon, changed_addr,
  changed_config, handle_server_config,
}
use ligend.Panel.Clients.Ids.{Numbered}
use ligend.Panel.Clients.Keys.{handle_clients-Numbered}
use ligend.Panel.Routes.{
  Handler, server_config, clients, protocol, Served, preflight, refused, missing, handled, serve,
}
use ligend.Panel.Requests.{
  Panel, Request, World, seconds, surroundings, run_handler, reply_to, handle_request,
}

-- `Start` waits for the HTTP server, which listens at the configured address and takes clients at
-- `path`, and the sessions agree with one another.
abbrev pub InOrder : Bytes → Server → Type 0
InOrder path s =
    (s.http_server
      ≡ some (record { addr = s.cfg.listen_addr; web_socket_path = path; awaited = true }))
    × (s.start_returned ≡ false)
    × IsManager s.sessions

-- So it is with the panel's server, and no id of a client's key stands twice.
abbrev pub WellKept : Bytes → Panel → Type 0
WellKept path p = InOrder path p.server × Numbered p.db

-- What a handler of the panel does to the server: all is in order as before, at the same address, or
-- `Start` has returned and the address is another one.
abbrev pub Turns : Bytes → Server → Server → Type 0
Turns path s s' =
    (InOrder path s' × (s'.cfg.listen_addr ≡ s.cfg.listen_addr))
    ⊎ ((s'.start_returned ≡ true) × (s'.cfg.listen_addr ≢ s.cfg.listen_addr))

changed_addr-Turns :
    (path : Bytes) (s : Server) (addr : Bytes) → InOrder path s → Turns path s (changed_addr s addr)
unfolding changed_addr update_listen_addr
changed_addr-Turns path s [] k = inl (k, refl)
changed_addr-Turns path s (c ∷ cs) (there, up, v) =
    elim (Bool-cases (bytes_eq (with_colon (c ∷ cs)) s.cfg.listen_addr)) [
      | inl same ↦
          let e : with_colon (c ∷ cs) ≡ s.cfg.listen_addr =
            (bytes_eq_iff (with_colon (c ∷ cs)) s.cfg.listen_addr).0 same in
          rw same (inl ((rw e there, up, v), e))
      | inr differs ↦ rw differs (
          inr (
            rw (there, up) refl,
            λ e.
                let same : bytes_eq (with_colon (c ∷ cs)) s.cfg.listen_addr ≡ true =
                  (bytes_eq_iff (with_colon (c ∷ cs)) s.cfg.listen_addr).1 e in
                cc,
          ))
    ]

handle_server_config-Turns :
    (path : Bytes) (s : Server) (method : Method) (body : Option ConfigUpdate)
    → InOrder path s
    → Turns path s (handle_server_config s method body).0
unfolding handle_server_config changed_config
handle_server_config-Turns path s put (some u) k = changed_addr-Turns path s u.listen_addr k
handle_server_config-Turns path s put none k = inl (k, refl)
handle_server_config-Turns path s get body k = inl (k, refl)
handle_server_config-Turns path s post body k = inl (k, refl)
handle_server_config-Turns path s delete body k = inl (k, refl)
handle_server_config-Turns path s options body k = inl (k, refl)
handle_server_config-Turns path s other body k = inl (k, refl)

handle_protocol-Turns :
    (path : Bytes) (s : Server) (method : Method) (body : Option ProtocolConfig)
    → InOrder path s
    → Turns path s (handle_protocol s method body).0
unfolding handle_protocol changed_protocol
handle_protocol-Turns path s put (some p) k = inl (k, refl)
handle_protocol-Turns path s put none k = inl (k, refl)
handle_protocol-Turns path s get body k = inl (k, refl)
handle_protocol-Turns path s post body k = inl (k, refl)
handle_protocol-Turns path s delete body k = inl (k, refl)
handle_protocol-Turns path s options body k = inl (k, refl)
handle_protocol-Turns path s other body k = inl (k, refl)

-- The same of the panel, whose keys stay in order.
abbrev pub PanelTurns : Bytes → Panel → Panel → Type 0
PanelTurns path p p' = Turns path p.server p'.server × Numbered p'.db

run_handler-Turns :
    (path : Bytes) (w : World) (p : Panel) (q : Request) (h : Handler)
    → WellKept path p
    → PanelTurns path p (run_handler w p q h).0
run_handler-Turns path w p q server_config (k, n) =
    (handle_server_config-Turns path p.server q.method q.config_body k, n)
run_handler-Turns path w p q protocol (k, n) =
    (handle_protocol-Turns path p.server q.method q.protocol_body k, n)
run_handler-Turns path w p q clients (k, n) =
    (inl (k, refl), handle_clients-Numbered (surroundings w p) p.db q.method q.path q.client_body n)
run_handler-Turns path w p q h (k, n) = (inl (k, refl), n)

reply_to-Turns :
    (path : Bytes) (w : World) (p : Panel) (q : Request) (v : Served)
    → WellKept path p
    → PanelTurns path p (reply_to w p q v).0
reply_to-Turns path w p q preflight (k, n) = (inl (k, refl), n)
reply_to-Turns path w p q refused (k, n) = (inl (k, refl), n)
reply_to-Turns path w p q missing (k, n) = (inl (k, refl), n)
reply_to-Turns path w p q (handled h) k = run_handler-Turns path w p q h k

pub handle_request-Turns :
    (path : Bytes) (w : World) (p : Panel) (q : Request)
    → WellKept path p
    → PanelTurns path p (handle_request w p q).0
unfolding handle_request
handle_request-Turns path w p q k =
    reply_to-Turns path w p q (serve w.lib p.jwt_secret (seconds w) q.method q.path q.auth_header) k
