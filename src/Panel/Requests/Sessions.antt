-- ===== src/Panel/Requests/Sessions.antt =====
-- The panel's requests leave the VPN server's sessions alone.
use ligend.Prelude.{◌≡◌, refl, Bool-cases, inl, inr, [], ◌∷◌, Option, none, some}
use ligend.Prelude.Bytes.{Bytes}
use ligend.Prelude.Tables.{bytes_eq}
use ligend.Server.{Server}
use ligend.Server.Startup.{update_listen_addr}
use ligend.Panel.Http.{Method, get, post, put, delete, options, other}
use ligend.Panel.Settings.{
  ProtocolConfig, handle_protocol, ConfigUpdate, with_colon, changed_addr, changed_config,
  handle_server_config,
}
use ligend.Panel.Routes.{
  Handler, server_config, protocol, Served, preflight, refused, missing, handled, serve,
}
use ligend.Panel.Requests.{Panel, World, Request, seconds, run_handler, reply_to, handle_request}

changed_addr-sessions : (s : Server) (addr : Bytes) → (changed_addr s addr).sessions ≡ s.sessions
unfolding changed_addr update_listen_addr
changed_addr-sessions s [] = refl
changed_addr-sessions s (c ∷ cs) =
    elim (Bool-cases (bytes_eq (with_colon (c ∷ cs)) s.cfg.listen_addr)) [
      | inl same ↦ rw same refl
      | inr differs ↦ rw differs refl
    ]

handle_server_config-sessions :
    (s : Server) (method : Method) (body : Option ConfigUpdate)
    → (handle_server_config s method body).0.sessions ≡ s.sessions
unfolding handle_server_config changed_config
handle_server_config-sessions s put (some u) = changed_addr-sessions s u.listen_addr
handle_server_config-sessions s put none = refl
handle_server_config-sessions s get body = refl
handle_server_config-sessions s post body = refl
handle_server_config-sessions s delete body = refl
handle_server_config-sessions s options body = refl
handle_server_config-sessions s other body = refl

handle_protocol-sessions :
    (s : Server) (method : Method) (body : Option ProtocolConfig)
    → (handle_protocol s method body).0.sessions ≡ s.sessions
unfolding handle_protocol
handle_protocol-sessions s put (some p) = refl
handle_protocol-sessions s put none = refl
handle_protocol-sessions s get body = refl
handle_protocol-sessions s post body = refl
handle_protocol-sessions s delete body = refl
handle_protocol-sessions s options body = refl
handle_protocol-sessions s other body = refl

run_handler-sessions :
    (w : World) (p : Panel) (q : Request) (h : Handler)
    → (run_handler w p q h).0.server.sessions ≡ p.server.sessions
run_handler-sessions w p q server_config =
    handle_server_config-sessions p.server q.method q.config_body
run_handler-sessions w p q protocol = handle_protocol-sessions p.server q.method q.protocol_body
run_handler-sessions w p q h = refl

reply_to-sessions :
    (w : World) (p : Panel) (q : Request) (v : Served)
    → (reply_to w p q v).0.server.sessions ≡ p.server.sessions
reply_to-sessions w p q preflight = refl
reply_to-sessions w p q refused = refl
reply_to-sessions w p q missing = refl
reply_to-sessions w p q (handled h) = run_handler-sessions w p q h

pub handle_request-sessions :
    (w : World) (p : Panel) (q : Request)
    → (handle_request w p q).0.server.sessions ≡ p.server.sessions
unfolding handle_request
handle_request-sessions w p q =
    reply_to-sessions w p q (serve w.lib p.jwt_secret (seconds w) q.method q.path q.auth_header)
