-- ===== src/Server/Startup.antt =====
-- server/internal/server/server.go: how a server is made, starts to listen and moves to another address.
use ligend.Prelude.{
  ℕ, zero, suc, Bool, true, false, ◌||◌, Option, none, some, [], ◌∷◌, if◌then◌else◌, ◌==◌,
}
use ligend.Prelude.Outcome.{Outcome, ok, err, panic, ◌>>=◌, wrap_err}
use ligend.Prelude.Bytes.{Bytes}
use ligend.Config.{Config, KeyError, secret_key}
use ligend.Auth.{new_authenticator}
use ligend.Tunnel.Pool.{Network, PoolError, set_last}
use ligend.Tunnel.Manager.{new_session_manager}
use ligend.Tunnel.Device.{Command, TunDevice, NetLib, new_tun_device, setup_nat, cleanup_nat}
use ligend.Server.{Server, HttpServer}

pub data NewError : Type 0 where
  decode_secret_key : KeyError → NewError
  create_session_manager : PoolError → NewError

-- The first argument is `base64.StdEncoding.DecodeString`.
unfoldable pub new_server : (Bytes → Option Bytes) → Config → Outcome NewError Server
new_server decode_string cfg = do
  key ← wrap_err decode_secret_key (secret_key decode_string cfg)
  sessions ← wrap_err create_session_manager (new_session_manager cfg.vpn_subnet.parsed)
  ok (record {
    cfg = cfg;
    auth = new_authenticator key;
    sessions = sessions;
    nat_table = [];
    tun = none;
    http_server = none;
    start_returned = false;
    udp_conn = 0;
  })

pub data StartError : Type 0 where
  parse_subnet create_tun listen : StartError

abbrev pub new_http_server : Server → Bytes → Bool → HttpServer
new_http_server s addr awaited = record {
  addr = addr;
  web_socket_path = s.cfg.web_socket_path;
  awaited = awaited;
}

-- `ListenAndServe` returns at once if it cannot listen, and otherwise when the server is shut down.
abbrev pub serving : Bool → Server → Outcome StartError Server
serving true s = ok (record s { http_server = some (new_http_server s s.cfg.listen_addr true) })
serving false s = err listen

module _ {H : Type 0} (run_cmd : H → Command → H × Bool) where
  abbrev pub on_device : Bool → Server → H × Option TunDevice → H × Outcome StartError Server
  on_device listens s (h, none) = (h, err create_tun)
  on_device listens s (h, some dev) =
      ((setup_nat run_cmd h s.cfg.vpn_subnet.text).0, serving listens (record s { tun = some dev }))

  abbrev pub on_gateway :
      H → NetLib → Option Bytes → Bool → Server → Bytes → ℕ → H × Outcome StartError Server
  on_gateway h net opened listens s [] ones = (h, panic)
  on_gateway h net opened listens s (b ∷ bs) ones =
      on_device listens s
        (new_tun_device run_cmd h net opened (net.cidr_text (set_last (b ∷ bs) 1) ones) s.cfg.mtu)

  abbrev pub on_network :
      H → NetLib → Option Bytes → Bool → Server → Option Network → H × Outcome StartError Server
  on_network h net opened listens s none = (h, err parse_subnet)
  on_network h net opened listens s (some network) =
      on_gateway h net opened listens s network.ip network.ones

  -- Up to the point where the HTTP server listens. `opened` is the interface that is made for the
  -- configured name, and `listens` says whether the address can be listened at.
  unfoldable pub start : H → NetLib → Option Bytes → Bool → Server → H × Outcome StartError Server
  start h net opened listens s = on_network h net opened listens s s.cfg.vpn_subnet.parsed

-- The socket is there if the address resolves and can be listened at.
unfoldable pub start_awg_listener : Server → Option ℕ → Server
start_awg_listener s socket =
    if s.cfg.udp_port == 0
    then s
    else elim socket [ none ↦ s | some conn ↦ record s { udp_conn = conn } ]

-- `http.Server.Shutdown`: the call that serves returns at once.
abbrev pub ends_start : Bool → Option HttpServer → Bool
ends_start returned none = returned
ends_start returned (some http) = returned || http.awaited

abbrev pub http_shut_down : Server → Server
http_shut_down s = record s { start_returned = ends_start s.start_returned s.http_server }

-- The new HTTP server listens in a goroutine of its own.
unfoldable pub update_listen_addr : Server → Bytes → Server
update_listen_addr s new_addr =
    let s' = http_shut_down (record s { cfg = record s.cfg { listen_addr = new_addr } }) in
    record s' { http_server = some (new_http_server s' new_addr false) }

module _ {H : Type 0} (run_cmd : H → Command → H × Bool) where
  abbrev pub without_rules : H → Server → Option TunDevice → H
  without_rules h s none = h
  without_rules h s (some dev) = cleanup_nat run_cmd h s.cfg.vpn_subnet.text

  -- The first steps of `Shutdown`, so many as are executed before the program ends: the HTTP server,
  -- the UDP socket, and the rules of the firewall with the device.
  unfoldable pub shutdown : ℕ → H → Server → H × Server
  shutdown zero h s = (h, s)
  shutdown (suc zero) h s = (h, http_shut_down s)
  shutdown (suc (suc zero)) h s = (h, http_shut_down s)
  shutdown (suc (suc (suc n))) h s = (without_rules h s s.tun, http_shut_down s)
