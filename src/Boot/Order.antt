-- ===== src/Boot/Order.antt =====
-- The panel and its server from the start of the program on: main.go.
use ligend.Prelude.{ℕ, zero, ◌≡◌, refl, Bool, true, false, [], ◌∷◌, Option, none, some}
use ligend.Prelude.Outcome.{
  Outcome, ok, err, panic, ◌>>=◌, wrap_err, Returns, Returns-ok, Returns-then, Returns-wrap_err,
  Returns-any, anything,
}
use ligend.Prelude.Bytes.{Bytes}
use ligend.Prelude.Tables.{lookup, bytes_keys}
use ligend.Prelude.Texts.{ℤ, pos, codes}
use ligend.Config.{Config, secret_key}
use ligend.Tunnel.Pool.{Network}
use ligend.Tunnel.Pool.Subnet.{host}
use ligend.Tunnel.Manager.Invariant.{IsManager}
use ligend.Server.{Server}
use ligend.Tunnel.Manager.{new_session_manager}
use ligend.Tunnel.Device.{Command, TunDevice, NetLib, new_tun_device}
use ligend.Tunnel.Pool.{set_last}
use ligend.Server.Startup.{
  new_server, NewError, start, serving, on_device, on_gateway, on_network, decode_secret_key,
  create_session_manager,
}
use ligend.Server.Safety.{new_server-IsManager}
use ligend.Panel.Logs.{add, new_log_buffer}
use ligend.Panel.Store.{
  Db, DbError, Bcrypt, get_panel_config, init_schema, with_admin, set_panel_config, inserted,
}
use ligend.Panel.Tokens.{TokenLib, failed_query, new_auth, secret_of, stored_secret}
use ligend.Panel.Clients.Ids.{Numbered}
use ligend.Panel.Requests.{Panel, new_panel}
use ligend.Panel.Requests.Kept.{InOrder}
use ligend.Boot.{
  Boot, boot, invalid_secret_key, create_server, create_database, create_panel, panel_port,
  saved_port, drawn_port, db_or_old,
}

set_panel_config-Numbered :
    (answers : Bool) (db : Db) (key value : Bytes)
    → Numbered db
    → Returns Numbered (set_panel_config answers db key value)
unfolding set_panel_config
set_panel_config-Numbered true db key value n = n
set_panel_config-Numbered false db key value n = tt

init_schema-Numbered :
    (lib : Bcrypt) (answers : Bool) (salt : Bytes) (db : Db)
    → Numbered db
    → Returns Numbered (init_schema lib answers salt db)
unfolding init_schema
init_schema-Numbered lib false salt db n = tt
init_schema-Numbered lib true salt db n = by_user (lookup (codes "admin") db.admin_users)
  where
    by_insert :
        (hash : Bytes) (old : Option Bytes)
        → Returns Numbered (inserted db (codes "admin") hash old)
    by_insert hash none = n
    by_insert hash (some h) = tt

    by_user : (found : Option Bytes) → Returns Numbered (with_admin lib salt db found)
    by_user (some h) = n
    by_user none = by_insert _ (lookup (codes "admin") db.admin_users)

db_or_old-Numbered :
    (db : Db) (m : Outcome DbError Db)
    → Numbered db
    → Returns Numbered m
    → Numbered (db_or_old db m)
db_or_old-Numbered db (ok db') n h = h
db_or_old-Numbered db (err e) n h = n
db_or_old-Numbered db panic n h = n

drawn_port-Numbered :
    (answers : Bool) (db : Db) (draw : ℕ) (port : ℤ)
    → Numbered db
    → Numbered (drawn_port answers db draw port).1
drawn_port-Numbered answers db draw (pos zero) n =
    db_or_old-Numbered db _ n (set_panel_config-Numbered answers db (codes "panel_port") _ n)
drawn_port-Numbered answers db draw port n = n

panel_port-Numbered :
    (flag : ℤ) (answers : Bool) (db : Db) (draw : ℕ)
    → Numbered db
    → Numbered (panel_port flag answers db draw).1
unfolding panel_port
panel_port-Numbered (pos zero) answers db draw n =
    drawn_port-Numbered answers db draw
      (saved_port (get_panel_config answers db (codes "panel_port"))) n
panel_port-Numbered flag answers db draw n = n

-- Before `Start`, as after `New`.
abbrev pub Running : Server → Type 0
Running s = IsManager s.sessions × (s.start_returned ≡ false)

-- All is in order at the address and the path of the configuration that the server starts with.
abbrev pub Started : Server → Server → Type 0
Started s s' = InOrder s.cfg.web_socket_path s' × (s'.cfg ≡ s.cfg)

module _ {H : Type 0} (run_cmd : H → Command → H × Bool) (s : Server) (v : Running s) where
  serving-Started :
      (listens : Bool) (dev : TunDevice)
      → Returns (Started s) (serving listens (record s { tun = some dev }))
  serving-Started true dev = ((refl, v.1, v.0), refl)
  serving-Started false dev = tt

  on_device-Started :
      (listens : Bool) (m : H × Option TunDevice)
      → Returns (Started s) (on_device run_cmd listens s m).1
  on_device-Started listens (h, none) = tt
  on_device-Started listens (h, some dev) = serving-Started listens dev

  on_gateway-Started :
      (h : H) (net : NetLib) (opened : Option Bytes) (listens : Bool) (ip : Bytes) (ones : ℕ)
      → Returns (Started s) (on_gateway run_cmd h net opened listens s ip ones).1
  on_gateway-Started h net opened listens [] ones = tt
  on_gateway-Started h net opened listens (b ∷ bs) ones =
      on_device-Started listens
        (new_tun_device run_cmd h net opened (net.cidr_text (set_last (b ∷ bs) 1) ones) s.cfg.mtu)

  on_network-Started :
      (h : H) (net : NetLib) (opened : Option Bytes) (listens : Bool) (network : Option Network)
      → Returns (Started s) (on_network run_cmd h net opened listens s network).1
  on_network-Started h net opened listens none = tt
  on_network-Started h net opened listens (some network) =
      on_gateway-Started h net opened listens network.ip network.ones

  pub start-Started :
      (h : H) (net : NetLib) (opened : Option Bytes) (listens : Bool)
      → Returns (Started s) (start run_cmd h net opened listens s).1
  unfolding start
  start-Started h net opened listens =
      on_network-Started h net opened listens s.cfg.vpn_subnet.parsed

-- The parts of a panel agree before its server has started.
abbrev pub Assembled : Panel → Type 0
Assembled p = Running p.server × Numbered p.db

secret_of-Numbered :
    (lib : TokenLib) (entropy : Option Bytes) (answers : Bool) (db : Db) (text : Bytes)
    → Numbered db
    → Returns (λ (r : Bytes × Db). Numbered r.1) (secret_of lib entropy answers db text)
secret_of-Numbered lib none answers db [] n = tt
secret_of-Numbered lib (some secret) answers db [] n =
    Returns-then Numbered (λ (r : Bytes × Db). Numbered r.1) _ _
      (Returns-wrap_err Numbered failed_query _
        (set_panel_config-Numbered answers db (codes "jwt_secret") (lib.to_hex secret) n))
      (λ db' n'. n')
secret_of-Numbered lib entropy answers db (c ∷ cs) n = by_stored (lib.from_hex (c ∷ cs))
  where
    by_stored :
        (stored : Option Bytes)
        → Returns
            (λ (r : Bytes × Db). Numbered r.1)
            (do secret ← stored_secret stored; ok (secret, db))
    by_stored none = tt
    by_stored (some secret) = n

abbrev pub Ready : Panel × ℤ → Type 0
Ready r = Assembled r.0

new_panel-Assembled :
    (lib : TokenLib) (entropy : Option Bytes) (answers : Bool) (db : Db) (server : Server)
    (time : Bytes)
    → Running server
    → Numbered db
    → Returns Assembled (new_panel lib entropy answers db server time)
unfolding new_panel new_auth add new_log_buffer
new_panel-Assembled lib entropy answers db server time v n =
    Returns-then (λ (r : Bytes × Db). Numbered r.1) Assembled (new_auth lib entropy answers db) _
      (Returns-then (λ (text : Bytes). Unit {0}) (λ (r : Bytes × Db). Numbered r.1) _ _ (anything _)
        (λ text _. secret_of-Numbered lib entropy answers db text n))
      (λ r n'. (v, n'))

abbrev NotReturned : Server → Type 0
NotReturned s = s.start_returned ≡ false

new_server-NotReturned :
    (decode_string : Bytes → Option Bytes) (cfg : Config)
    → Returns NotReturned (new_server decode_string cfg)
unfolding new_server
new_server-NotReturned decode_string cfg =
    Returns-any NotReturned (wrap_err decode_secret_key (secret_key decode_string cfg)) _ λ key.
      Returns-any NotReturned
        (wrap_err create_session_manager (new_session_manager cfg.vpn_subnet.parsed)) _
        λ sessions. refl

module _ (network : Network) (a₁ a₂ a₃ a₄ : ℕ) (is_v4 : network.ip ≡ host a₁ a₂ a₃ a₄) where
  new_server-Returns :
      (decode_string : Bytes → Option Bytes) (cfg : Config)
      → cfg.vpn_subnet.parsed ≡ some network
      → Returns Running (new_server decode_string cfg)
  new_server-Returns decode_string cfg parsed = by_result (new_server decode_string cfg) refl
    where
      by_result :
          (m : Outcome NewError Server) → new_server decode_string cfg ≡ m → Returns Running m
      by_result (ok s) e = (
        new_server-IsManager network a₁ a₂ a₃ a₄ is_v4 decode_string cfg s parsed e,
        Returns-ok NotReturned (new_server decode_string cfg) s
            (new_server-NotReturned decode_string cfg) e,
      )
      by_result (err x) e = tt
      by_result panic e = tt

  pub boot-Assembled :
      (b : Boot) (cfg : Config) (db : Db)
      → b.file ≡ some cfg
      → cfg.vpn_subnet.parsed ≡ some network
      → Numbered db
      → Returns Ready (boot b db)
  unfolding boot
  boot-Assembled b cfg db file parsed n = rw file (
      Returns-any Ready (wrap_err invalid_secret_key (secret_key b.decode_string cfg)) _ λ key.
        Returns-then Running Ready _ _
          (Returns-wrap_err Running create_server _ (new_server-Returns b.decode_string cfg parsed))
          λ server v.
            Returns-then Numbered Ready _ _
              (Returns-wrap_err Numbered create_database _
                (init_schema-Numbered b.bcrypt b.answers b.salt db n))
              λ db₁ n₁.
                Returns-then Assembled Ready _ _
                  (Returns-wrap_err Assembled create_panel _ (
                    new_panel-Assembled b.lib b.entropy b.answers
                      ((panel_port b.flag b.answers db₁ b.draw).1) server b.timestamp v
                      (panel_port-Numbered b.flag b.answers db₁ b.draw n₁)))
                  λ p a. a)
