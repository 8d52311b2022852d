-- ===== src/Boot/Restart.antt =====
-- What outlives a restart of the program, and in what state it starts: main.go.
use ligend.Prelude.{
  Bool, ℕ, zero, suc, ◌+◌, ◌%◌, ◌^◌, ◌<◌, ◌≡◌, refl, true, [], ◌∷◌, Option, none, some, length,
  arith,
}
use ligend.Prelude.Outcome.{ok}
use ligend.Prelude.Bytes.{Bytes}
use ligend.Prelude.Tables.{lookup, insert, lookup-insert, bytes_keys}
use ligend.Prelude.Texts.{ℤ, pos, codes}
use ligend.Config.{Config, secret_key}
use ligend.Panel.Store.{Db, init_schema, get_panel_config, set_panel_config}
use ligend.Panel.Clients.{atoi}
use ligend.Boot.{itoa, drawn_port, panel_port, saved_port, boot, Boot}
use ligend.Server.{Server}
use ligend.Server.Startup.{new_server}
use ligend.Panel.Logs.{add, new_log_buffer}
use ligend.Panel.Store.{Bcrypt}
use ligend.Panel.Tokens.{TokenLib, TokenLibLaws, new_auth}
use ligend.Panel.Tokens.Issued.{new_auth-fresh, new_auth-stored}
use ligend.Panel.Requests.{Panel, new_panel}
use ligend.Boot.Numbers.{atoi-itoa, itoa_nonempty}

saved_port-itoa : (n : ℕ) → n < 2 ^ 63 → saved_port (ok (itoa n)) ≡ pos n
saved_port-itoa n small = by_text (itoa n) (itoa_nonempty n) (atoi-itoa n small)
  where
    by_text :
        (text : Bytes)
        → ((c : ℕ) × (cs : Bytes) × (text ≡ c ∷ cs))
        → atoi text ≡ some (pos n)
        → saved_port (ok text) ≡ pos n
    by_text [] (c, cs, e) value = absurd (cc)
    by_text (d ∷ ds) found value = rw value refl

drawn_port_given :
    (answers : Bool) (db : Db) (draw n : ℕ)
    → 0 < n
    → drawn_port answers db draw (pos n) ≡ (pos n, db)
drawn_port_given answers db draw zero h = absurd (omega arith)
drawn_port_given answers db draw (suc n) h = refl

panel_port-fresh :
    (db : Db) (draw : ℕ)
    → lookup (codes "panel_port") db.panel_config ≡ none
    → panel_port (pos 0) true db draw ≡ (
      pos (10000 + draw % 50000),
      record db {
        panel_config = insert (codes "panel_port") (itoa (10000 + draw % 50000)) db.panel_config;
      },
    )
unfolding panel_port get_panel_config set_panel_config
panel_port-fresh db draw fresh = rw fresh refl

panel_port-stored :
    (db : Db) (draw n : ℕ)
    → lookup (codes "panel_port") db.panel_config ≡ some (itoa n)
    → 0 < n
    → n < 2 ^ 63
    → panel_port (pos 0) true db draw ≡ (pos n, db)
unfolding panel_port get_panel_config
panel_port-stored db draw n stored some_port small =
    rw (stored, saved_port-itoa n small) (drawn_port_given true db draw n some_port)

init_schema-stored :
    (bcrypt : Bcrypt) (salt : Bytes) (db : Db) (hash : Bytes)
    → lookup (codes "admin") db.admin_users ≡ some hash
    → init_schema bcrypt true salt db ≡ ok db
unfolding init_schema
init_schema-stored bcrypt salt db hash stored = rw stored refl

init_schema-fresh :
    (bcrypt : Bcrypt) (salt : Bytes) (db : Db) (hash : Bytes)
    → lookup (codes "admin") db.admin_users ≡ none
    → bcrypt.generate_from_password salt (codes "admin") ≡ some hash
    → init_schema bcrypt true salt db
      ≡ ok (record db { admin_users = insert (codes "admin") hash db.admin_users })
unfolding init_schema
init_schema-fresh bcrypt salt db hash fresh made = rw (fresh, made) (rw fresh refl)

-- The panel that a start comes to.
abbrev shown_panel : Boot → Server → Bytes → Db → Panel
shown_panel b server secret db = record {
  server = server;
  db = db;
  jwt_secret = secret;
  log_buffer = record {
    entries =
        record {
          timestamp = b.timestamp;
          level = codes "INFO";
          message = codes "GOmp Studios Panel initialized";
          source = codes "system";
        }
        ∷ [];
    max = 1000;
  };
}

module _ (b : Boot) (cfg : Config) (key : Bytes) (server : Server) where
  boot_stages :
      (db db₁ db₂ db₃ : Db) (port : ℤ) (secret : Bytes)
      → b.file ≡ some cfg
      → secret_key b.decode_string cfg ≡ ok key
      → new_server b.decode_string cfg ≡ ok server
      → init_schema b.bcrypt b.answers b.salt db ≡ ok db₁
      → panel_port b.flag b.answers db₁ b.draw ≡ (port, db₂)
      → new_auth b.lib b.entropy b.answers db₂ ≡ ok (secret, db₃)
      → boot b db ≡ ok (shown_panel b server secret db₃, port)
  unfolding boot new_panel add new_log_buffer
  boot_stages db db₁ db₂ db₃ port secret file has_key made ready ported authed =
      rw (file, has_key, made, ready, ported, authed) refl

-- The tables after the first start.
abbrev first_db : TokenLib → Db → Bytes → Bytes → ℕ → Db
first_db lib db hash secret port = record db {
  admin_users = insert (codes "admin") hash db.admin_users;
  panel_config =
      insert (codes "jwt_secret") (lib.to_hex secret)
        (insert (codes "panel_port") (itoa port) db.panel_config);
}

-- The first start on an empty database, without a flag for the port, draws a port from 10000 to 59999
-- and the secret of the tokens. Every later start on what it leaves, whatever it draws, takes the
-- same port and the same secret and changes nothing in the database.
pub boot-restart :
    (b : Boot)
    → TokenLibLaws b.lib
    → (cfg : Config) (key : Bytes) (server : Server) (db : Db) (hash secret : Bytes)
    → b.file ≡ some cfg
    → secret_key b.decode_string cfg ≡ ok key
    → new_server b.decode_string cfg ≡ ok server
    → b.answers ≡ true
    → b.flag ≡ pos 0
    → b.entropy ≡ some secret
    → b.bcrypt.generate_from_password b.salt (codes "admin") ≡ some hash
    → 0 < length secret
    → lookup (codes "admin") db.admin_users ≡ none
    → lookup (codes "panel_port") db.panel_config ≡ none
    → lookup (codes "jwt_secret") db.panel_config ≡ none
    → (p : Panel) × (boot b db ≡ ok (p, pos (10000 + b.draw % 50000)))
      × ((salt : Bytes) (draw : ℕ) (entropy : Option Bytes) (timestamp : Bytes)
          → let again = record b {
            salt = salt;
            draw = draw;
            entropy = entropy;
            timestamp = timestamp;
          } in
            (p' : Panel) × (boot again p.db ≡ ok (p', pos (10000 + b.draw % 50000)))
            × (p'.jwt_secret ≡ p.jwt_secret)
            × (p'.db ≡ p.db))
boot-restart b laws cfg key server db hash secret file has_key made up no_flag drawn hashed long
      no_admin no_port no_secret =
    (
      shown_panel b server secret last,
      boot_stages b cfg key server db db₁ db₂ last (pos port) secret file has_key made
          (rw up (init_schema-fresh b.bcrypt b.salt db hash no_admin hashed))
          (rw (up, no_flag) (panel_port-fresh db₁ b.draw no_port))
          (rw (up, drawn)
            (new_auth-fresh b.lib db₂ secret (
              rw
                (lookup-insert (codes "panel_port") (codes "jwt_secret") (itoa port)
                  db.panel_config)
                no_secret))),
      λ salt draw entropy timestamp.
          let again = record b {
            salt = salt;
            draw = draw;
            entropy = entropy;
            timestamp = timestamp;
          } in
          (
            shown_panel again server secret last,
            boot_stages again cfg key server last last last last (pos port) secret file has_key made
                (rw up (
                  init_schema-stored b.bcrypt salt last hash
                    (rw (lookup-insert (codes "admin") (codes "admin") hash db.admin_users) refl)))
                (rw (up, no_flag)
                  (panel_port-stored last draw port port_stored (omega arith) (omega arith)))
                (rw up (
                  new_auth-stored b.lib laws last secret entropy
                    (rw
                      (lookup-insert (codes "jwt_secret") (codes "jwt_secret") (b.lib.to_hex secret)
                        db₂.panel_config)
                      refl)
                    long)),
            refl,
            refl,
          ),
    )
  where
    port : ℕ
    port = 10000 + b.draw % 50000

    db₁ : Db
    db₁ = record db { admin_users = insert (codes "admin") hash db.admin_users }

    db₂ : Db
    db₂ = record db₁ { panel_config = insert (codes "panel_port") (itoa port) db.panel_config }

    last : Db
    last = first_db b.lib db hash secret port

    port_stored : lookup (codes "panel_port") last.panel_config ≡ some (itoa port)
    port_stored =
        rw
          (
            lookup-insert (codes "jwt_secret") (codes "panel_port") (b.lib.to_hex secret)
                (insert (codes "panel_port") (itoa port) db.panel_config),
            lookup-insert (codes "panel_port") (codes "panel_port") (itoa port) db.panel_config,
          )
          refl
