-- ===== src/Boot.antt =====
-- server/cmd/ligend-server/main.go: how the VPN server, the database and the panel are put together.
pub mod Numbers
pub mod Restart
pub mod Order
pub mod Running
use ligend.Prelude.{
  ℕ, zero, suc, ◌+◌, ◌-◌, ◌/◌, ◌%◌, ◌^◌, ◌==◌, Bool, true, false, List, [], ◌∷◌, Option, none, some,
  ltb, if◌then◌else◌,
}
use ligend.Prelude.Outcome.{Outcome, ok, err, panic, ◌>>=◌, wrap_err}
use ligend.Prelude.Bytes.{Bytes}
use ligend.Prelude.Texts.{ℤ, pos, negsuc, codes}
use ligend.Config.{Config, KeyError, secret_key}
use ligend.Server.Startup.{NewError, new_server}
use ligend.Panel.Store.{Db, DbError, Bcrypt, init_schema, get_panel_config, set_panel_config}
use ligend.Panel.Tokens.{TokenLib, NewAuthError}
use ligend.Panel.Clients.{digits, atoi}
use ligend.Panel.Requests.{Panel, World, Request, new_panel, handle_request}

-- The digits of a number before `rest`, the last one first; the fuel exceeds the number.
abbrev pub digits_of : ℕ → ℕ → Bytes → Bytes
digits_of zero n rest = rest
digits_of (suc fuel) n rest =
    let longer_text = digits_of fuel (n / 10) ((b'0' + n % 10) ∷ rest) in
    if ltb n 10 then (b'0' + n) ∷ rest else longer_text

-- `strconv.Itoa`, for a number that is not negative
unfoldable pub itoa : ℕ → Bytes
itoa n = digits_of (suc n) n []

abbrev pub limit_if_some : ℤ → Option ℕ → ℤ
limit_if_some limit none = pos 0
limit_if_some limit (some n) = limit

-- The number that `strconv.Atoi` returns beside an error: zero, or the bound that is exceeded.
abbrev pub atoi_rest : Bytes → ℤ
atoi_rest [] = pos 0
atoi_rest (c ∷ cs) =
    if c == b'-'
    then limit_if_some (negsuc (2 ^ 63 - 1)) (digits cs)
    else limit_if_some (pos (2 ^ 63 - 1)) (if c == b'+' then digits cs else digits (c ∷ cs))

abbrev pub number_or_rest : Bytes → Option ℤ → ℤ
number_or_rest text none = atoi_rest text
number_or_rest text (some n) = n

abbrev pub saved_port : Outcome DbError Bytes → ℤ
saved_port (ok []) = pos 0
saved_port (ok (c ∷ cs)) = number_or_rest (c ∷ cs) (atoi (c ∷ cs))
saved_port _ = pos 0

abbrev pub db_or_old : Db → Outcome DbError Db → Db
db_or_old db (ok db') = db'
db_or_old db _ = db

abbrev pub drawn_port : Bool → Db → ℕ → ℤ → ℤ × Db
drawn_port answers db draw (pos zero) =
    let port = 10000 + draw % 50000 in
    (pos port, db_or_old db (set_panel_config answers db (codes "panel_port") (itoa port)))
drawn_port answers db draw port = (port, db)

-- The port of the panel: the flag, or the saved one, or one that is drawn and saved.
unfoldable pub panel_port : ℤ → Bool → Db → ℕ → ℤ × Db
panel_port (pos zero) answers db draw =
    drawn_port answers db draw (saved_port (get_panel_config answers db (codes "panel_port")))
panel_port flag answers db draw = (flag, db)

pub data BootError : Type 0 where
  load_config : BootError
  invalid_secret_key : KeyError → BootError
  create_server : NewError → BootError
  create_database : DbError → BootError
  create_panel : NewAuthError → BootError

abbrev pub loaded : Option Config → Outcome BootError Config
loaded none = err load_config
loaded (some cfg) = ok cfg

-- What a start of the program gets from outside: the configuration that its file holds, the database,
-- whether it answers, the flag for the port, and what the random source gives. The schema is there.
pub record Boot : Type 0 where
  pub lib : TokenLib
  pub bcrypt : Bcrypt
  pub decode_string : Bytes → Option Bytes
  pub file : Option Config
  pub answers : Bool
  pub salt : Bytes
  pub flag : ℤ
  pub draw : ℕ
  pub entropy : Option Bytes
  pub timestamp : Bytes

-- The database at the given path; the fallback to another file is not looked at.
unfoldable pub boot : Boot → Db → Outcome BootError (Panel × ℤ)
boot b db = do
  cfg ← loaded b.file
  key ← wrap_err invalid_secret_key (secret_key b.decode_string cfg)
  server ← wrap_err create_server (new_server b.decode_string cfg)
  db₁ ← wrap_err create_database (init_schema b.bcrypt b.answers b.salt db)
  let (port, db₂) = panel_port b.flag b.answers db₁ b.draw
  p ← wrap_err create_panel (new_panel b.lib b.entropy b.answers db₂ server b.timestamp)
  ok (p, port)

-- The program as long as it runs. It exits with status 1 when `Start` returns.
pub data Process : Type 0 where
  running : Panel → Process
  exited : ℕ → Process

abbrev pub unless_returned : Bool → Panel → Process
unless_returned true p = exited 1
unless_returned false p = running p

unfoldable pub next_process : Process → World × Request → Process
next_process (running p) (w, q) =
    let p' = (handle_request w p q).0 in unless_returned p'.server.start_returned p'
next_process (exited status) request = exited status
