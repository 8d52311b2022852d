-- ===== src/Config/File.antt =====
-- server/internal/config/config.go and the end of handleServerConfig in server/internal/panel/api_server.go:
-- the configuration's file. YAML and the file system are parameters, and `F` is what files hold, which the
-- program does not look into.
use ligend.Prelude.{◌≡◌, [], ◌∷◌, Option, none, some}
use ligend.Prelude.Outcome.{Outcome, ok, err}
use ligend.Prelude.Bytes.{Bytes}
use ligend.Config.{Config, defaults}
use ligend.Tunnel.Pool.{Network}

-- `yaml.Unmarshal` fills in a configuration, and `yaml.Marshal` prints one. The texts of a
-- configuration come with what they parse to.
pub record Yaml (F : Type 0) : Type 0 where
  pub unmarshal : F → Config → Option Config
  pub marshal : Config → Option F

-- What is printed is read back as it was, into whatever configuration: no field is left out.
pub record YamlLaws {F : Type 0} (yaml : Yaml F) : Type 0 where
  pub unmarshal-marshal :
      (cfg old : Config) (text : F)
      → yaml.marshal cfg ≡ some text
      → yaml.unmarshal text old ≡ some cfg

pub data LoadError : Type 0 where
  read_config parse_config : LoadError

abbrev pub parsed_config : Option Config → Outcome LoadError Config
parsed_config none = err parse_config
parsed_config (some cfg) = ok cfg

module _ {F : Type 0} where
  -- The second argument is what `net.ParseCIDR` returns for the default subnet, the third the file's
  -- text, if it can be read.
  unfoldable pub load : Yaml F → Option Network → Option F → Outcome LoadError Config
  load yaml network none = err read_config
  load yaml network (some text) = parsed_config (yaml.unmarshal text (defaults network))

  -- The first argument is what `os.WriteFile` leaves in a file that held something before or was not
  -- there.
  abbrev pub written : (Option F → F → Option F) → Option F → Option F → Option F
  written write_file file none = file
  written write_file file (some text) = write_file file text

  -- The file after a configuration is saved under a path, which may be empty.
  unfoldable pub save_config :
      Yaml F → (Option F → F → Option F) → Bytes → Option F → Config → Option F
  save_config yaml write_file [] file cfg = file
  save_config yaml write_file (c ∷ cs) file cfg = written write_file file (yaml.marshal cfg)
