-- ===== src/Panel/Settings/Saving.antt =====
-- What a start of the program finds of the settings that the panel has changed.
use ligend.Prelude.{ℕ, ◌≡◌, refl, inl, inr, false, Bool-cases, [], ◌∷◌, Option, none, some}
use ligend.Prelude.Outcome.{Outcome, ok, err, panic}
use ligend.Prelude.Bytes.{Bytes}
use ligend.Prelude.Tables.{bytes_eq}
use ligend.Config.{Config, secret_key}
use ligend.Config.File.{Yaml, YamlLaws, load, save_config}
use ligend.Auth.{new_authenticator}
use ligend.Tunnel.Pool.{Network, IpPool, PoolError, bad_cidr, network_pool, new_ip_pool}
use ligend.Tunnel.Manager.{new_session_manager}
use ligend.Server.{Server}
use ligend.Server.Startup.{create_session_manager, new_server, update_listen_addr}
use ligend.Panel.Http.{put}
use ligend.Panel.Settings.{
  ConfigUpdate, with_colon, changed_addr, changed_config, handle_server_config, handle_and_save,
}

-- The key of the server and what it does not take from the panel.
changed_addr-key :
    (s : Server) (addr : Bytes)
    → (changed_addr s addr).cfg.secret_key_base64 ≡ s.cfg.secret_key_base64
unfolding changed_addr update_listen_addr
changed_addr-key s [] = refl
changed_addr-key s (c ∷ cs) = elim (Bool-cases (bytes_eq (with_colon (c ∷ cs)) s.cfg.listen_addr)) [
  | inl same ↦ rw same refl
  | inr other ↦ rw other refl
]

changed_config-key :
    (s : Server) (u : ConfigUpdate)
    → (changed_config s u).cfg.secret_key_base64 ≡ s.cfg.secret_key_base64
unfolding changed_config
changed_config-key s u = changed_addr-key s u.listen_addr

new_ip_pool-ok :
    (network : Network) (b : ℕ) (bs : Bytes)
    → network.ip ≡ b ∷ bs
    → new_ip_pool (some network) ≡ ok (network_pool network)
unfolding new_ip_pool
new_ip_pool-ok network b bs e = gives network.ip e
  where
    gives :
        (ip : Bytes)
        → ip ≡ b ∷ bs
        → ◌≡◌ {A = Outcome PoolError IpPool}
            (elim ip [ [] ↦ panic | x ∷ xs ↦ ok (network_pool network) ])
            (ok (network_pool network))
    gives ip e = rw e refl

-- What the next start makes of the configuration.
abbrev pub StartsFrom : (Bytes → Option Bytes) → Config → Type 0
StartsFrom decode_string cfg =
    (cfg.vpn_subnet.parsed ≡ none
      → new_server decode_string cfg ≡ err (create_session_manager bad_cidr))
    × ((network : Network) (b : ℕ) (bs : Bytes)
        → cfg.vpn_subnet.parsed ≡ some network
        → network.ip ≡ b ∷ bs
        → (first : Server) × (new_server decode_string cfg ≡ ok first) × (first.cfg ≡ cfg))

pub new_server-StartsFrom :
    (decode_string : Bytes → Option Bytes) (cfg : Config) (key : Bytes)
    → secret_key decode_string cfg ≡ ok key
    → StartsFrom decode_string cfg
unfolding new_server new_session_manager new_ip_pool
new_server-StartsFrom decode_string cfg key k = (
  λ e. rw (k, e) refl,
  λ network b bs parsed is_there. (
    record {
      cfg = cfg;
      auth = new_authenticator key;
      sessions = record {
        heap = [];
        next_ref = 0;
        sessions = [];
        ip_map = [];
        ip_pool = network_pool network;
        closed = [];
      };
      nat_table = [];
      tun = none;
      http_server = none;
      start_returned = false;
      udp_conn = 0;
    },
    simp (k, parsed, new_ip_pool-ok network b bs is_there) refl,
    refl,
  ),
)

-- A change of the settings that is printed and written is what the next start loads. That start fails
-- if the subnet does not parse, which the panel has not looked at, and otherwise makes a server of
-- just the settings that were in force; for a configuration whose key was accepted before.
pub load-handle_and_save :
    {F : Type 0} (yaml : Yaml F) (write_file : Option F → F → Option F) (c : ℕ) (cs : Bytes)
    (text : F) (file : Option F) (s : Server) (u : ConfigUpdate) (network : Option Network)
    (decode_string : Bytes → Option Bytes) (key : Bytes)
    → YamlLaws yaml
    → yaml.marshal (handle_server_config s put (some u)).0.cfg ≡ some text
    → write_file file text ≡ some text
    → secret_key decode_string s.cfg ≡ ok key
    → let (file', s', reply) = handle_and_save yaml write_file (c ∷ cs) file s put (some u) in
      (load yaml network file' ≡ ok s'.cfg) × StartsFrom decode_string s'.cfg
unfolding handle_and_save handle_server_config save_config load secret_key
load-handle_and_save yaml write_file c cs text file s u network decode_string key laws printed wrote
      k =
    (
      rw (printed, wrote, laws.unmarshal-marshal (changed_config s u).cfg _ text printed) refl,
      new_server-StartsFrom decode_string (changed_config s u).cfg key
          (rw (changed_config-key s u) k),
    )
