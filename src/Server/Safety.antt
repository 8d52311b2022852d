-- ===== src/Server/Safety.antt =====
-- What holds in every state that a server can come to.
use ligend.Prelude.{ℕ, ◌≡◌, ◌≢◌, refl, ap, Option, some, [], ◌∷◌}
use mathlib.Core.Path.{subst}
use mathlib.Core.Option.{none-ne-some}
use ligend.Prelude.Outcome.{Outcome, ok, err, panic, ok-injective, ◌>>=◌}
use ligend.Prelude.Bytes.{Bytes}
use ligend.Prelude.Tables.{lookup, bytes_keys, nat_keys}
use ligend.Config.{Config, KeyError, secret_key}
use ligend.Auth.{AuthLib}
use ligend.Crypto.{Aead, Lz4, Lz4Laws}
use ligend.Tunnel.Packet.{ip_string}
use ligend.Tunnel.Pool.{Network, IpPool, PoolError, network_pool, new_ip_pool}
use ligend.Tunnel.Pool.Subnet.{host, network_pool-IsPool}
use ligend.Tunnel.Session.{Session}
use ligend.Tunnel.Manager.{SessionManager, deref, get_session, new_session_manager}
use ligend.Tunnel.Manager.Invariant.{IsManager, address-injective}
use ligend.Server.{Server}
use ligend.Server.Startup.{new_server}
use ligend.Server.Reach.{Reach, Reach-IsManager}

unfoldable pub empty_manager : Network → SessionManager
empty_manager network = record {
  heap = [];
  next_ref = 0;
  sessions = [];
  ip_map = [];
  ip_pool = network_pool network;
  closed = [];
}

module _ (network : Network) (a b c d : ℕ) (is_v4 : network.ip ≡ host a b c d) where
  pub empty_manager-IsManager : IsManager (empty_manager network)
  unfolding empty_manager lookup
  empty_manager-IsManager = record {
    pool = (network_pool-IsPool network a b c d is_v4).0;
    by_id = λ id r h. absurd (none-ne-some _ h);
    by_ip = λ key r h. absurd (none-ne-some _ h);
    fresh = λ r s h. absurd (none-ne-some _ h);
  }

  new_session_manager-ok : new_session_manager (some network) ≡ ok (empty_manager network)
  unfolding new_session_manager new_ip_pool empty_manager
  new_session_manager-ok =
      ap (λ m. do pool ← m; ok (record (empty_manager network) { ip_pool = pool }))
        (gives network.ip is_v4)
    where
      gives :
          (ip : Bytes)
          → ip ≡ host a b c d
          → ◌≡◌ {A = Outcome PoolError IpPool}
              (elim ip [ [] ↦ panic | x ∷ xs ↦ ok (network_pool network) ])
              (ok (network_pool network))
      gives ip e = rw e refl

  pub new_server-IsManager :
      (decode_string : Bytes → Option Bytes) (cfg : Config) (first : Server)
      → cfg.vpn_subnet.parsed ≡ some network
      → new_server decode_string cfg ≡ ok first
      → IsManager first.sessions
  unfolding new_server
  new_server-IsManager decode_string cfg first parsed e = by_key (secret_key decode_string cfg) refl
    where
      by_key :
          (m : Outcome KeyError Bytes) → secret_key decode_string cfg ≡ m → IsManager first.sessions
      by_key (err x) k = absurd (cc (rw k at e))
      by_key panic k = absurd (cc (rw k at e))
      by_key (ok key) k =
          subst (λ (s : Server). IsManager s.sessions)
            (ok-injective (rw (k, parsed, new_session_manager-ok) at e)) empty_manager-IsManager

-- In every state that a server on an IPv4 subnet comes to, over every order of its rounds and of requests
-- to the panel, the parts of the session manager agree, and two sessions under different names have
-- different addresses; for any LZ4 that keeps its documentation.
pub reachable-IsManager :
    (aead : Aead) (z : Lz4) (lib : AuthLib) (decode_string : Bytes → Option Bytes) (cfg : Config)
    (network : Network) (a b c d : ℕ) (first s : Server)
    → Lz4Laws z
    → network.ip ≡ host a b c d
    → cfg.vpn_subnet.parsed ≡ some network
    → new_server decode_string cfg ≡ ok first
    → Reach aead z lib first s
    → IsManager s.sessions
      × ((id₁ id₂ : Bytes) (r₁ r₂ : ℕ) (s₁ s₂ : Session)
          → get_session s.sessions id₁ ≡ some r₁
          → get_session s.sessions id₂ ≡ some r₂
          → deref s.sessions r₁ ≡ some s₁
          → deref s.sessions r₂ ≡ some s₂
          → id₁ ≢ id₂
          → ip_string s₁.ip ≢ ip_string s₂.ip)
unfolding get_session deref
reachable-IsManager aead z lib decode_string cfg network a b c d first s laws is_v4 parsed e
      reached =
    (
      agrees,
      λ id₁ id₂ r₁ r₂ s₁ s₂ f₁ f₂ h₁ h₂ apart same.
          apart (address-injective s.sessions id₁ id₂ r₁ r₂ s₁ s₂ agrees f₁ f₂ h₁ h₂ same),
    )
  where
    agrees : IsManager s.sessions
    agrees =
        Reach-IsManager aead z lib first s laws
          (new_server-IsManager network a b c d is_v4 decode_string cfg first parsed e) reached
