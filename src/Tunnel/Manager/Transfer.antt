-- ===== src/Tunnel/Manager/Transfer.antt =====
-- A manager whose sessions keep their names and addresses stays as it was for its maps.
use ligend.Prelude.{ℕ, ◌<◌, ◌≡◌, sym, ap, ◌∙◌, some}
use mathlib.Core.Path.{subst}
use ligend.Prelude.Bytes.{Bytes}
use ligend.Prelude.Tables.{lookup, nat_keys, bytes_keys}
use ligend.Tunnel.Pool.Invariant.{IsPool}
use ligend.Tunnel.Session.{Session}
use ligend.Tunnel.Manager.{SessionManager}
use ligend.Tunnel.Manager.Invariant.{IsManager, Registered, Mapped}

-- The reference points at a session of the same name and address.
abbrev pub StillAt : SessionManager → ℕ → Session → Type 0
StillAt sm r session =
    (new : Session) × (lookup r sm.heap ≡ some new) × (new.id ≡ session.id) × (new.ip ≡ session.ip)

-- The two managers differ in what their sessions hold beside names and addresses.
pub record SameMaps (sm sm' : SessionManager) : Type 0 where
  pub names : sm'.sessions ≡ sm.sessions
  pub addresses : sm'.ip_map ≡ sm.ip_map
  pub pool : sm'.ip_pool ≡ sm.ip_pool
  pub refs : sm'.next_ref ≡ sm.next_ref
  pub sessions :
      (r : ℕ) (session : Session) → lookup r sm.heap ≡ some session → StillAt sm' r session
  pub old : (r : ℕ) (new : Session) → lookup r sm'.heap ≡ some new → r < sm.next_ref

module _ (sm sm' : SessionManager) (m : SameMaps sm sm') (v : IsManager sm) where
  Registered-still : (id : Bytes) (r : ℕ) → lookup id sm'.sessions ≡ some r → Registered sm' id r
  Registered-still id r h =
      let g = v.by_id id r (ap (lookup id) (sym m.names) ∙ h) in
      let (new, held, same_id, same_ip) = m.sessions r g.session g.held in
      record {
        session = new;
        held = held;
        named = same_id ∙ g.named;
        in_use = rw (same_ip, m.pool) g.in_use;
        mapped = rw (same_ip, m.addresses) g.mapped;
      }

  Mapped-still : (key : Bytes) (r : ℕ) → lookup key sm'.ip_map ≡ some r → Mapped sm' key r
  Mapped-still key r h =
      let g = v.by_ip key r (ap (lookup key) (sym m.addresses) ∙ h) in
      let (new, held, same_id, same_ip) = m.sessions r g.session g.held in
      record {
        session = new;
        held = held;
        keyed = rw same_ip g.keyed;
        found = rw (same_id, m.names) g.found;
      }

  pub SameMaps-IsManager : IsManager sm'
  SameMaps-IsManager = record {
    pool = subst IsPool (sym m.pool) v.pool;
    by_id = Registered-still;
    by_ip = Mapped-still;
    fresh = λ r s h. rw m.refs (m.old r s h);
  }
