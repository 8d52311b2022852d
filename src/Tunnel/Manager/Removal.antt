-- ===== src/Tunnel/Manager/Removal.antt =====
-- What `remove_session` does to a manager whose parts agree.
use ligend.Prelude.{
  ℕ, ◌≡◌, refl, sym, ap, ◌∙◌, inl, inr, false, [], ◌∷◌, ◌++◌, none, some, Bool-cases, Option-cases,
}
use mathlib.Core.Path.{subst}
use mathlib.Core.Option.{some-injective, none-ne-some}
use ligend.Prelude.Bytes.{Bytes}
use ligend.Prelude.Tables.{
  lookup, nat_keys, bytes_keys, bytes_eq, bytes_eq_iff, lookup-delete, beq_refl,
}
use ligend.Tunnel.Packet.{ip_string}
use ligend.Tunnel.Pool.{is_used, release}
use ligend.Tunnel.Pool.Invariant.{Releases, Differs, capacity, release-Releases}
use ligend.Tunnel.Session.{Session}
use ligend.Tunnel.Manager.{SessionManager, get_session, remove_session, remove_found, deref}
use ligend.Tunnel.Manager.Invariant.{IsManager, Registered, Mapped, address-injective}

-- The session that is found under a name goes.
module _ (sm : SessionManager) (id : Bytes) (r : ℕ) (v : IsManager sm)
    (found : lookup id sm.sessions ≡ some r) (g : Registered sm id r) where
  abbrev left : SessionManager
  left = remove_found sm id g.session

  released : Releases sm.ip_pool g.session.ip (release sm.ip_pool g.session.ip)
  released = (release-Releases sm.ip_pool g.session.ip v.pool).0 g.in_use

  -- Under another name there is another address.
  other_address :
      (key : Bytes) (j : ℕ) (h : Registered sm key j)
      → lookup key sm.sessions ≡ some j
      → bytes_eq id key ≡ false
      → Differs g.session.ip h.session.ip
  other_address key j h f apart =
      elim (Bool-cases (bytes_eq (ip_string g.session.ip) (ip_string h.session.ip))) [
        | inr e ↦ e
        | inl e ↦
            let same : id ≡ key =
              address-injective sm id key r j g.session h.session v found f g.held h.held
                ((bytes_eq_iff (ip_string g.session.ip) (ip_string h.session.ip)).0 e) in
            absurd (cc ((bytes_eq_iff id key).1 same))
      ]

  left_by_id : (key : Bytes) (j : ℕ) → lookup key left.sessions ≡ some j → Registered left key j
  unfolding remove_found
  left_by_id key j h = elim (Bool-cases (bytes_eq id key)) [
    | inl same ↦ absurd (none-ne-some j (rw (lookup-delete id key sm.sessions, same) at h))
    | inr other ↦
        let old : lookup key sm.sessions ≡ some j =
          rw (lookup-delete id key sm.sessions, other) at h in
        let k = v.by_id key j old in
        let apart : Differs g.session.ip k.session.ip = other_address key j k old other in
        record {
          session = k.session;
          held = k.held;
          named = k.named;
          in_use = released.others k.session.ip apart ∙ k.in_use;
          mapped =
              rw (lookup-delete (ip_string g.session.ip) (ip_string k.session.ip) sm.ip_map, apart)
                k.mapped;
        }
  ]

  left_by_ip : (key : Bytes) (j : ℕ) → lookup key left.ip_map ≡ some j → Mapped left key j
  unfolding remove_found
  left_by_ip key j h = elim (Bool-cases (bytes_eq (ip_string g.session.ip) key)) [
    | inl same ↦
        absurd
          (none-ne-some j (rw (lookup-delete (ip_string g.session.ip) key sm.ip_map, same) at h))
    | inr other ↦
        let old : lookup key sm.ip_map ≡ some j =
          rw (lookup-delete (ip_string g.session.ip) key sm.ip_map, other) at h in
        let m = v.by_ip key j old in
        record {
          session = m.session;
          held = m.held;
          keyed = m.keyed;
          found = rw (lookup-delete id m.session.id sm.sessions, stays m other) m.found;
        }
  ]
    where
      stays :
          (m : Mapped sm key j)
          → bytes_eq (ip_string g.session.ip) key ≡ false
          → bytes_eq id m.session.id ≡ false
      stays m other = elim (Bool-cases (bytes_eq id m.session.id)) [
        | inr e ↦ e
        | inl e ↦
            let names : id ≡ m.session.id = (bytes_eq_iff id m.session.id).0 e in
            let refs : r ≡ j =
              some-injective _ _
                (sym found ∙ ap (λ (k : Bytes). lookup k sm.sessions) names ∙ m.found) in
            let held : g.session ≡ m.session =
              some-injective _ _ (sym g.held ∙ ap (λ (k : ℕ). lookup k sm.heap) refs ∙ m.held) in
            let same : ip_string g.session.ip ≡ key =
              ap (λ (s : Session). ip_string s.ip) held ∙ m.keyed in
            absurd (cc ((bytes_eq_iff (ip_string g.session.ip) key).1 same))
      ]

  left-IsManager : IsManager left
  left-IsManager = record {
    pool = unfold remove_found in released.valid;
    by_id = left_by_id;
    by_ip = left_by_ip;
    fresh = unfold remove_found in v.fresh;
  }

-- What removing the session of reference `r` leaves.
pub record Removes (sm : SessionManager) (id : Bytes) (s : Session) (sm' : SessionManager)
    : Type 0 where
  pub valid : IsManager sm'
  pub gone : get_session sm' id ≡ none
  pub others : (key : Bytes) → bytes_eq id key ≡ false → get_session sm' key ≡ get_session sm key
  pub freed : is_used sm'.ip_pool s.ip ≡ false
  pub last_in_line : sm'.ip_pool.available ≡ sm.ip_pool.available ++ s.ip ∷ []
  pub total : capacity sm'.ip_pool ≡ capacity sm.ip_pool
  pub hung_up : sm'.closed ≡ sm.closed ++ s.connections

-- Removing a session of a manager whose parts agree keeps them in agreement: the name is free, the
-- other sessions stay, the address joins the end of the pool's queue and the session's connections
-- are closed. A name that is not known changes nothing.
pub remove_session-Removes :
    (sm : SessionManager) (id : Bytes)
    → IsManager sm
    → (get_session sm id ≡ none → remove_session sm id ≡ sm)
      × ((r : ℕ) (s : Session)
          → get_session sm id ≡ some r
          → deref sm r ≡ some s
          → Removes sm id s (remove_session sm id))
unfolding get_session deref remove_session
remove_session-Removes sm id v = (
  λ h. let absent : lookup id sm.sessions ≡ none = h in rw (absent, remove_session),
  λ r s found held.
      let g : Registered sm id r = v.by_id id r found in
      let same : g.session ≡ s = some-injective _ _ (sym g.held ∙ held) in
      let listed : lookup id sm.sessions ≡ some r = found in
      let there : lookup r sm.heap ≡ some s = held in
      rw (listed, there, remove_session)
        (subst (λ t. Removes sm id t (remove_found sm id t)) same (removes r found g)),
)
  where
    removes :
        (r : ℕ) (found : lookup id sm.sessions ≡ some r) (g : Registered sm id r)
        → Removes sm id g.session (remove_found sm id g.session)
    removes r found g = record {
      valid = left-IsManager sm id r v found g;
      gone = unfold remove_found in rw (lookup-delete id id sm.sessions, beq_refl id);
      others = λ key apart. unfold remove_found in rw (lookup-delete id key sm.sessions, apart);
      freed = unfold remove_found in (released sm id r v found g).now_free;
      last_in_line = unfold remove_found in (released sm id r v found g).last;
      total = unfold remove_found in (released sm id r v found g).total;
      hung_up = unfold remove_found in refl;
    }

-- Removing any name keeps the manager's parts in agreement.
pub remove_session-IsManager :
    (sm : SessionManager) (id : Bytes) → IsManager sm → IsManager (remove_session sm id)
remove_session-IsManager sm id v = elim (Option-cases (get_session sm id)) [
  | inl gone ↦ subst IsManager (sym ((remove_session-Removes sm id v).0 gone)) v
  | inr (r, found) ↦
      let g : Registered sm id r = v.by_id id r (unfold get_session in found) in
      ((remove_session-Removes sm id v).1 r g.session found (unfold deref in g.held)).valid
]
