-- ===== src/Tunnel/Manager/Invariant.antt =====
-- The manager's maps, its heap and its pool agree.
use ligend.Prelude.{
  ℕ, ◌<◌, ◌≡◌, refl, sym, ap, ◌∙◌, inl, inr, true, false, [], none, some, Bool-cases, Option-cases,
  length, ne→==, ◌==◌, ==_iff, arith,
}
use mathlib.Core.Path.{subst, subst₂}
use mathlib.Core.Option.{some-injective, none-ne-some}
use ligend.Prelude.Outcome.{Sat}
use ligend.Prelude.Bytes.{Bytes}
use ligend.Prelude.Tables.{
  lookup, nat_keys, bytes_keys, bytes_eq, bytes_eq_iff, lookup-insert, beq_refl,
}
use ligend.Crypto.{Entropy, generate_session_key}
use ligend.Tunnel.Packet.{ip_string}
use ligend.Tunnel.Pool.{IpPool, is_used}
use ligend.Tunnel.Pool.Invariant.{IsPool, Allocates, Differs}
use ligend.Tunnel.Session.{Session, new_session}
use ligend.Tunnel.Manager.{SessionManager, enter}

-- The reference points at a session of that name, whose address is in use and leads back to it.
pub record Registered (sm : SessionManager) (id : Bytes) (r : ℕ) : Type 0 where
  pub session : Session
  pub held : lookup r sm.heap ≡ some session
  pub named : session.id ≡ id
  pub in_use : is_used sm.ip_pool session.ip ≡ true
  pub mapped : lookup (ip_string session.ip) sm.ip_map ≡ some r

-- The reference points at a session with an address of that name, which is found by its own name.
pub record Mapped (sm : SessionManager) (key : Bytes) (r : ℕ) : Type 0 where
  pub session : Session
  pub held : lookup r sm.heap ≡ some session
  pub keyed : ip_string session.ip ≡ key
  pub found : lookup session.id sm.sessions ≡ some r

pub record IsManager (sm : SessionManager) : Type 0 where
  pub pool : IsPool sm.ip_pool
  pub by_id : (id : Bytes) (r : ℕ) → lookup id sm.sessions ≡ some r → Registered sm id r
  pub by_ip : (key : Bytes) (r : ℕ) → lookup key sm.ip_map ≡ some r → Mapped sm key r
  pub fresh : (r : ℕ) (s : Session) → lookup r sm.heap ≡ some s → r < sm.next_ref

-- Two sessions that the manager knows by different names never share an address.
pub address-injective :
    (sm : SessionManager) (id₁ id₂ : Bytes) (r₁ r₂ : ℕ) (s₁ s₂ : Session)
    → IsManager sm
    → lookup id₁ sm.sessions ≡ some r₁
    → lookup id₂ sm.sessions ≡ some r₂
    → lookup r₁ sm.heap ≡ some s₁
    → lookup r₂ sm.heap ≡ some s₂
    → ip_string s₁.ip ≡ ip_string s₂.ip
    → id₁ ≡ id₂
address-injective sm id₁ id₂ r₁ r₂ s₁ s₂ v f₁ f₂ h₁ h₂ e =
    let a = v.by_id id₁ r₁ f₁ in
    let b = v.by_id id₂ r₂ f₂ in
    let is₁ : a.session ≡ s₁ = some-injective _ _ (sym a.held ∙ h₁) in
    let is₂ : b.session ≡ s₂ = some-injective _ _ (sym b.held ∙ h₂) in
    let names : ip_string a.session.ip ≡ ip_string b.session.ip =
      ap (λ (s : Session). ip_string s.ip) is₁
      ∙ e
      ∙ ap (λ (s : Session). ip_string s.ip) (sym is₂) in
    let refs : r₁ ≡ r₂ =
      some-injective _ _ (sym a.mapped ∙ ap (λ (k : Bytes). lookup k sm.ip_map) names ∙ b.mapped) in
    let held : a.session ≡ b.session =
      some-injective _ _ (sym a.held ∙ ap (λ (r : ℕ). lookup r sm.heap) refs ∙ b.held) in
    sym a.named ∙ ap (λ (s : Session). s.id) held ∙ b.named

-- A session made by `new_session` has the name and the address it was made for.
pub new_session-fields :
    (id ip : Bytes) (entropy : Entropy) (now : ℕ)
    → Sat
        (λ s. (s.id ≡ id) × (s.ip ≡ ip) × (length s.session_key ≡ 32) × (s.connections ≡ []))
        (new_session id ip entropy now)
unfolding new_session generate_session_key
new_session-fields id ip none now = tt
new_session-fields id ip (some noise) now = (refl, refl, refl, refl)

-- Addresses of which one is in use and the other is not have different names.
pub used-Differs :
    (p : IpPool) (a b : Bytes) → is_used p a ≡ false → is_used p b ≡ true → Differs a b
unfolding is_used
used-Differs p a b h k = elim (Bool-cases (bytes_eq (ip_string a) (ip_string b))) [
  | inr apart ↦ apart
  | inl same ↦ absurd (cc ((bytes_eq_iff (ip_string a) (ip_string b)).0 same))
]

-- A name of an address that is not in use is in no entry of the map.
unmapped :
    (sm : SessionManager) (ip : Bytes)
    → IsManager sm
    → is_used sm.ip_pool ip ≡ false
    → lookup (ip_string ip) sm.ip_map ≡ none
unmapped sm ip v h = elim (Option-cases (lookup (ip_string ip) sm.ip_map)) [
  | inl e ↦ e
  | inr (r, e) ↦
      let m = v.by_ip (ip_string ip) r e in
      let g = v.by_id m.session.id r m.found in
      let same : g.session ≡ m.session = some-injective _ _ (sym g.held ∙ m.held) in
      absurd (
        clash m.session (subst (λ (s : Session). is_used sm.ip_pool s.ip ≡ true) same g.in_use)
          m.keyed)
]
  where
    clash : (s : Session) → is_used sm.ip_pool s.ip ≡ true → ip_string s.ip ≡ ip_string ip → ⊥
    clash s used e = unfold is_used in cc

-- The new session takes its place.
module _ (sm : SessionManager) (id ip : Bytes) (q : IpPool) (session : Session) (v : IsManager sm)
    (new : lookup id sm.sessions ≡ none) (took : Allocates sm.ip_pool ip q)
    (named : session.id ≡ id) (placed : session.ip ≡ ip) where
  abbrev pub entered : SessionManager
  entered = enter sm id ip q session

  heap_self : lookup sm.next_ref entered.heap ≡ some session
  unfolding enter
  heap_self = rw (lookup-insert sm.next_ref sm.next_ref session sm.heap, beq_refl sm.next_ref)

  heap_kept : (r : ℕ) (s : Session) → lookup r sm.heap ≡ some s → lookup r entered.heap ≡ some s
  unfolding enter
  heap_kept r s h =
      rw
        (
          lookup-insert sm.next_ref r session sm.heap,
          ne→== sm.next_ref r (omega (arith, v.fresh r s h)),
        )
        h

  map_self : lookup (ip_string ip) entered.ip_map ≡ some sm.next_ref
  unfolding enter
  map_self =
      rw
        (lookup-insert (ip_string ip) (ip_string ip) sm.next_ref sm.ip_map, beq_refl (ip_string ip))

  pub enter-Registered : Registered entered id sm.next_ref
  unfolding enter
  enter-Registered = record {
    session = session;
    held = heap_self;
    named = named;
    in_use = rw placed took.now_used;
    mapped = rw placed map_self;
  }

  enter_by_id :
      (key : Bytes) (r : ℕ) → lookup key entered.sessions ≡ some r → Registered entered key r
  unfolding enter
  enter_by_id key r h = elim (Bool-cases (bytes_eq id key)) [
    | inl same ↦
        let hit : some sm.next_ref ≡ some r =
          rw (lookup-insert id key sm.next_ref sm.sessions, same) at h in
        subst₂ (Registered entered) ((bytes_eq_iff id key).0 same) (some-injective _ _ hit)
          enter-Registered
    | inr other ↦
        let old : lookup key sm.sessions ≡ some r =
          rw (lookup-insert id key sm.next_ref sm.sessions, other) at h in
        let g = v.by_id key r old in
        let apart : Differs ip g.session.ip =
          used-Differs sm.ip_pool ip g.session.ip took.was_free g.in_use in
        record {
          session = g.session;
          held = heap_kept r g.session g.held;
          named = g.named;
          in_use = took.others g.session.ip apart ∙ g.in_use;
          mapped =
              rw
                (lookup-insert (ip_string ip) (ip_string g.session.ip) sm.next_ref sm.ip_map, apart)
                g.mapped;
        }
  ]

  enter_by_ip : (key : Bytes) (r : ℕ) → lookup key entered.ip_map ≡ some r → Mapped entered key r
  unfolding enter
  enter_by_ip key r h = elim (Bool-cases (bytes_eq (ip_string ip) key)) [
    | inl same ↦
        let hit : some sm.next_ref ≡ some r =
          rw (lookup-insert (ip_string ip) key sm.next_ref sm.ip_map, same) at h in
        subst₂ (Mapped entered) ((bytes_eq_iff (ip_string ip) key).0 same) (some-injective _ _ hit)
          (record {
            session = session;
            held = heap_self;
            keyed = ap ip_string placed;
            found = rw (named, lookup-insert id id sm.next_ref sm.sessions, beq_refl id);
          })
    | inr other ↦
        let old : lookup key sm.ip_map ≡ some r =
          rw (lookup-insert (ip_string ip) key sm.next_ref sm.ip_map, other) at h in
        let m = v.by_ip key r old in
        record {
          session = m.session;
          held = heap_kept r m.session m.held;
          keyed = m.keyed;
          found =
              rw
                (
                  lookup-insert id m.session.id sm.next_ref sm.sessions,
                  other_name m.session r m.found,
                )
                m.found;
        }
  ]
    where
      other_name :
          (s : Session) (r : ℕ) → lookup s.id sm.sessions ≡ some r → bytes_eq id s.id ≡ false
      other_name s r found = elim (Bool-cases (bytes_eq id s.id)) [
        | inr e ↦ e
        | inl e ↦ absurd (
            none-ne-some r (
              sym new
              ∙ ap (λ (k : Bytes). lookup k sm.sessions) ((bytes_eq_iff id s.id).0 e)
              ∙ found))
      ]

  enter_fresh : (r : ℕ) (s : Session) → lookup r entered.heap ≡ some s → r < entered.next_ref
  unfolding enter
  enter_fresh r s h = elim (Bool-cases (sm.next_ref == r)) [
    | inl same ↦ omega (arith, (==_iff sm.next_ref r).0 same)
    | inr other ↦
        omega (arith, v.fresh r s (rw (lookup-insert sm.next_ref r session sm.heap, other) at h))
  ]

  pub enter-IsManager : IsManager entered
  enter-IsManager = record {
    pool = unfold enter in took.valid;
    by_id = enter_by_id;
    by_ip = enter_by_ip;
    fresh = enter_fresh;
  }
