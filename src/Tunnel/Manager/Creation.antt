-- ===== src/Tunnel/Manager/Creation.antt =====
-- What `create_session` does to a manager whose parts agree.
use ligend.Prelude.{ℕ, ◌≡◌, ◌≢◌, ◌↔◌, refl, ◌∙◌, [], none, some}
use ligend.Prelude.Outcome.{Outcome, ok, err, panic, Sat, Sat-mono}
use ligend.Prelude.Bytes.{Bytes}
use ligend.Prelude.Tables.{lookup, nat_keys, bytes_keys, lookup-insert, beq_refl}
use ligend.Crypto.{Entropy, CryptoError}
use ligend.Tunnel.Pool.{IpPool, PoolError, no_available_addresses, allocate, release}
use ligend.Tunnel.Pool.Invariant.{Allocates, Differs, allocate-Allocates, release-Releases}
use ligend.Tunnel.Session.{Session, new_session}
use ligend.Tunnel.Manager.{
  SessionManager, CreateError, allocate_failed, enter, create_with, create_session, get_session,
}
use ligend.Tunnel.Manager.Invariant.{
  IsManager, Registered, enter-IsManager, enter-Registered, new_session-fields, used-Differs,
}

-- What a call of `create_session` leaves: a manager whose parts agree, with the session under its
-- name if the call succeeded, and with the sessions as they were if it did not.
pub record Creates (sm : SessionManager) (id : Bytes) (r : SessionManager × Outcome CreateError ℕ)
    : Type 0 where
  pub valid : IsManager r.0
  pub done :
      Sat (λ ref. (ref ≡ sm.next_ref) × Registered r.0 id ref × (get_session r.0 id ≡ some ref)) r.1
  pub failed :
      (e : CreateError)
      → r.1 ≡ err e
      → (r.0.sessions ≡ sm.sessions) × (r.0.ip_map ≡ sm.ip_map) × (r.0.heap ≡ sm.heap)

-- The address that was taken for a session that could not be made is given back.
give_back :
    (sm : SessionManager) (ip : Bytes) (q : IpPool)
    → IsManager sm
    → Allocates sm.ip_pool ip q
    → IsManager (record sm { ip_pool = release q ip })
give_back sm ip q v took =
    let back = (release-Releases q ip took.valid).0 took.now_used in
    record {
      pool = back.valid;
      by_id = λ id r h.
          let g = v.by_id id r h in
          let apart : Differs ip g.session.ip =
            used-Differs sm.ip_pool ip g.session.ip took.was_free g.in_use in
          record {
            session = g.session;
            held = g.held;
            named = g.named;
            in_use = back.others g.session.ip apart ∙ took.others g.session.ip apart ∙ g.in_use;
            mapped = g.mapped;
          };
      by_ip = λ key r h.
          let m = v.by_ip key r h in
          record { session = m.session; held = m.held; keyed = m.keyed; found = m.found };
      fresh = v.fresh;
    }

enter_found :
    (sm : SessionManager) (id ip : Bytes) (q : IpPool) (s : Session)
    → get_session (enter sm id ip q s) id ≡ some sm.next_ref
unfolding get_session enter
enter_found sm id ip q s = rw (lookup-insert id id sm.next_ref sm.sessions, beq_refl id)

create_with-Creates :
    (sm : SessionManager) (id ip : Bytes) (q : IpPool) (made : Outcome CryptoError Session)
    → IsManager sm
    → lookup id sm.sessions ≡ none
    → Allocates sm.ip_pool ip q
    → Sat (λ s. (s.id ≡ id) × (s.ip ≡ ip)) made
    → Creates sm id (create_with sm id ip q made)
unfolding create_with
create_with-Creates sm id ip q (ok s) v new took (named, placed) = record {
  valid = enter-IsManager sm id ip q s v new took named placed;
  done = (refl, enter-Registered sm id ip q s v new took named placed, enter_found sm id ip q s);
  failed = λ e h. absurd (cc);
}
create_with-Creates sm id ip q (err x) v new took made = record {
  valid = give_back sm ip q v took;
  done = tt;
  failed = λ e h. (refl, refl, refl);
}
create_with-Creates sm id ip q panic v new took made = absurd made

-- On a manager whose parts agree, and for a name that is not taken, `create_session` keeps the parts
-- in agreement and makes a session that is found under the name, at an address that leads back to
-- it; where it fails, the sessions, their addresses and the heap are as before. It fails for want of
-- an address exactly if none is free.
pub create_session-Creates :
    (sm : SessionManager) (id : Bytes) (entropy : Entropy) (now : ℕ)
    → IsManager sm
    → lookup id sm.sessions ≡ none
    → Creates sm id (create_session sm id entropy now)
      × (((create_session sm id entropy now).1 ≡ err (allocate_failed no_available_addresses))
          ↔ (sm.ip_pool.available ≡ []))
unfolding create_session
create_session-Creates sm id entropy now v new = go (allocate sm.ip_pool) refl
  where
    spec :
        Sat (λ (r : Bytes × IpPool). Allocates sm.ip_pool r.0 r.1) (allocate sm.ip_pool)
        × ((allocate sm.ip_pool ≡ err no_available_addresses) ↔ (sm.ip_pool.available ≡ []))
    spec = allocate-Allocates sm.ip_pool v.pool

    not_exhausted :
        (ip : Bytes) (q : IpPool) (made : Outcome CryptoError Session)
        → (create_with sm id ip q made).1 ≢ err (allocate_failed no_available_addresses)
    not_exhausted ip q (ok s) = unfold create_with in λ h. cc
    not_exhausted ip q (err x) = unfold create_with in λ h. cc
    not_exhausted ip q panic = unfold create_with in λ h. cc

    same_error :
        (x : PoolError)
        → ◌≡◌ {A = Outcome CreateError ℕ}
            (err (allocate_failed x))
            (err (allocate_failed no_available_addresses))
        → ◌≡◌ {A = Outcome PoolError (Bytes × IpPool)} (err x) (err no_available_addresses)
    same_error x h = cc

    go :
        (m : Outcome PoolError (Bytes × IpPool))
        → allocate sm.ip_pool ≡ m
        → Creates sm id (create_session sm id entropy now)
          × (((create_session sm id entropy now).1 ≡ err (allocate_failed no_available_addresses))
              ↔ (sm.ip_pool.available ≡ []))
    go (ok (ip, q)) e =
        let took : Allocates sm.ip_pool ip q = rw e at spec.0 in
        rw (e, create_session)
          (
            create_with-Creates sm id ip q (new_session id ip entropy now) v new took (
                Sat-mono _ (λ s. (s.id ≡ id) × (s.ip ≡ ip)) (λ s f. (f.0, f.1))
                  (new_session id ip entropy now) (new_session-fields id ip entropy now)),
            (λ h. absurd (not_exhausted ip q _ h), λ h. absurd (cc (spec.1.1 h, e))),
          )
    go (err x) e =
        rw (e, create_session)
          (
            record { valid = v; done = tt; failed = λ y h. (refl, refl, refl) },
            (λ h. spec.1.0 (e ∙ same_error x h), λ h. cc (e, spec.1.1 h)),
          )
    go panic e = absurd (rw e at spec.0)
