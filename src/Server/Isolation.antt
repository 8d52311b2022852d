-- ===== src/Server/Isolation.antt =====
-- server/internal/server/server.go: what a handler that serves one session leaves alone.
use ligend.Prelude.{
  ℕ, ◌<◌, ◌≡◌, refl, sym, ap, ◌∙◌, inl, inr, false, some, ◌==◌, ==_iff, Bool-cases,
}
use mathlib.Core.Option.{some-injective}
use ligend.Prelude.Tables.{nat_keys, lookup, lookup-insert, beq_refl}
use ligend.Tunnel.Session.{Session}
use ligend.Tunnel.Manager.{store, deref}
use ligend.Tunnel.Manager.Invariant.{IsManager}
use ligend.Tunnel.Manager.Transfer.{StillAt, SameMaps, SameMaps-IsManager}
use ligend.Server.{Server, put_session}

-- From one state to the other, at most the session behind the reference has changed, and that one
-- keeps its name and its address: the names and the addresses of the sessions, the pool, the NAT table,
-- the settings, the HTTP server and all other sessions are the same.
pub record OnlySession (r : ℕ) (session : Session) (s s' : Server) : Type 0 where
  pub same_cfg : s'.cfg ≡ s.cfg
  pub same_http_server : s'.http_server ≡ s.http_server
  pub same_returned : s'.start_returned ≡ s.start_returned
  pub same_nat : s'.nat_table ≡ s.nat_table
  pub same_names : s'.sessions.sessions ≡ s.sessions.sessions
  pub same_addresses : s'.sessions.ip_map ≡ s.sessions.ip_map
  pub same_pool : s'.sessions.ip_pool ≡ s.sessions.ip_pool
  pub same_refs : s'.sessions.next_ref ≡ s.sessions.next_ref
  pub same_others : (q : ℕ) → (r == q) ≡ false → deref s'.sessions q ≡ deref s.sessions q
  pub same_session : StillAt s'.sessions r session

pub OnlySession-refl :
    (r : ℕ) (session : Session) (s : Server)
    → deref s.sessions r ≡ some session
    → OnlySession r session s s
unfolding deref
OnlySession-refl r session s held = record {
  same_cfg = refl;
  same_http_server = refl;
  same_returned = refl;
  same_nat = refl;
  same_names = refl;
  same_addresses = refl;
  same_pool = refl;
  same_refs = refl;
  same_others = λ q apart. refl;
  same_session = (session, held, refl, refl);
}

pub OnlySession-trans :
    (r : ℕ) (session next : Session) (s t u : Server)
    → next.id ≡ session.id
    → next.ip ≡ session.ip
    → OnlySession r session s t
    → OnlySession r next t u
    → OnlySession r session s u
OnlySession-trans r session next s t u same_id same_ip a b =
    let (new, held, new_id, new_ip) = b.same_session in
    record {
      same_cfg = b.same_cfg ∙ a.same_cfg;
      same_http_server = b.same_http_server ∙ a.same_http_server;
      same_returned = b.same_returned ∙ a.same_returned;
      same_nat = b.same_nat ∙ a.same_nat;
      same_names = b.same_names ∙ a.same_names;
      same_addresses = b.same_addresses ∙ a.same_addresses;
      same_pool = b.same_pool ∙ a.same_pool;
      same_refs = b.same_refs ∙ a.same_refs;
      same_others = λ q apart. b.same_others q apart ∙ a.same_others q apart;
      same_session = (new, held, new_id ∙ same_id, new_ip ∙ same_ip);
    }

pub put_session-OnlySession :
    (s : Server) (r : ℕ) (session new : Session)
    → new.id ≡ session.id
    → new.ip ≡ session.ip
    → OnlySession r session s (put_session s r new)
unfolding put_session store deref
put_session-OnlySession s r session new same_id same_ip = record {
  same_cfg = refl;
  same_http_server = refl;
  same_returned = refl;
  same_nat = refl;
  same_names = refl;
  same_addresses = refl;
  same_pool = refl;
  same_refs = refl;
  same_others = λ q apart. rw (lookup-insert r q new s.sessions.heap, apart);
  same_session =
      (new, rw (lookup-insert r r new s.sessions.heap, beq_refl r) refl, same_id, same_ip);
}

pub put_session-deref :
    (s : Server) (r : ℕ) (new : Session) → deref (put_session s r new).sessions r ≡ some new
unfolding put_session store deref
put_session-deref s r new = rw (lookup-insert r r new s.sessions.heap, beq_refl r) refl

-- The manager's parts still agree.
pub OnlySession-IsManager :
    (r : ℕ) (session : Session) (s s' : Server)
    → deref s.sessions r ≡ some session
    → OnlySession r session s s'
    → IsManager s.sessions
    → IsManager s'.sessions
unfolding deref
OnlySession-IsManager r session s s' held o v = SameMaps-IsManager s.sessions s'.sessions maps v
  where
    still : (q : ℕ) (x : Session) → lookup q s.sessions.heap ≡ some x → StillAt s'.sessions q x
    still q x h = elim (Bool-cases (r == q)) [
      | inr other ↦ (x, o.same_others q other ∙ h, refl, refl)
      | inl same ↦
          let e : r ≡ q = (==_iff r q).0 same in
          let x_is : session ≡ x =
            some-injective _ _ (sym held ∙ ap (λ (k : ℕ). lookup k s.sessions.heap) e ∙ h) in
          let (new, there, same_id, same_ip) = o.same_session in
          (
            new,
            ap (λ (k : ℕ). lookup k s'.sessions.heap) (sym e) ∙ there,
            same_id ∙ ap (λ (y : Session). y.id) x_is,
            same_ip ∙ ap (λ (y : Session). y.ip) x_is,
          )
    ]

    old : (q : ℕ) (x : Session) → lookup q s'.sessions.heap ≡ some x → q < s.sessions.next_ref
    old q x h = elim (Bool-cases (r == q)) [
      | inr other ↦ v.fresh q x (sym (o.same_others q other) ∙ h)
      | inl same ↦ rw (← (==_iff r q).0 same) (v.fresh r session held)
    ]

    maps : SameMaps s.sessions s'.sessions
    maps = record {
      names = o.same_names;
      addresses = o.same_addresses;
      pool = o.same_pool;
      refs = o.same_refs;
      sessions = still;
      old = old;
    }
