-- ===== src/Tunnel/Pool/Invariant.antt =====
-- No address is handed out twice, and none is lost or made up.
use ligend.Prelude.{
  ℕ, ◌+◌, ◌≡◌, refl, sym, ap, ◌∙◌, inl, inr, ◌↔◌, Bool, true, false, List, [], ◌∷◌, ◌++◌, none,
  some, length, length-append, All, All-append, All-both, Bool-cases, Option-cases, arith,
}
use mathlib.Core.Option.{some-ne-none}
use ligend.Prelude.Outcome.{err, Sat}
use ligend.Prelude.Bytes.{Bytes}
use ligend.Prelude.Tables.{
  Table, Distinct, lookup, insert, delete, bytes_keys, bytes_eq, bytes_eq_iff, lookup-insert,
  lookup-delete, insert-Distinct, delete-Distinct, length-insert_new, length-delete, All-insert,
  All-delete, beq_refl, beq_sym_false,
}
use ligend.Tunnel.Packet.{ip_string}
use ligend.Tunnel.Pool.{IpPool, no_available_addresses, allocate, release, is_used, flag_of}

-- The two addresses have different names.
abbrev pub Differs : Bytes → Bytes → Type 0
Differs ip other = bytes_eq (ip_string ip) (ip_string other) ≡ false

abbrev pub Apart : Bytes → List Bytes → Type 0
Apart ip = All (Differs ip)

-- The map has no entry for the address.
abbrev pub IsAbsent : Table Bytes Bool → Bytes → Type 0
IsAbsent used ip = lookup (ip_string ip) used ≡ none

abbrev pub IsMark : Bytes × Bool → Type 0
IsMark entry = entry.1 ≡ true

abbrev pub AllApart : List Bytes → Type 0
AllApart [] = Unit
AllApart (ip ∷ rest) = Apart ip rest × AllApart rest

-- The free addresses are distinct, none of them is in use, and the map of used addresses is a map
-- that holds no `false`.
pub record IsPool (p : IpPool) : Type 0 where
  pub distinct : AllApart p.available
  pub free : All (IsAbsent p.used) p.available
  pub keys : Distinct p.used
  pub marks : All IsMark p.used

-- How many addresses the pool has in all.
abbrev pub capacity : IpPool → ℕ
capacity p = length p.available + length p.used

AllApart-append :
    (xs : List Bytes) (ip : Bytes) → AllApart xs → Apart ip xs → AllApart (xs ++ ip ∷ [])
AllApart-append [] ip d a = (tt, tt)
AllApart-append (x ∷ xs) ip d a = (
  All-append (Differs x) xs (ip ∷ []) d.0 (beq_sym_false (ip_string ip) (ip_string x) a.0, tt),
  AllApart-append xs ip d.1 a.1,
)

-- What handing out `ip` does: it was free and is used now, and nothing else changed.
pub record Allocates (p : IpPool) (ip : Bytes) (q : IpPool) : Type 0 where
  pub valid : IsPool q
  pub was_free : is_used p ip ≡ false
  pub now_used : is_used q ip ≡ true
  pub others :
      (other : Bytes)
      → bytes_eq (ip_string ip) (ip_string other) ≡ false
      → is_used q other ≡ is_used p other
  pub first : p.available ≡ ip ∷ q.available
  pub total : capacity q ≡ capacity p

takes_first :
    (p : IpPool) (ip : Bytes) (rest : List Bytes)
    → IsPool (record p { available = ip ∷ rest })
    → Allocates
        (record p { available = ip ∷ rest })
        ip
        (record p { available = rest; used = insert (ip_string ip) true p.used })
unfolding is_used
takes_first p ip rest v = record {
  valid = record {
    distinct = v.distinct.1;
    free =
        All-both (Differs ip) (IsAbsent p.used) (IsAbsent (insert (ip_string ip) true p.used)) rest
          (λ other apart absent.
            rw (lookup-insert (ip_string ip) (ip_string other) true p.used, apart) absent)
          v.distinct.0 v.free.1;
    keys = insert-Distinct (ip_string ip) true p.used v.keys;
    marks = All-insert IsMark (ip_string ip) true p.used refl v.marks;
  };
  was_free = ap flag_of v.free.0;
  now_used = rw (lookup-insert (ip_string ip) (ip_string ip) true p.used, beq_refl (ip_string ip));
  others = λ other apart. rw (lookup-insert (ip_string ip) (ip_string other) true p.used, apart);
  first = refl;
  total = omega (arith, length-insert_new (ip_string ip) true p.used v.free.0);
}

-- A valid pool hands out its first free address, which was not in use, and is valid again with the
-- same capacity; it refuses exactly if no address is free.
pub allocate-Allocates :
    (p : IpPool)
    → IsPool p
    → Sat (λ r. Allocates p r.0 r.1) (allocate p)
      × ((allocate p ≡ err no_available_addresses) ↔ (p.available ≡ []))
unfolding allocate is_used
allocate-Allocates p v = go p.available refl
  where
    go :
        (xs : List Bytes)
        → p.available ≡ xs
        → Sat (λ r. Allocates p r.0 r.1) (allocate p)
          × ((allocate p ≡ err no_available_addresses) ↔ (p.available ≡ []))
    go [] e = rw (e, allocate) (tt, (λ _. refl, λ _. refl))
    go (ip ∷ rest) e =
        rw (e, allocate) (takes_first p ip rest (rw e at v), (λ q. absurd (cc), λ q. absurd (cc)))

-- What giving `ip` back does: it is free and last in the queue, and nothing else changed.
pub record Releases (p : IpPool) (ip : Bytes) (q : IpPool) : Type 0 where
  pub valid : IsPool q
  pub now_free : is_used q ip ≡ false
  pub others :
      (other : Bytes)
      → bytes_eq (ip_string ip) (ip_string other) ≡ false
      → is_used q other ≡ is_used p other
  pub last : q.available ≡ p.available ++ ip ∷ []
  pub total : capacity q ≡ capacity p

-- A name that is in the map differs from every name that is not.
Apart-of_used :
    (used : Table Bytes Bool) (ip : Bytes) (xs : List Bytes) (b : Bool)
    → lookup (ip_string ip) used ≡ some b
    → All (IsAbsent used) xs
    → Apart ip xs
Apart-of_used used ip [] b h free = tt
Apart-of_used used ip (x ∷ xs) b h free = (
  elim (Bool-cases (bytes_eq (ip_string ip) (ip_string x))) [
    | inr apart ↦ apart
    | inl same ↦
        let names : ip_string ip ≡ ip_string x = (bytes_eq_iff _ _).0 same in
        absurd (some-ne-none b (sym h ∙ ap (λ (k : Bytes). lookup k used) names ∙ free.0))
  ],
  Apart-of_used used ip xs b h free.1,
)

gives_back :
    (p : IpPool) (ip : Bytes) (b : Bool)
    → IsPool p
    → lookup (ip_string ip) p.used ≡ some b
    → Releases p ip
        (record p { used = delete (ip_string ip) p.used; available = p.available ++ ip ∷ [] })
unfolding is_used
gives_back p ip b v h = record {
  valid = record {
    distinct = AllApart-append p.available ip v.distinct apart;
    free =
        All-append (IsAbsent (delete (ip_string ip) p.used)) p.available (ip ∷ [])
          (All-both (Differs ip) (IsAbsent p.used) (IsAbsent (delete (ip_string ip) p.used))
            p.available
            (λ other differs absent.
              rw (lookup-delete (ip_string ip) (ip_string other) p.used, differs) absent)
            apart v.free)
          (gone, tt);
    keys = delete-Distinct (ip_string ip) p.used v.keys;
    marks = All-delete IsMark (ip_string ip) p.used v.marks;
  };
  now_free = ap flag_of gone;
  others = λ other differs. rw (lookup-delete (ip_string ip) (ip_string other) p.used, differs);
  last = refl;
  total =
      omega (
        arith,
        length-append p.available (ip ∷ []),
        length-delete (ip_string ip) b p.used v.keys h,
      );
}
  where
    apart : Apart ip p.available
    apart = Apart-of_used p.used ip p.available b h v.free

    gone : lookup (ip_string ip) (delete (ip_string ip) p.used) ≡ none
    gone = lookup-delete (ip_string ip) (ip_string ip) p.used ∙ rw (beq_refl (ip_string ip))

-- An address in use is freed by `release`, in a valid pool that stays valid with the same capacity;
-- releasing an address that is not in use changes nothing.
pub release-Releases :
    (p : IpPool) (ip : Bytes)
    → IsPool p
    → (is_used p ip ≡ true → Releases p ip (release p ip))
      × (is_used p ip ≡ false → release p ip ≡ p)
unfolding release is_used
release-Releases p ip v = (
  λ h. elim (Option-cases (lookup (ip_string ip) p.used)) [
    | inl e ↦ absurd (cc (ap flag_of e))
    | inr (b, e) ↦ rw h (gives_back p ip b v e)
  ],
  λ h. rw h,
)
