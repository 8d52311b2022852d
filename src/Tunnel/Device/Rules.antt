-- ===== src/Tunnel/Device/Rules.antt =====
-- How often the firewall's rules stand: server/internal/tunnel/tunnel_linux.go.
use ligend.Prelude.{
  ℕ, zero, suc, ◌+◌, ◌-◌, ◌≡◌, refl, sym, ◌∙◌, Bool, true, false, ltb, if◌then◌else◌, arith,
}
use mathlib.Core.Path.{subst}
use ligend.Prelude.Bytes.{Bytes}
use ligend.Prelude.Tables.{beq_refl, bytes_keys}
use ligend.Tunnel.Device.{
  Rule, masquerade, accept_from, accept_to, checks, Command, iptables, enable_forwarding, Firewall,
  run, masqueraded, forwarded, with_forwarding, setup_nat, cleanup_nat,
}

module _ {H : Type 0} (run_cmd : H → Command → H × Bool) (count : H → Rule → ℕ)
    (fw : Firewall run_cmd count) (subnet : Bytes) where
  count-checks : (h : H) (r q : Rule) → count (run run_cmd h (iptables checks r)) q ≡ count h q
  count-checks h r q = rw (run, fw.checked h r) refl

  -- What is added for forwarding is one rule for each direction.
  forwarded-counts :
      (h : H)
      → (count (forwarded run_cmd h subnet) (masquerade subnet) ≡ count h (masquerade subnet))
        × (count (forwarded run_cmd h subnet) (accept_from subnet)
            ≡ count h (accept_from subnet) + 1)
        × (count (forwarded run_cmd h subnet) (accept_to subnet) ≡ count h (accept_to subnet) + 1)
  forwarded-counts h = simp (count-checks, fw.count-appends, beq_refl subnet) (refl, refl, refl)

  masqueraded-count :
      (h : H) (found : Bool)
      → found ≡ ltb 0 (count h (masquerade subnet))
      → ((masqueraded run_cmd (h, found) subnet).1 ≡ true)
        × (count (masqueraded run_cmd (h, found) subnet).0 (masquerade subnet)
            ≡ count h (masquerade subnet) + (if found then 0 else 1))
        × (count (masqueraded run_cmd (h, found) subnet).0 (accept_from subnet)
            ≡ count h (accept_from subnet))
        × (count (masqueraded run_cmd (h, found) subnet).0 (accept_to subnet)
            ≡ count h (accept_to subnet))
  masqueraded-count h true e = (refl, omega arith, refl, refl)
  masqueraded-count h false e = (
    fw.appended h (masquerade subnet),
    simp (fw.count-appends, beq_refl subnet) refl,
    simp (fw.count-appends) refl,
    simp (fw.count-appends) refl,
  )

  with_forwarding-true :
      (m : H × Bool)
      → m.1 ≡ true
      → with_forwarding run_cmd m subnet ≡ (forwarded run_cmd m.0 subnet, true)
  with_forwarding-true (h, true) e = refl
  with_forwarding-true (h, false) e = absurd (cc)

  -- The rules after the set-up: one for the addresses at least, and one more for each direction.
  abbrev pub SetUp : H → H → Type 0
  SetUp h h' =
      (count h' (masquerade subnet)
        ≡ count h (masquerade subnet) + (if ltb 0 (count h (masquerade subnet)) then 0 else 1))
      × (count h' (accept_from subnet) ≡ count h (accept_from subnet) + 1)
      × (count h' (accept_to subnet) ≡ count h (accept_to subnet) + 1)

  pub setup_nat-SetUp :
      (h : H) → ((setup_nat run_cmd h subnet).1 ≡ true) × SetUp h (setup_nat run_cmd h subnet).0
  unfolding setup_nat
  setup_nat-SetUp h =
      let h₁ : H = run run_cmd h enable_forwarding in
      let found : Bool = ltb 0 (count h₁ (masquerade subnet)) in
      let m : H × Bool = masqueraded run_cmd (h₁, found) subnet in
      let (done, masq, from, to) = masqueraded-count h₁ found refl in
      let (masq', from', to') = forwarded-counts m.0 in
      let e : setup_nat run_cmd h subnet ≡ (forwarded run_cmd m.0 subnet, true) =
        rw (fw.checked h₁ (masquerade subnet)) (with_forwarding-true m done) in
      let same : (r : Rule) → count h₁ r ≡ count h r = fw.count-enable_forwarding h in
      subst (λ (k : H × Bool). (k.1 ≡ true) × SetUp h k.0) (sym e)
        (
          refl,
          (
            masq' ∙ masq ∙ (rw (same (masquerade subnet)) refl),
            omega (arith, from', from, same (accept_from subnet)),
            omega (arith, to', to, same (accept_to subnet)),
          ),
        )

  pub cleanup_nat-counts :
      (h : H)
      → let h' = cleanup_nat run_cmd h subnet in
        (count h' (masquerade subnet) ≡ count h (masquerade subnet) - 1)
        × (count h' (accept_from subnet) ≡ count h (accept_from subnet) - 1)
        × (count h' (accept_to subnet) ≡ count h (accept_to subnet) - 1)
  unfolding cleanup_nat
  cleanup_nat-counts h = simp (fw.count-deletes, beq_refl subnet) (refl, refl, refl)

  -- So many starts, the first on the machine `h`, none of which is followed by a clean-up.
  abbrev pub started_times : ℕ → H → H
  started_times zero h = h
  started_times (suc n) h = (setup_nat run_cmd (started_times n h) subnet).0

  started_times-counts :
      (n : ℕ) (h : H)
      → let h' = started_times n h in
        (count h' (masquerade subnet)
          ≡ count h (masquerade subnet)
            + (if ltb 0 (count h (masquerade subnet)) then 0 else (if ltb 0 n then 1 else 0)))
        × (count h' (accept_from subnet) ≡ count h (accept_from subnet) + n)
        × (count h' (accept_to subnet) ≡ count h (accept_to subnet) + n)
  started_times-counts zero h = (ground arith, omega arith, omega arith)
  started_times-counts (suc n) h =
      let (masq, from, to) = started_times-counts n h in
      let (done, (masq', from', to')) = setup_nat-SetUp (started_times n h) in
      (ground arith, omega (arith, from, from'), omega (arith, to, to'))

  -- Each start adds the two rules for forwarding once more, although it asks whether they stand, and
  -- keeps one rule for the addresses; the clean-up deletes each rule once. So after one start and a
  -- clean-up the rules for forwarding are as they were, and those of any further start that was not
  -- cleaned up after are left; a rule for the addresses that stood before the start is gone.
  pub cleanup_nat-setup_nat :
      (n : ℕ) (h : H)
      → let h' = cleanup_nat run_cmd (started_times (suc n) h) subnet in
        (count h' (accept_from subnet) ≡ count h (accept_from subnet) + n)
        × (count h' (accept_to subnet) ≡ count h (accept_to subnet) + n)
        × (count h' (masquerade subnet) ≡ count h (masquerade subnet) - 1)
  cleanup_nat-setup_nat n h =
      let (masq, from, to) = started_times-counts (suc n) h in
      let (masq', from', to') = cleanup_nat-counts (started_times (suc n) h) in
      (omega (arith, from, from'), omega (arith, to, to'), ground arith)
