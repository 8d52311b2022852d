-- ===== src/Examples/Machines.antt =====
-- A machine on which the firewall's rules are a list, its server, and the ends of the program.
use ligend.Prelude.{
  ℕ, ◌+◌, ◌-◌, ◌≡◌, refl, ap, Bool, true, List, [], ◌∷◌, none, some, ltb, if◌then◌else◌, arith,
}
use ligend.Prelude.Bytes.{Bytes}
use ligend.Prelude.Tables.{bytes_eq_iff, beq_refl, bytes_keys}
use ligend.Tunnel.Device.{
  Rule, masquerade, accept_from, accept_to, checks, appends, deletes, Command, enable_forwarding,
  iptables, add_address, set_mtu, bring_up, rule_eq, NetLib, Firewall, cleanup_nat,
}
use ligend.Tunnel.Device.Rules.{started_times, cleanup_nat-setup_nat}

abbrev pub Rules : Type 0
Rules = List Rule

abbrev pub count : Rules → Rule → ℕ
count [] q = 0
count (r ∷ rs) q = let rest = count rs q in if rule_eq r q then rest + 1 else rest

abbrev delete : Rules → Rule → Rules
delete [] r = []
delete (r' ∷ rs) r = let rest = delete rs r in if rule_eq r' r then rs else r' ∷ rest

abbrev pub run_cmd : Rules → Command → Rules × Bool
run_cmd h (iptables checks r) = (h, ltb 0 (count h r))
run_cmd h (iptables appends r) = (r ∷ h, true)
run_cmd h (iptables deletes r) = (delete h r, ltb 0 (count h r))
run_cmd h enable_forwarding = (h, true)
run_cmd h (add_address addr name) = (h, true)
run_cmd h (set_mtu name mtu) = (h, true)
run_cmd h (bring_up name) = (h, true)

rule_eq-true : (r q : Rule) → rule_eq r q ≡ true → r ≡ q
rule_eq-true (masquerade a) (masquerade b) e = ap masquerade ((bytes_eq_iff a b).0 e)
rule_eq-true (masquerade a) (accept_from b) e = absurd (cc)
rule_eq-true (masquerade a) (accept_to b) e = absurd (cc)
rule_eq-true (accept_from a) (masquerade b) e = absurd (cc)
rule_eq-true (accept_from a) (accept_from b) e = ap accept_from ((bytes_eq_iff a b).0 e)
rule_eq-true (accept_from a) (accept_to b) e = absurd (cc)
rule_eq-true (accept_to a) (masquerade b) e = absurd (cc)
rule_eq-true (accept_to a) (accept_from b) e = absurd (cc)
rule_eq-true (accept_to a) (accept_to b) e = ap accept_to ((bytes_eq_iff a b).0 e)

rule_eq_refl : (r : Rule) → rule_eq r r ≡ true
rule_eq_refl (masquerade a) = beq_refl a
rule_eq_refl (accept_from a) = beq_refl a
rule_eq_refl (accept_to a) = beq_refl a

count-delete :
    (h : Rules) (r q : Rule)
    → count (delete h r) q ≡ (if rule_eq r q then count h q - 1 else count h q)
count-delete [] r q = ground arith
count-delete (r' ∷ rs) r q = ground (
  arith,
  rule_eq-true r' r,
  rule_eq-true r q,
  rule_eq-true r' q,
  rule_eq_refl r,
  rule_eq_refl q,
  count-delete rs r q,
)

pub laws : Firewall run_cmd count
laws = record {
  checked = λ h r. refl;
  appended = λ h r. refl;
  count-appends = λ h r q. refl;
  count-deletes = count-delete;
  count-enable_forwarding = λ h q. refl;
  count-add_address = λ h addr name q. refl;
  count-set_mtu = λ h name mtu q. refl;
  count-bring_up = λ h name q. refl;
}

abbrev subnet : Bytes
subnet = 10 ∷ 8 ∷ []

cleanup_nat-setup_nat_example :
    let h' = cleanup_nat run_cmd (started_times run_cmd count laws subnet 3 []) subnet in
    (count h' (accept_from subnet) ≡ 2)
    × (count h' (accept_to subnet) ≡ 2)
    × (count h' (masquerade subnet) ≡ 0)
cleanup_nat-setup_nat_example = cleanup_nat-setup_nat run_cmd count laws subnet 2 []

-- An address is its mask's length and its bytes.
abbrev pub net : NetLib
net = record {
  cidr_text = λ ip ones. ones ∷ ip;
  parse_cidr = λ text. elim text [ [] ↦ none | b ∷ bs ↦ some (bs, b) ];
}
