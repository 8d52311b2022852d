-- ===== src/Tunnel/Device.antt =====
-- server/internal/tunnel/tunnel_linux.go: the TUN device and the firewall rules of the VPN's traffic.
-- The programs that it calls change the machine, a state `H`; a call ends with success or not.
pub mod Rules
use ligend.Prelude.{
  ℕ, ◌+◌, ◌-◌, Bool, true, false, not, ◌&&◌, Option, none, some, ltb, ◌==◌, if◌then◌else◌, ◌≡◌,
}
use ligend.Prelude.Bytes.{Bytes}
use ligend.Prelude.Tables.{bytes_eq}

-- The rules for a subnet: `-t nat POSTROUTING -s subnet -j MASQUERADE`, `FORWARD -s subnet -j ACCEPT`
-- and `FORWARD -d subnet -m state --state RELATED,ESTABLISHED -j ACCEPT`.
pub data Rule : Type 0 where
  masquerade accept_from accept_to : Bytes → Rule

-- `iptables -C`, `-A` and `-D`
pub data Action : Type 0 where
  checks appends deletes : Action

-- `sysctl -w net.ipv4.ip_forward=1`, `iptables`, `ip addr add`, `ip link set dev … mtu …` and
-- `ip link set dev … up`. An address is its text, with the length of its mask.
pub data Command : Type 0 where
  enable_forwarding : Command
  iptables : Action → Rule → Command
  add_address : Bytes → Bytes → Command
  set_mtu : Bytes → ℕ → Command
  bring_up : Bytes → Command

abbrev pub rule_eq : Rule → Rule → Bool
rule_eq (masquerade a) (masquerade b) = bytes_eq a b
rule_eq (accept_from a) (accept_from b) = bytes_eq a b
rule_eq (accept_to a) (accept_to b) = bytes_eq a b
rule_eq _ _ = false

pub record TunDevice : Type 0 where
  pub name : Bytes
  pub addr : Bytes
  pub mtu : ℕ

-- What the `net` package makes of an address and the length of its mask, and back.
pub record NetLib : Type 0 where
  pub cidr_text : Bytes → ℕ → Bytes
  pub parse_cidr : Bytes → Option (Bytes × ℕ)

-- The documentation of iptables, for a user who may change the rules: `-C` succeeds if the rule
-- stands and changes nothing, `-A` adds it, `-D` deletes it once if it stands. No other command
-- touches the rules.
pub record Firewall {H : Type 0} (run_cmd : H → Command → H × Bool) (count : H → Rule → ℕ)
    : Type 0 where
  pub checked : (h : H) (r : Rule) → run_cmd h (iptables checks r) ≡ (h, ltb 0 (count h r))
  pub appended : (h : H) (r : Rule) → (run_cmd h (iptables appends r)).1 ≡ true
  pub count-appends :
      (h : H) (r q : Rule)
      → count (run_cmd h (iptables appends r)).0 q
        ≡ (if rule_eq r q then count h q + 1 else count h q)
  pub count-deletes :
      (h : H) (r q : Rule)
      → count (run_cmd h (iptables deletes r)).0 q
        ≡ (if rule_eq r q then count h q - 1 else count h q)
  pub count-enable_forwarding :
      (h : H) (q : Rule) → count (run_cmd h enable_forwarding).0 q ≡ count h q
  pub count-add_address :
      (h : H) (addr name : Bytes) (q : Rule)
      → count (run_cmd h (add_address addr name)).0 q ≡ count h q
  pub count-set_mtu :
      (h : H) (name : Bytes) (mtu : ℕ) (q : Rule)
      → count (run_cmd h (set_mtu name mtu)).0 q ≡ count h q
  pub count-bring_up :
      (h : H) (name : Bytes) (q : Rule) → count (run_cmd h (bring_up name)).0 q ≡ count h q

module _ {H : Type 0} (run_cmd : H → Command → H × Bool) where
  -- Whether the command succeeds is not looked at.
  abbrev pub run : H → Command → H
  run h c = (run_cmd h c).0

  -- The second command only if the first succeeds.
  abbrev pub run_then : H × Bool → Command → H × Bool
  run_then (h, true) c = run_cmd h c
  run_then (h, false) c = (h, false)

  abbrev pub configure_parsed : H → NetLib → TunDevice → Option (Bytes × ℕ) → H × Bool
  configure_parsed h net dev none = (h, false)
  configure_parsed h net dev (some (ip, ones)) =
      run_then
        (run_cmd (run h (add_address (net.cidr_text ip ones) dev.name)) (set_mtu dev.name dev.mtu))
        (bring_up dev.name)

  unfoldable pub configure : H → NetLib → TunDevice → H × Bool
  configure h net dev = configure_parsed h net dev (net.parse_cidr dev.addr)

  abbrev pub configured : TunDevice → H × Bool → H × Option TunDevice
  configured dev (h, true) = (h, some dev)
  configured dev (h, false) = (h, none)

  -- `opened` is the name of the interface that `water.New` makes, if it makes one.
  unfoldable pub new_tun_device : H → NetLib → Option Bytes → Bytes → ℕ → H × Option TunDevice
  unfolding configure
  new_tun_device h net none addr mtu = (h, none)
  new_tun_device h net (some name) addr mtu =
      let dev : TunDevice = record { name = name; addr = addr; mtu = mtu } in
      configured dev (configure h net dev)

  abbrev pub masqueraded : H × Bool → Bytes → H × Bool
  masqueraded (h, true) subnet = (h, true)
  masqueraded (h, false) subnet = run_cmd h (iptables appends (masquerade subnet))

  -- Each rule for forwarding is checked, and then added whatever the check says.
  abbrev pub forwarded : H → Bytes → H
  forwarded h subnet =
      run
        (run
          (run (run h (iptables checks (accept_from subnet)))
            (iptables appends (accept_from subnet)))
          (iptables checks (accept_to subnet)))
        (iptables appends (accept_to subnet))

  abbrev pub with_forwarding : H × Bool → Bytes → H × Bool
  with_forwarding (h, true) subnet = (forwarded h subnet, true)
  with_forwarding (h, false) subnet = (h, false)

  unfoldable pub setup_nat : H → Bytes → H × Bool
  setup_nat h subnet =
      with_forwarding
        (masqueraded (run_cmd (run h enable_forwarding) (iptables checks (masquerade subnet)))
          subnet)
        subnet

  unfoldable pub cleanup_nat : H → Bytes → H
  cleanup_nat h subnet =
      run
        (run (run h (iptables deletes (masquerade subnet))) (iptables deletes (accept_from subnet)))
        (iptables deletes (accept_to subnet))
