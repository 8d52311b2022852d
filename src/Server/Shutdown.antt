-- ===== src/Server/Shutdown.antt =====
-- The firewall's rules from the server's start to its end: server/internal/server/server.go.
use ligend.Prelude.{
  ℕ, zero, suc, ◌+◌, ◌≡◌, ◌||◌, ltb, if◌then◌else◌, refl, ap, ◌∙◌, Bool, true, false, [], ◌∷◌,
  Option, none, some, arith,
}
use mathlib.Core.Path.{subst}
use ligend.Prelude.Outcome.{Outcome, ok, Returns}
use ligend.Prelude.Bytes.{Bytes}
use ligend.Tunnel.Pool.{Network, set_last}
use ligend.Tunnel.Device.{
  Rule, accept_from, accept_to, Command, TunDevice, NetLib, Firewall, run, run_then,
  configure_parsed, configure, configured, new_tun_device, add_address, set_mtu, bring_up,
}
use ligend.Tunnel.Device.Rules.{setup_nat-SetUp, cleanup_nat-counts}
use ligend.Server.{Server, HttpServer}
use ligend.Server.Startup.{
  start, StartError, on_device, on_gateway, on_network, ends_start, without_rules, shutdown,
}

-- The server that `Start` waits for is the one that is shut down.
pub returned_awaited :
    (returned : Bool) (http : Option HttpServer) (addr path : Bytes)
    → http ≡ some (record { addr = addr; web_socket_path = path; awaited = true })
    → ends_start returned http ≡ true
returned_awaited true http addr path e = rw e refl
returned_awaited false http addr path e = rw e refl

module _ {H : Type 0} (run_cmd : H → Command → H × Bool) (count : H → Rule → ℕ)
    (fw : Firewall run_cmd count) where
  run_then-count :
      (m : H × Bool) (name : Bytes) (q : Rule)
      → count (run_then run_cmd m (bring_up name)).0 q ≡ count m.0 q
  run_then-count (h, true) name q = fw.count-bring_up h name q
  run_then-count (h, false) name q = refl

  configure_parsed-count :
      (h : H) (net : NetLib) (dev : TunDevice) (parsed : Option (Bytes × ℕ)) (q : Rule)
      → count (configure_parsed run_cmd h net dev parsed).0 q ≡ count h q
  configure_parsed-count h net dev none q = refl
  configure_parsed-count h net dev (some (ip, ones)) q =
      run_then-count
        (run_cmd (run run_cmd h (add_address (net.cidr_text ip ones) dev.name))
          (set_mtu dev.name dev.mtu))
        dev.name q
      ∙ fw.count-set_mtu (run run_cmd h (add_address (net.cidr_text ip ones) dev.name)) dev.name
          dev.mtu q
      ∙ fw.count-add_address h (net.cidr_text ip ones) dev.name q

  configured-machine : (dev : TunDevice) (m : H × Bool) → (configured run_cmd dev m).0 ≡ m.0
  configured-machine dev (h, true) = refl
  configured-machine dev (h, false) = refl

  new_tun_device-count :
      (h : H) (net : NetLib) (opened : Option Bytes) (addr : Bytes) (mtu : ℕ) (q : Rule)
      → count (new_tun_device run_cmd h net opened addr mtu).0 q ≡ count h q
  unfolding new_tun_device configure
  new_tun_device-count h net none addr mtu q = refl
  new_tun_device-count h net (some name) addr mtu q =
      let dev : TunDevice = record { name = name; addr = addr; mtu = mtu } in
      ap (λ (m : H). count m q) (configured-machine dev (configure run_cmd h net dev))
      ∙ configure_parsed-count h net dev (net.parse_cidr addr) q

  -- The server after `Start` on the machine `h`, and the rules for forwarding that it has added.
  abbrev Serves : H → Server → H → Server → Type 0
  Serves h s h' s' =
      (s'.http_server
        ≡ some (record {
          addr = s.cfg.listen_addr;
          web_socket_path = s.cfg.web_socket_path;
          awaited = true;
        }))
      × ((dev : TunDevice) × (s'.tun ≡ some dev))
      × (s'.cfg ≡ s.cfg)
      × (s'.start_returned ≡ s.start_returned)
      × (count h' (accept_from s.cfg.vpn_subnet.text)
          ≡ count h (accept_from s.cfg.vpn_subnet.text) + 1)
      × (count h' (accept_to s.cfg.vpn_subnet.text) ≡ count h (accept_to s.cfg.vpn_subnet.text) + 1)

  abbrev AfterStart : H → Server → H × Outcome StartError Server → Type 0
  AfterStart h s (h', reply) = Returns (Serves h s h') reply

  on_device-AfterStart :
      (h : H) (listens : Bool) (s : Server) (m : H × Option TunDevice)
      → ((q : Rule) → count m.0 q ≡ count h q)
      → AfterStart h s (on_device run_cmd listens s m)
  on_device-AfterStart h listens s (h₁, none) same = tt
  on_device-AfterStart h false s (h₁, some dev) same = tt
  on_device-AfterStart h true s (h₁, some dev) same =
      let subnet = s.cfg.vpn_subnet.text in
      let (done, (masq, from, to)) = setup_nat-SetUp run_cmd count fw subnet h₁ in
      (
        refl,
        (dev, refl),
        refl,
        refl,
        omega (arith, from, same (accept_from subnet)),
        omega (arith, to, same (accept_to subnet)),
      )

  on_gateway-AfterStart :
      (h : H) (net : NetLib) (opened : Option Bytes) (listens : Bool) (s : Server) (ip : Bytes)
      (ones : ℕ)
      → AfterStart h s (on_gateway run_cmd h net opened listens s ip ones)
  on_gateway-AfterStart h net opened listens s [] ones = tt
  on_gateway-AfterStart h net opened listens s (b ∷ bs) ones =
      let addr = net.cidr_text (set_last (b ∷ bs) 1) ones in
      on_device-AfterStart h listens s (new_tun_device run_cmd h net opened addr s.cfg.mtu)
        (new_tun_device-count h net opened addr s.cfg.mtu)

  on_network-AfterStart :
      (h : H) (net : NetLib) (opened : Option Bytes) (listens : Bool) (s : Server)
      (network : Option Network)
      → AfterStart h s (on_network run_cmd h net opened listens s network)
  on_network-AfterStart h net opened listens s none = tt
  on_network-AfterStart h net opened listens s (some network) =
      on_gateway-AfterStart h net opened listens s network.ip network.ones

  start-Serves :
      (h h' : H) (net : NetLib) (opened : Option Bytes) (listens : Bool) (s s' : Server)
      → start run_cmd h net opened listens s ≡ (h', ok s')
      → Serves h s h' s'
  unfolding start
  start-Serves h h' net opened listens s s' e =
      subst (AfterStart h s) e
        (on_network-AfterStart h net opened listens s s.cfg.vpn_subnet.parsed)

  -- What is so after so many steps of `Shutdown` of the server that was started as `s`.
  abbrev pub Ends : H → Server → ℕ → H × Server → Type 0
  Ends h s steps m =
      let subnet = s.cfg.vpn_subnet.text in
      let left : ℕ = if ltb 2 steps then 0 else 1 in
      (m.1.start_returned ≡ (ltb 0 steps || s.start_returned))
      × (count m.0 (accept_from subnet) ≡ count h (accept_from subnet) + left)
      × (count m.0 (accept_to subnet) ≡ count h (accept_to subnet) + left)

  without_rules-counts :
      (h h' : H) (s s' : Server)
      → Serves h s h' s'
      → let subnet = s.cfg.vpn_subnet.text in
        let h'' = without_rules run_cmd h' s' s'.tun in
        (count h'' (accept_from subnet) ≡ count h (accept_from subnet))
        × (count h'' (accept_to subnet) ≡ count h (accept_to subnet))
  without_rules-counts h h' s s' (http, (dev, has_dev), cfg, returned, from, to) =
      let (masq', from', to') = cleanup_nat-counts run_cmd count fw s.cfg.vpn_subnet.text h' in
      rw (has_dev, cfg) (omega (arith, from, from'), omega (arith, to, to'))

  shutdown-Ends :
      (h h' : H) (s s' : Server) (steps : ℕ)
      → Serves h s h' s'
      → Ends h s steps (shutdown run_cmd steps h' s')
  unfolding shutdown
  shutdown-Ends h h' s s' steps sv = by_steps steps
    where
      ended : ends_start s'.start_returned s'.http_server ≡ true
      ended =
          returned_awaited s'.start_returned s'.http_server s.cfg.listen_addr s.cfg.web_socket_path
            sv.0

      by_steps : (n : ℕ) → Ends h s n (shutdown run_cmd n h' s')
      by_steps zero = (sv.3, sv.4, sv.5)
      by_steps (suc zero) = (ended, sv.4, sv.5)
      by_steps (suc (suc zero)) = (ended, sv.4, sv.5)
      by_steps (suc (suc (suc n))) =
          let (from, to) = without_rules-counts h h' s s' sv in
          let many : ltb 2 (suc (suc (suc n))) ≡ true = ground arith in
          let some_step : ltb 0 (suc (suc (suc n))) ≡ true = ground arith in
          rw (many, some_step) (ended, omega (arith, from), omega (arith, to))

  -- As soon as `Shutdown` has begun, `Start` returns, and the program may end with status 1 before
  -- the next step. Ended before the third step, it leaves the two rules for forwarding that its start
  -- added; from then on they stand as often as before the start.
  pub shutdown-start :
      (h h' : H) (net : NetLib) (opened : Option Bytes) (listens : Bool) (s s' : Server) (steps : ℕ)
      → start run_cmd h net opened listens s ≡ (h', ok s')
      → Ends h s steps (shutdown run_cmd steps h' s')
  shutdown-start h h' net opened listens s s' steps e =
      shutdown-Ends h h' s s' steps (start-Serves h h' net opened listens s s' e)
