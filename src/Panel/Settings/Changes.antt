-- ===== src/Panel/Settings/Changes.antt =====
-- What a change of the settings leads to: api_protocol.go, api_server.go.
use ligend.Prelude.{
  ℕ, zero, suc, ◌*◌, ◌≤◌, ◌<◌, ◌≡◌, ◌↔◌, refl, true, Bool-cases, inl, inr, [], ◌∷◌, Option, none,
  some, arith,
}
use ligend.Prelude.Outcome.{ok, panic}
use ligend.Prelude.Bytes.{Bytes}
use ligend.Prelude.Tables.{bytes_eq, bytes_eq_iff}
use ligend.Prelude.Texts.{pos, negsuc, positive, or_keep}
use ligend.Config.{Config}
use ligend.Protocol.Frame.{Rng}
use ligend.Protocol.Shaping.{padding_delay, padding_delay-range}
use ligend.Tunnel.Packet.{to4}
use ligend.Tunnel.Session.{Session}
use mathlib.Core.Option
use ligend.Server.{Server, HttpServer}
use ligend.Server.Startup.{update_listen_addr}
use ligend.Server.Welcome.{welcome}
use ligend.Server.Requests.{welcome-panic}
use ligend.Panel.Http.{put, success}
use ligend.Panel.Settings.{
  ProtocolConfig, shown_protocol, changed_protocol, handle_protocol, ConfigUpdate, contains,
  with_colon, changed_addr, changed_config, handle_server_config,
}

or_keep-positive : (n : ℕ) → or_keep (positive (pos n)) n ≡ n
or_keep-positive zero = refl
or_keep-positive (suc n) = refl

or_keep-twice {ℓ} : {A : Type ℓ} (o : Option A) (x : A) → or_keep o (or_keep o x) ≡ or_keep o x
or_keep-twice none x = refl
or_keep-twice (some y) x = refl

-- Saving the protocol settings as they are shown changes nothing.
pub changed_protocol-shown_protocol :
    (cfg : Config) → changed_protocol cfg (shown_protocol cfg) ≡ cfg
unfolding changed_protocol shown_protocol
changed_protocol-shown_protocol cfg =
    rw
      (
        or_keep-positive cfg.padding_min,
        or_keep-positive cfg.padding_max,
        or_keep-positive cfg.awg_jc,
        or_keep-positive cfg.awg_jmin,
        or_keep-positive cfg.awg_jmax,
        or_keep-positive cfg.awgh1,
        or_keep-positive cfg.awgh2,
        or_keep-positive cfg.awgh3,
        or_keep-positive cfg.awgh4,
      )
      refl

pub changed_protocol-twice :
    (cfg : Config) (p : ProtocolConfig)
    → changed_protocol (changed_protocol cfg p) p ≡ changed_protocol cfg p
unfolding changed_protocol
changed_protocol-twice cfg p =
    rw
      (
        or_keep-twice (positive p.padding_min_sec) cfg.padding_min,
        or_keep-twice (positive p.padding_max_sec) cfg.padding_max,
        or_keep-twice (positive p.awg_jc) cfg.awg_jc,
        or_keep-twice (positive p.awg_jmin) cfg.awg_jmin,
        or_keep-twice (positive p.awg_jmax) cfg.awg_jmax,
        or_keep-twice (positive (pos p.awgh1)) cfg.awgh1,
        or_keep-twice (positive (pos p.awgh2)) cfg.awgh2,
        or_keep-twice (positive (pos p.awgh3)) cfg.awgh3,
        or_keep-twice (positive (pos p.awgh4)) cfg.awgh4,
      )
      refl

positive-suc : (n : ℕ) → 0 < n → positive (pos n) ≡ some n
positive-suc zero h = absurd (omega arith)
positive-suc (suc n) h = refl

-- A change of the protocol settings with two positive padding delays succeeds in any order of the
-- two. After it, the timer of the padding generator lies within them, in nanoseconds, if they are in
-- order and the upper is at most 9223372036 seconds; it is negative, so that frames follow without a
-- pause, if both lie between 9223372037 and 18446744073; and the generator panics exactly if the lower
-- exceeds the upper.
pub handle_protocol-padding :
    (s : Server) (p : ProtocolConfig) (draw lo hi : ℕ)
    → p.padding_min_sec ≡ pos lo
    → p.padding_max_sec ≡ pos hi
    → 0 < lo
    → 0 < hi
    → hi < 9223372036854775808
    → let (s', reply) = handle_protocol s put (some p) in
      let delay = padding_delay draw s'.cfg.padding_min s'.cfg.padding_max in
      (reply ≡ success p)
      × (lo ≤ hi
          → hi ≤ 9223372036
          → (d : ℕ) × (delay ≡ ok (pos (d * 1000000000))) × (lo ≤ d) × (d ≤ hi))
      × (lo ≤ hi → 9223372037 ≤ lo → hi ≤ 18446744073 → (m : ℕ) × (delay ≡ ok (negsuc m)))
      × ((delay ≡ panic) ↔ (hi < lo))
unfolding handle_protocol changed_protocol
handle_protocol-padding s p draw lo hi is_lo is_hi low high word =
    let range = padding_delay-range draw lo hi low word in
    rw (is_lo, is_hi, positive-suc lo low, positive-suc hi high) (refl, range.0, range.1, range.2)

with_colon-contains : (addr : Bytes) → contains b':' (with_colon addr) ≡ true
with_colon-contains addr = elim (Bool-cases (contains b':' addr)) [
  | inl has ↦ rw has has
  | inr no_colon ↦ rw no_colon refl
]

-- Where the HTTP server listens, once there is one.
abbrev http_addr : Server → Option Bytes
http_addr s = Option.map (λ (http : HttpServer). http.addr) s.http_server

-- The server listens at its configured address after a change of the settings if it did before.
pub changed_addr-ListensThere :
    (s : Server) (addr : Bytes)
    → http_addr s ≡ some s.cfg.listen_addr
    → http_addr (changed_addr s addr) ≡ some (changed_addr s addr).cfg.listen_addr
unfolding changed_addr update_listen_addr
changed_addr-ListensThere s [] there = there
changed_addr-ListensThere s (c ∷ cs) there =
    elim (Bool-cases (bytes_eq (with_colon (c ∷ cs)) s.cfg.listen_addr)) [
      | inl same ↦
          rw same (rw ((bytes_eq_iff (with_colon (c ∷ cs)) s.cfg.listen_addr).0 same) there)
      | inr other ↦ rw other refl
    ]

changed_addr-contains :
    (s : Server) (c : ℕ) (cs : Bytes)
    → contains b':' (changed_addr s (c ∷ cs)).cfg.listen_addr ≡ true
unfolding changed_addr update_listen_addr
changed_addr-contains s c cs =
    elim (Bool-cases (bytes_eq (with_colon (c ∷ cs)) s.cfg.listen_addr)) [
      | inl same ↦ rw same (with_colon-contains (c ∷ cs))
      | inr other ↦ rw other (with_colon-contains (c ∷ cs))
    ]

-- A change of the settings that names an address leaves a listening server listening at the
-- configured address, which then contains a colon.
pub handle_server_config-address :
    (s : Server) (u : ConfigUpdate) (c : ℕ) (cs : Bytes)
    → u.listen_addr ≡ c ∷ cs
    → http_addr s ≡ some s.cfg.listen_addr
    → let (s', reply) = handle_server_config s put (some u) in
      (reply ≡ success s'.cfg)
      × (http_addr s' ≡ some s'.cfg.listen_addr)
      × (contains b':' s'.cfg.listen_addr ≡ true)
unfolding handle_server_config changed_config
handle_server_config-address s u c cs named there =
    rw named (refl, changed_addr-ListensThere s (c ∷ cs) there, changed_addr-contains s c cs)

-- A change of the settings with a subnet that does not parse succeeds, and after it every new client
-- with an IPv4 address to which the first two messages are delivered makes the server panic.
pub handle_server_config-panic :
    (s : Server) (u : ConfigUpdate) (rng : Rng) (conn r : ℕ) (session : Session) (v4 : Bytes)
    (c : ℕ) (cs : Bytes)
    → u.vpn_subnet.text ≡ c ∷ cs
    → u.vpn_subnet.parsed ≡ none
    → session.connections ≡ []
    → to4 session.ip ≡ some v4
    → let (s', reply) = handle_server_config s put (some u) in
      (reply ≡ success s'.cfg) × (welcome (λ w. true) rng conn s' r session ≡ panic)
unfolding handle_server_config changed_config
handle_server_config-panic s u rng conn r session v4 c cs named unparsed fresh is_v4 =
    (refl, welcome-panic rng conn _ r session v4 (rw named unparsed) fresh is_v4)
