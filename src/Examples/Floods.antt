-- ===== src/Examples/Floods.antt =====
-- A server with two free addresses, and two handshakes.
use ligend.Prelude.{ℕ, ◌≡◌, ◌≢◌, refl, List, [], ◌∷◌, All, some, arith}
use ligend.Prelude.Outcome.{ok}
use ligend.Config.{defaults}
use ligend.Tunnel.Pool.Subnet.{host}
use ligend.Tunnel.Packet.{to4}
use ligend.Tunnel.Session.{udp_write}
use ligend.Server.{Server, writes, handle_handshake}
use ligend.Server.Handshakes.{handle_handshake-answer}
use ligend.Server.Exhaustion.{Datagram, receive_all, IsHandshake, IsExhausted, receive_all-Exhausts}
use ligend.Examples.Parameters.{tagging}
use ligend.Examples.Servers.{server}

abbrev crowded : Server
crowded = record server {
  sessions = record server.sessions {
    ip_pool = record server.sessions.ip_pool { available = host 10 8 0 2 ∷ host 10 8 0 3 ∷ [] };
  };
}

abbrev knock : ℕ → Datagram
knock i = record {
  bytes = 0x73 ∷ 0x91 ∷ 0xb4 ∷ 0xa2 ∷ [];
  remote = 33;
  listing = [];
  session_id = i ∷ [];
  noise = λ j. i;
  now = i;
}

abbrev attack : List Datagram
attack = knock 1 ∷ knock 2 ∷ []

differ : crowded.cfg.awgh1 ≢ crowded.cfg.awgh4
unfolding defaults
differ = λ e. absurd (omega (arith, e))

knocks : All (IsHandshake crowded.cfg.awgh1) attack
unfolding defaults
knocks = ((omega arith, refl), ((omega arith, refl), tt))

receive_all-Exhausts_example :
    (s' : Server) × (receive_all tagging crowded attack ≡ ok s') × IsExhausted tagging s'
receive_all-Exhausts_example =
    receive_all-Exhausts tagging crowded attack differ knocks (omega arith)

handle_handshake-answer_example :
    (handle_handshake crowded 33 (9 ∷ []) (some (λ i. 7)) 5).1
    ≡ writes (
        udp_write 1 33 (
          0x51 ∷ 0xc3 ∷ 0xd9 ∷ 0xe8 ∷ 7 ∷ 7 ∷ 7 ∷ 7 ∷ 7 ∷ 7 ∷ 7 ∷ 7 ∷ 10 ∷ 8 ∷ 0 ∷ 2 ∷ 0 ∷ 0 ∷ 5 ∷ 0
          ∷ []))
      ∷ []
unfolding defaults to4
handle_handshake-answer_example =
    handle_handshake-answer crowded 33 (9 ∷ []) (λ i. 7) 5 (λ i. omega arith)
