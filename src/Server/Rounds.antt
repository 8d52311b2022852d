-- ===== src/Server/Rounds.antt =====
-- What the rounds of a server's goroutines leave alone.
use ligend.Prelude.{◌≡◌, ◌⊎◌, refl, inl, inr}
use ligend.Prelude.Outcome.{Sat-ok, Returns-ok}
use ligend.Crypto.{Aead, Lz4, Lz4Laws}
use ligend.Auth.{AuthLib}
use ligend.Server.{Server, Step, handle_datagram}
use ligend.Server.Startup.{http_shut_down}
use ligend.Server.Messages.{handle_message, handle_tun_packet}
use ligend.Server.Welcome.{start_client}
use ligend.Server.Clients.{handle_message-Serves}
use ligend.Server.Isolation.{OnlySession}
use ligend.Server.Outside.{
  SameOutside, cleanup_session-SameOutside, kick_session-SameOutside, handle_datagram-SameOutside,
  handle_tun_packet-SameOutside, start_client-SameOutside, handle_web_socket-SameOutside,
  start_awg_listener-SameOutside,
}
use ligend.Server.Reach.{
  Round, reads_message, reads_datagram, reads_packet, answers_request, starts_client, cleans_up,
  kicks, listens, shuts_down,
}

-- No round touches the settings, the HTTP server or the end of `Start`, but that of the shutdown.
pub Round-SameOutside :
    (aead : Aead) (z : Lz4) (lib : AuthLib) (s s' : Server)
    → Lz4Laws z
    → Round aead z lib s s'
    → SameOutside s s' ⊎ (s' ≡ http_shut_down s)
Round-SameOutside aead z lib _ _ laws
      (reads_message s s' rng r session conn message now events held e) =
    let only : OnlySession r session s s' =
      Sat-ok (λ (step : Step). OnlySession r session s step.0)
        (handle_message z rng s r session conn message now) (s', events)
        (handle_message-Serves z rng s r session conn message now laws held) e in
    inl (only.same_cfg, only.same_http_server, only.same_returned)
Round-SameOutside aead z lib _ _ laws
      (reads_datagram s s' bytes remote listing id entropy now events new e) =
    inl (
      Sat-ok (λ (step : Step). SameOutside s step.0)
        (handle_datagram aead s bytes remote listing id entropy now) (s', events)
        (handle_datagram-SameOutside aead s bytes remote listing id entropy now) e)
Round-SameOutside aead z lib _ _ laws (reads_packet s s' entropy rng packet events e) = inl (
    Returns-ok (λ (step : Step). SameOutside s step.0) (handle_tun_packet aead entropy rng s packet)
      (s', events) (handle_tun_packet-SameOutside aead entropy rng s packet) e)
Round-SameOutside aead z lib _ _ laws
      (answers_request s clock request_id timestamp nonce upgraded) =
    inl (handle_web_socket-SameOutside lib s clock request_id timestamp nonce upgraded)
Round-SameOutside aead z lib _ _ laws
      (starts_client s s' delivered rng conn id entropy now events new e) =
    inl (
      Returns-ok (λ (step : Step). SameOutside s step.0)
        (start_client delivered rng s conn id entropy now) (s', events)
        (start_client-SameOutside delivered rng s conn id entropy now) e)
Round-SameOutside aead z lib _ _ laws (cleans_up s session) =
    inl (cleanup_session-SameOutside s session)
Round-SameOutside aead z lib _ _ laws (kicks s id) = inl (kick_session-SameOutside s id)
Round-SameOutside aead z lib _ _ laws (listens s socket) =
    inl (start_awg_listener-SameOutside s socket)
Round-SameOutside aead z lib _ _ laws (shuts_down s) = inr refl
