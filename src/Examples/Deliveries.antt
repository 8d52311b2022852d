-- ===== src/Examples/Deliveries.antt =====
-- A packet on its way to the TUN device, and one from there to its client.
use ligend.Prelude.{◌≡◌, refl, [], ◌∷◌, ◌++◌, none, some, arith}
use ligend.Prelude.Outcome.{ok}
use ligend.Prelude.Tables.{lookup, nat_keys}
use ligend.Protocol.Frame.{Frame, encode, type_data, protocol_version}
use ligend.Protocol.Compression.{compress_frame}
use ligend.Protocol.Batch.{BatchEncoder, new_batch_encoder, flush, reset, write_packets}
use ligend.Tunnel.Session.{Write, touch, next_seq, primary_conn}
use ligend.Tunnel.Manager.{deref}
use ligend.Tunnel.Nat.{lookup_by_packet_dst, lookup_by_ip}
use ligend.Tunnel.Packet.{dst_ip_from_packet, ip_to_uint32, to4}
use ligend.Prelude.Bytes.{Bytes}
use ligend.Config.{defaults}
use ligend.Protocol.Awg.{encode_awg_data_packet}
use ligend.Server.DatagramDelivery.{heard_from, handle_datagram-Carries}
use ligend.Server.{tun_writes, writes, put_session, find_by_number, handle_datagram}
use ligend.Server.Messages.{handle_message, handle_tun_packet}
use ligend.Server.Delivery.{
  IsData, Carries, many, Reachable, over_websocket, Reads, handle_message-Carries,
  handle_tun_packet-Reads,
}
use ligend.Examples.Parameters.{
  tagging, tagging-AeadLaws, zeros, zero_packing, zero_packing-Lz4Laws, rng,
}
use ligend.Examples.Sessions.{player, datagram}
use ligend.Examples.Servers.{server}

-- A padded frame with a batch of two packets.
abbrev pair : BatchEncoder
pair = record { packets = datagram ∷ (69 ∷ 7 ∷ []) ∷ []; size = 26 }

abbrev frame : Frame
frame = record {
  version = protocol_version;
  type = type_data;
  flags = 0x11;
  sequence = 12;
  payload = 0 ∷ 2 ∷ 0 ∷ 20 ∷ (datagram ++ 0 ∷ 2 ∷ 69 ∷ 7 ∷ []);
}

frame-IsData : IsData frame
frame-IsData = record {
  frame = record {
    is_version = refl;
    nibble = omega arith;
    byte = omega arith;
    word = omega arith;
  };
  data_type = refl;
  plain = refl;
  short = omega arith;
}

flushed : flush pair ≡ ok (some frame.payload, new_batch_encoder)
unfolding flush new_batch_encoder reset write_packets
flushed = refl

frame-Carries : Carries frame pair.packets
frame-Carries =
    many pair refl refl (omega arith) (omega arith) (omega arith, (omega arith, tt)) flushed

handle_message-Carries_example :
    handle_message zero_packing rng server 0 player 4
      (encode rng (compress_frame zero_packing frame))
      12
    ≡ ok (
      put_session server 0 (touch player 12),
      tun_writes datagram ∷ tun_writes (69 ∷ 7 ∷ []) ∷ [],
    )
handle_message-Carries_example =
    handle_message-Carries zero_packing zero_packing-Lz4Laws rng rng (omega arith) server 0 player 4
      12 frame pair.packets frame-IsData frame-Carries

found : lookup_by_packet_dst server.nat_table datagram ≡ ok (some 0)
unfolding lookup_by_packet_dst dst_ip_from_packet lookup_by_ip ip_to_uint32 to4 lookup
found = refl

held : deref server.sessions 0 ≡ some player
unfolding deref lookup
held = refl

player-Reachable : Reachable player
unfolding primary_conn
player-Reachable = over_websocket 4 refl refl

handle_tun_packet-Reads_example :
    (w : Write) × (handle_tun_packet tagging (some (λ n. 3)) rng server datagram
      ≡ ok (put_session server 0 (next_seq player).1, writes w ∷ []))
    × Reads tagging player datagram w
handle_tun_packet-Reads_example =
    handle_tun_packet-Reads tagging tagging-AeadLaws (λ n. 3) rng (omega arith) server 0 player
      datagram (λ e. cc) (omega arith) found held player-Reachable

numbered : find_by_number server.sessions 77 (0 ∷ []) ≡ some (0, player)
unfolding find_by_number deref lookup
numbered = refl

handle_datagram-Carries_example :
    (wire : Bytes) × (encode_awg_data_packet tagging
        (some (λ n. 3))
        server.cfg.awgh4
        77
        12
        (zeros 32)
        datagram
      ≡ ok wire)
    × (handle_datagram tagging server wire 33 (0 ∷ []) [] none 12
        ≡ ok (put_session server 0 (heard_from server 33 12 player), tun_writes datagram ∷ []))
unfolding defaults
handle_datagram-Carries_example =
    handle_datagram-Carries tagging tagging-AeadLaws server 33 12 (0 ∷ []) (λ n. 3) 0 player
      datagram [] 12 none numbered refl (omega arith) (omega arith) (omega arith) (λ e. cc)
