-- ===== src/Lib.antt =====
-- Ligend server: a VPN server that speaks to its clients over WebSocket and over UDP.
--
-- A WebSocket client proves with a token that it knows the secret key (server/internal/auth), gets a
-- session with a key and an address from the pool (server/internal/tunnel), and sends and receives
-- frames (server/internal/protocol) that carry IP packets. A UDP client gets its session by a
-- handshake datagram, and exchanges transport packets encrypted under the session's key
-- (server/internal/crypto). The server (server/internal/server) passes packets from clients to the
-- TUN device, and finds the session of a packet from the device by its destination (the NAT table).
--
-- The files, and what they model:
-- Prelude: bytes, the outcome of a Go function (value, error, or the panic that an index out of range
--   raises), maps as association lists, and what all parts share.
-- Protocol/Frame: server/internal/protocol/frame.go. `encode` is Frame.Encode, `decode` is Decode, and
--   the constructors and control accessors have their Go names; DecodeFromReader is in
--   Frame/Stream. Protocol/Batch and Protocol/Compression: batch.go. Protocol/Awg: awg.go.
--   Protocol/Shaping: sizes and delays from batch.go and padding.go. Protocol/Generator: PaddingGenerator of
--   padding.go.
-- Crypto: server/internal/crypto/crypto.go.
-- Tunnel/Pool, Tunnel/Session, Tunnel/Manager, Tunnel/Packet: server/internal/tunnel/session.go (IPPool,
--   Session, SessionManager, and the addresses in a packet). Tunnel/Nat: nat.go. Tunnel/Device: TUNDevice,
--   SetupNAT and CleanupNAT of tunnel_linux.go.
-- Auth: server/internal/auth/auth.go, its nonce cache in Auth/Nonces.
-- Config: server/internal/config/config.go, the settings, their defaults and the secret key;
--   Config/File has Load, and the file that the panel saves to.
-- Server: server/internal/server/server.go. `handle_datagram` is one round of awgReadLoop; Server/Messages
--   has one round of clientReadLoop (`handle_message`) and of tunReadLoop (`handle_tun_packet`) and the
--   clean-up; Server/Welcome has handleWebSocket and handleClient up to its loop (`handle_web_socket`,
--   `start_client`), Server/Startup New, Start, startAWGListener, UpdateListenAddr and Shutdown. Server/Reach
--   is the states that the server comes to, over every order of these rounds and of requests to the panel.
--   Server/Delivery and Server/DatagramDelivery follow a packet from a client to the TUN device and back;
--   Server/Handshakes and Server/Exhaustion are about handshakes.
-- Panel: server/internal/panel, the administration panel, which shares the server and its configuration:
--   Panel/Logs (api_logs.go, its stream in Logs/Stream), Panel/Settings (api_protocol.go,
--   api_server.go), Panel/Tokens (auth.go), Panel/Routes (the routes and the middleware of panel.go),
--   Panel/Store (db.go), Panel/Clients (api_clients.go, api_keys.go), Panel/Pages (the text for nginx, the
--   series of api_stats.go and the page), and Panel/Requests, where a request goes from its route to its
--   answer.
-- Boot: server/cmd/ligend-server/main.go, which puts the server and the panel together; in
--   Boot/Running the program runs, until `Start` returns.
-- Keygen: server/cmd/ligend-keygen/main.go.
-- Examples: the theorems applied at concrete inputs.
--
-- Numbers are naturals, bytes too; a field of fixed width is reduced where the source converts or
-- wraps, and a theorem that needs a value in range says so. Sessions are references into a heap, as
-- the source shares them by pointer. Connections and remote addresses are numbers, and what a handler
-- does outside (a write, a packet for the TUN device, a hang-up) is a list of events. The random
-- source, the clock and the order in which a map is walked are arguments. Each call under a lock is
-- one step. Loops are structural recursion. Fuel is used by Boot's `itoa` alone, one more than the number,
-- which has fewer digits.
--
-- Parameters: ChaCha20-Poly1305 (`Aead`), LZ4 (`Lz4`), HMAC-SHA256 and Go's conversion from a float
-- (`AuthLib`), bcrypt (`Bcrypt`), and what tokens use, HMAC, Base64, JSON and hex (`TokenLib`), each with a
-- record of documented laws; a theorem that needs them names them. The database executes a statement or
-- refuses it, as an argument says; its tables are lists.
-- The programs ip, sysctl and iptables are a function on a machine (`run_cmd`), with what iptables
-- documents in `Firewall`; YAML and the file system are in Config/File.
--
-- Not modelled: reading and writing of the TUN device, opening and closing of sockets, logging, the
-- panel's figures of the machine, static pages of the server, the table of traffic, which nothing reads,
-- the fallback to another file of the database, and writes to one connection by two goroutines at once.
pub mod Prelude
pub mod Protocol
pub mod Crypto
pub mod Tunnel
pub mod Auth
pub mod Config
pub mod Server
pub mod Panel
pub mod Boot
pub mod Keygen
pub mod Examples
