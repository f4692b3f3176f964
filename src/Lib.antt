-- ===== src/Lib.antt =====
-- A verification library for the Shadowsocks server of this repository: the AEAD stream and
-- datagram protocol (the package shadowsocks) with its client (shadowsocks/client), the service that
-- finds a connection's key, refuses replays and relays to allowed targets (service, net), the
-- accounting of traffic and the list of users (api), the metrics (service/metrics), the ports, their
-- reloading and the start of the server (cmd/quick_ss/main.go), and the report on the device's network
-- (utils).
--
-- How the parts interact: a port of the server keeps a list of access keys (service/cipher_list.go),
-- each with a cipher (shadowsocks/cipher.go) and a generator of salts (service/server_salt.go). The
-- first bytes of a TCP connection, or a UDP packet, are decrypted on trial with one key after the
-- other (service/tcp.go, service/udp.go), the key found moves to the front, the handshake is checked
-- against the replay cache (service/replay.go), and the data is relayed through a Reader and a Writer
-- (shadowsocks/stream.go), or packet by packet (shadowsocks/packet.go) over a NAT table
-- (service/udp.go). What each user moved is queued and reported (api/api.go), and counted
-- in the metrics (service/metrics/metrics.go).
--
-- Files:
--   Prelude        shared names, Boolean tests, lists and bytes
--   Io             Go's error values, io.Reader and io.Writer as scripts of their calls, io.ReadFull
--                  (Io/Copy is io.Copy, a round at a time)
--   Net            net/error.go and net/private_net.go: is_private_address is IsPrivateAddress,
--                  require_public_ip RequirePublicIP
--   Net/Stream     net/stream.go: wrap_conn is WrapConn, copy_one_way copyOneWay, relay Relay with one
--                  direction after the other, relay_steps Relay with its goroutines interleaved
--   Shadowsocks/Crypto      the cryptographic libraries, as a record of functions and their promises
--   Shadowsocks/Cipher      shadowsocks/cipher.go: supported_aeads is supportedAEADs, new_cipher
--                           NewCipher, new_aead NewAEAD, decrypt_once DecryptOnce
--   Shadowsocks/Salt        shadowsocks/salt.go and shadowsocks/client/salt.go
--   Shadowsocks/Packet      shadowsocks/packet.go: pack and unpack
--   Shadowsocks/Nonce       increment and isZero of shadowsocks/stream.go
--   Shadowsocks/Writer      the Writer of shadowsocks/stream.go: init, flush, enqueue, lazy_write
--                           LazyWrite, read_from ReadFrom, write_plaintext Write
--   Shadowsocks/Reader      chunkReader and readConverter: read_chunk ReadChunk, write_to WriteTo
--   Shadowsocks/Stream      the two ends together
--   Shadowsocks/Client      shadowsocks/client: PacketConn is packet_listener.go, with write_to
--                           WriteTo and read_from ReadFrom; Dialer is stream_dialer.go, with dial Dial
--   Slicepool      internal/slicepool/slicepool.go: acquire Acquire, release Release
--   Service/Replay          service/replay.go: new_replay_cache, pre_hash, add
--   Service/ServerSalt      service/server_salt.go
--   Service/CipherList      service/cipher_list.go
--   Service/FindKey         findAccessKey and findEntry of service/tcp.go, findAccessKeyUDP of
--                           service/udp.go
--   Service/Nat             natconn and natmap of service/udp.go
--   Service/CopyBack        timedCopy of service/udp.go: copy_round is one round of its loop
--   Service/Udp             the packet loop of service/udp.go: serve_round is one round of Serve's
--                           loop, validate_packet validatePacket
--   Service/Tcp             service/tcp.go: handle_connection is handleConnection, dial_target
--                           dialTarget, absorb_probe absorbProbe
--   Service/Lifecycle       service/tcp.go: Serve with its accept loop, Stop and GracefulStop, as a
--                           relation of steps
--   Service/Udp/Lifecycle   service/udp.go: Serve with its loop, the goroutines of the NAT table, Stop
--                           and GracefulStop, as a relation of steps
--   Service/Udp/Accounting  what the rounds of service/udp.go report to the API and to the metrics
--   Service/Metrics         service/metrics/metrics.go: add_closed_tcp_connection is
--                           AddClosedTCPConnection, and so on; Calls are the calls on the metrics,
--                           Location is GetLocation, Measured MeasureConn
--   Api                     the queues and the report of api/api.go and api/model.go, and one tick of
--                           CheckRepo and CheckWwwRepo of cmd/quick_ss/main.go
--                           (Api/Users is GetUsers, Api/Client New, parseResponse and Init)
--   Utils                   utils/functions.go and utils/DeviceUtil.go: is_list_contains_str is
--                           isListContainsStr, get_net_stat GetNetStat
--   Server                  the ports of cmd/quick_ss/main.go: do_run is doRun, start_port startPort,
--                           remove_port removePort, stop Stop; Server/Users is CheckUser, with
--                           check_user one tick of it; Server/Start is RunSSServer
--   Tests                   the theorems at concrete inputs, over a small stand-in for cryptography
--
-- Bytes, sizes and times are natural numbers; a length on the wire and the message counter keep
-- their wrap-around. A state is passed explicitly, and what a mutex guards is one step. A reader is
-- the list of what its Read calls meet, a writer the bytes that reached it and how its next Write
-- calls end, so that short reads, partial writes and errors at any point are inputs. A Go panic is an
-- error value of its own. Loops without a structural bound run on fuel: the key derivation on one
-- round more than the bytes asked for, each round adding sixteen; the loop of LazyWrite on two rounds
-- more than the bytes to queue; the transfer loop of ReadFrom on the number of Read calls that the
-- reader can answer; WriteTo on fuel that the caller gives, for which handle_connection takes two more
-- than what the reader holds, as every chunk takes bytes off it. Goroutines that share a state are
-- steps that interleave (Service/Lifecycle, Service/Udp/Lifecycle, Net/Stream); the two directions of
-- the relay in service/tcp.go, which share only the queue of traffic, run one after the other, with the
-- order of their reports as a parameter. io.Copy runs on as many rounds as its source has reads. The
-- goroutines of Net/Stream work on the same two connections, where a half that one of them has closed
-- is at its end for a Read and fails a Write. A panic of doRun, which uses a port that the map lacks,
-- is no result at all. Sums of int64 wrap; float64 of a count is rounded to 53 bits, and what the
-- Prometheus client makes of a counter and a float64 is a parameter, exact below 2^53. The dialer is a
-- parameter that may try several addresses at once, and heeds the errors of its Control function.
--
-- Not modelled: the cryptographic libraries, crypto/rand, the socks library, the network, the HTTP
-- client, the decoding of responses and the database, which are parameters; logging, the flags and
-- signals of the process, the tuning of the system and the device information other than that of the
-- network interfaces, which are I/O.
pub mod Prelude
pub mod Io
pub mod Shadowsocks
pub mod Service
pub mod Api
pub mod Server
pub mod Net
pub mod Slicepool
pub mod Utils
pub mod Tests
