-- ===== src/Lib.antt =====
-- Verification library of the UML network helper vdeplug-go.
--
-- A User Mode Linux guest talks Ethernet through a socket to one instance of vdeplug-go. The instances
-- on one host elect a hub, which switches the frames of all guests, serves DHCP and connects them to
-- the outside; the others are peers that relay their guest's frames to the hub and take over when it
-- falls silent. Frames are lists of bytes, addresses are lists of 6 and 4 bytes, maps are association
-- lists (Common/Maps) with the order of a Go map's range left to the list.
--
-- Parts, and the files that model them:
--   Elect            vdeplug-go/internal/elect/elect.go: EncodeBeacon, IsBeacon, ParseBeacon
--   Dhcp/Pool        vdeplug-go/internal/dhcp/dhcp.go: NewPool, GetOrAssign, Restore, First; Leases is
--                    in Fleet/Peer/Handover, beside the snapshot that reads it
--   Switch           vdeplug-go/internal/vswitch/vswitch.go: AddPort, AddPeer, RemovePort, Forward with
--                    learn, lookup, emit and flood, and the writer goroutine as `writer_step`;
--                    peerReader of vdeplug-go/main.go in Switch/Reader; Switch/History is the specification
--                    without a table
--   Transport        vdeplug-go/internal/transport/transport.go: the TCP framing; in
--                    Transport/Addresses IsTCP, TryConnect and BindOrConnect
--   Unixseq          vdeplug-go/internal/unixseq/unixseq.go: TryConnect, BindOrConnect system call by
--                    system call, Stat and Close
--   Websocket        vdeplug-go/helpers/vdews/main.go: pump, the token, serveWS, acceptLoop, watchListener
--                    and the loop of the connecting side
--   Tap              vdeplug-go/internal/tap/tap.go: Open, and its reader in runInstance
--   Dhcp/Subnet      dhcp.go: UsableLeases
--   Dhcp/Server      dhcp.go: HandleFrame, HandlePacket, replyFrame, New
--   Icmp/Checksum    vdeplug-go/internal/nat/icmp.go: icmpChecksum
--   Icmp/Relay       icmp.go: HandleFrame, sendEchoRequest, parseEchoRequest, sweepLocked, handleReply,
--                    buildEchoReply; in Icmp/Relay/Loop NewICMPRelay and readLoop, in
--                    Icmp/Relay/Waiting a sequence of calls of the two handlers
--   Nat              vdeplug-go/internal/nat/nat.go: New, tcpHandler and dialUDP up to the socket,
--                    dialsTunnel, AddRoute, SetTunnelSubnets, hostResolvers; in Nat/Relay udpHandler and
--                    relayUDP, in Nat/Splice the copies of tcpHandler, and of pipe in portfwd.go
--   Link             vdeplug-go/internal/link/link.go: New, SetSink, Inject, AddHeader, RecvFrame, one
--                    round of Start, GuestMAC, netAddr; SendFrame and RecvFrame of unixseq.go
--   Guest            vdeplug-go/helpers/fakeguest/main.go: checksum, arpFrame, icmpEcho, serveNIC and the
--                    loops of runPing; in Guest/Child the start of the helper
--   Uplink           vdeplug-go/main.go: uplinkSink, arpForOwnAddr, ownAddrs
--   Config           vdeplug-go/internal/config/config.go: Defaults, Load, ApplyVNL, ParsePorts, with
--                    the functions of the packages strings and strconv that they use
--   Wireguard        vdeplug-go/internal/wgup/conf.go: Parse, ResolvePath
--   Tunnel           vdeplug-go/internal/wgup/tunnel.go: Attach, deviceConfig, watchHandshake,
--                    handshakeTime, the bridge's Read and Write; in Tunnel/Start the WireGuard part of
--                    runInstance
--   Startup          vdeplug-go/main.go: main (Startup/Boot), parseArgs, resolveSwitchSocket, the MTU, one
--                    round of wire, mustMACBytes (Startup/Mac)
--   Portfwd          vdeplug-go/internal/portfwd/portfwd.go: Start, and the path table of serveUDP
--   Hub              vdeplug-go/main.go: runInstance (uplink, lease pool, ports), acceptPeers, and the
--                    sinks behind the switch's ports: Hub composes Switch, Uplink, Dhcp and Icmp;
--                    sendBeacons in Hub/Heartbeat, waitShutdown and the end of runInstance in
--                    Hub/Shutdown, the port rules in Hub/Forwards, the whole set-up of runInstance in
--                    Hub/Setup and its two sets of own addresses in Hub/Owned; Hub/Joining has the ports
--                    of new peers; Hub/Guests goes from one peer's guest to another's
--   Fleet            vdeplug-go/main.go: fleet.loop, with TryLock of elect.go and TryConnect,
--                    BindOrConnect and Close of vdeplug-go/internal/unixseq/unixseq.go, as steps of any
--                    number of instances that share one lock and one socket path; its waits in
--                    Fleet/Backoff, setPeer and wire in Fleet/Wire; Fleet/Calls compares the steps with
--                    Unixseq
--   Fleet/Peer       vdeplug-go/main.go: the reader and the watch of runPeer (Fleet/Peer/Run), leaseMap,
--                    poolSnapshot
--
-- The Go mutexes make each method one step, so a method takes the state and returns the new one
-- beside its result. Interleavings are sequences of steps (Switch/Invariant, Fleet). Unsigned integers
-- keep their wrap-around (`% 2 ^ 32`), and signed port numbers are a data type of their own.
--
-- Bounds: the checksum's fold runs on fuel 3, which is enough for every 32-bit sum; AddPeer tries 32
-- numbers, as the source does; `recv_all` gets one round for each frame and one more; `decimal` has
-- five places, enough for 16 bits; `arrive` runs on the depth of the calls, of which two are enough.
--
-- Parameters: `AddressText` (Fleet/Peer/Handover) stands for the text forms of addresses of the
-- package net, `Headers` for the header accessors and encoders of gVisor, `Messages` (Dhcp/Server) for
-- the DHCP messages of dhcpv4, `Host` (Portfwd) for the sockets and addresses of the host,
-- `Decoders` (Wireguard) for base64 and the address parsers, `Addresses` (Nat) for those of net and
-- tcpip, `Dials` (Nat) for the dials that succeed, `Networks` (Tunnel) for the forms of a network,
-- `Files` (Wireguard/Paths) for the file system, `Tcp` (Transport/Addresses) for the TCP sockets,
-- `Process` (Startup/Boot) for the environment, `Machine` (Hub/Setup) for what the host and the parsers
-- answer to runInstance. In Unixseq a `Turn` is a system call with the moves of the other processes
-- before it; in Nat/Relay, Nat/Splice, Icmp/Relay/Loop and Websocket what the sockets deliver is a list
-- of events.
--
-- Not modelled: the libraries for the netstack (gVisor), WireGuard and DHCP messages and the code that
-- only drives them, logging, YAML decoding, the HTTP server and the websocket, the C programs and the kernel
-- patches. In Fleet a living listener is never refused (Unixseq has refusals), and a shutdown is one step
-- (Hub/Shutdown has its calls); clocks that run backwards are not modelled.
pub mod Common
pub mod Headers
pub mod Elect
pub mod Dhcp
pub mod Switch
pub mod Transport
pub mod Icmp
pub mod Uplink
pub mod Nat
pub mod Link
pub mod Guest
pub mod Config
pub mod Portfwd
pub mod Wireguard
pub mod Tunnel
pub mod Tap
pub mod Hub
pub mod Unixseq
pub mod Websocket
pub mod Startup
pub mod Fleet
mod Tests
