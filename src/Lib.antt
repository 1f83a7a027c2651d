-- ===== src/Lib.antt =====
-- anApp forwards the TCP and UDP traffic of a machine: a TUN device hands every packet to a gVisor
-- network stack, whose handlers open real connections on the interface that the route table chooses
-- and copy the data both ways; DNS queries can be answered by DNS over HTTPS instead. This library
-- models the parts of the program that decide something, and proves what they do.
--
-- The files, and the code that they model (paths from the repository's root):
--   Checksum: tool/tool.go, CalculateChecksum and CalculateTcpChecksum. Checksum/Rfc describes
--     RFC 1071 independently, Checksum/Agree compares.
--   Packet: tool/tool.go, ParseIpData and IPToUInt32.
--   Routes: model/route.go, Less and FindContainRoute; Routes/Windows: model/route_windows.go,
--     FindRoutes, countBits and getBit, with Adapters for adapterAddresses and Changes for InitRoute;
--     Routes/Linux: model/route_linux.go, FindRoutes.
--   Config: model/contextConfig.go; Config/IpConfig: model/ipConfig.go.
--   Dns: protocol/dns/dohTools.go, SendDoh.
--   Udp/State: handler/remoteSocketHandler/udp/forwardState.go, attachConnect, run and Write;
--     Udp/Stack: forwardUdp.go beside it, send, readRemoteDate and HandleRemotePacket, with Enforced
--     for a DNS query from its packet to its answer;
--     Udp/Forwarder: forwardUtil.go beside it, handle, janitor, Close and Connected, with Serving for
--     Forward, run, the read loop and the setters, and Removal for the janitor's write section in
--     the orders of Go's maps.
--   Endpoint: endpoint/endpoint.go, NewEndpoint, Attach and WriteNotify; Device/Native: device/tun.go,
--     NewDevice, Read and Write, on which Attach runs.
--   Copy: tool/ioutil/ioutil.go, copyBuffer. Log: tool/log/logTool.go, multiWriter and MultiWriter;
--     Log/Files: CreatLog.
--   Tcp: handler/remoteSocketHandler/tcp/buildSocket.go, HandleStream and TcpHandle.
--   Gv: gv/gv.go, Start. Device: device/tun.go, AddRouteEntry;
--     Device/Addresses: getInterfaceConfig4 and 6.
--   Device/Linux: device/device_linux.go and device_dns_linux.go beside it, Config, Close and
--     monitorEnforceDns; Device/Linux/Ioctl: the functions of device_linux.go that use ioctl,
--     InitGateway among them, with Layout and Headers for the structures of device_linux_64.go and
--     device_linux_32.go and those of the kernel; Device/Linux/Tun: device/device_tun_linux.go,
--     CreateTUN0, and CreateTUN; Device/Linux/Watch: model/route_linux.go, InitRoute, with the
--     goroutine that Config starts; Device/Linux/Closing: the rules that Close deletes;
--     Device/Linux/Policy: Linux's policy routing, as its documentation has it, for the rules of
--     Config.
--   Device/Windows: device/device_windows.go, with Filters for configFwp, Session for InitGateway,
--     monitorEnforceDns and Close, Entries for addRouteEntry4 and addRouteEntry6, Addresses for
--     SetInterfaceAddress, Create for CreateTUN.
--   Sockets: protocol/socket, GetDialer, bind4 and bind6; Sockets/Chosen joins them to the routes.
--   Process: app/v2/main.go, app/v2/client/client.go and tool/procTool: Process/Client the order of
--     the calls, Process/Lifecycle the manager and the daemon side by side, Process/Child
--     CreatChildProcess with the goroutine that logs the daemon's output.
--   Script and Action: straight-line code that calls the system, and code that may return an error
--     or panic.
--   Net and Io: the types and documented contracts of Go's net and io packages. Base: shared tests,
--     lists, machine words and bit operations.
--
-- A datagram goes from Udp/Stack (handle_remote_packet, which reads its payload; read_remote_date,
-- which asks Config and Dns whether DNS answers it, and Routes for the route) to Udp/State
-- (attach_connect, which finds or dials the flow's socket); answers come back through send.
--
-- Process/Client calls the device's functions (Device/Linux, Device/Windows) and Gv in their order.
-- The rules and filters of the devices send the traffic to the TUN device, and the stack of Gv hands
-- it to the handlers of Tcp and Udp, whose dialers Sockets binds to the route's interface.
--
-- Numbers are natural numbers with the wrap-around of the Go types written out; pointers that may be
-- nil are options, and a nil dereference or an index out of range is `none` or `panicked`. gVisor,
-- Windows, netlink, the HTTP client and Go's libraries are parameters, with their documented
-- contracts as hypotheses where a theorem needs them (sort.Sort, io.ReaderAt, ip-rule, bufio.Scanner).
-- Goroutines are steps that may interleave (Udp/State/Steps, Udp/Forwarder/Waiting,
-- Device/Linux/Watch), and so are the two processes (Process/Lifecycle). Calls that the code makes in
-- a row are a script (Gv, Device/Windows/Filters) or an action whose errors and panics end it
-- (Device/Linux, Process/Client).
-- The loop of adapterAddresses has fuel 2 ^ 32 - 15000, since every round has a larger buffer.
-- The carry loop of the checksums has fuel 3: a 32-bit sum needs two rounds, and the third pass sees
-- that no carry is left.
--
-- Not modelled: HandlePacket of forwardUdp.go and DeviceType of tun.go, which only start a goroutine
-- and return a constant, and parseUdpDataPacket, which prints a packet and is not called; the test of
-- err after Config has started its goroutine (the comment of Device/Linux says why); winipcfg and
-- bin/memmod, which are copies of WireGuard's libraries, and winsys, which declares system calls.
pub mod Action
pub mod Base
pub mod Checksum
pub mod Config
pub mod Copy
pub mod Device
pub mod Dns
pub mod Endpoint
pub mod Gv
pub mod Io
pub mod Log
pub mod Net
pub mod Packet
pub mod Process
pub mod Routes
pub mod Script
pub mod Sockets
pub mod Tcp
pub mod Udp
