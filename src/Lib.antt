-- ===== src/Lib.antt =====
-- NSSaDS, network laboratories in Go.
--
-- lab2 moves commands and files over UDP. Packets are serialized with a checksum, a sliding window
-- limits what is in flight, a reliability manager sends again what is not acknowledged, and a
-- connection manager keeps a window for each peer. lab4 serves several services over UDP: a registry
-- maps names and ports to services, and a pool of goroutines runs the requests. lab3 serves many TCP
-- connections from one loop around select. lab1 serves commands and files over TCP, one goroutine for
-- each connection, and has a client that uploads and downloads.
--
-- Lab1/Socket: one end of a TCP connection as both programs use it.
-- Lab1/Files: lab1/internal/infrastructure/repository/file_manager.go. The file of that name in lab2
--   has the same code.
-- Lab1/Server: lab1/internal/infrastructure/network/tcp_server.go; Lab1/Server/Loop has
--   `HandleConnection`.
-- Lab1/Client: tcp_client.go beside it.
-- Lab1/Transfer: both ends together; what one writes is what the other reads.
-- Lab2/Packet: lab2/internal/domain/packet.go, `Serialize`, `DeserializePacket`,
--   `calculateChecksum`, `verifyChecksum`. Lab2/PacketType has the types of packets.
-- Lab2/Window: `SlidingWindow` of the same file.
-- Lab2/Reliability: lab2/internal/infrastructure/network/reliability.go.
-- Lab2/Connection: lab2/internal/infrastructure/network/udp_connection.go.
-- Lab2/Command: `SendCommand` of udp_client.go and `parseCommand` and `handleCommand` of udp_server.go,
--   both beside it, and lab2/internal/usecase/commands.go.
-- Lab2/Client: `SendCommand`, `DownloadFile` and `receiveFile` of udp_client.go; Lab2/Client/Upload has
--   `UploadFile`, `sendFile` and `testBufferSizes`, and Lab2/Client/Refused puts both transfers against
--   the command handler of the server.
-- Lab2/Performance: lab2/internal/infrastructure/network/performance.go.
-- Lab2/Server: the handlers and the sessions of
--   lab2/internal/infrastructure/network/udp_server.go.
-- Lab3/Multiplexer: lab3/internal/infrastructure/network/select_multiplexer.go and the types of
--   lab3/internal/domain/command.go; Lab3/Multiplexer/Loop has the rounds of the select loop.
-- Lab3/Commands: lab3/internal/usecase/commands.go, and the line that `processClientData` of the
--   multiplexer writes.
-- Lab3/FdSet: lab3/internal/infrastructure/network/unix_select.go.
-- Lab4/Server: the loop of a listener and `handleRequest` of
--   lab4/internal/infrastructure/network/udp_server.go.
-- Lab4/Start: `Start`, `startServiceListener` and `GetStats` of the same file, over the registry.
-- Lab4/Client: `SendRequest`, `listenResponses` and `parseResponse` of udp_client.go beside it, as
--   interleaved actions.
-- Lab4/Services: lab4/internal/usecase/services.go and stats_service.go.
-- Lab4/Exchange: a client, the server and a service together, from a request to its response.
-- Lab4/Registry: lab4/internal/infrastructure/network/service_registry.go, the errors and the service
--   of lab4/internal/domain/service.go, and the registrations of lab4/cmd/server/main.go.
-- Lab4/Pool: lab4/internal/infrastructure/network/thread_pool.go.
-- Base: Go's maps, slices, big-endian integers, bits and strings, decimal numbers, and results that may
--   panic.
--
-- State. A struct is a record, and a method that changes it returns it. A map is an association list;
-- a range over it goes in the order of the list, which no theorem relies on. Integers are natural
-- numbers with the wrap written out; an int64 or int32 that can be negative is its bit pattern.
-- The functions of Go's package strings are arguments in lab3, and those of Base on ASCII text elsewhere.
-- A slice has its items and the bytes up to its capacity. The time, the answers of a socket and
-- comparisons of float64 are arguments. Locks are left out in lab2 and in the registry, whose methods
-- hold one lock each; the pool, which has none, is a relation of atomic actions and its runs are
-- sequences of them.
--
-- Recursion. `fold_carries` recurs on accessibility of `<`. `advance`, the loop of `AckPacket`, takes
-- the size of the map of acknowledgments as fuel; each round takes one entry out of it. The loops of
-- lab1 that read take the length of the stream and one more, and those that write take the length of
-- the file: each round takes a byte at least if the buffer is not empty. Where a buffer is empty, a loop
-- that goes on for ever is the answer `hangs`.
--
-- The network. A connection has the bytes that will arrive, the sizes in which they do, what ends them,
-- and which writes fail; the disk has the errors of its calls. All of these are arguments.
--
-- Shared memory. The packets of an upload of lab2 are slices of one buffer: the state has the numbers
-- under which such packets wait, and a read of the file fills these packets. The tasks of a listener of
-- lab4 share its buffer in the same way.
--
-- Not modelled: the calls of the operating system that open and close sockets, and the options of
-- keepalive; the command handler and the file manager that lab1 and lab2 have in common stand once, in
-- Lab2/Command and Lab1/Files; lab3 but for its multiplexer, its sets of descriptors and its commands;
-- the reports that are only printed, configuration and programs.
pub mod Base
pub mod Lab1
pub mod Lab2
pub mod Lab3
pub mod Lab4
