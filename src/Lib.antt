-- ===== src/Lib.antt =====
-- comfoconnectbridge: a bridge between ComfoConnect apps and a ventilation gateway. Apps and gateway
-- exchange framed protobuf messages over TCP: a length of four bytes, a Src and a Dst of sixteen, a
-- length of two, an operation, and a payload whose struct the operation's type decides. The bridge
-- reads such messages, answers some itself, forwards the others, and exports process data as metrics.
--
-- The parts, each with the code that it models:
--   Prelude      Boolean tests, lists and integers over the native numbers.
--   Go           What the program uses of Go's standard library: errors with a cause (Go/Errors), the
--                big-endian numbers of encoding/binary (Go/Binary) and a net.Conn (Go/Conn).
--   Proto        proto/zehnder.pb.go: enumerations, message structs and the interface value that holds
--                one; Proto/Codec is the protobuf library, which is a parameter of all that uses it.
--   Comfoconnect pkg/comfoconnect. Types: GetStructForType and getResponseTypeForOperationType. Socket:
--                ReadBytes. Receive: GetMessageFromSocket. Answers and Message: packMessage, Encode,
--                CreateResponse, CreateCustomResponse, CreateSearchGatewayResponse. Rpdo: rpdo.go and
--                DecodePDO.
--                Rounds: the loop around GetMessageFromSocket that the other parts share.
--                Session: session.go, NewSession, DiscoverGateway, the keep-alive loop, Close and Send.
--                Broadcast: broadcastListener.go, Run, Stop and handleConnection.
--   Proxy        pkg/proxy: handleMessage and App.Write of listener.go, Client.Run of client.go, Proxy.Run
--                and generateMetrics of proxy.go, one message at a time.
--                System: the bridge as a whole, a step relation in which its goroutines take turns, with
--                channels of 500 messages; a goroutine keeps a message for which there is no room.
--                Shutdown: its wait group, another step relation, without the messages.
--   Gauge        The gauge that process data sets in three of the programs.
--   Client       pkg/client/client.go: register, sessionRequest, subscribe, subscribeAll, receive,
--                startSession and the ticks of keepAlive.
--                Command: the client that cmd/client/client.go makes, with its sensors.
--   Server       The loop with the channels quit and exited, Run and Stop, that mockLanC.go, testproxy.go and
--                broadcastListener.go share: a step relation over the results with which the calls of the
--                handler can return.
--   MockLanC     pkg/mockLanC/mockLanC.go: handleClient and respond, Run and Stop.
--   Dumbproxy    pkg/dumbproxy/dumbproxy.go: proxyReceiveMessage, proxySend and generateMetrics.
--                System: the four goroutines of an app with their channels, a step relation, and the
--                loop of Run.
--   Testproxy    pkg/testproxy/testproxy.go: copy and handleClient, Run and Stop.
--   Tests        Runs at concrete inputs, and the theorems at concrete inputs.
--
-- A connection is a list of read events (a chunk of bytes, one failing read, the end), a list of what
-- the next writes will meet, and the list of what was written. A call ends in an Outcome: it returned,
-- failed with an error, panicked, or waits for input that is not in the list; each says what it leaves
-- of the connection. The loop of ReadBytes recurs on the read events, so it needs no fuel. A nil
-- pointer that is dereferenced, an index out of range and a failing type assertion are panics.
-- A byte is a number; where a statement needs it below 256 it says so. Widths are written out: the
-- length of the payload is a difference on uint32, and the length fields keep the low 32 and 16 bits.
--
-- A loop that receives one message after another is given a number of rounds; one more than the bytes
-- and failures on its connection are enough, since every round takes one of them.
--
-- Not modelled: log lines, tracing spans and metrics registration; the fields of the protobuf structs
-- that keep unknown input; the getters of the generated code; read deadlines but as failing reads; the
-- goroutines of the subscribing client, but for the keep-alive ticks that come while a session is set up;
-- the map of the apps by address, which is a list; the signals and sockets with which the commands start
-- and stop the programs.
pub mod Prelude
pub mod Go
pub mod Proto
pub mod Comfoconnect
pub mod Gauge
pub mod Proxy
pub mod Testproxy
pub mod Server
pub mod Client
pub mod Dumbproxy
pub mod MockLanC
mod Tests
