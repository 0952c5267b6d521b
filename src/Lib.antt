-- ===== src/Lib.antt =====
-- Getty is a network library: a session on a TCP, UDP or WebSocket connection reads packages and hands
-- them to a listener, writes packages with limits and deadlines, calls a heartbeat, and can be closed
-- and reset; a client keeps a pool of sessions and connects again when one is lost; a server accepts
-- connections and makes a session of each.
--
-- The parts, in transport/ of the repository, and the modules that model them:
--   transport/connection.go: Connection. Net is the network: what each call on a socket, a compression
--     codec or a WebSocket connection does is a parameter, a function of the number of the call and
--     its arguments. Tcp, Udp and Ws are gettyTCPConn, gettyUDPConn and gettyWSConn, Conn the
--     interface Connection with its three kinds, Stats the counters and time limits of gettyConn.
--     Polling is the reader and the writer between a codec and its connection. Tcp/Delivery shows what a
--     TCP send delivered, Tcp/Histories what any series of operations keeps, Polling/Reads and
--     Polling/Writes which bytes pass and which timeouts, Ws/Pings what a ping comes to.
--   transport/session.go: Session. State is the struct session with newSession and the counter of a
--     lifecycle, Limits, Setters and Forwards are the setters. Write is Send, WriteBytes and WriteBytesArray,
--     Packages is WritePkg. Receive is handleTCPPackage, Receive/Udp and Receive/Ws are the loops of
--     the other two kinds. Lifecycle is stop, gc, reset and run, one critical section at a time, with the
--     goroutines that they leave; Lifecycle/Stops is one stop with nothing in between;
--     Events is what addTask and the end of handlePackage call of the listener, Heartbeat is heartbeat,
--     Startup is run with a failing OnOpen and session_callback.go, Handling is handlePackage, and
--     Handling/Idle the end of a silent session; Resets is Reset, TryReset and ResetAsync.
--     The children Stream, Loop, Limits, Datagrams, Messages, Timeouts, Tcp, Udp, Invariant, Reset and
--     Order hold what is proved of them.
--   transport/callback.go and transport/session_callback.go: Callbacks, the linked list of the close
--     callbacks on an explicit heap. Callbacks/Chain and Callbacks/Edit say what the heap holds,
--     Callbacks/Refine gives the abstract list of registrations, Callbacks/Histories the refinement.
--   transport/client.go: Client. Pool is the client with sessionNum, the critical section of connect
--     and stop; Reconnect is connect and runReconnect, Backoff is reConnect, Dial is one attempt to
--     connect. A client owns sessions by reference: the record World maps a reference to the state of a session (Session/Lifecycle).
--   transport/server.go: Server, the checks of newServer and the accept loop, and Server/Shutdown,
--     where listening and closing run against each other. Server/Endpoints is the opening of listeners,
--     RunEventLoop, the udp end point and the handler of WebSocket requests.
--   transport/tls.go: Tls, with the configurations that client.go and server.go make themselves.
--   transport/options.go: Options. transport/const.go: Constants. The errors of transport/getty.go
--     and of the standard library: Errors.
--   examples/echo/udp-echo: Echo/Datagrams, the writer, the handlers and the requests.
--   examples/echo/tcp-echo: Echo, the codec of echo.go and readwriter.go; Echo/Server is handler.go of the
--     server, Echo/Client is client.go with the requests of handler.go and main.go. RoundTrip, Batches,
--     Streams and Peers hold what is proved of the codec, alone and below handleTCPPackage.
-- Common holds the lemmas on lists, integers and words, Tests the concrete runs.
--
-- How the code corresponds: a struct is a record, a mutex section is one function on the state, and a
-- goroutine is a series of such sections. Session.Lifecycle.Step, Client.Reconnect.Step and
-- Server.Shutdown.Step list the sections, and a series of steps is an interleaving; what is proved of
-- Reach holds for all of them. A function that returns an error returns it as an Option; a panic or a
-- fault is a result of its own.
--
-- Fuel: the outer receive loops run for a number of rounds, as the code does until its session is
-- closed; the inner loop of handleTCPPackage gets a turn for each byte of the buffer and one more,
-- which is enough when a package takes at least one byte. WriteBytes gets a turn for each full
-- fragment and one more. The loop of reConnect gets as many turns as its theorems name. The loops of
-- the callback list get a turn for each node of the heap. The polling loops run for a number of rounds; a
-- write gets one for each byte and one more, which is enough where each call moves a byte.
--
-- What is not modelled: the text of log lines and names, time stamps of activity, the HTTP server below the WebSocket handler, the codecs
-- themselves, and the reuse of memory in buffers. Connection/Tcp takes what a codec reads as a
-- parameter, so the polling reader stands beside it and not below. A Reader is a function of the
-- bytes it is given; the TCP and udp loops run with one message limit. A task pool runs a task at
-- some time; the order in which packages are handed to it is modelled.
pub mod Common
pub mod Errors
pub mod Constants
pub mod Callbacks
pub mod Connection
pub mod Session
pub mod Options
pub mod Tls
pub mod Client
pub mod Server
pub mod Echo
mod Tests
