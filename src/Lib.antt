-- ===== src/Lib.antt =====
-- A libuv TCP server, client and peer-to-peer node (lib/, node/), as functions on an explicit state.
--
-- The program's parts. A connection object (lib/net_client.cpp) owns a libuv handle, a state and a
-- buffer of received bytes; libuv calls it back when bytes come, a write ends, a connection is made
-- or a timer fires (node/peer_conn.cpp). It cuts the bytes into lines, parses each line to a message
-- (lib/message.cpp), and gives the message to the application: `ServerApp` or `ClientApp`
-- (lib/app.cpp), or `NodeApp` (node/node.cpp). The application answers through the connection, and
-- the node keeps two tables: the candidates that it may connect to, and its current peers. The
-- listening side (lib/net_handler.cpp) binds a port and makes a connection object for each incoming
-- connection.
--
-- The files.
--   Base       names that all modules share; native numbers, `int`, byte strings, `Outcome`
--   Text       `to_string`, `stoi`, `string::find`, `ss >> buf`, as the source uses them
--   Dict       `std::map` with `std::string` keys
--   Message    lib/message.hpp, lib/message.cpp: `serialize` is `SerializerMessageVisitor`,
--              `parse_message` is `parseMessage`, `describe` is `toString`
--   Endpoint   node/endpoint.hpp, node/endpoint.cpp
--   World      the shared state, the sequencing of steps, and libuv's calls
--   Peers      the tables of node/node.cpp: `addOutPeerCandidate`, `isPeerConnected`, and the two
--              loops of `connectionClosed`
--   App        `connectionClosed`, `inConnectionReceived`, `getName` of the three applications, and
--              the destructors that run where they drop the last reference to a connection
--   Client     `sendMessage`, `close`, `onClose`, `doRead`, `isConnected`, `connect`
--   Server     `messageReceived` of lib/app.cpp
--   Node       the rest of node/node.cpp: `tryOutConnections`, `messageReceived`, `sendOtherPeers`,
--              the debug prints
--   Remote     `getRemoteAddress`, `getRemoteAddressHostPort` of lib/net_handler.cpp
--   Events     the callbacks: `onRead` with `doProcessReceivedBuffer`, `onWrite`, `onConnect`,
--              `onTimer`, `process`, and `onNewConnection`
--   Dispatch   the static functions that lead from libuv to these callbacks
--   Listen     `doListen`, `startWithListen`, and the starts of the server and of the node
--   Args       `processArgs` of node/main.cpp, and the texts of `usage` and `printArgs`
--   Programs   `ClientApp::start` and the three `main` functions up to the wait for a key
--   Loop       `getUvLoop`, `runLoop`, `deleteUvLoop`, `doBgThread`, `startUvLoop`, `stopUvLoop`, as
--              steps of two threads that share the loop
--   Requests   `UvWriteRequest` of lib/uv_socket.cpp, with the heap blocks that it owns
--   Frame      the steps that keep the identity and the received bytes of the connections
--   Kept       the steps that keep a predicate of the state: its rules, the laws under which every
--              handler and callback keeps it, the steady predicates, of the classes, the tables and
--              the calls (Kept/Steady), which `connect` and the starts keep as well (Kept/Trials,
--              Kept/Starts), and the predicates: of the entries of the node's candidates
--              (Kept/Tables, with the instances in Kept/Candidates and Kept/Order), of the open
--              handles (Kept/Streams) and of the classes of the connections (Kept/Classes); `Event`
--              and `run` are the callbacks from libuv as a sequence
--   Framing    the stream of lines of a buffer, and the receive loop against it
--   Session    a session of `NetClientOut` with a server that answers: `onConnect`, and then in rounds
--              the end of a write and a line that comes in; and the server of lib/app.cpp that reads
--              what the session writes
--   Greeting   what a node writes to a peer: `sendOtherPeers`, a new outgoing connection, and the
--              answer to a handshake, with a libuv that takes the writes
--   Examples   concrete inputs for the theorems
--
-- The state. `World` holds the connection objects in a table by number (a pointer is a number; the
-- table never shrinks), the application, and the list of the calls into libuv so far. A step is a
-- function from a world to an `Outcome`: a value with a new world, or a fault. The faults are the
-- ends of the process that the source allows: an exception of `stoi` that is not caught, a failed
-- `assert`, and the use of a null pointer. Asserts are taken as active, as in a Debug build: the
-- default of CMakeLists.txt is Release, whose NDEBUG removes them, so that there the branch of an
-- unexpected message in `ServerApp` (`server_message_received`) does nothing, and `startUvLoop`
-- (`start_uv_loop`) goes on where `uv_async_init` has failed. libuv is the record `Uv`, a
-- parameter of every step: the results of its calls, the descriptors and the peer names are any
-- functions of the calls so far. A callback is one step; libuv runs one at a time. The two threads
-- of the loop have a state of their own (`System` in Loop): each access to a shared field is one
-- step, a schedule is a list of turns, and a `uv_run` lasts as long as the schedule lets it.
--
-- Bounds and fuel. A byte is a number; a C++ `int` is an integer whose range (`IsInt`, 32 bits) is
-- tested where the source parses one. The loop of `doProcessReceivedBuffer` has fuel for each byte
-- of the buffer, and each round takes at least the end of a line off it. The loop of
-- `connectionClosed` over the null entries has fuel for each entry, and each round erases one. The
-- digits of `n` have fuel `n + 1`, more than there are digits. Other loops go down a list or a
-- number of rounds.
--
-- Not modelled: the memory of the objects (a pointer to a destroyed one still finds its entry in the
-- table); the deletion of the requests of libuv behind their callbacks (`UvWriteRequest` is modelled
-- on its own, in Requests); the handles that the end of the loop closes; the buffers of
-- `alloc_buffer`; the result of `uv_ip4_addr`; the overflow of the counters; printing, but for the
-- texts of `usage`, `printArgs` and the debug prints of the node; the wait for a key of the programs
-- and what follows it.
pub mod Base
pub mod Text
pub mod Message
pub mod Endpoint
pub mod Dict
pub mod World
pub mod Peers
pub mod App
pub mod Client
pub mod Server
pub mod Node
pub mod Remote
pub mod Events
pub mod Dispatch
pub mod Listen
pub mod Args
pub mod Programs
pub mod Loop
pub mod Requests
pub mod Frame
pub mod Kept
pub mod Framing
pub mod Session
pub mod Greeting
pub mod Examples
