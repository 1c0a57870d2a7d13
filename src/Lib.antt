-- ===== src/Lib.antt =====
-- zylib: network, timer and pool components of a C++ code base
--
-- The repository is a collection of C++ libraries and servers. Modelled are components with
-- logic of their own, each from the files that are named here.
--
-- Network: zysoft/src/network, a TCP library over boost::asio.
--   Network/Buffer.antt    FlatBuffer of Buffer.h: a growing vector of bytes, consumed at its front.
--   Network/Decoder.antt   DefaultMessageDecoder of MessageDecoder.h and Message of Message.h: messages
--                          with a head of 16 bytes, cut from a FlatBuffer. Children: Head (the head
--                          written and read), Stream (streams in pieces), Endless (when the loop ends).
--   Network/Channel.antt   Channel of Channel.h: one connection. Its state is a record, each handler a
--                          function, a run a sequence of handlers (Reach). It holds a FlatBuffer for what
--                          has been read, and calls the decoder on it. Children: Order (what is written),
--                          Stuck (a failed write), Closing (the report to the user), Reading (what is
--                          handed to the user).
-- Wheel: zysoft/src/zysoft/timer/timing_wheel.h, timing_wheel<T, N>. Wheel.antt has its state and
--   operations. Children: Slot (one slot), Count (the assertions on the sizes), Due (what is put out,
--   and when), Removal (cancel), Reset (reset), Init (the constructor).
-- Knet: knet/detail/MessageDetail.cpp, MessageDecoder of the Kafka-based RPC. Knet/Codec.antt has
--   Encode and Decode, its children RoundTrip and Accepting their relation. Knet/Rpc.antt has the calls of
--   knet/RPCManager.cpp with the timers of knet/TimerManager.cpp; its children Once and Calls follow
--   them through whole histories, Ties and Late the timers of answered calls.
-- Redis: rediscpp. Redis/Pool.antt has ConnectionPool and ConnectionGuard of ConnectionPool.cpp. Children:
--   Lending (getConn), Returning (rleaseConn), Racing (several threads in getConn), Filling (init).
--   Redis/Commands.antt has what the commands expect of a reply; its children Strings, Hashes, Lists, Sets,
--   Zsets and Keys have the commands of the files with these names (Keys: Utile.cpp), Reading
--   the arrays of pairs and the text of DEL.
--   Redis/Arrays.antt has BufferArray of Buffer.cpp, its child Typed what its types allow. Redis/Scripts.antt has
--   Script.cpp and Script.h. Children: Converting (what luaToRedis makes of a reply), Requesting (what is
--   sent).
-- Snowflake: experimental/Snowflake.h, a generator of ids. Snowflake.antt has nextID with the clock it
--   reads. Children: Fields (the parts of an id), Steps (one call), Runs (many calls), Machines (two
--   generators), Overflow (a machine with too many bits).
-- RateGenerator: experimental/RateGenerator.h, a draw by weight. Its child Shares has the distribution.
-- Algorithm: experimental/Algorithm.h, combinations of a set, with their buffer written in place.
--   Children: Combinations (against a definition by recursion), Counting (permutation).
-- ByteBuf: nel/ByteBuf.h and nel/ByteBuf.cpp. ByteBuf.antt has the operations. Children: Queue (the
--   buffer as a queue of bytes), Numbers and Strings (what is written and read).
-- Base64: zylib/Base64.cpp. Base64.antt has Encode and Decode. Children: Table (the characters) and
--   RoundTrip.
-- Event: eventserver, a server over libevent with one loop thread. Event/Session.antt has EventSession of
--   EventSession.cpp with the queue of EventMessageDecoder.cpp; Event/Server.antt has the session map, the
--   tasks and the loop of EventServer.cpp, EventSessionManager.cpp and EventTask.cpp, and runs of them.
--   A session asks the server for its release by a task, and the server runs its reads and writes.
--   Children: Session/Sending (what a session waits for), Session/Bytes (what it sends and hands over),
--   Server/Keeping (what keeps a session from being forgotten), Server/Leaks (whole runs).
-- Vnet: network/vnetwork/VNetwork.cpp, a client and a server over boost::asio. Vnet/Message.antt has
--   ChatMessage, Vnet/Session.antt ServerSession, Vnet/Server.antt TcpServer with its map of sessions,
--   Vnet/Client.antt TcpClient. Children: Message/Framing (the head), Session/Receiving (streams of
--   messages), Session/Sending (the write queue), Session/Ending (the report of the end),
--   Server/Members (the map), Client/Handlers and Client/Alike (the client and a session of the server),
--   Delivery (what one
--   session writes, another one reads).
-- Nel: nel/UnifiedConnection.cpp. Nel/Connection.antt has the queues that the io thread fills and `update`,
--   which works through them. Children: Counts (the sockets through the loops), Updates (through
--   the parts of `update`), Sockets (with TSock::onClosed and the sockets of a server, whole histories),
--   Races (the io thread in between). Nel/TSock.antt has the socket of TSock.cpp, Nel/NetClient.antt the client of
--   NetClient.cpp, which holds one, Nel/Network.antt the services of UnifiedNetwork.cpp, which holds a
--   connection for each, with the callbacks of CallbackManager.cpp. Children: TSock/Sending, TSock/Stuck (after a failed write),
--   TSock/Receiving, NetClient/Addresses, Network/Adding (addService), Network/Keeping (through update),
--   Network/Callbacks.
-- Prelude has the tests, lists and lemmas that all of them share, Prelude/Bits.antt those on bits. Modules called Tests hold the
-- theorems at concrete inputs.
--
-- Numbers. A byte is a number below 256. The message length of the decoder is computed with the wrap of
-- a 32-bit int and its sign extension to 64 bits, ticks of the wheel wrap at 2 ^ 64; sizes of vectors
-- do not overflow. The length of a string that Base64 encodes is cast to 32 bits, the number of arguments of a
-- script to an int, and the index of a vnetwork session wraps at 2 ^ 64. The host is little-endian.
--
-- Fuel. The loop of Decode of the network decoder runs on fuel: one round more than there are bytes is
-- enough, unless a head states the message length 0, when no fuel is. The loop that reads a string from
-- a ByteBuf has one round for each byte of the vector. The reads of a vnetwork session run on fuel: one
-- round for a message without a body, two for another. The loop that writes a session of eventserver
-- has a round for each call of evbuffer_write, whose results are an argument. The digits of a number that
-- a script sends have 20 rounds, and 2 ^ 64 has 20 digits. All other loops are
-- structural.
--
-- Outside. boost::asio, libevent, hiredis, Kafka and the user's callbacks are not under the repository.
-- What they return is an argument (the outcome of a read or a write, the connection that create
-- makes), what other threads do to a pool between two sections of getConn too, and what runs next is an input of the step relation. The handler of a timer of
-- a channel may run though the timer has been cancelled.
--
-- Not modelled: capacity of vectors, the addresses of a channel, logging, floating point numbers in a
-- ByteBuf, setting up and stopping the servers (listen, service, Init), ZINCRBY of rediscpp, and the
-- components that the manifest lists as such (wrappers of database and Kafka clients,
-- the servers, the examples, and copies of other projects' libraries).
pub mod Prelude
pub mod Algorithm
pub mod Base64
pub mod ByteBuf
pub mod Event
pub mod Knet
pub mod Nel
pub mod Network
pub mod RateGenerator
pub mod Redis
pub mod Snowflake
pub mod Vnet
pub mod Wheel
