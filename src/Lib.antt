-- ===== src/Lib.antt =====
-- gd_rpc: an RPC framework over its own reactor, in C++. A server and a client each run event loops
-- (gdrpc/net); a connection's bytes are framed by a codec (gdrpc/protocol), and the frames are the
-- calls and answers of protobuf services (gdrpc/rpc). gdrpc/util has the timers and the log.
--
-- What models what. Each function has the name of the source's in snake case, takes the state as an
-- argument and returns the new one with the list of what it did outside.
--   Util/TimeWheel    gdrpc/util/timingWheel.*: Task, TimeWheel; the event loop's timers
--   Util/AsyncLog     gdrpc/util/async_log.*: the buffers of AsyncLogging and its writer thread;
--                     how it is stopped is in Util/AsyncLog/Stopping
--   Util/LogFile      gdrpc/util/async_log.*: AsyncLogging::LogFile, the files of the log
--   Util/Logger       gdrpc/util/log.*: the levels, the macros and the lines; their way to the files
--   Util/Timestamp    gdrpc/util/timestamp.*
--   Net/Buffer        gdrpc/net/tcpConnection.*: TcpConnection::Buffer
--   Net/Connection    gdrpc/net/tcpConnection.*: TcpConnection, over Net/Buffer
--   Net/Channel       gdrpc/net/channel.*: a descriptor's interests and callbacks
--   Net/Poller        gdrpc/net/epoll_poller.*: the registration of channels with epoll
--   Net/EventLoop     gdrpc/net/eventLoop.*: the functors queued in a loop
--   Net/LoopTurn      gdrpc/net/eventLoop.cpp: a whole turn of the loop, over Net/Poller, Net/Channel,
--                     Net/EventLoop and Util/TimeWheel
--   Net/ThreadPool    gdrpc/net/eventLoop_threadPool.*: which loop serves a connection
--   Net/Connector     gdrpc/net/connector.*: the attempts of a client to connect
--   Net/LoopThread    gdrpc/net/eventLoop_thread.*: a thread that starts a loop, and the one that runs it
--   Net/TcpServer     gdrpc/net/tcpServer.*, acceptor.*: a server's connections, over Net/ThreadPool
--   Net/TcpClient     gdrpc/net/tcpClient.*: a client's connection, over Net/Connector
--   Net/InetAddress   gdrpc/net/inet_address.*
--   Rpc/Header        gdrpc/protocol/rpcHeader.proto
--   Rpc/Codec         gdrpc/protocol/protocol.*: ProtocolCodec
--   Rpc/Caller        gdrpc/rpc/rpcChannelCli.*: a client's outstanding calls
--   Rpc/Dispatch      gdrpc/rpc/rpcServer.*: a server's services and its answers
--   Rpc/Serving       gdrpc/rpc/rpcServer.cpp: RpcServer::Run, over Rpc/ZkClient, Net/InetAddress
--                     and Net/TcpServer
--   Rpc/Controller    gdrpc/rpc/rpcController.*
--   Rpc/Cluster       gdrpc/rpc/clusterCli.*: RoundRobin and RpcCluster::call
--   Rpc/ZkClient      gdrpc/rpc/zkClient.*, and what RpcServer::Run of rpcServer.cpp publishes;
--                     ZkClient::Start and its watcher are in Rpc/ZkClient/Session
--   Rpc/Endpoints     gdrpc/rpc/clusterCli.hpp: the constructor of RpcCluster
--   Rpc/JsonCodec     gdrpc/protocol/jsonCodec.hpp: structs to and from JSON by their schemas
--   Text              byte strings, maps keyed by them, and decimal numbers
--   Base              what the others share: tests, lists, maps and integers on the native numbers
--
-- What is given and not modelled: protobuf, as the record Rpc.Header.HeaderFormat with the round trip
-- of a header, and as the record Rpc.Dispatch.Service; epoll, as the record Net.Poller.Kernel.Epoll
-- with what ADD, MOD and DEL do; the ZooKeeper library, as the record Rpc.ZkClient.Zookeeper with what
-- its four calls do when they succeed, and Rpc.ZkClient.Appends.IsUp when they do: on a well-formed path,
-- with less than half of 1 MB of data, and to make a node, one of the root; the text of a time
-- and the name of the host, as the record Util.LogFile.System; the calendar, as the record
-- Util.Timestamp.Calendar; the byte orders and the texts of
-- addresses, as the record Net.InetAddress.Inet; the JSON library, as the record Rpc.JsonCodec.Json with
-- what its calls do to an object, and the conversions of a member's type, as Rpc.JsonCodec.Field. The
-- results of system calls are arguments. Threads are interleaved at whole functions of a loop, or at
-- whole holds of a mutex; those of Net/LoopThread and Util/AsyncLog/Stopping at each access to what
-- they share, and those of Rpc/ZkClient/Session at each call of the library. In Net/TcpClient the
-- test of removeConnection and the restart after it are two steps, so that a stop from another thread
-- may come between them; a stop in the middle of a function of the connector is left out.
--
-- How far the parts are put together. The functions of Rpc/Caller and Rpc/Dispatch are modelled from a
-- parsed header on, and are not composed with each other: in the program a whole frame does not get
-- past ProtocolCodec::onMessage, and the constructor of rpcChannelCli does not hand the input of its
-- client to the codec at all. Next of Rpc/Cluster is modelled as it is written, with the member
-- currentWeight_ that Client does not declare and that nothing initialises.
--
-- Bounds. A tick of the wheel is a loop that its own tasks can prolong: it takes a number of
-- rounds, of which one more than the tasks in a slot are enough while no task repeats. The codec's
-- loop takes rounds too; one is enough for what is said of it. Lengths and delays stay below 2 ^
-- 31, the range of the `int` that they are narrowed to, and the weights of clients are integers
-- without a bound, of which Rpc/Cluster/Bounds tells the range. The text of an address has at most
-- 21 bytes, as Net/InetAddress/Texts shows, and a server makes fewer than 2 ^ 31 connections, so that
-- no name is cut.
--
-- Not modelled: the wrappers of sockets and of the thread's number, which are one system call each; the
-- clock; the singleton, which nothing uses; the default output of the log to the console; codec.hpp,
-- an interface that nothing implements; what a callback does to other channels while a turn of the
-- loop handles the active ones.
pub mod Base
pub mod Text
pub mod Util
pub mod Net
pub mod Rpc
