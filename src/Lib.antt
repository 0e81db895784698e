-- ===== src/Lib.antt =====
-- The qinyun server: a reactor network library and the campus activity server on top of it.
--
-- The program has two parts. net/ is a library in the manner of muduo: an event loop polls channels
-- through epoll, connections own a channel and two buffers, and timers come through a timerfd.
-- server/ is the application: it cuts the stream of each connection into packets of a big endian length
-- and a JSON body, and hands each body to a handler that reads and writes a MySQL database and answers.
-- A connection appends what it reads to its input buffer and calls the message callback, which takes
-- packets out of that buffer; a reply goes to the output buffer of the connection where the socket does
-- not take it at once.
--
-- Base: names that the modules share, a native length, take and drop with their lemmas, Boolean tests,
--   and integers over the native numbers (Base/Int).
-- Net/Buffer: net/src/buffer.cpp. The state is the vector and the two indices; an operation that may fail
--   an assertion of the source returns an Option. Valid is the invariant, the other children hold the
--   theorems on append and prepend, retrieve, readFd and getline. A buffer keeps below 2 ^ 63 bytes.
-- Net/Channel: net/include/channel.h. A mask is the record of its six bits.
-- Net/Poller: net/src/poller.cpp. Interest is an independent reading of the calls of epoll_ctl, Agrees the
--   invariant between that and the map of channels, Changes its lemmas, Legal the theorem
--   on sequences of requests. A channel is known by its address, and epoll_ctl itself is recorded and
--   does not fail. Poll is poll with what epoll_wait returns as an argument; Poll/Agreed holds the
--   theorem on it.
-- Net/Sockets: net/src/socket.cpp. LOG_FATAL, which ends the process, is `none`; Address holds the theorem.
-- Net/Client: net/src/tcpclient.cpp, with what connect of the system returns as an argument.
-- Net/Acceptor: handleRead of net/src/acceptor.cpp, with what accept and open return as arguments and
--   the descriptors given, handed over and closed as effects. Balance holds the theorem.
-- Net/Connection: net/src/tcpconnection.cpp, with readv, write and the message callback as arguments.
--   A call returns the connection and the effects outside it, in order. Send, Stuck and Lifecycle hold
--   the theorems.
-- Net/Timer: net/src/timer.cpp. A callback is the list of the calls that it makes of the queue; an
--   interval is a number of nanoseconds in place of a double of seconds. Clock holds the theorem on the time
--   that the descriptor is set for; Entries, Sets, Consistent, Expiry, Ringing, Repeats, Round and Runs
--   those on the two sets of timers, and Order, Deadline and Armed those on the order of the times and
--   on the descriptor. Net/Timestamp is the arithmetic of net/src/timestamp.cpp.
-- Net/Pool: EventLoopThreadPool in net/src/eventloop.cpp and the map of connections of
--   net/src/tcpserver.cpp. A loop is known by its address.
-- Net/Server: net/src/tcpserver.cpp together with its connections. The threads of the loops are a step
--   relation on the map, the objects, what the pollers have and the tasks that wait, of which any may be
--   taken next. Phases are the places of a connection in its life, Standing, Sound and Events take it
--   from one to the next, and Lifecycle holds the theorems. Net/Outcome is what the partial steps share.
-- Net/Loop: EventLoop in net/src/eventloop.cpp. A state is the fields and the place of the loop's thread;
--   Step has a constructor for each thing that this thread or another may do next. Other threads do a
--   change and the call of wakeup behind it as two steps. Order and Wakeup hold the theorems.
-- Business/Packet: tryExtractPacket and the loop of onMessage in server/business/BusinessServer.cpp. The
--   loop has fuel, one unit for each packet and one for the end; Frames and Cuts describe packets
--   independently, and Ends and Stream show how much fuel is enough.
-- Business/Monad, Business/Interface, Business/Text, Business/Server: how a handler runs. It goes on,
--   returns early, is left by an exception or ends with the process at a failed assertion; its state is
--   the connection to the database, the statements given to it and the replies sent. nlohmann::json and
--   the C API of MySQL are the records JsonLib and Mysql, parameters of every handler. A number of the
--   text form std::to_string has ten digits at most.
-- Business/Handlers: the handlers, one function each, with the statements as the texts that the source
--   puts together: Activity, Edit, Assign, Member, Query, Slots, Template, Spread and Term. Rows says how
--   the rows of a result become objects. Transaction says what a transaction of a handler is; Batch,
--   Settle, Add, Approve, Apply, Account, Slots/Free, Template/Dedup, Template/Unapplied and
--   Template/Upload hold theorems. Owed and Answers have the rules by which Once shows how often each
--   handler answers, Statements those for the statements that a handler gives.
-- Business/Schedule: rebuildUserSchedules, with the bit operations of uint32_t on natural numbers from
--   Business/Bits. Bits and Covers hold the theorems.
-- Business/Calendar: server/utils/TimeConverter.cpp. The C library's dates are the record Calendar, a
--   parameter; the hours are compared in minutes. Weeks and Hours hold the theorems.
-- Business/Start: loadDbConfig and the connection to the database in the constructor of BusinessServer;
--   Config holds the theorem.
-- Business/Route: the table of handlers, dispatchAction and what onMessage does with one packet; Replies
--   puts it together with the packets of a stream.
-- Tests: runs at concrete inputs.
--
-- Taken for granted: the texts of a reply are UTF-8, so that dump does not throw; a task or an event of a
-- loop is handled in that loop's thread, so that no assertInLoopThread fails; two channels that a poller
-- has are of different descriptors.
--
-- Not modelled: the creation of the threads of the loops; the options of sockets and logging, which
-- only call the system; the build files, the SQL scripts and the examples hold no code of the server.
pub mod Base
pub mod Net
pub mod Business
mod Tests
