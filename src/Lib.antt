-- ===== src/Lib.antt =====
-- SolarNet, a library for TCP servers in C++: an event loop that waits for descriptors with epoll,
-- timers, byte buffers and connections on top of it. One thread runs a loop, and its channels,
-- timers and connections belong to that thread; other threads reach it through a queue of functors.
-- A pool of such loops, each on its thread, shares the connections of a server; a pool of workers
-- runs other tasks.
--
-- How the parts interact: a `Channel` holds the events that its owner waits for on a descriptor.
-- A change of them goes through the loop to the `EpollPoller`, which keeps the kernel's interest
-- list; what the poller finds ready is written into the channel, whose `HandleEvent` calls its
-- owner. A `TcpConnection` owns a channel and two buffers: it writes directly while the output
-- buffer is empty, keeps the rest in it, and writes from it when the channel is ready. A
-- `TimerQueue` owns a channel on a timer descriptor, set to the first active timer. An `Acceptor`
-- owns a listening `Socket` and hands each new descriptor to the `TcpServer`, which picks a loop for
-- it, makes the connection and keeps it in a table until the connection says that it is closed.
--
-- The files:
--   Base     names, Boolean tests on numbers, lists over native numbers
--   Bytes    memory as a list of bytes: copying, moving, integers as bytes in either byte order
--   Buffer   solar_net/base/buffer.h and buffer.cpp: `Buffer` with `append` for `Append` and so on.
--            Space: room and moving; Data: bytes in and out; Queue: the queue it implements;
--            Ints: `AppendInt32` and the like; Search: `FindCRLF`, `RetrieveUntil`; Io: `ReadFd`
--            and `WriteFd`; Hex: `ToHexString`; Faults: where it goes wrong
--   Channel  solar_net/net/channel.h and channel.cpp: the masks and the dispatch; Names: the text of
--            a mask
--   Poller   solar_net/net/poller.h, poller.cpp, epoll_poller.h and epoll_poller.cpp. Sync: one
--            update; Invariant: the agreement with the kernel; Removal: `RemoveChannel`
--   Connection
--            solar_net/net/transport/tcp_connection.h and tcp_connection.cpp. Stream: sending;
--            Writing: `HandleWrite`; Progress, Handlers and Lifecycle: the states; Closing: how it is
--            closed and destroyed; HangUp: closed twice; Queued: the calls of other threads; Access:
--            the context and the rest
--   Timers   solar_net/net/timer_queue.h and timer_queue.cpp. Order: the ordered set; Expiry:
--            `ProcessExpiredTimers`; Requests: callbacks that set and cancel timers; Counts and
--            Fired: how often a callback is called; Descriptor: when the descriptor goes off;
--            Timeout: `NextTimeout`
--   EventLoop
--            solar_net/net/event_loop.h and event_loop.cpp. Steps: the loop thread and the others;
--            Pending: the queue of functors and the wakeups; Round: polling and handling; Parts:
--            the poller, the wakeup channel and the timers, with the constructor and destructor
--   EventLoopThreadPool
--            solar_net/net/event_loop_thread_pool.h and event_loop_thread_pool.cpp. Rounds: which
--            loop is given out
--   EventLoopThread
--            solar_net/net/event_loop_thread.h and event_loop_thread.cpp. Steps: the two threads;
--            Invariant: what always holds; Returns: whether the calls return
--   Thread   solar_net/base/thread.h and thread.cpp. Destruction: joining; Names and
--            Current: the names
--   Socket   solar_net/net/transport/socket.h and socket.cpp. Calls: the system calls; Ownership:
--            who closes a descriptor
--   InetAddress
--            solar_net/net/transport/inet_address.h and inet_address.cpp. Parts: what is read back;
--            Compare, Order and Precedes: equality and order
--   Acceptor solar_net/net/transport/acceptor.h and acceptor.cpp. SetUp: `Listen`; Accepting:
--            `HandleRead`
--   TcpServer
--            solar_net/net/transport/tcp_server.h and tcp_server.cpp. Names and Table: the table of
--            connections; Steps: what happens on the main loop; Invariant: what always holds;
--            Stopping: `Stop`, a failed `Start`; Loops: which loop a connection gets; Accepting:
--            the acceptor and the server together; Reentry: what the callbacks of a round do to the
--            server and to each other
--   Logger   solar_net/base/logger.h and logger.cpp. Lines: one log; Output: what an appender gets
--   ThreadPool
--            solar_net/base/thread_pool.h and thread_pool.cpp. Steps: the workers and the users;
--            Tasks: an invariant; Drain: the tasks, and stopping; Wakeups and Served: the
--            notifications of `Submit`; Names: the workers' names
--   Time     solar_net/base/time.h and time.cpp. Text: the text for the log
--
-- Threads: what runs between two points where another thread can interfere is one step, and a
-- program is any sequence of steps. A critical section is one step, except where a worker of a
-- `ThreadPool` tests the stop flag, which is set outside of the mutex, and then waits.
--
-- Conventions: a `size_t` is a number below 2 ^ 64, with sums and differences that wrap where the
-- source can reach it; a byte is a number below 256. A failed `assert` is `none`, as in a build
-- with assertions; Connection/HangUp is about one without. What a system
-- call returns is an argument of the code that calls it; `epoll_ctl` is the interface `Epoll`, with
-- what is documented of it as laws, and whether it refuses a call a hypothesis. A callback of the user
-- is recorded when it runs, or is a function on the state where what it does matters, as for timers
-- and for the rounds of a loop. Which insertions rehash the map of timers is an argument. A clock
-- reading is an argument; a call that reads the clock twice is given one value.
--
-- Bounds and fuel: theorems on buffers ask that the memory needed stays below 2 ^ 64. The loop of
-- `ProcessExpiredTimers` runs on fuel; more fuel than the time that the due timers are behind is
-- enough, since each round takes a due timer off or moves it on by its interval. The loop of
-- `HandleRead` of an acceptor runs on fuel too: more rounds than there are connections to accept.
--
-- Not modelled: reading the clock; times before the epoch, and printing a time in the local time
-- zone, which is an argument; the text of the messages that the other parts log; where a poller makes
-- and closes its descriptor; and how `std::any` holds a context. What the connections of a server do
-- on other loops is not a part of the server here: it logs what it asks of them. In a round of the
-- loop an object lives as long as the table of its server holds it, where the user keeps no pointer.
-- What the callbacks of a connection do to it in the middle of a handler is left out, and what the
-- init callback of an `EventLoopThread` does with that object.
pub mod Acceptor
pub mod Base
pub mod Buffer
pub mod Bytes
pub mod Channel
pub mod Connection
pub mod EventLoop
pub mod EventLoopThread
pub mod EventLoopThreadPool
pub mod InetAddress
pub mod Logger
pub mod Poller
pub mod Socket
pub mod TcpServer
pub mod Thread
pub mod ThreadPool
pub mod Time
pub mod Timers
