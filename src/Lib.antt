-- ===== src/Lib.antt =====
-- A model of annety, a C++ network library of one event loop per thread: its loop with the
-- pollers and timers, its connections, server and connector, its buffers and codecs, and the
-- queues that its threads wait on.
--
-- How the parts work together: `NetBuffer::read_fd` fills a connection's input buffer from the
-- socket; the connection's message callback hands that buffer to `Codec::recv`, which asks the
-- codec for one payload after the other; `Codec::send` encodes a payload and gives it to
-- `TcpConnection::send`, which writes to the socket or keeps the bytes in the output buffer until
-- the channel reports that the socket is writable. The header codec seals its frames with a
-- CRC-32. A server gives every accepted connection to one of its loops, and a client's connector
-- tries again after growing delays. A loop waits in its poller, runs the handlers of the active
-- channels (the timers' descriptor and the eventfd for calls from other threads are channels too)
-- and then makes the calls that were handed to it. Threads hand work to each other through the
-- blocking queue and wait for each other on the latch.
--
-- The files and the code they are about:
--   Buffer        include/ByteBuffer.h, src/ByteBuffer.cc. A record of the memory, the two
--                 indices and the limit; one function per method. The memory is the vector's
--                 `size()` bytes; `capacity()` of the vector has no part in what the methods
--                 return. Inv, View, Append and Refine hold the proofs, the last one against a
--                 queue of bytes.
--   Net           include/NetBuffer.h, src/NetBuffer.cc, include/ByteOrder.h. Unsigned values are
--                 numbers below a power of two, signed ones integers; a host of either byte
--                 order.
--   Crc           include/Crc32c.h, src/Crc32c.cc. Characters are signed, as on the compilers
--                 used.
--   Text          src/StringPiece.cc: `find` and `substr`.
--   Codec         include/codec/Codec.h; Codec/LengthHeader for LengthHeaderCodec.h and
--                 Codec/StringEof for StringEofCodec.h. A codec's `decode` returns the result
--                 code, its own state and both buffers.
--   Channel       src/Channel.h, src/Channel.cc.
--   Tcp           include/TcpConnection.h, src/TcpConnection.cc. The record has what the code
--                 keeps, the tasks that the loop has queued for it, and the socket as the bytes
--                 it took.
--   Poll          src/Poller.h, src/PollPoller.cc and src/EPollPoller.cc. What both pollers share
--                 takes `update_poll_events` as a parameter; Poll/Agree compares them.
--   Timers        src/TimerPool.cc, src/Timer.h, src/Timer.cc and the part of src/TimerFD.cc that
--                 sets the time, as built on Linux.
--   Loop          include/EventLoop.h, src/EventLoop.cc: the queue of calls and the wakeup, as
--                 steps of the loop's own thread and of others.
--   Connector     src/Connector.h, src/Connector.cc, with the tasks and timers that it leaves to
--                 the loop.
--   Client        include/TcpClient.h, src/TcpClient.cc, which drives the connector.
--   Server        src/TcpServer.cc and src/EventLoopPool.cc: the table of connections and whose
--                 turn it is.
--   LogStream     src/LogStream.cc: how integers are written.
--   ThreadPool    include/threading/ThreadPool.h, src/ThreadPool.cc, as steps of threads;
--                 `stop` and `joinall` wait for the workers between two steps.
--   Sync          include/synchronization/BlockingQueue.h and CountDownLatch.h with
--                 src/CountDownLatch.cc, as steps of threads, one step between taking the lock
--                 and giving it up.
--   Prelude       what all of them use: lists, tests, integers and bits.
--
-- Parameters. What a system call answers is an argument: the bytes or the error of `readv` and
-- `write`, the error of `connect`, the clock, and the poller's report. `epoll_ctl` comes with the
-- interest list that the kernel keeps for it and with what the kernel refuses for want of memory or
-- of watches or for the kind of a descriptor, `timerfd_settime` with its refusal of negative
-- times, the eventfd with the law that a write makes it readable, and `string_printf` with the
-- law that numbers print differently. `readv` delivers at most what its vectors hold, and `write`
-- takes at most what it is given.
--
-- Fuel. The loop of `Codec::recv` takes one round for every readable byte and one more. That is
-- enough for every codec whose successful `decode` takes a byte at least, as
-- include/codec/Codec.h asks of them. The loop that writes the digits of a number takes a round
-- more than the number. All other loops follow their data.
--
-- Not modelled: the acceptor, which calls the system and the server; the branches of the timers
-- for systems without timerfd; the rest of the logging, files, strings and the wrappers of system
-- calls; memory that runs out; numbers of bytes that exceed a 64-bit size, other than the search
-- offset of StringEofCodec, which wraps; microseconds and connection numbers that exceed their
-- integers. Checks that stop a debug build are assumptions where they stand, and are named there;
-- so is the one of the pollers that stops every build, while those of the timers, the connector
-- and `joinall` set a flag.
pub mod Prelude
pub mod Buffer
pub mod Net
pub mod Connector
pub mod Crc
pub mod Client
pub mod Codec
pub mod Text
pub mod Channel
pub mod Tcp
pub mod Server
pub mod Sync
pub mod LogStream
pub mod Loop
pub mod Poll
pub mod ThreadPool
pub mod Timers
