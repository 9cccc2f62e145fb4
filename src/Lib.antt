-- ===== src/Lib.antt =====
-- goev, an event-driven network framework: a model of the core and its correctness.
--
-- A reactor (reactor.go) spreads descriptors over pollers (epoll.go). A poller registers handlers
-- by descriptor in a map (ev_data.go), tells the kernel, and dispatches ready events to the
-- handlers. Each poller has a timer queue (timer_4heap.go) in a 4-ary heap. A handler
-- (io_handle.go, io_handle_async.go) writes to its descriptor, and queues what the kernel did not
-- take in a ring buffer (ringbuffer.go), in slices from size-class pools (bufpool.go).
--
--   * Prelude: names, lists and slices over the native numbers, and Run, the outcome of a call: ok,
--     panic or out_of_fuel. A panic is a Go run-time panic.
--   * Ring: ringbuffer.go. new, push_back, pop_front, push_front, grow are NewRingBuffer, PushBack,
--     PopFront, PushFront, grow. Bounds has the invariant and the list of items, Grow the doubling,
--     Refine the operations against lists.
--   * Heap4: shiftUp and shiftDown of timer_4heap.go. Order, Up and Down have the heap order and
--     the two loops.
--   * Timer: the rest of timer_4heap.go over an explicit memory of timer items: schedule, cancel,
--     pop_one, handle_expired, on_read. Queue, Pop, Schedule, Fire, Expire, Cancel and Limits prove
--     what each does.
--   * BufPool: bufpool.go. bmalloc, bfree, alloc, free, adjust over the three arrays of classes.
--     `sync.Pool` is a parameter, which gives out what was put in or nothing.
--   * Mask: the event masks of ev_handler.go, as sets of bits.
--   * EvData: ev_data.go. The array and the map of pointers, with the memory that the pointers go
--     to; Laws makes it a finite map.
--   * Poll: epoll.go. add, remove, append, and dispatch and run over the answers of `EpollWait`.
--     `epoll_ctl` is a parameter: its verdict on a call.
--   * Reactor: reactor.go. route, add_ev_handler, append_event, remove_event.
--   * Build: NewReactor with what it makes, open of epoll.go, newTimer4Heap, newAsyncWrite and
--     newPollSyncOpt. The answers of the system calls are parameters. Registered, Runs, Parts and
--     Made are the steps; Ready and Leak are NewReactor that succeeds and fails.
--   * IoHandle: io_handle.go and io_handle_async.go. write, async_write, async_ordered_write,
--     async_ordered_flush, destroy. `syscall.Write` is a parameter. Pending, Queue, Send and Flush
--     are about one operation each, Life about destroy, init and set_fd. Read has read and
--     writeBuff of epoll.go, and Read and WriteBuff.
--   * Address: the addresses of connector.go and acceptor.go, from bytes to a socket address.
--   * Sockets: what these two share, the reactor with its timers and the log of sockets and
--     callbacks.
--   * Connector: connector.go. connect_to is Connect; InProgress has the handler that waits, with
--     event for the dispatch of epoll.go to it; Connect and Outcome say how a connect begins and
--     ends, Stale what a refused registration leaves. The calls of the kernel for a socket are
--     parameters.
--   * WebSocket: the frames of example/websocket.go. parse_frame_header, mask_bytes, on_frame (in
--     WebSocket/Serve) with the rounds of its loop as fuel, for which the number of bytes is
--     enough. Upgrade has onUpgrade and OnRead, and Handshake what is accepted.
--   * Http: example/techempower.go. parse_header with request_line, after_uri, header_lines,
--     add_line and add_header for its parts, and on_read2; Bounds and Serve are about these, Print
--     about a printed request. Text has the functions of Go's strings package, on UTF-8. A slice
--     beyond the bytes of a buffer is a panic here, also where its capacity would allow it. The
--     rounds of both loops are bounded by the number of bytes, which is enough.
--   * Acceptor: acceptor.go. new_acceptor, open_listener (open), on_read, on_timeout, on_close;
--     pause is the branch of EMFILE. Open, Pause and Serve are the proofs.
--   * Notify: the double-buffered queue of async_write.go and poll_sync_opt.go: push and OnRead,
--     whole and as interleaved steps. Order has the order of the items, Wake the wake-ups. The
--     eventfd takes every write, and a read of it fails only where it has no value.
--   * PollSync: doSync of poll_sync_opt.go and the cache of epoll.go.
--   * ConnectPool: connect_pool.go. keep_num, acquire, give_back (Release), connected and
--     connect_failed (OnOpen and OnConnectFail of connectPoolConn), on_new_conn, closed; Keep
--     bounds the connections.
--   * Options: options.go, the defaults and the functions that set them; Sizes has the sizes that
--     are positive.
--
-- Bounds and fuel. The loop of handle_expired takes fuel; one more than the number of timers is
-- enough where no period is within the tolerance of two milliseconds. shift_up and shift_down get
-- fuel from their index and length, and it is enough. The fuel of write, read and connect bounds
-- how often in a row the kernel answers EINTR, a hypothesis of their theorems; that of destroy is
-- enough above the number of buffers; that of on_frame is the number of bytes, and is enough.
-- Times, sizes and indices are natural numbers far below 2 ^ 63; `allocTimes` wraps at 2 ^ 32 as an
-- int32.
--
-- Not modelled: netfd (system calls), the goroutines of Reactor.Run, and the examples other than
-- example/websocket.go and example/techempower.go. What OnOpen of a user's handler does to the
-- reactor is not followed in Connector and Acceptor.
pub mod Prelude
pub mod Ring
pub mod Heap4
pub mod Timer
pub mod BufPool
pub mod Mask
pub mod EvData
pub mod Poll
pub mod Reactor
pub mod IoHandle
pub mod Notify
pub mod PollSync
pub mod ConnectPool
pub mod Options
pub mod Address
pub mod Connector
pub mod Sockets
pub mod Acceptor
pub mod WebSocket
pub mod Build
pub mod Http
