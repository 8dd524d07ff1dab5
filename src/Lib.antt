-- ===== src/Lib.antt =====
-- uio is an event-driven networking library for Go: event loops over sockets, and protocol layers
-- above them (stream multiplexing, WebSocket, KCP, TLS). This library models the parts of it that
-- decide what bytes mean, how much may be in flight, and in which order work is done.
--
-- Umux, of umux/: a stream multiplexer that speaks yamux frames.
--   Umux.Frame is umux/frame.go: `decode_header`, `encode_header` and `validate_frame` are its
--   three functions. Umux.Window is umux/window.go: `sendWindow` and `recvWindow` with one function
--   for each method, on int64 bit patterns with the wrap-around written out. Umux.Window.Credit puts
--   a sender's and a receiver's window together with the data frames and window updates between
--   them, from the windows that both ends announce; its steps are the calls that Stream.Write, pushData, Read and grantWindow make.
--   Umux.Inbound is the receive queue of umux/stream.go, whose methods are its functions; what Go's
--   append allocates is a parameter. Umux.Outbound is what a session sends (umux/session.go and
--   umux/stream.go): Write, WriteOwned and CloseWrite queue frames and FINs, and in
--   Umux.Outbound.Flush flushLocked hands them to a transport whose answers are a parameter, at
--   most 256 rounds at a time as in the source. `frame_data` cuts a write into frames on fuel, the
--   bytes of the write. A call is one step, as the locks of the session and of the stream make it;
--   Umux.Outbound.Runs puts the steps together. Umux.Inbox is what a session receives: pushData,
--   Read, Discard and the resets of a stream, with the budget that the streams share; it uses
--   Umux.Inbound and Umux.Window. Umux.Opening is how streams enter and leave the session's table:
--   open, acceptStream and checkPeerStreamID of umux/session.go, on the streams' numbers, one
--   stretch under the session's lock at a time: other calls may come while Accept decides.
--   Umux.Drain is umux/shutdown.go on that table: Shutdown until it waits, and everything that may
--   end the drain. The GoAway frame is the flag that it was sent.
-- Uws, of uws/internal/frame/: the wire format of WebSocket.
--   Uws.Mask is mask.go: `unmask` with its loops, on fuel that is the payload's length, which each
--   round shortens. The assembly routine is a parameter (`Avx2`); `MasksVectors` states what it is
--   documented to do. UnmaskASCII is there too, with a routine of its own. Uws.Frame is ParseFrame,
--   Append and the close payload of frame.go, split where the header is complete. Uws.Parser is the
--   incremental parser of frame.go, one round of feedTo at a time: as many rounds as the input has
--   bytes are its fuel. Uws.Assembler is the Assembler of frame.go, which joins the data frames that
--   the parser delivers.
-- Composite, of internal/bytebuf/composite_buffer.go: the queue of bytes that connections read from
--   and write to. Its blocks are a copy of the standard library's bytes.Buffer and come from a pool;
--   both are the interface `Blocks` with the law `Documented`. Blocks that go back to the pool are
--   recorded in order. The loops of the coalescing writes run on fuel, the length of the input.
-- ReadControl, of internal/readcontrol/control.go: who holds a connection's input back. An owner is
--   the number of its creation; each call is one step, as the owner's lock makes it.
-- Fdmap, of internal/fdmap/fdmap_unix.go: the table from descriptors to connections that the event
--   loops share; each atomic operation is one step.
-- Taskqueue, of internal/taskqueue/queue.go: the linked queue of an event loop's tasks, over an
--   explicit memory of `next` links.
-- Timewheel, of internal/timewheel/wheel.go: the deadlines of an event loop, on a ring of slots with
--   a heap for those past the ring's window. An entry is the number of its allocation, and its fields
--   are maps of the wheel; a slot's doubly linked list is the list of its entries; a time is the
--   nanoseconds since the zero time, and no time plus a period leaves time.Time's range. Each call is
--   one step, as the mutex makes it. Timewheel.Overflow is the heap (heapPushLocked to
--   heapDownLocked), Timewheel.Summary the bitmap of occupied slots with firstOccupiedLocked,
--   Timewheel.Wheel the wheel with New, Arm and Cancel, and Timewheel.Advance is AdvanceInto. The
--   heap's loops run on fuel: the place that sifts up, the size where it sifts down. The sweep of a
--   word has 64 rounds, one for each bit, and the heap's part of AdvanceInto one for each entry of
--   the heap, since none goes back. Timewheel.Plan is the abstract view, each armed entry's time and
--   period, and Timewheel.Runs puts calls together.
--
-- Prelude passes on the library names that the modules share, and holds the Boolean tests, lists,
-- int64 patterns, bits, big-endian bytes and the UTF-8 check. Tests runs the code on small inputs.
--
-- Not modelled: sockets, pollers, goroutines and the runtime's timers; the connections and layers; how
-- streams end after both FINs; the texts of errors; the pooled memory of incremental payloads;
-- ukcp/internal/kcp, a copy of kcp-go.
pub mod Prelude
pub mod Umux
pub mod Uws
pub mod Composite
pub mod ReadControl
pub mod Fdmap
pub mod Taskqueue
pub mod Timewheel
pub mod Tests
