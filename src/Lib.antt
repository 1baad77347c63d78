-- ===== src/Lib.antt =====
-- The stream multiplexer of this repository: streams of bytes over one connection, after the yamux
-- protocol.
--
-- The program. A session (mux.c, mux.h) keeps the bytes that came from the peer (recv_buf) and those
-- to be sent (send_buf) in byte queues (bio.c), and its streams in a red-black tree by id. The owner
-- of the connection moves bytes between it and the queues (session_recv_buf_write,
-- session_send_buf_peek, session_send_buf_consume) and calls session_process, which parses frames and
-- hands them to streams. Users open, accept, read and write streams; each stream has a pair of
-- sockets whose only use is to signal to poll or select that it can be read or written.
--
-- The files.
--   Common       natural numbers, lists, Booleans and machine words: an unsigned w-bit value is a
--                number below 2 ^ w, an int its 32-bit pattern
--   Os           the platform (malloc, sockets, fcntl, select) as a record of functions on a world W,
--                so that every call can fail
--   Stailq, Tree queue.h and tree.h, vendored copies of the BSD macros, as records of operations with
--                their documented behaviour as laws
--   Bio          bio.c, one definition for each function and loop; Bio/Queue is the queue of bytes that
--                bio.h promises
--   Frame        the header macros of mux.c; a header is the list of its bytes
--   State        stream_t and session_t of mux.h; the heap, from addresses to streams; the monad M of
--                calls that change the system and may stop at a failed assertion or a bad pointer
--   Streams      stream_new, stream_free, the tree of streams
--   Notify       the signals: stream_{readable,writeable}_{notify,waiting}
--   Send         what mux.c sends: stream_send_flags, session_send_buf_write,
--                session_go_away_for_reason, notify_accept, send_window_update
--   Flags        stream_process_flags
--   Sound        the invariant of a session
--   Incoming     incoming_stream
--   Data         session_handle_data
--   Handlers     the other handlers, session_handle
--   Process      session_process
--   Open         session_init, session_open, session_accept
--   Io           stream_read, stream_write, would_block of misc.c
--   Buffers      the small functions of mux.h
--   Life         the calls of mux.h in any order, from session_init on
--   Link         two sessions and the connection between them, as the loops of tests/main.c use it;
--                Link/Channel is what their users see, a queue of bytes and a credit for each pair of
--                streams; Link/Pieces is a frame that the connection cuts, Link/Torn two threads
--                that write at once
--   Misc         the other functions of misc.c
--   Events       event-epoll.c, with the kernel's side of epoll as a record of functions
--   Tests        a platform with a budget of memory, and runs on it
-- A child module proves what its name says about its parent.
--
-- The model. A call that returns -1 or NULL returns `failure` or `none`; a call that the program
-- aborts, or that goes through a pointer that leads nowhere, is `none` of the monad M. Functions run
-- one at a time: mutexes are left out, and the places where other threads matter take what those do
-- as an argument (the compare-and-swap of session_open, the waits of stream_read and stream_write,
-- the gap between the header and the body of a frame in stream_write). Messages of dbg and errno are
-- left out.
--
-- Fuel. The loops of bio.c are given the length of the queue or the count of bytes and end before it
-- is used up, as the theorems on them show. The loop of session_handle_data is given frame_remain,
-- since each round takes a byte of the frame at least. The loop of session_process is given two rounds
-- for each byte that is pending and two more, and says `stuck` if that were not enough.
--
-- Not modelled: debug.c, which formats messages and writes them to stderr without an effect on the
-- state, and tests/main.c, a user of the library. queue.h and tree.h are vendored and stand as
-- interfaces. Neither are session_exit, whose body is empty, bio_free, which is bio_reset and
-- free(3), and event_compare, which is the order of the tree.
pub mod Common
pub mod Os
pub mod Stailq
pub mod Tree
pub mod Bio
pub mod Frame
pub mod State
pub mod Streams
pub mod Notify
pub mod Send
pub mod Sound
pub mod Flags
pub mod Incoming
pub mod Data
pub mod Handlers
pub mod Process
pub mod Open
pub mod Io
pub mod Buffers
pub mod Events
pub mod Misc
pub mod Life
pub mod Link
pub mod Tests
