-- ===== src/Lib.antt =====
-- fd_picotcp: sockets of the picoTCP stack under file descriptors, and the PPP driver of that stack.
--
-- The program is a library that takes the place of the C library's socket functions. A call on a
-- descriptor that it has made goes to a socket of the picoTCP stack, any other to the kernel; a pipe
-- stands behind each of its descriptors, so that `select` and `poll` see when there is something to
-- read. A thread ticks the stack, which calls back when a connection or data has come in. The stack
-- is built from src/picotcp. Of it the development has the parts that the wrapper and the driver of a
-- serial link stand on, and that driver: it
-- takes bytes from a modem, frames and checks them, negotiates the link (LCP), authenticates itself
-- (PAP or CHAP), negotiates addresses (IPCP), and then carries IP datagrams. Every definition has the
-- name of the C function that it models, in the spelling of this language (isIpv4 is
-- is_ipv4_text), and a helper that models a part of a function stands above it.
--
-- Files, with the sources that they model (paths are from the root of the repository):
--   Prelude           what the modules share: names of the library, tests, lists and signed integers on
--                     native numbers, texts.
--   Fd/Types          src/fd_picotcp.h, src/fd_errors.h and the variables of src/fd_picotcp.c.
--   Fd/Calls          the calls of the stack, the kernel and the C library, as functions of an
--                     outside state W that nothing is assumed of.
--   Fd/Run            how functions run: they return, wait for a semaphore, or fault.
--   Fd/Table, Fd/Events        src/fd_picotcp.c: the table of descriptors; init and handle_wakeup.
--   Fd/Functions      src/fd_functions.c.
--   Fd/Socket         src/socket.c.
--   Fd/Copies         src/fede_socket.c.
--   Fd/Settings       src/device.c and src/fd_errors.c.
--   Fd/Ops            histories: calls of the process and callbacks of the stack, in any order.
--   Fd/Keeping, Fd/Lookup, Fd/Closing, Fd/Creating, Fd/Piping, Fd/Reading, Fd/Linking,
--   Fd/Binding, Fd/Accepting, Fd/Copying, Fd/Addressing   the proofs, named for what they are about.
--   Ppp/Types         src/picotcp/modules/pico_dev_ppp.c, as all below: the states, the events and
--                     `struct pico_device_ppp`. The structure is a record of records: the four states
--                     (Control), the last request (Request), what the state machines only read (Config),
--                     the addresses, and what the handlers write (Io).
--   Ppp/Wire          the check sequence, escaping, `pico_ppp_ctl_send` and `pico_ppp_send`.
--   Ppp/Lcp, Ppp/Modem, Ppp/Auth, Ppp/Ipcp   the handlers of the four state machines that send.
--   Ppp/Handlers, Ppp/*Table   the functions in the tables as data, and the four tables.
--   Ppp/Engine        the `evaluate_..._state` functions, which call handlers, which call them again.
--   Ppp/LcpInput, Ppp/IpcpInput, Ppp/Input   received packets.
--   Ppp/Poll          `pico_ppp_poll`, with its static variables as the record Line.
--   Ppp/Device        timeouts, the tick, and the public interface.
--   Ppp/Ops           histories of a device: its interface, the clock and the serial line, in any order.
--   Ppp/Control       the state machines alone, on the driver's tables, for the proofs about its states.
--   Ppp/Control/*, Ppp/Framing, Ppp/Options, Ppp/Session   the proofs.
--   Pico/Heap         src/picotcp/include/heap.h, the heap by priority; its children are the proofs.
--   Pico/Timers       src/picotcp/stack/pico_stack.c: the timers; its children are the proofs.
--   Pico/Words        src/picotcp/include/pico_config.h: machine words and the order of bytes.
--   Pico/Addresses    src/picotcp/modules/pico_ipv4.c: IPv4 addresses, and the proof of their texts.
--   Pico/Checksum     src/picotcp/stack/pico_frame.c and modules/pico_ipv4.c: the checksum; the proofs.
--   Pico/Frames       src/picotcp/stack/pico_frame.c: frames and the buffers that they share; the proofs.
--   Pico/Queue        src/picotcp/include/pico_queue.h: queues of frames; the proofs.
--   Pico/Routes       src/picotcp/modules/pico_ipv4.c: the table of routes; its children are the proofs.
--   Pico/Forwarding   src/picotcp/modules/pico_ipv4.c: forwarding; its children are the proofs.
--   Pico/Sequence     src/picotcp/stack/pico_stack.c: comparison of sequence numbers.
--   Fd/Tests, Ppp/Tests, Pico/Tests        runs on concrete states.
--
-- How the wrapper is modelled:
--   - The table is a list, and before `init` the empty list; a use of a position outside it is a fault.
--     An element is reached through its position only, so a pointer to it is that position.
--   - A call that waits for a semaphore has done nothing yet. Calls of the process and callbacks of the
--     stack happen one after the other: two threads inside the wrapper at once are not modelled.
--   - `rounds` bounds the loop that empties a pipe, the loop that waits for an IPv6 link, and how deep
--     `close` and `fd_elem_delete` may nest; a call that needs more of them faults.
--   - Descriptors, counts and results are integers without a bound. Texts are their bytes up to the
--     final zero, and an array keeps its size where `strcpy` and `strcat` write to it.
--   - What a theorem needs of the stack or the kernel is a hypothesis of its own: that memory is at hand
--     (Provides), how a pipe with room behaves (Pipes), that a clock moves on (Clock).
--
-- How the driver is modelled:
--   - A function that changes the device takes it and returns it. `none` is a call that does not come
--     back: a null pointer is read, or a loop does not end. Where the code cannot do either the
--     function returns the device itself.
--   - The four `evaluate_..._state` functions are one function on the events of all four machines,
--     `evaluate`, on fuel, since handlers raise events. Its fuel is how deep calls may nest, and the
--     driver runs with 6. The loops over options run with one round more than the packet is long, since a
--     round that goes on moves by a byte at least.
--   - Integers are natural numbers with their wrap-around written out (u8, u16, u32). The host is
--     little-endian, and `1u << n` shifts by n modulo 32.
--   - The packet pointer is an offset into the receive buffer. A read past the end of the buffer
--     yields 0, and a write there is left out; the position counts on.
--   - The arrays of the functions that send have no end: where a reply, a rejection or a datagram is longer
--     than the code's array, the model sends it all the same. A reply's check sequence and flag, which the
--     code writes at the length that the received header claims, stand at the end of what is sent.
--   - The allocator, the registered digest function and the bytes of unwritten local arrays are functions
--     in Config. What goes to the serial line and what is asked of the network layer are lists of
--     calls. The serial line takes what it is given, as the callers ignore its result.
--   - Texts are their bytes up to the final zero.
--
-- How the rest of the stack is modelled:
--   - A heap holds its array, with slot 0 unused. Its counts have no bound: 2^31 references of 24 bytes
--     each do not fit into memory. Freed memory is not modelled.
--   - What the function of a timer does with the timers is a tree of calls (Action), since it may depend
--     on the identifiers that it gets. The loop of the check runs on rounds, one more than there are
--     timers.
--   - A queue is chained through the field `next` of the frames, which is a function from frames to frames.
--     Locks are left out.
--   - A block of memory is its address; a usage counter behind a buffer has the address of the buffer.
--     Addresses are given out in order. The block that a frame's `info` points at is left out.
--   - The negation of the least number of 32 bits is that number, where C leaves it open.
--   - A tree of routes is the list of its keys in the order of their comparison. A link is the number
--     of its place in memory, and the links themselves do not change. Whether there is memory for the
--     node of an insertion is an argument.
--   - Forwarding returns what becomes of the packet (Forwarded), with the bytes of its header; the
--     translation of addresses, and what a device can send, are arguments.
--   - Buffers are lists of bytes, as long as the length that the code is given.
--
-- Not modelled: of the driver, `struct pico_device` and its registration, of which only success or failure is an
-- argument of `pico_ppp_create`; `pico_ppp_destroy`, which only calls `pico_device_destroy`; the hooks
-- for unit tests; debugging output; the optional modem queries (PICOTCP_PPP_SUPPORT_QUERIES), which
-- nothing calls; and the rest of the stack, a copy of the picoTCP library.
pub mod Fd
pub mod Pico
pub mod Ppp
pub mod Prelude
