-- ===== src/Fd.antt =====
-- The wrapper, fd_picotcp.c, fd_functions.c, socket.c, device.c and fd_errors.c (paths are from src/):
-- sockets of picoTCP under file descriptors of the kernel. A child for each part and for each group
-- of proofs.
pub mod Types
pub mod Calls
pub mod Run
pub mod Table
pub mod Events
pub mod Functions
pub mod Socket
pub mod Copies
pub mod Copying
pub mod Settings
pub mod Ops
pub mod Lookup
pub mod Closing
pub mod Creating
pub mod Piping
pub mod Reading
pub mod Linking
pub mod Binding
pub mod Accepting
pub mod Addressing
mod Tests
pub mod Keeping
