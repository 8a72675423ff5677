-- ===== src/Fd/Ops.antt =====
-- Histories of socket.c and fd_picotcp.c: the calls of a process and the callbacks of the stack, in the
-- order in which they happen. A call that waits has done nothing, and may be made again later.
use fd_picotcp.Prelude.{◌≡◌, ℕ, ℤ, pos, Bool, false, List, []}
use fd_picotcp.Fd.Types.{Fds, Settings, fd_ok}
use fd_picotcp.Fd.Calls.{Calls, SockAddr}
use fd_picotcp.Fd.Run.{M, returns, ◌>>◌, return}
use fd_picotcp.Fd.Events.{handle_wakeup}
use fd_picotcp.Fd.Socket

pub data Op : Type 0 where
  op_read : ℤ → ℕ → Op
  op_write : ℤ → List ℕ → Op
  op_listen : ℤ → ℤ → Op
  op_close : ℤ → Op
  op_socket : ℕ → ℕ → ℕ → Op
  op_bind : ℤ → SockAddr → ℕ → Op
  op_connect : ℤ → SockAddr → ℕ → Op
  op_accept : ℤ → Bool → ℕ → Op
  op_wakeup : ℕ → ℕ → Op

module _ {W : Type 0} (c : Calls W) (rounds : ℕ) where
  abbrev pub ignoring : {A : Type 0} → M W A → M W (Unit {0})
  ignoring p = do p; return tt

  unfoldable pub run_op : Op → M W (Unit {0})
  run_op (op_read fd len) = ignoring (Socket.read c rounds fd len)
  run_op (op_write fd buf) = ignoring (Socket.write c fd buf)
  run_op (op_listen fd backlog) = ignoring (Socket.listen c fd backlog)
  run_op (op_close fd) = ignoring (Socket.close c rounds fd)
  run_op (op_socket domain kind protocol) = ignoring (Socket.socket c domain kind protocol)
  run_op (op_bind fd a addrlen) = ignoring (Socket.bind c rounds fd a addrlen)
  run_op (op_connect fd a addrlen) = ignoring (Socket.connect c fd a addrlen)
  run_op (op_accept fd given len) = ignoring (Socket.accept c fd given len)
  run_op (op_wakeup ev socket) = handle_wakeup c ev socket

  -- The states that a process can come to.
  pub data Leads : Fds W → Fds W → Type 0 where
    here : {s : Fds W} → Leads s s
    then_op : {s t u : Fds W} (o : Op) → Leads s t → run_op o t ≡ returns tt u → Leads s u

-- Before the first call.
abbrev pub at_start : {W : Type 0} → Settings → W → Fds W
at_start g w = record {
  fd_table = [];
  fd_table_size = 8;
  max_fd = pos 0;
  fd_err = fd_ok;
  thread_launched = false;
  settings = g;
  world = w;
}
