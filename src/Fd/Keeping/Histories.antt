-- ===== src/Fd/Keeping/Histories.antt =====
-- Every history of the wrapper (socket.c, fd_picotcp.c) keeps the table of descriptors indexed.
use fd_picotcp.Prelude.{ℕ, zero, suc, subst, arith, ℤ, Bool}
use fd_picotcp.Fd.Types.{Fds, FdElem, Settings}
use fd_picotcp.Fd.Calls.{Calls, SysCall}
use fd_picotcp.Fd.Run.{M}
use fd_picotcp.Fd.Socket
use fd_picotcp.Fd.Socket.{
  by_table, kernel_reply, kernel_result, open_by_type, fill_peer, read, write, listen, close, bind,
  connect, accept,
}
use fd_picotcp.Fd.Functions.{AcceptResult}
use fd_picotcp.Fd.Ops.{
  Op, run_op, Leads, here, then_op, at_start, op_read, op_write, op_listen, op_close, op_socket,
  op_bind, op_connect, op_accept, op_wakeup,
}
use fd_picotcp.Fd.Keeping.{After, Keeps, Keeps->>=, Keeps-maybe, Keeps-fault}
use fd_picotcp.Fd.Keeping.Index.{
  IsIndexed, keeping_rules, Keeps-get_socket_from_fd, Keeps-get_fd_elem_from_fd,
}
use fd_picotcp.Fd.Keeping.Functions.{
  Keeps-handle_wakeup, Keeps-open, Keeps-bind, Keeps-listen, Keeps-connect, Keeps-write,
  Keeps-accept, Keeps-read, Keeps-close,
}

module _ {W : Type 0} where
  Keeps-by_table :
      {A : Type 0} (fd : ℤ) (own kernel : M W A)
      → Keeps IsIndexed own
      → Keeps IsIndexed kernel
      → Keeps IsIndexed (by_table fd own kernel)
  unfolding by_table
  Keeps-by_table fd own kernel ko kk =
      Keeps->>= _ _ (Keeps-get_socket_from_fd fd) (λ o. Keeps-maybe o _ _ kk (λ _. ko))

  module _ (c : Calls W) (rounds : ℕ) where
    Keeps-kernel_reply : (call : SysCall) → Keeps IsIndexed (kernel_reply c call)
    unfolding kernel_reply
    Keeps-kernel_reply call = search keeping_rules

    Keeps-kernel_result : (call : SysCall) → Keeps IsIndexed (kernel_result c call)
    unfolding kernel_result
    Keeps-kernel_result call = search (keeping_rules, Keeps-kernel_reply)

    Keeps-close_all : (fuel : ℕ) (fd : ℤ) → Keeps IsIndexed (close c fuel fd)
    unfolding close
    Keeps-close_all zero fd = Keeps-fault
    Keeps-close_all (suc fuel) fd =
        Keeps-by_table fd _ _ (Keeps-close c (close c fuel) fd (Keeps-close_all fuel))
          (Keeps-kernel_result _)

    Keeps-open_by_type : (net kind : ℕ) → Keeps IsIndexed (open_by_type c net kind)
    unfolding open_by_type
    Keeps-open_by_type net kind = search (keeping_rules, Keeps-open) depth 8

    Keeps-fill_peer :
        (b : Bool) (r : AcceptResult) (l : FdElem) → Keeps IsIndexed (fill_peer c b r l)
    unfolding fill_peer
    Keeps-fill_peer b r l = search keeping_rules depth 8

    Keeps-run_op : (o : Op) → Keeps IsIndexed (run_op c rounds o)
    unfolding run_op read write listen Socket.socket bind connect accept
    Keeps-run_op (op_read fd len) =
        search (keeping_rules, Keeps-by_table, Keeps-kernel_reply, Keeps-read) depth 12
    Keeps-run_op (op_write fd buf) =
        search (keeping_rules, Keeps-by_table, Keeps-kernel_result, Keeps-write) depth 12
    Keeps-run_op (op_listen fd backlog) =
        search (keeping_rules, Keeps-by_table, Keeps-kernel_result, Keeps-listen) depth 12
    Keeps-run_op (op_close fd) = search (keeping_rules, Keeps-close_all) depth 12
    Keeps-run_op (op_socket domain kind protocol) =
        search (keeping_rules, Keeps-kernel_result, Keeps-open_by_type) depth 12
    Keeps-run_op (op_bind fd a addrlen) =
        search (keeping_rules, Keeps-by_table, Keeps-kernel_result, Keeps-bind) depth 12
    Keeps-run_op (op_connect fd a addrlen) =
        search (keeping_rules, Keeps-by_table, Keeps-kernel_result, Keeps-connect) depth 12
    Keeps-run_op (op_accept fd given len) =
        search
          (
            keeping_rules, Keeps-by_table, Keeps-kernel_reply, Keeps-accept,
            Keeps-get_fd_elem_from_fd, Keeps-fill_peer,
          )
          depth 14
    Keeps-run_op (op_wakeup ev socket) = Keeps-handle_wakeup c ev socket

    at_start-IsIndexed : (g : Settings) (w : W) → IsIndexed (at_start g w)
    at_start-IsIndexed g w = record { fits = λ i l h. cc; bounded = omega arith }

    -- Whatever the process calls and the stack calls back, in any order, and whatever the stack
    -- and the kernel answer: an element stands in the table at the position of its own
    -- descriptor, its two semaphores are 0 or 1, and the table is no longer than its size.
    pub Leads-IsIndexed :
        (g : Settings) (w : W) (t : Fds W) → Leads c rounds (at_start g w) t → IsIndexed t
    Leads-IsIndexed g w t here = at_start-IsIndexed g w
    Leads-IsIndexed g w t (then_op {t = u} o l e) =
        subst (After IsIndexed) e ((Keeps-run_op o).at u (Leads-IsIndexed g w u l))
