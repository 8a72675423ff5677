-- ===== src/Fd/Copies.antt =====
-- fede_socket.c: the functions of socket.c once more, under names of their own, for a program that
-- does not put them in front of the C library's.
use fd_picotcp.Prelude.{ℕ, ℤ, Bool, List, [], some, ◌==◌, if◌then◌else◌}
use fd_picotcp.Fd.Types.{FdElem}
use fd_picotcp.Fd.Calls.{
  Calls, Reply, SockAddr, sys_read, sys_write, sys_listen, sys_close, sys_socket, sys_bind,
  sys_connect, sys_accept,
}
use fd_picotcp.Fd.Run.{maybe, M, ◌>>=◌, return, fault}
use fd_picotcp.Fd.Table.{get_fd_elem_from_fd, minus_one}
use fd_picotcp.Fd.Functions.{
  AcceptResult, proto_ipv4, proto_ipv6, fd_pico_socket_open, fd_pico_socket_bind,
  fd_pico_socket_listen, fd_pico_socket_connect, fd_pico_socket_accept, fd_pico_socket_write,
  fd_pico_socket_read, fd_pico_socket_close,
}
use fd_picotcp.Fd.Socket.{
  af_pico_inet, af_pico_inet6, sock_stream, sock_dgram, sockaddr_in6_size, by_table, kernel_reply,
  kernel_result, close, address_text, no_peer,
}

module _ {W : Type 0} (c : Calls W) where
  unfoldable pub pico_read : ℕ → ℤ → ℕ → M W Reply
  pico_read rounds fd len =
      by_table fd (fd_pico_socket_read c rounds fd len) (kernel_reply c (sys_read fd len))

  unfoldable pub pico_write : ℤ → List ℕ → M W ℤ
  pico_write fd buf =
      by_table fd (fd_pico_socket_write c fd buf) (kernel_result c (sys_write fd buf))

  unfoldable pub pico_listen : ℤ → ℤ → M W ℤ
  pico_listen fd backlog =
      by_table fd (fd_pico_socket_listen c fd backlog) (kernel_result c (sys_listen fd backlog))

  -- What closes the ends of the pipe is still the `close` of socket.c.
  unfoldable pub pico_close : ℕ → ℤ → M W ℤ
  pico_close fuel fd =
      by_table fd (fd_pico_socket_close c (close c fuel) fd) (kernel_result c (sys_close fd))

  unfoldable pub pico_socket : ℕ → ℕ → ℕ → M W ℤ
  pico_socket domain kind protocol =
      if domain == af_pico_inet
      then (if kind == sock_stream
          then fd_pico_socket_open c proto_ipv4 6
          else (if kind == sock_dgram
              then fd_pico_socket_open c proto_ipv4 17
              else return minus_one))
      else (if domain == af_pico_inet6
          then (if kind == sock_stream
              then fd_pico_socket_open c proto_ipv6 6
              else (if kind == sock_dgram
                  then fd_pico_socket_open c proto_ipv6 17
                  else return minus_one))
          else kernel_result c (sys_socket domain kind protocol))

  unfoldable pub pico_bind : ℕ → ℤ → SockAddr → ℕ → M W ℤ
  pico_bind rounds fd a addrlen =
      by_table fd
        (maybe (address_text c a addrlen) (return minus_one)
          λ text. fd_pico_socket_bind c rounds fd text a.port)
        (kernel_result c (sys_bind fd a addrlen))

  unfoldable pub pico_connect : ℤ → SockAddr → ℕ → M W ℤ
  pico_connect fd a addrlen =
      by_table fd
        (maybe (address_text c a addrlen) (return minus_one)
          λ text. fd_pico_socket_connect c fd text a.port)
        (kernel_result c (sys_connect fd a addrlen))

  -- The line that sets the length of an IPv4 address is commented out: the caller's `len` stays.
  unfoldable pub report_peer : Bool → ℕ → AcceptResult → FdElem → M W Reply
  report_peer given len r l =
      if given
      then (if l.is_ipv6
          then return (record {
            result = r.fd;
            bytes = [];
            peer = some (record { family = 10; port = r.port; addr = c.inet_pton r.str_addr });
            peer_len = sockaddr_in6_size;
          })
          else return (record {
            result = r.fd;
            bytes = [];
            peer = some (record { family = 2; port = r.port; addr = c.inet_addr r.str_addr });
            peer_len = len;
          }))
      else fault

  unfoldable pub pico_accept : ℤ → Bool → ℕ → M W Reply
  pico_accept fd given len =
      by_table fd
        (do
          r ← fd_pico_socket_accept c fd
          l ← get_fd_elem_from_fd r.fd
          maybe l (if given then return (no_peer c) else fault) (report_peer given len r))
        (kernel_reply c (sys_accept fd given len))
