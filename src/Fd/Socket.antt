-- ===== src/Fd/Socket.antt =====
-- socket.c: the functions of the C library that the wrapper puts itself in front of. A descriptor
-- with an element in the table is the wrapper's, any other the kernel's.
use fd_picotcp.Prelude.{ℕ, zero, suc, ℤ, Bool, List, [], Option, none, some, ◌==◌, if◌then◌else◌}
use fd_picotcp.Fd.Types.{FdElem}
use fd_picotcp.Fd.Calls.{
  Calls, Reply, SockAddr, SysCall, sys_read, sys_write, sys_listen, sys_close, sys_socket, sys_bind,
  sys_connect, sys_accept,
}
use fd_picotcp.Fd.Run.{maybe, M, ◌>>=◌, return, fault, outside}
use fd_picotcp.Fd.Table.{get_fd_elem_from_fd, get_socket_from_fd, minus_one}
use fd_picotcp.Fd.Functions.{
  AcceptResult, proto_ipv4, proto_ipv6, fd_pico_socket_open, fd_pico_socket_bind,
  fd_pico_socket_listen, fd_pico_socket_connect, fd_pico_socket_accept, fd_pico_socket_write,
  fd_pico_socket_read, fd_pico_socket_close,
}

abbrev pub af_pico_inet : ℕ
af_pico_inet = 1018

abbrev pub af_pico_inet6 : ℕ
af_pico_inet6 = 1019

abbrev pub sock_stream : ℕ
sock_stream = 1

abbrev pub sock_dgram : ℕ
sock_dgram = 2

-- `sizeof(struct sockaddr_in)` and `sizeof(struct sockaddr_in6)`
abbrev pub sockaddr_in_size : ℕ
sockaddr_in_size = 16

abbrev pub sockaddr_in6_size : ℕ
sockaddr_in6_size = 28

module _ {W : Type 0} where
  -- One of two functions, by whether the descriptor has an element.
  unfoldable pub by_table : {A : Type 0} → ℤ → M W A → M W A → M W A
  by_table fd own kernel = do found ← get_socket_from_fd fd; maybe found kernel (λ socket. own)

module _ {W : Type 0} (c : Calls W) where
  unfoldable pub kernel_reply : SysCall → M W Reply
  kernel_reply call = outside (c.syscall call)

  unfoldable pub kernel_result : SysCall → M W ℤ
  kernel_result call = do r ← kernel_reply call; return r.result

  unfoldable pub read : ℕ → ℤ → ℕ → M W Reply
  read rounds fd len =
      by_table fd (fd_pico_socket_read c rounds fd len) (kernel_reply (sys_read fd len))

  unfoldable pub write : ℤ → List ℕ → M W ℤ
  write fd buf = by_table fd (fd_pico_socket_write c fd buf) (kernel_result (sys_write fd buf))

  unfoldable pub listen : ℤ → ℤ → M W ℤ
  listen fd backlog =
      by_table fd (fd_pico_socket_listen c fd backlog) (kernel_result (sys_listen fd backlog))

  -- `fd_elem_delete` closes the pipe through `close` itself. The calls nest as deep as `fuel`.
  unfoldable pub close : ℕ → ℤ → M W ℤ
  close zero fd = fault
  close (suc fuel) fd =
      by_table fd (fd_pico_socket_close c (close fuel) fd) (kernel_result (sys_close fd))

  unfoldable pub open_by_type : ℕ → ℕ → M W ℤ
  open_by_type net kind =
      if kind == sock_stream
      then fd_pico_socket_open c net 6
      else (if kind == sock_dgram then fd_pico_socket_open c net 17 else return minus_one)

  unfoldable pub socket : ℕ → ℕ → ℕ → M W ℤ
  socket domain kind protocol =
      if domain == af_pico_inet
      then open_by_type proto_ipv4 kind
      else (if domain == af_pico_inet6
          then open_by_type proto_ipv6 kind
          else kernel_result (sys_socket domain kind protocol))

  -- The text of an address by the size of its structure. `inet_ntop` gets that size for the size of
  -- the text; where it does not fit, the text is what the array held.
  unfoldable pub address_text : SockAddr → ℕ → Option (List ℕ)
  address_text a addrlen =
      if addrlen == sockaddr_in_size
      then some (c.inet_ntoa a.addr)
      else (if addrlen == sockaddr_in6_size
          then some (elim (c.inet_ntop a.addr addrlen) [ none ↦ c.stack_text | some text ↦ text ])
          else none)

  unfoldable pub bind : ℕ → ℤ → SockAddr → ℕ → M W ℤ
  bind rounds fd a addrlen =
      by_table fd
        (maybe (address_text a addrlen) (return minus_one)
          λ text. fd_pico_socket_bind c rounds fd text a.port)
        (kernel_result (sys_bind fd a addrlen))

  unfoldable pub connect : ℤ → SockAddr → ℕ → M W ℤ
  connect fd a addrlen =
      by_table fd
        (maybe (address_text a addrlen) (return minus_one)
          λ text. fd_pico_socket_connect c fd text a.port)
        (kernel_result (sys_connect fd a addrlen))

  -- The caller's structure is filled in without a look at whether there is one.
  unfoldable pub fill_peer : Bool → AcceptResult → FdElem → M W Reply
  fill_peer given r l =
      if given
      then (if l.is_ipv6
          then return (record {
            result = r.fd;
            bytes = [];
            peer = some (record { family = 10; port = r.port; addr = c.inet_pton r.str_addr });
            peer_len = sockaddr_in6_size;
          })
          else return (record {
            result = r.fd;
            bytes = [];
            peer = some (record { family = 2; port = r.port; addr = c.inet_addr r.str_addr });
            peer_len = sockaddr_in_size;
          }))
      else fault

  abbrev pub no_peer : Reply
  no_peer = record { result = minus_one; bytes = []; peer = none; peer_len = 0 }

  -- `given` says whether the caller has room for a peer, and `len` how long it is. The element is
  -- looked up for a descriptor of -1 too.
  unfoldable pub accept : ℤ → Bool → ℕ → M W Reply
  accept fd given len =
      by_table fd
        (do
          r ← fd_pico_socket_accept c fd
          l ← get_fd_elem_from_fd r.fd
          maybe l (if given then return no_peer else fault) (fill_peer given r))
        (kernel_reply (sys_accept fd given len))
