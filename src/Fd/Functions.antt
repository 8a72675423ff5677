-- ===== src/Fd/Functions.antt =====
-- fd_functions.c: the calls of sockets, on the stack. `rounds` bounds the two loops of the file, the
-- one that empties a pipe and the one that waits for an IPv6 link; a call that needs more of them
-- faults here.
use fd_picotcp.Prelude.{
  ℕ, zero, suc, ◌-◌, ℤ, pos, ◌-ℤ◌, ltb_ℤ, eqb_ℤ, positive, Bool, true, false, not, List, [], none,
  leb, ◌==◌, if◌then◌else◌,
}
use fd_picotcp.Fd.Types.{
  FdElem, fd_socket_not_found, fd_socket_is_null, fd_pipe_not_initialized, fd_invalid_address,
  fd_invalid_netmask, fd_interface_not_linked,
}
use fd_picotcp.Fd.Calls.{Calls, Reply, Accepted, sys_read}
use fd_picotcp.Fd.Run.{
  maybe, M, returns, faults, ◌>>=◌, ◌>>◌, return, fault, block, fail, outside, gets, modify,
}
use fd_picotcp.Fd.Table.{
  get_fd_elem_from_fd, get_socket_from_fd, elem_at, update_elem, fd_elem_create, fd_elem_delete,
  minus_one,
}
use fd_picotcp.Fd.Events.{init, unlock_sem, is_ipv4_text, is_ipv6_text}

abbrev pub proto_ipv4 : ℕ
proto_ipv4 = 0

abbrev pub proto_ipv6 : ℕ
proto_ipv6 = 41

-- A descriptor, with the address text and the port that the caller's variables get.
pub record AcceptResult : Type 0 where
  pub fd : ℤ
  pub str_addr : List ℕ
  pub port : ℕ

module _ {W : Type 0} (c : Calls W) where
  unfoldable pub mark_version : ℕ → ℤ → M W (Unit {0})
  mark_version net fd =
      if net == proto_ipv4
      then update_elem (positive fd) (λ e. record e { is_ipv6 = false })
      else (if net == proto_ipv6
          then update_elem (positive fd) (λ e. record e { is_ipv6 = true })
          else return tt)

  unfoldable pub fd_pico_socket_open : ℕ → ℕ → M W ℤ
  fd_pico_socket_open net proto = do
    launched ← gets λ s. s.thread_launched
    if launched then return tt else (modify (λ s. record s { thread_launched = true }) >> init c)
    opened ← outside (c.pico_socket_open net proto)
    maybe opened (fail fd_socket_is_null minus_one) λ socket. do
      ends ← outside c.pipe
      maybe ends (fail fd_pipe_not_initialized minus_one) λ p. do
        new_fd ← fd_elem_create c p.0 p.1 socket
        if ltb_ℤ new_fd (pos 0)
            then return minus_one
            else (mark_version net new_fd >> return new_fd)

  unfoldable pub bind_ipv4 : ℕ → List ℕ → ℕ → M W ℤ
  bind_ipv4 socket address port = do
    mask ← gets λ s. s.settings.ipv4_mask_string
    dev ← gets λ s. s.settings.pico_dev
    maybe (c.pico_string_to_ipv4 address) (fail fd_invalid_address minus_one) λ ip.
        maybe (c.pico_string_to_ipv4 mask) (fail fd_invalid_netmask minus_one) λ netmask. do
          found ← gets λ s. c.pico_ipv4_link_find ip s.world
          added ← if found then return (pos 0) else outside (c.pico_ipv4_link_add dev ip netmask)
          if eqb_ℤ added minus_one
              then fail fd_interface_not_linked minus_one
              else outside (c.pico_socket_bind socket ip port)

  -- Three seconds for the link to be validated. `false` when they are over.
  unfoldable pub wait_link : ℕ → ℕ → ℕ → M W Bool
  wait_link zero start_time ip s = faults
  wait_link (suc rounds) start_time ip s =
      if c.pico_ipv6_link_find ip s.world
      then returns true s
      else (if leb 3 (c.time s.world - start_time)
          then returns false s
          else wait_link rounds start_time ip (record s { world = c.usleep s.world }))

  -- The bind waits for the validation of the address.
  unfoldable pub await_link : ℕ → ℕ → ℕ → ℕ → M W ℤ
  await_link rounds socket ip port = do
    start_time ← gets λ s. c.time s.world
    linked ← wait_link rounds start_time ip
    if linked
        then outside (c.pico_socket_bind socket ip port)
        else fail fd_interface_not_linked minus_one

  unfoldable pub bind_ipv6 : ℕ → ℕ → List ℕ → ℕ → M W ℤ
  bind_ipv6 rounds socket address port = do
    mask ← gets λ s. s.settings.ipv6_mask_string
    dev ← gets λ s. s.settings.pico_dev
    maybe (c.pico_string_to_ipv6 address) (fail fd_invalid_address minus_one) λ ip.
        maybe (c.pico_string_to_ipv6 mask) (fail fd_invalid_netmask minus_one) λ netmask. do
          found ← gets λ s. c.pico_ipv6_link_find ip s.world
          added ← if found then return true else outside (c.pico_ipv6_link_add dev ip netmask)
          if not added
              then fail fd_interface_not_linked minus_one
              else await_link rounds socket ip port

  unfoldable pub fd_pico_socket_bind : ℕ → ℤ → List ℕ → ℕ → M W ℤ
  fd_pico_socket_bind rounds fd address port = do
    found ← get_socket_from_fd fd
    maybe found (fail fd_socket_not_found minus_one) λ socket.
        if is_ipv4_text address
        then bind_ipv4 socket address port
        else (if is_ipv6_text address
            then bind_ipv6 rounds socket address port
            else fail fd_invalid_address minus_one)

  unfoldable pub fd_pico_socket_listen : ℤ → ℤ → M W ℤ
  fd_pico_socket_listen fd backlog = do
    found ← get_socket_from_fd fd
    maybe found (fail fd_socket_not_found minus_one)
        λ socket. outside (c.pico_socket_listen socket backlog)

  unfoldable pub fd_pico_socket_connect : ℤ → List ℕ → ℕ → M W ℤ
  fd_pico_socket_connect fd address port = do
    found ← get_fd_elem_from_fd fd
    maybe found (fail fd_socket_not_found minus_one) λ l.
        maybe (if l.is_ipv6 then c.pico_string_to_ipv6 address else c.pico_string_to_ipv4 address)
          (fail fd_invalid_address minus_one) λ ip. outside (c.pico_socket_connect l.socket ip port)

  -- `waiton_sem`, P, on one of an element's semaphores.
  unfoldable pub wait_accept : ℕ → FdElem → M W (Unit {0})
  wait_accept i l =
      if l.accept_sem == 0
      then block
      else update_elem i (λ e. record e { accept_sem = e.accept_sem - 1 })

  unfoldable pub wait_read : ℕ → FdElem → M W (Unit {0})
  wait_read i l =
      if l.read_sem == 0 then block else update_elem i (λ e. record e { read_sem = e.read_sem - 1 })

  abbrev pub no_connection : AcceptResult
  no_connection = record { fd = minus_one; str_addr = c.stack_text; port = 0 }

  -- The result of `pipe` is not looked at: where it fails, its array has not been written.
  unfoldable pub accept_connection : Bool → Accepted → M W AcceptResult
  accept_connection is_ipv6 a = do
    ends ← outside c.pipe
    maybe ends (fault) λ p. do
      new_fd ← fd_elem_create c p.0 p.1 a.socket
      if ltb_ℤ new_fd (pos 0) then return no_connection else (do
        if is_ipv6
            then update_elem (positive new_fd) (λ e. record e { is_ipv6 = true })
            else return tt
        return (record {
          fd = new_fd;
          str_addr = if is_ipv6 then c.pico_ipv6_to_string a.addr else c.pico_ipv4_to_string a.addr;
          port = a.port;
        }))

  unfoldable pub fd_pico_socket_accept : ℤ → M W AcceptResult
  fd_pico_socket_accept fd = do
    found ← get_fd_elem_from_fd fd
    maybe found (fail fd_socket_not_found no_connection) λ l. do
      wait_accept (positive fd) l
      accepted ← outside (c.pico_socket_accept l.socket)
      maybe accepted (fail fd_socket_is_null no_connection) λ a. accept_connection l.is_ipv6 a

  unfoldable pub fd_pico_socket_write : ℤ → List ℕ → M W ℤ
  fd_pico_socket_write fd buffer = do
    found ← get_fd_elem_from_fd fd
    maybe found (fail fd_socket_not_found minus_one)
        λ l. outside (c.pico_socket_write l.socket buffer)

  -- Ten bytes of the pipe at a time, until none is left.
  unfoldable pub drain : ℕ → ℕ → M W (Unit {0})
  drain zero i = fault
  drain (suc rounds) i = do
    l ← elem_at i
    if ltb_ℤ (pos 0) l.fd_write_count
        then (do
          r ← outside (c.syscall (sys_read (pos l.fd0) 10))
          update_elem i (λ e. record e { fd_write_count = e.fd_write_count -ℤ r.result })
          drain rounds i)
        else return tt

  abbrev no_reply : Reply
  no_reply = record { result = minus_one; bytes = []; peer = none; peer_len = 0 }

  unfoldable pub fd_pico_socket_read : ℕ → ℤ → ℕ → M W Reply
  fd_pico_socket_read rounds fd len = do
    found ← get_fd_elem_from_fd fd
    maybe found (fail fd_socket_not_found no_reply) λ l. do
      wait_read (positive fd) l
      drain rounds (positive fd)
      r ← outside (c.pico_socket_read l.socket len)
      if eqb_ℤ (pos len) r.result
          then update_elem (positive fd) (λ e. record e { read_sem = unlock_sem e.read_sem })
          else return tt
      return r

  -- `close` is the wrapper's own.
  unfoldable pub fd_pico_socket_close : (ℤ → M W ℤ) → ℤ → M W ℤ
  fd_pico_socket_close close fd = do
    found ← get_socket_from_fd fd
    maybe found (fail fd_socket_not_found minus_one)
        λ socket. do ret ← outside (c.pico_socket_close socket); fd_elem_delete close fd; return ret
