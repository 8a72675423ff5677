-- ===== src/Fd/Events.antt =====
-- fd_picotcp.c: initialisation, the callback of every socket, the semaphores, and the tests of
-- address texts.
use fd_picotcp.Prelude.{
  ℕ, zero, suc, ◌+◌, ◌/◌, ◌%◌, pos, negsuc, ◌-ℤ◌, bit_and, bit_xor, Bool, true, false, not, ◌||◌,
  List, [], ◌∷◌, ◌++◌, Option, none, some, ltb, ◌==◌, if◌then◌else◌, length, get_or, set,
}
use fd_picotcp.Fd.Types.{
  FdElem, Settings, fd_socket_not_found, fd_thread_error, device_vde, device_tap, device_tun,
}
use fd_picotcp.Fd.Calls.{Calls, sys_write}
use fd_picotcp.Fd.Run.{
  maybe, M, returns, faults, ◌>>=◌, ◌>>◌, return, fault, fail, outside, gets, modify,
}
use fd_picotcp.Fd.Table.{nulls, get_fd_elem_from_socket, elem_at, update_elem}

abbrev pub ev_rd : ℕ
ev_rd = 1

abbrev pub ev_conn : ℕ
ev_conn = 4

-- V, unless the semaphore is free already.
unfoldable pub unlock_sem : ℕ → ℕ
unlock_sem v = if ltb 0 v then v else v + 1

unfoldable pub contains : ℕ → List ℕ → Bool
contains c [] = false
contains c (b ∷ text) = let rest = contains c text in if b == c then true else rest

-- A full stop makes it an IPv4 address, a colon an IPv6 address.
unfoldable pub is_ipv4_text : List ℕ → Bool
is_ipv4_text address = contains 46 address

unfoldable pub is_ipv6_text : List ℕ → Bool
is_ipv6_text address = contains 58 address

unfoldable pub digits : ℕ → ℕ → List ℕ → List ℕ
digits zero n acc = acc
digits (suc fuel) n acc =
    let acc' = (48 + n % 10) ∷ acc in
    let more = digits fuel (n / 10) acc' in if ltb n 10 then acc' else more

-- What `%d` prints of a process number, which has ten digits at most.
unfoldable pub pid_string : ℕ → List ℕ
pid_string pid = digits 10 pid []

module _ {W : Type 0} (c : Calls W) where
  -- `fd_write_count` counts what is written into the pipe.
  unfoldable pub wake_reader : ℕ → FdElem → M W (Unit {0})
  wake_reader i l = do
    outside (c.syscall (sys_write (pos l.fd1) (97 ∷ [])))
    update_elem i λ e. record e {
      fd_write_count = e.fd_write_count -ℤ negsuc 0;
      read_sem = unlock_sem e.read_sem;
    }

  -- The callback of the stack, with the events as bits.
  unfoldable pub handle_wakeup : ℕ → ℕ → M W (Unit {0})
  handle_wakeup ev socket = do
    found ← get_fd_elem_from_socket socket
    maybe found
        (if not (bit_and ev ev_conn == 0) || not (bit_and ev ev_rd == 0)
          then fail fd_socket_not_found tt
          else return tt)
        λ i. do
          if bit_and ev ev_conn == 0
              then return tt
              else update_elem i λ e. record e { accept_sem = unlock_sem e.accept_sem }
          l ← elem_at i
          if bit_and ev ev_rd == 0 then return tt else wake_reader i l

  -- `macaddr[4] ^= (uint8_t)(getpid() >> 8)` and `macaddr[5] ^= (uint8_t)(getpid() & 0xFF)`
  unfoldable pub own_mac : ℕ → List ℕ → List ℕ
  own_mac pid mac =
      let mac' = set mac 4 (bit_xor (get_or mac 4 0) (pid / 256 % 256)) in
      set mac' 5 (bit_xor (get_or mac' 5 0) (bit_and pid 0xff))

  -- The device of the type that is set; `none` for a type that there is not.
  unfoldable pub create_device : Settings → M W (Option (Option ℕ))
  create_device g =
      if g.device_type == device_vde
      then (do
        d ← outside (c.pico_vde_create g.vde_switch_name g.device_name g.macaddr)
        return (some d))
      else (if g.device_type == device_tap
          then (do d ← outside (c.pico_tap_create g.vde_switch_name); return (some d))
          else (if g.device_type == device_tun
              then (do d ← outside (c.pico_tun_create g.vde_switch_name); return (some d))
              else return none))

  -- The name has an array of 8 bytes: a process number of more than five digits runs over it.
  unfoldable pub name_device : ℕ → M W (Unit {0})
  name_device pid s =
      let g = s.settings in
      let name = g.device_name ++ pid_string pid in
      let mac = if g.is_mac_changed then g.macaddr else own_mac pid g.macaddr in
      if ltb 7 (length name)
      then faults
      else returns tt (record s { settings = record g { device_name = name; macaddr = mac } })

  unfoldable pub init : M W (Unit {0})
  init = do
    given ← outside c.malloc
    modify λ s. record s { max_fd = c.getrlimit s.world; world = c.pico_stack_init s.world }
    if given then modify (λ s. record s { fd_table = nulls s.fd_table_size }) else fault
    pid ← gets λ s. c.getpid s.world
    name_device pid
    g ← gets λ s. s.settings
    d ← create_device g
    maybe d (return tt) λ dev. do
      modify λ s. record s { settings = record s.settings { pico_dev = dev } }
      started ← outside c.pthread_create
      if started then return tt else fail fd_thread_error tt
