-- ===== src/Fd/Tests.antt =====
-- The wrapper on a small stack and kernel: runs of the definitions, and in the child the theorems
-- applied.
mod Witnesses
use fd_picotcp.Prelude.{
  codes, ℕ, ◌+◌, ◌-◌, ◌/◌, ℤ, pos, negsuc, Bool, true, false, List, [], ◌∷◌, Option, none, some,
  ◌≡◌, refl, leb, if◌then◌else◌, length,
}
use fd_picotcp.Fd.Types.{Fds, FdElem, Settings, fd_ok}
use fd_picotcp.Fd.Calls.{Calls, SysCall, Reply, SockAddr, sys_read, sys_write}
use fd_picotcp.Fd.Run.{Run, returns, blocks, faults}
use fd_picotcp.Fd.Table.{
  nulls, new_elem, fd_elem_create, make_sems, make_room, store_elem, update_elem,
  get_socket_from_fd, get_fd_elem_from_fd,
}
use fd_picotcp.Fd.Events.{
  init, name_device, create_device, pid_string, digits, own_mac, unlock_sem, is_ipv4_text, contains,
}
use fd_picotcp.Fd.Functions.{fd_pico_socket_open, mark_version}
use fd_picotcp.Fd.Socket
use fd_picotcp.Fd.Socket.{open_by_type}
use fd_picotcp.Fd.Settings.{set_ipv4_netmask, copy_text}
use fd_picotcp.Fd.Ops.{Op, run_op, op_socket, at_start}

-- The bytes in the one pipe, and the milliseconds of the clock.
abbrev pub World : Type 0
World = ℕ × ℕ

abbrev pub plain : ℤ → Reply
plain n = record { result = n; bytes = []; peer = none; peer_len = 0 }

abbrev pub call : SysCall → World → Reply × World
call (sys_read fd n) w = (plain (pos (if leb n w.0 then n else w.0)), (w.0 - n, w.1))
call (sys_write fd bytes) w = (plain (pos (length bytes)), (w.0 + length bytes, w.1))
call _ w = (plain (pos 0), w)

abbrev pub calls : Calls World
calls = record {
  pico_stack_init = λ w. w;
  pico_vde_create = λ p n m w. (some 1, w);
  pico_tap_create = λ n w. (some 1, w);
  pico_tun_create = λ n w. (some 1, w);
  pico_socket_open = λ n p w. (some 77, w);
  pico_socket_bind = λ k a p w. (pos 0, w);
  pico_socket_listen = λ k b w. (pos 0, w);
  pico_socket_connect = λ k a p w. (pos 0, w);
  pico_socket_accept = λ k w. (none, w);
  pico_socket_write = λ k b w. (pos (length b), w);
  pico_socket_read = λ k n w. (plain (pos 2), w);
  pico_socket_close = λ k w. (pos 0, w);
  pico_string_to_ipv4 = λ t. some 1;
  pico_string_to_ipv6 = λ t. some 1;
  pico_ipv4_to_string = λ a. codes "10.0.0.1";
  pico_ipv6_to_string = λ a. codes "::1";
  pico_ipv4_link_find = λ a w. true;
  pico_ipv6_link_find = λ a w. false;
  pico_ipv4_link_add = λ d a m w. (pos 0, w);
  pico_ipv6_link_add = λ d a m w. (true, w);
  syscall = call;
  pipe = λ w. (some (4, 5), w);
  malloc = λ w. (true, w);
  sem_init = λ w. (true, w);
  getrlimit = λ w. pos 1024;
  getpid = λ w. 1234;
  time = λ w. w.1 / 1000;
  usleep = λ w. (w.0, w.1 + 1);
  pthread_create = λ w. (true, w);
  inet_ntoa = λ a. codes "10.0.0.1";
  inet_ntop = λ a n. some (codes "::1");
  inet_addr = λ t. 1;
  inet_pton = λ t. 1;
  stack_text = [];
}

abbrev pub settings : Settings
settings = record {
  vde_switch_name = codes "/tmp/vde.ctl";
  macaddr = 0 ∷ 0 ∷ 0 ∷ 10 ∷ 11 ∷ 12 ∷ [];
  device_name = codes "vd";
  ipv4_mask_string = codes "255.255.255.0";
  ipv6_mask_string = codes "::";
  is_mac_changed = false;
  device_type = 1;
  pico_dev = none;
}

abbrev pub elem : FdElem
elem = record {
  fd0 = 4;
  fd1 = 5;
  fd_write_count = pos 0;
  fd_char_count = pos 0;
  is_ipv6 = false;
  accept_sem = 1;
  read_sem = 0;
  socket = 77;
}

-- One open socket, with descriptor 4.
abbrev pub one_socket : Fds World
one_socket = record {
  fd_table = none ∷ none ∷ none ∷ none ∷ some elem ∷ none ∷ none ∷ none ∷ [];
  fd_table_size = 8;
  max_fd = pos 1024;
  fd_err = fd_ok;
  thread_launched = true;
  settings = settings;
  world = (0, 0);
}

-- The first call of `socket` sets everything up.
abbrev pub after_socket : Fds World
after_socket = record {
  fd_table =
      none ∷ none ∷ none ∷ none ∷ some (record elem { accept_sem = 0 }) ∷ none ∷ none ∷ none ∷ [];
  fd_table_size = 8;
  max_fd = pos 1024;
  fd_err = fd_ok;
  thread_launched = true;
  settings = record settings {
    macaddr = 0 ∷ 0 ∷ 0 ∷ 10 ∷ 15 ∷ 222 ∷ [];
    device_name = codes "vd1234";
    pico_dev = some 1;
  };
  world = (0, 0);
}

pub first_socket :
    run_op calls 10 (op_socket 1018 1 0) (at_start settings (0, 0)) ≡ returns tt after_socket
unfolding run_op Socket.socket open_by_type fd_pico_socket_open init name_device create_device
    pid_string digits own_mac fd_elem_create make_sems make_room store_elem new_elem mark_version
    update_elem
first_socket = refl

texts : (is_ipv4_text (codes "10.0.0.1") ≡ true) × (is_ipv4_text (codes "::1") ≡ false)
unfolding is_ipv4_text contains
texts = (refl, refl)

-- The array for a netmask has 16 bytes.
long_mask : set_ipv4_netmask (codes "255.255.255.0000") one_socket ≡ faults
unfolding set_ipv4_netmask copy_text
long_mask = refl

-- A descriptor of the kernel past the end of the table is looked up outside the array.
past_table : Socket.read calls 10 (pos 9) 16 one_socket ≡ faults
unfolding Socket.read Socket.by_table get_socket_from_fd get_fd_elem_from_fd
past_table = refl
