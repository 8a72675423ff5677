-- ===== src/Fd/Types.antt =====
-- fd_picotcp.h, fd_errors.h and the variables of fd_picotcp.c: the table of descriptors, its elements,
-- the error codes and the settings.
use fd_picotcp.Prelude.{ℕ, ℤ, Bool, List, Option}

pub data FdError : Type 0 where
  fd_ok fd_socket_not_found fd_socket_is_null fd_elem_not_allocated : FdError
  fd_sem_not_allocated fd_table_write_on_not_null fd_table_max_size_reached : FdError
  fd_invalid_address fd_invalid_netmask fd_pipe_not_initialized : FdError
  fd_interface_not_linked fd_table_insert_error fd_thread_error : FdError

-- `fd_elem`: a picoTCP socket under a descriptor, which is the read end of a pipe. Sockets are the
-- stack's pointers, as numbers; a semaphore is its value.
pub record FdElem : Type 0 where
  pub fd0 : ℕ
  pub fd1 : ℕ
  pub fd_write_count : ℤ
  pub fd_char_count : ℤ
  pub is_ipv6 : Bool
  pub accept_sem : ℕ
  pub read_sem : ℕ
  pub socket : ℕ

-- The variables of fd_picotcp.c that describe the device. Texts are their bytes up to the final
-- zero; `none` is the null pointer.
pub record Settings : Type 0 where
  pub vde_switch_name : List ℕ
  pub macaddr : List ℕ
  pub device_name : List ℕ
  pub ipv4_mask_string : List ℕ
  pub ipv6_mask_string : List ℕ
  pub is_mac_changed : Bool
  pub device_type : ℕ
  pub pico_dev : Option ℕ

-- The other variables, with what is outside: the stack and the kernel, in a state of type `W`. Before
-- `init` the table is a null pointer, which is the empty list here.
pub record Fds (W : Type 0) : Type 0 where
  pub fd_table : List (Option FdElem)
  pub fd_table_size : ℕ
  pub max_fd : ℤ
  pub fd_err : FdError
  pub thread_launched : Bool
  pub settings : Settings
  pub world : W

abbrev pub device_vde : ℕ
device_vde = 1

abbrev pub device_tap : ℕ
device_tap = 2

abbrev pub device_tun : ℕ
device_tun = 3
