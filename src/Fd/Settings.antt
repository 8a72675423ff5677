-- ===== src/Fd/Settings.antt =====
-- device.c and fd_errors.c: the settings of the device, and the texts of errors.
use fd_picotcp.Prelude.{
  codes, ℕ, ℤ, true, List, Option, none, some, leb, ◌==◌, if◌then◌else◌, length, take,
}
use fd_picotcp.Fd.Types.{FdError, Settings, device_vde, device_tap, device_tun}
use fd_picotcp.Fd.Run.{maybe, M, returns, faults, ◌>>◌, return, modify}
use fd_picotcp.Fd.Table.{minus_one}

unfoldable pub default_name : ℕ → Option (List ℕ)
default_name kind =
    if kind == device_vde
    then some (codes "/tmp/vde.ctl")
    else (if kind == device_tap
        then some (codes "tap")
        else (if kind == device_tun then some (codes "tun") else none))

module _ {W : Type 0} where
  -- `strcpy` into an array of `size` bytes, the final zero included.
  unfoldable pub copy_text : ℕ → List ℕ → (Settings → Settings) → M W (Unit {0})
  copy_text size text f s =
      if leb size (length text) then faults else returns tt (record s { settings = f s.settings })

  -- Six bytes of the caller's.
  unfoldable pub set_device_mac : List ℕ → M W (Unit {0})
  set_device_mac mac =
      modify λ s. record s {
        settings = record s.settings { is_mac_changed = true; macaddr = take 6 mac };
      }

  unfoldable pub set_interface_name : List ℕ → M W (Unit {0})
  set_interface_name name = copy_text 256 name λ g. record g { vde_switch_name = name }

  -- A type that there is does not return a value, `none`.
  unfoldable pub set_device_type : ℕ → M W (Option ℤ)
  set_device_type kind = maybe (default_name kind) (return (some minus_one)) λ name. do
    set_interface_name name
    modify λ s. record s { settings = record s.settings { device_type = kind } }
    return none

  unfoldable pub set_switch_path : List ℕ → M W (Unit {0})
  set_switch_path path = copy_text 256 path λ g. record g { vde_switch_name = path }

  unfoldable pub set_ipv4_netmask : List ℕ → M W (Unit {0})
  set_ipv4_netmask mask = copy_text 16 mask λ g. record g { ipv4_mask_string = mask }

  unfoldable pub set_ipv6_netmask : List ℕ → M W (Unit {0})
  set_ipv6_netmask mask = copy_text 100 mask λ g. record g { ipv6_mask_string = mask }

-- What `fd_perror` prints behind its own name.
unfoldable pub fd_perror : FdError → List ℕ
fd_perror FdError.fd_ok = codes "OK\n"
fd_perror FdError.fd_socket_not_found = codes "Socket not found\n"
fd_perror FdError.fd_socket_is_null = codes "Socket is null\n"
fd_perror FdError.fd_elem_not_allocated = codes "Error allocating fd element\n"
fd_perror FdError.fd_sem_not_allocated = codes "Error allocating semaphore\n"
fd_perror FdError.fd_table_write_on_not_null = codes "Writing on not-null element\n"
fd_perror FdError.fd_table_max_size_reached = codes "Max number of file descriptor reached\n"
fd_perror FdError.fd_invalid_address = codes "Invalid address\n"
fd_perror FdError.fd_invalid_netmask = codes "Invalid netmask\n"
fd_perror FdError.fd_pipe_not_initialized = codes "Error initializing pipe\n"
fd_perror FdError.fd_interface_not_linked = codes "Error linking picotcp interface\n"
fd_perror FdError.fd_table_insert_error = codes "Error inserting elemet in table\n"
fd_perror FdError.fd_thread_error = codes "Error launching init thread\n"
