-- ===== src/Fd/Calls.antt =====
-- What the wrapper calls: the picoTCP stack, the kernel and the C library. Nothing of them is defined
-- here: each call is a function of the state `W` that is outside the wrapper.
use fd_picotcp.Prelude.{ℕ, ℤ, Bool, List, Option}

-- `struct sockaddr_in` or `struct sockaddr_in6`, with the address as a number.
pub record SockAddr : Type 0 where
  pub family : ℕ
  pub port : ℕ
  pub addr : ℕ

-- Calls of the kernel, with their arguments. Of the room for a peer, it says whether there is one, and
-- how long it is.
pub data SysCall : Type 0 where
  sys_read : ℤ → ℕ → SysCall
  sys_write : ℤ → List ℕ → SysCall
  sys_listen : ℤ → ℤ → SysCall
  sys_close : ℤ → SysCall
  sys_socket : ℕ → ℕ → ℕ → SysCall
  sys_bind : ℤ → SockAddr → ℕ → SysCall
  sys_connect : ℤ → SockAddr → ℕ → SysCall
  sys_accept : ℤ → Bool → ℕ → SysCall

-- What a call returns, and what it writes to the caller's memory.
pub record Reply : Type 0 where
  pub result : ℤ
  pub bytes : List ℕ
  pub peer : Option SockAddr
  pub peer_len : ℕ

-- A connection that `pico_socket_accept` returns.
pub record Accepted : Type 0 where
  pub socket : ℕ
  pub addr : ℕ
  pub port : ℕ

pub record Calls (W : Type 0) : Type 0 where
  -- picoTCP
  pub pico_stack_init : W → W
  pub pico_vde_create : List ℕ → List ℕ → List ℕ → W → Option ℕ × W
  pub pico_tap_create : List ℕ → W → Option ℕ × W
  pub pico_tun_create : List ℕ → W → Option ℕ × W
  pub pico_socket_open : ℕ → ℕ → W → Option ℕ × W
  pub pico_socket_bind : ℕ → ℕ → ℕ → W → ℤ × W
  pub pico_socket_listen : ℕ → ℤ → W → ℤ × W
  pub pico_socket_connect : ℕ → ℕ → ℕ → W → ℤ × W
  pub pico_socket_accept : ℕ → W → Option Accepted × W
  pub pico_socket_write : ℕ → List ℕ → W → ℤ × W
  pub pico_socket_read : ℕ → ℕ → W → Reply × W
  pub pico_socket_close : ℕ → W → ℤ × W
  pub pico_string_to_ipv4 : List ℕ → Option ℕ
  pub pico_string_to_ipv6 : List ℕ → Option ℕ
  pub pico_ipv4_to_string : ℕ → List ℕ
  pub pico_ipv6_to_string : ℕ → List ℕ
  pub pico_ipv4_link_find : ℕ → W → Bool
  pub pico_ipv6_link_find : ℕ → W → Bool
  pub pico_ipv4_link_add : Option ℕ → ℕ → ℕ → W → ℤ × W
  pub pico_ipv6_link_add : Option ℕ → ℕ → ℕ → W → Bool × W
  -- the kernel and the C library
  pub syscall : SysCall → W → Reply × W
  pub pipe : W → Option (ℕ × ℕ) × W
  pub malloc : W → Bool × W
  pub sem_init : W → Bool × W
  pub getrlimit : W → ℤ
  pub getpid : W → ℕ
  pub time : W → ℕ
  pub usleep : W → W
  pub pthread_create : W → Bool × W
  pub inet_ntoa : ℕ → List ℕ
  pub inet_ntop : ℕ → ℕ → Option (List ℕ)
  pub inet_addr : List ℕ → ℕ
  pub inet_pton : List ℕ → ℕ
  -- the bytes of a local array, up to the first zero, that nothing has written
  pub stack_text : List ℕ
