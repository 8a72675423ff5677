-- ===== src/Fd/Tests/Witnesses.antt =====
-- The theorems about the wrapper on a small stack and kernel.
use fd_picotcp.Prelude.{
  codes, ℕ, ◌<◌, ◌≡◌, ◌≢◌, ◌⊎◌, refl, arith, pos, true, false, [], ◌∷◌, none, some, get_elem?,
}
use fd_picotcp.Fd.Types.{FdError, Fds, FdElem}
use fd_picotcp.Fd.Calls.{Calls, Accepted, SockAddr}
use fd_picotcp.Fd.Run.{outside, returns, blocks, faults}
use fd_picotcp.Fd.Table.{minus_one, new_elem, fd_elem_create, find_socket}
use fd_picotcp.Fd.Events.{handle_wakeup, ev_rd, unlock_sem}
use fd_picotcp.Fd.Functions.{fd_pico_socket_read}
use fd_picotcp.Fd.Socket.{address_text, close, bind, connect, accept}
use fd_picotcp.Fd.Addressing.{Resolves, connect_reaches, bind_reaches}
use fd_picotcp.Pico.Addresses.{pico_ipv4_to_string, pico_string_to_ipv4}
use fd_picotcp.Fd.Copies.{pico_accept}
use fd_picotcp.Fd.Copying.{map_result, shorten, accept_copied}
use fd_picotcp.Fd.Ops.{op_socket, here, then_op}
use fd_picotcp.Fd.Keeping.Index.{IsIndexed}
use fd_picotcp.Fd.Keeping.Histories.{Leads-IsIndexed}
use fd_picotcp.Fd.Closing.{close_never_returns}
use fd_picotcp.Fd.Creating.{Provides, fd_elem_create_lem, fd_elem_create_outside}
use fd_picotcp.Fd.Piping.{Pipes, Holds}
use fd_picotcp.Fd.Reading.{read_lem, wakeup_lem, read_after_wakeup}
use fd_picotcp.Fd.Binding.{Refusal, Linked4, Outcome, bind_lem}
use fd_picotcp.Fd.Linking.{Clock}
use fd_picotcp.Fd.Accepting.{Joins, peer_of, peer_size, accept_lem, accept_without_connection}
use fd_picotcp.Fd.Tests.{World, calls, settings, elem, one_socket, after_socket, first_socket}

Leads-IsIndexed_example : IsIndexed after_socket
Leads-IsIndexed_example =
    Leads-IsIndexed calls 10 settings (0, 0) after_socket
      (then_op (op_socket 1018 1 0) here first_socket)

close_never_returns_example : close calls 100 (pos 4) one_socket ≡ faults
close_never_returns_example = close_never_returns calls 4 elem 100 one_socket refl refl

abbrev peer : SockAddr
peer = record { family = 2; port = 80; addr = 1 }

abbrev provides : Provides calls
provides = record { memory = λ w. refl; sems = λ w. refl }

fd_elem_create_lem_example :
    (t : Fds World) × (fd_elem_create calls 9 10 88 one_socket ≡ returns (pos 9) t)
    × (get_elem? t.fd_table 9 ≡ some (some (new_elem 9 10 88)))
    × ((i : ℕ) → i ≢ 9 → i < 8 → get_elem? t.fd_table i ≡ get_elem? one_socket.fd_table i)
fd_elem_create_lem_example =
    fd_elem_create_lem calls provides 9 10 88 one_socket refl (omega arith)
      (λ h. absurd (omega arith)) refl

fd_elem_create_outside_example : fd_elem_create calls 20 21 88 one_socket ≡ faults
fd_elem_create_outside_example =
    fd_elem_create_outside calls provides 20 21 88 one_socket refl (omega arith) refl

abbrev pipes : Pipes calls
pipes = record {
  held = λ fd w. w.0;
  read_some = λ fd n w h. refl;
  read_rest = λ fd n w. refl;
  read_end = λ fd. 4;
  write_more = λ fd bytes w. refl;
  stack_apart = λ fd k n w. refl;
}

-- A socket with three bytes in its pipe and a free semaphore.
abbrev woken : FdElem
woken = record elem { fd_write_count = pos 3; read_sem = 1 }

abbrev ready : Fds World
ready = record one_socket {
  fd_table = none ∷ none ∷ none ∷ none ∷ some woken ∷ none ∷ none ∷ none ∷ [];
  world = (3, 0);
}

read_lem_example :
    (w : World) × (t : Fds World) × (fd_pico_socket_read calls 10 (pos 4) 2 ready
      ≡ returns (calls.pico_socket_read 77 2 w).0 t)
    × Holds 4 (record elem { fd_write_count = pos 0; read_sem = 1 }) ready t
    × (t.world.0 ≡ 0)
unfolding unlock_sem
read_lem_example = read_lem calls pipes 10 4 2 0 woken ready refl refl refl (omega arith)

wakeup_lem_example :
    (t : Fds World) × (handle_wakeup calls ev_rd 77 one_socket ≡ returns tt t)
    × Holds 4 (record elem { fd_write_count = pos t.world.0; read_sem = 1 }) one_socket t
    × (t.world.0 ≡ 1)
unfolding unlock_sem find_socket
wakeup_lem_example = wakeup_lem calls pipes 77 4 elem one_socket refl refl refl refl

read_after_wakeup_example :
    (fd_pico_socket_read calls 10 (pos 4) 2 one_socket ≡ blocks)
    × ((t : Fds World) × (handle_wakeup calls ev_rd 77 one_socket ≡ returns tt t)
        × ((w : World) × (u : Fds World) × (fd_pico_socket_read calls 10 (pos 4) 2 t
              ≡ returns (calls.pico_socket_read 77 2 w).0 u)
            × (u.world.0 ≡ 0)))
unfolding find_socket
read_after_wakeup_example =
    read_after_wakeup calls pipes 10 4 2 elem one_socket refl refl refl refl refl (omega arith)

abbrev clock : Clock calls
clock = record { now = λ w. w.1; seconds = λ w. refl; sleeps = λ w. omega arith }

accept_without_connection_example : accept calls (pos 4) true 28 one_socket ≡ faults
accept_without_connection_example =
    accept_without_connection calls 4 0 elem one_socket refl refl true 28 refl

-- A connection from port 80, with the pipe 6 and 7.
abbrev from_peer : Accepted
from_peer = record { socket = 88; addr = 1; port = 80 }

abbrev listening : Calls World
listening = record calls {
  pico_socket_accept = λ k w. (some from_peer, w);
  pipe = λ w. (some (6, 7), w);
}

accept_lem_example :
    (t : Fds World) × (accept listening (pos 4) true 28 one_socket
      ≡ returns
          (record {
            result = pos 6;
            bytes = [];
            peer = some (peer_of listening false from_peer);
            peer_len = peer_size listening false;
          })
          t)
    × Joins listening false from_peer 6 7
        (none
          ∷ none
          ∷ none
          ∷ none
          ∷ some (record elem { accept_sem = 0 })
          ∷ none
          ∷ none
          ∷ none
          ∷ [])
        t
    × (get_elem? t.fd_table 4 ≡ some (some (record elem { accept_sem = 0 })))
accept_lem_example =
    accept_lem listening (record { memory = λ w. refl; sems = λ w. refl }) 4 28 0 6 7 elem from_peer
      (0, 0) (0, 0) one_socket refl refl refl refl refl (omega arith) (λ h. refl) refl

bind_lem_example :
    Outcome calls one_socket 77 80 (codes "10.0.0.1") (bind calls 3002 (pos 4) peer 16 one_socket)
unfolding address_text
bind_lem_example = bind_lem calls one_socket clock 4 16 elem peer (codes "10.0.0.1") refl refl

accept_copied_example :
    pico_accept listening (pos 4) true 28 one_socket
    ≡ map_result (shorten 28) (accept listening (pos 4) true 28 one_socket)
accept_copied_example = accept_copied listening 4 true 28 elem one_socket refl

-- The stack and the C library with the functions on addresses as they are.
abbrev resolving : Calls World
resolving = record calls {
  pico_string_to_ipv4 = pico_string_to_ipv4;
  inet_ntoa = pico_ipv4_to_string;
}

abbrev resolves : Resolves resolving
resolves = record { reads = λ t. refl; prints = λ ip. refl }

abbrev server : SockAddr
server = record { family = 2; port = 80; addr = 16820416 }

connect_reaches_example :
    connect resolving (pos 4) server 16 one_socket
    ≡ outside (resolving.pico_socket_connect 77 16820416 80) one_socket
connect_reaches_example =
    connect_reaches resolving resolves 4 elem server one_socket (omega arith) refl refl

bind_reaches_example :
    ((e : FdError) × (w : World) × Refusal e
      × (bind resolving 3002 (pos 4) server 16 one_socket
          ≡ returns minus_one (record one_socket { fd_err = e; world = w })))
    ⊎ ((w : World) × Linked4 resolving one_socket 16820416 w
        × (bind resolving 3002 (pos 4) server 16 one_socket
            ≡ outside
                (resolving.pico_socket_bind 77 16820416 80)
                (record one_socket { world = w })))
bind_reaches_example =
    bind_reaches resolving resolves 4 elem server one_socket (omega arith) refl
      (record { now = λ w. w.1; seconds = λ w. refl; sleeps = λ w. omega arith })
