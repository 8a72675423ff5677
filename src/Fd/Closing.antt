-- ===== src/Fd/Closing.antt =====
-- What `close` of socket.c does with the wrapper's own descriptors.
use fd_picotcp.Prelude.{ℕ, zero, suc, ℤ, pos, ◌≡◌, refl, ap, ◌∙◌, some, get_elem?}
use fd_picotcp.Fd.Types.{Fds, FdElem}
use fd_picotcp.Fd.Calls.{Calls}
use fd_picotcp.Fd.Run.{M, faults}
use fd_picotcp.Fd.Lookup.{get_fd_elem_at, get_socket_at, by_table_own}
use fd_picotcp.Fd.Table.{fd_elem_delete}
use fd_picotcp.Fd.Functions.{fd_pico_socket_close}
use fd_picotcp.Fd.Socket.{close}

module _ {W : Type 0} (c : Calls W) (fd : ℕ) (l : FdElem) where
  -- The state after the stack has closed the socket.
  abbrev closed : Fds W → Fds W
  closed s = record s { world = (c.pico_socket_close l.socket s.world).1 }

  delete_faults :
      (k : ℤ → M W ℤ) (s : Fds W)
      → get_elem? s.fd_table fd ≡ some (some l)
      → k (pos l.fd0) s ≡ faults
      → fd_elem_delete k (pos fd) s ≡ faults
  unfolding fd_elem_delete
  delete_faults k s h e = rw (get_fd_elem_at fd s (some l) h) (rw e refl)

  socket_close_faults :
      (k : ℤ → M W ℤ) (s : Fds W)
      → get_elem? s.fd_table fd ≡ some (some l)
      → k (pos l.fd0) (closed s) ≡ faults
      → fd_pico_socket_close c k (pos fd) s ≡ faults
  unfolding fd_pico_socket_close
  socket_close_faults k s h e =
      rw (get_socket_at fd s l h) (rw (delete_faults k (closed s) h e) refl)

  -- A descriptor whose element stands at its own position is never closed: fd_elem_delete closes
  -- the pipe's read end, which is the descriptor itself, through close, while the element is
  -- still in the table. However deep the calls may nest, they do not come back.
  pub close_never_returns :
      (fuel : ℕ) (s : Fds W)
      → get_elem? s.fd_table fd ≡ some (some l)
      → l.fd0 ≡ fd
      → close c fuel (pos fd) s ≡ faults
  unfolding close
  close_never_returns zero s h own = refl
  close_never_returns (suc fuel) s h own =
      by_table_own fd s _ _ l h
      ∙ socket_close_faults (close c fuel) s h (
          ap (λ i. close c fuel (pos i) (closed s)) own ∙ close_never_returns fuel (closed s) h own)
