-- ===== src/Fd/Lookup.antt =====
-- What the table of fd_picotcp.c yields where an entry is known.
use fd_picotcp.Prelude.{ℕ, pos, ◌≡◌, refl, Option, some, get_elem?, set}
use fd_picotcp.Fd.Types.{Fds, FdElem}
use fd_picotcp.Fd.Run.{M, returns}
use fd_picotcp.Fd.Table.{get_fd_elem_from_fd, get_socket_from_fd, elem_at, update_elem}
use fd_picotcp.Fd.Socket.{by_table}

module _ {W : Type 0} (fd : ℕ) (s : Fds W) where
  pub get_fd_elem_at :
      (x : Option FdElem)
      → get_elem? s.fd_table fd ≡ some x
      → get_fd_elem_from_fd (pos fd) s ≡ returns x s
  unfolding get_fd_elem_from_fd
  get_fd_elem_at x h = rw (h, get_fd_elem_from_fd) refl

  pub elem_at_lem :
      (l : FdElem) → get_elem? s.fd_table fd ≡ some (some l) → elem_at fd s ≡ returns l s
  unfolding elem_at
  elem_at_lem l h = rw (h, elem_at) refl

  pub update_elem_lem :
      (f : FdElem → FdElem) (l : FdElem)
      → get_elem? s.fd_table fd ≡ some (some l)
      → update_elem fd f s ≡ returns tt (record s { fd_table = set s.fd_table fd (some (f l)) })
  unfolding update_elem
  update_elem_lem f l h = rw (h, update_elem) refl

  pub get_socket_at :
      (l : FdElem)
      → get_elem? s.fd_table fd ≡ some (some l)
      → get_socket_from_fd (pos fd) s ≡ returns (some l.socket) s
  unfolding get_socket_from_fd
  get_socket_at l h = rw (get_fd_elem_at (some l) h) refl

  module _ {A : Type 0} (own kernel : M W A) where
    pub by_table_own :
        (l : FdElem)
        → get_elem? s.fd_table fd ≡ some (some l)
        → by_table (pos fd) own kernel s ≡ own s
    unfolding by_table
    by_table_own l h = rw (get_socket_at l h) refl
