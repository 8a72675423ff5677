-- ===== src/Fd/Table.antt =====
-- fd_picotcp.c: the table of descriptors, an array of FD_TABLE_SIZE pointers. An element that is in the
-- table is reached through its position only, so a pointer to it is that position.
use fd_picotcp.Prelude.{
  ℕ, zero, suc, ◌*◌, ℤ, pos, negsuc, ltb_ℤ, positive, Bool, true, false, ◌||◌, not, List, [], ◌∷◌,
  ◌++◌, Option, none, some, leb, ◌==◌, if◌then◌else◌, get_elem?, set, take,
}
use fd_picotcp.Fd.Types.{
  FdElem, fd_elem_not_allocated, fd_sem_not_allocated, fd_table_max_size_reached,
  fd_table_write_on_not_null,
}
use fd_picotcp.Fd.Calls.{Calls}
use fd_picotcp.Fd.Run.{
  maybe, M, returns, faults, ◌>>=◌, ◌>>◌, return, fault, fail, outside, gets, modify,
}

abbrev pub minus_one : ℤ
minus_one = negsuc 0

abbrev pub nulls : ℕ → List (Option FdElem)
nulls zero = []
nulls (suc n) = none ∷ nulls n

-- The first position whose element has this socket.
unfoldable pub find_socket : List (Option FdElem) → ℕ → Option ℕ
find_socket [] socket = none
find_socket (none ∷ t) socket = elim (find_socket t socket) [ none ↦ none | some i ↦ some (suc i) ]
find_socket (some l ∷ t) socket =
    let more : Option ℕ = elim (find_socket t socket) [ none ↦ none | some i ↦ some (suc i) ] in
    if l.socket == socket then some 0 else more

unfoldable pub new_elem : ℕ → ℕ → ℕ → FdElem
new_elem fd0 fd1 socket = record {
  fd0 = fd0;
  fd1 = fd1;
  fd_write_count = pos 0;
  fd_char_count = pos 0;
  is_ipv6 = false;
  accept_sem = 0;
  read_sem = 0;
  socket = socket;
}

module _ {W : Type 0} where
  -- `fd_table[fd]`: outside the array the access is a fault.
  unfoldable pub get_fd_elem_from_fd : ℤ → M W (Option FdElem)
  get_fd_elem_from_fd (pos fd) s = elim (get_elem? s.fd_table fd) [
    | none ↦ faults
    | some l ↦ returns l s
  ]
  get_fd_elem_from_fd (negsuc n) s = faults

  unfoldable pub get_socket_from_fd : ℤ → M W (Option ℕ)
  get_socket_from_fd fd = do
    l ← get_fd_elem_from_fd fd
    return (elim l [ none ↦ none | some e ↦ some e.socket ])

  unfoldable pub get_fd_elem_from_socket : ℕ → M W (Option ℕ)
  get_fd_elem_from_socket socket = gets λ s. find_socket s.fd_table socket

  unfoldable pub is_socket_in_table : ℕ → M W ℕ
  is_socket_in_table socket =
      gets λ s. elim (find_socket s.fd_table socket) [ none ↦ 0 | some i ↦ i ]

  -- `fd_table[i]->...`
  unfoldable pub elem_at : ℕ → M W FdElem
  elem_at i s = elim (get_elem? s.fd_table i) [ some (some l) ↦ returns l s | _ ↦ faults ]

  -- `fd_table[i]->... = ...`
  unfoldable pub update_elem : ℕ → (FdElem → FdElem) → M W (Unit {0})
  update_elem i f s = elim (get_elem? s.fd_table i) [
    | some (some l) ↦ returns tt (record s { fd_table = set s.fd_table i (some (f l)) })
    | _ ↦ faults
  ]

  -- An array of twice the size, with the old entries in front.
  unfoldable pub grow_table : Calls W → M W Bool
  grow_table c = do
    given ← outside c.malloc
    if given
        then modify (λ t. record t {
          fd_table = take t.fd_table_size t.fd_table ++ nulls t.fd_table_size;
          fd_table_size = 2 * t.fd_table_size;
        })
        else return tt
    return given

  unfoldable pub double_table : Calls W → M W Bool
  double_table c s =
      if ltb_ℤ s.max_fd (pos (2 * s.fd_table_size))
      then fail fd_table_max_size_reached false s
      else grow_table c s

  -- The table is doubled once where a descriptor of the pipe does not fit.
  unfoldable pub make_room : Calls W → ℕ → ℕ → M W Bool
  make_room c fd0 fd1 s =
      if leb s.fd_table_size fd0 || leb s.fd_table_size fd1
      then double_table c s
      else returns true s

  -- The element is stored at the position of the pipe's read end.
  unfoldable pub store_elem : ℕ → FdElem → M W ℤ
  store_elem fd0 l s = elim (get_elem? s.fd_table fd0) [
    | none ↦ faults
    | some none ↦ returns (pos fd0) (record s { fd_table = set s.fd_table fd0 (some l) })
    | some (some k) ↦ fail fd_table_write_on_not_null minus_one s
  ]

  -- Two semaphores are made; a failure of `sem_init` leaves `fd_err` alone.
  unfoldable pub make_sems : Calls W → M W Bool
  make_sems c = do
    first ← outside c.malloc
    second ← outside c.malloc
    if not first || not second
        then fail fd_sem_not_allocated false
        else (do one ← outside c.sem_init; if one then outside c.sem_init else return false)

  unfoldable pub fd_elem_create : Calls W → ℕ → ℕ → ℕ → M W ℤ
  fd_elem_create c fd0 fd1 socket = do
    given ← outside c.malloc
    if not given then fail fd_elem_not_allocated minus_one else (do
      sems ← make_sems c
      if not sems then return minus_one else (do
        room ← make_room c fd0 fd1
        if room then store_elem fd0 (new_elem fd0 fd1 socket) else return minus_one))

  -- `close` is the wrapper's own, which calls `fd_elem_delete` again; the element is read anew for
  -- each end of the pipe.
  unfoldable pub fd_elem_delete : (ℤ → M W ℤ) → ℤ → M W ℤ
  fd_elem_delete close fd = do
    l ← get_fd_elem_from_fd fd
    maybe l (return minus_one) λ e. do
      close (pos e.fd0)
      again ← get_fd_elem_from_fd fd
      maybe again (fault) λ e'. do
        close (pos e'.fd1)
        modify (λ s. record s { fd_table = set s.fd_table (positive fd) none })
        return (pos 0)
