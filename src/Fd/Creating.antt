-- ===== src/Fd/Creating.antt =====
-- `fd_elem_create` of fd_picotcp.c.
use fd_picotcp.Prelude.{
  ℕ, ◌*◌, ◌-◌, ◌<◌, ◌≤◌, ◌≡◌, ◌≢◌, refl, ◌∙◌, ap, arith, inl, inr, pos, ltb_ℤ, true, false, ◌||◌,
  ◌++◌, none, some, leb, length, get_elem?, set, take, get_elem?-set, get_elem?-set_other, take_all,
  get_elem?-append, get_elem?-append_past, length-append, get_elem?-past, Bool-cases, zero, suc,
  ltb, ltb→lt, ltb→le,
}
use fd_picotcp.Fd.Types.{Fds, FdElem}
use fd_picotcp.Fd.Calls.{Calls}
use fd_picotcp.Fd.Run.{returns, faults}
use fd_picotcp.Fd.Table.{
  nulls, new_elem, grow_table, double_table, make_room, store_elem, make_sems, fd_elem_create,
}

nulls-get : (n i : ℕ) → i < n → get_elem? (nulls n) i ≡ some none
nulls-get zero i h = absurd (omega arith)
nulls-get (suc n) zero h = refl
nulls-get (suc n) (suc i) h = nulls-get n i (omega arith)

length-nulls : (n : ℕ) → length (nulls n) ≡ n
length-nulls zero = refl
length-nulls (suc n) = ap suc (length-nulls n)

-- Memory and semaphores are there.
pub record Provides {W : Type 0} (c : Calls W) : Type 0 where
  pub memory : (w : W) → (c.malloc w).0 ≡ true
  pub sems : (w : W) → (c.sem_init w).0 ≡ true

-- A table with room at `fd0`, with the old entries where they were.
pub record HasRoom {W : Type 0} (fd0 : ℕ) (s t : Fds W) : Type 0 where
  pub free : get_elem? t.fd_table fd0 ≡ some none
  pub kept : (i : ℕ) → i < length s.fd_table → get_elem? t.fd_table i ≡ get_elem? s.fd_table i

module _ {W : Type 0} (c : Calls W) (p : Provides c) where
  grow_table_lem :
      (s : Fds W)
      → grow_table c s
        ≡ returns true (record s {
          fd_table = take s.fd_table_size s.fd_table ++ nulls s.fd_table_size;
          fd_table_size = 2 * s.fd_table_size;
          world = (c.malloc s.world).1;
        })
  unfolding grow_table
  grow_table_lem s = rw (p.memory s.world) refl

  make_sems_lem : (s : Fds W) → (w : W) × (make_sems c s ≡ returns true (record s { world = w }))
  unfolding make_sems
  make_sems_lem s =
      let w1 = (c.malloc s.world).1 in
      let w2 = (c.malloc w1).1 in
      let w3 = (c.sem_init w2).1 in
      ((c.sem_init w3).1, rw (p.memory s.world, p.memory w1, p.sems w2, p.sems w3) refl)

  -- The table has an entry, null, at `fd0` after it has been doubled.
  grown-HasRoom :
      (s : Fds W) (fd0 n : ℕ) (w : W)
      → length s.fd_table ≡ n
      → fd0 < 2 * n
      → (fd0 < n → get_elem? s.fd_table fd0 ≡ some none)
      → HasRoom fd0 s
          (record s { fd_table = s.fd_table ++ nulls n; fd_table_size = 2 * n; world = w })
  grown-HasRoom s fd0 n w same lt free = record {
    free = elim (Bool-cases (ltb fd0 n)) [
      | inl e ↦
          get_elem?-append s.fd_table (nulls n) fd0 (omega (arith, ltb→lt fd0 n e))
          ∙ free (ltb→lt fd0 n e)
      | inr e ↦
          get_elem?-append_past s.fd_table (nulls n) fd0 (fd0 - n) (omega (arith, ltb→le fd0 n e))
          ∙ nulls-get n (fd0 - n) (omega (arith, ltb→le fd0 n e))
    ];
    kept = λ i h. get_elem?-append s.fd_table (nulls n) i h;
  }

  double_table_lem :
      (s : Fds W)
      → length s.fd_table ≡ s.fd_table_size
      → ltb_ℤ s.max_fd (pos (2 * s.fd_table_size)) ≡ false
      → double_table c s
        ≡ returns true (record s {
          fd_table = s.fd_table ++ nulls s.fd_table_size;
          fd_table_size = 2 * s.fd_table_size;
          world = (c.malloc s.world).1;
        })
  unfolding double_table
  double_table_lem s same allowed =
      rw (allowed, grow_table_lem s, take_all s.fd_table_size s.fd_table (omega arith)) refl

  make_room_lem :
      (s : Fds W) (fd0 fd1 : ℕ)
      → length s.fd_table ≡ s.fd_table_size
      → fd0 < 2 * s.fd_table_size
      → (fd0 < s.fd_table_size → get_elem? s.fd_table fd0 ≡ some none)
      → ltb_ℤ s.max_fd (pos (2 * s.fd_table_size)) ≡ false
      → (t : Fds W) × (make_room c fd0 fd1 s ≡ returns true t) × HasRoom fd0 s t
  unfolding make_room
  make_room_lem s fd0 fd1 same lt free allowed =
      elim (Bool-cases (leb s.fd_table_size fd0 || leb s.fd_table_size fd1)) [
        | inl e ↦ (
          doubled,
          rw e (double_table_lem s same allowed),
          grown-HasRoom s fd0 s.fd_table_size _ same lt free,
        )
        | inr e ↦ (s, rw e refl, record { free = free (fits_before e); kept = λ i h. refl })
      ]
    where
      doubled : Fds W
      doubled = record s {
        fd_table = s.fd_table ++ nulls s.fd_table_size;
        fd_table_size = 2 * s.fd_table_size;
        world = (c.malloc s.world).1;
      }

      fits_before :
          leb s.fd_table_size fd0 || leb s.fd_table_size fd1 ≡ false → fd0 < s.fd_table_size
      fits_before e = ground arith

  store_elem_lem :
      (fd0 : ℕ) (l : FdElem) (s : Fds W)
      → get_elem? s.fd_table fd0 ≡ some none
      → store_elem fd0 l s ≡ returns (pos fd0) (record s { fd_table = set s.fd_table fd0 (some l) })
  unfolding store_elem
  store_elem_lem fd0 l s h = rw (h, store_elem) refl

  module _ (fd0 fd1 socket : ℕ) (s : Fds W) (same : length s.fd_table ≡ s.fd_table_size) where
    -- With memory at hand, in a table that is as long as its size, where twice the size is
    -- allowed, a pipe whose read end is free and below twice the size gets its element: the
    -- descriptor is returned, its element is the new one, and every other entry is as it was.
    pub fd_elem_create_lem :
        fd0 < 2 * s.fd_table_size
        → (fd0 < s.fd_table_size → get_elem? s.fd_table fd0 ≡ some none)
        → ltb_ℤ s.max_fd (pos (2 * s.fd_table_size)) ≡ false
        → (t : Fds W) × (fd_elem_create c fd0 fd1 socket s ≡ returns (pos fd0) t)
          × (get_elem? t.fd_table fd0 ≡ some (some (new_elem fd0 fd1 socket)))
          × ((i : ℕ)
              → i ≢ fd0
              → i < length s.fd_table
              → get_elem? t.fd_table i ≡ get_elem? s.fd_table i)
    unfolding fd_elem_create
    fd_elem_create_lem lt free allowed =
        let (w, sems) = make_sems_lem (record s { world = (c.malloc s.world).1 }) in
        let (t, room, has) = make_room_lem (record s { world = w }) fd0 fd1 same lt free allowed in
        (
          record t { fd_table = set t.fd_table fd0 (some (new_elem fd0 fd1 socket)) },
          rw (p.memory s.world, sems)
              (rw room (store_elem_lem fd0 (new_elem fd0 fd1 socket) t has.free)),
          get_elem?-set t.fd_table fd0 (some (new_elem fd0 fd1 socket)) has.free,
          λ i ne h. get_elem?-set_other t.fd_table fd0 i _ ne ∙ has.kept i h,
        )

    -- The table is doubled once only: a pipe whose read end is not below twice the size is stored
    -- outside the new array, where memory is at hand and twice the size is allowed.
    pub fd_elem_create_outside :
        2 * s.fd_table_size ≤ fd0
        → ltb_ℤ s.max_fd (pos (2 * s.fd_table_size)) ≡ false
        → fd_elem_create c fd0 fd1 socket s ≡ faults
    unfolding fd_elem_create make_room store_elem
    fd_elem_create_outside far allowed =
        let (w, sems) = make_sems_lem (record s { world = (c.malloc s.world).1 }) in
        let grow : leb s.fd_table_size fd0 || leb s.fd_table_size fd1 ≡ true = ground arith in
        let doubled = double_table_lem (record s { world = w }) same allowed in
        let outside : get_elem? (s.fd_table ++ nulls s.fd_table_size) fd0 ≡ none =
          get_elem?-past (s.fd_table ++ nulls s.fd_table_size) fd0 (
            omega (
              arith,
              length-append s.fd_table (nulls s.fd_table_size),
              length-nulls s.fd_table_size,
            )) in
        rw (p.memory s.world, sems) (rw grow (rw doubled (rw (outside, store_elem) refl)))
