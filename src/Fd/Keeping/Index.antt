-- ===== src/Fd/Keeping/Index.antt =====
-- What the wrapper's functions keep of the table of descriptors (fd_picotcp.c, fd_functions.c).
use fd_picotcp.Prelude.{
  ℕ, zero, suc, ◌*◌, ◌≤◌, ◌≡◌, ◌≢◌, refl, sym, ap, ◌∙◌, subst, arith, inl, inr, List, ◌++◌, Option,
  none, some, length, get_elem?, set, take, get_elem?-set_cases, length-set, get_elem?-append,
  length-append, get_elem?-append_past, take_all, ◌||◌, leb, ltb_ℤ, pos, negsuc, ℤ, ltb, Bool-cases,
  Option-cases, ltb→lt, ltb→le, ◌-◌,
}
use fd_picotcp.Fd.Types.{Fds, FdElem, FdError}
use fd_picotcp.Fd.Calls.{Calls}
use fd_picotcp.Fd.Run.{fail, outside, modify}
use fd_picotcp.Fd.Table.{
  nulls, new_elem, get_fd_elem_from_fd, get_socket_from_fd, elem_at, update_elem, grow_table,
  double_table, make_room, store_elem, make_sems, fd_elem_create,
}
use fd_picotcp.Fd.Keeping.{
  After, Keeps, Keeps->>=, Keeps->>, Keeps-if, Keeps-return, Keeps-gets, Keeps-fault, Keeps-block,
  Keeps-maybe,
}

-- An element stands at the position of its own descriptor, and its semaphores are binary.
abbrev pub Fits : ℕ → FdElem → Type 0
Fits i l = (l.fd0 ≡ i) × (l.accept_sem ≤ 1) × (l.read_sem ≤ 1)

-- Every element of the table fits its position, and the table is no longer than its size.
pub record IsIndexed {W : Type 0} (s : Fds W) : Type 0 where
  pub fits : (i : ℕ) (l : FdElem) → get_elem? s.fd_table i ≡ some (some l) → Fits i l
  pub bounded : length s.fd_table ≤ s.fd_table_size

nulls-none : (n i : ℕ) (l : FdElem) → get_elem? (nulls n) i ≢ some (some l)
nulls-none zero i l h = cc
nulls-none (suc n) zero l h = cc
nulls-none (suc n) (suc i) l h = nulls-none n i l h

length-nulls : (n : ℕ) → length (nulls n) ≡ n
length-nulls zero = refl
length-nulls (suc n) = ap suc (length-nulls n)

set-Fits :
    (t : List (Option FdElem)) (i : ℕ) (l : FdElem)
    → ((j : ℕ) (k : FdElem) → get_elem? t j ≡ some (some k) → Fits j k)
    → Fits i l
    → (j : ℕ) (k : FdElem) → get_elem? (set t i (some l)) j ≡ some (some k)
    → Fits j k
set-Fits t i l all one j k h = elim (get_elem?-set_cases t i j (some l) h) [
  | inl (e, x) ↦ let same : k ≡ l = cc in rw (e, same) one
  | inr x ↦ all j k x
]

grown-Fits :
    (t : List (Option FdElem)) (n i : ℕ) (l : FdElem)
    → ((j : ℕ) (k : FdElem) → get_elem? t j ≡ some (some k) → Fits j k)
    → length t ≤ n
    → get_elem? (take n t ++ nulls n) i ≡ some (some l)
    → Fits i l
grown-Fits t n i l all le h = elim (Bool-cases (ltb i (length t))) [
  | inl e ↦ all i l (
      sym (get_elem?-append t (nulls n) i (ltb→lt i (length t) e))
      ∙ subst (λ u. get_elem? (u ++ nulls n) i ≡ some (some l)) (take_all n t le) h)
  | inr e ↦ absurd (
      nulls-none n (i - length t) l (
        sym (
          get_elem?-append_past t (nulls n) i (i - length t) (omega (arith, ltb→le i (length t) e)))
        ∙ subst (λ u. get_elem? (u ++ nulls n) i ≡ some (some l)) (take_all n t le) h))
]

new_elem-Fits : (fd0 fd1 socket : ℕ) → Fits fd0 (new_elem fd0 fd1 socket)
unfolding new_elem
new_elem-Fits fd0 fd1 socket = (refl, omega arith, omega arith)

module _ {W : Type 0} where
  pub Keeps-outside : {A : Type 0} (f : W → A × W) → Keeps IsIndexed (outside f)
  Keeps-outside f = record { at = λ s h. record { fits = h.fits; bounded = h.bounded } }

  pub Keeps-fail : {A : Type 0} (e : FdError) (a : A) → Keeps {W = W} IsIndexed (fail e a)
  Keeps-fail e a = record { at = λ s h. record { fits = h.fits; bounded = h.bounded } }

pub ruleset keeping_rules = (
  Keeps->>=, Keeps->>, Keeps-maybe, Keeps-if, Keeps-return, Keeps-fault, Keeps-block, Keeps-gets,
  Keeps-outside, Keeps-fail,
)

module _ {W : Type 0} where
  put-IsIndexed :
      (s : Fds W) (i : ℕ) (l : FdElem)
      → IsIndexed s
      → Fits i l
      → IsIndexed (record s { fd_table = set s.fd_table i (some l) })
  put-IsIndexed s i l h k = record {
    fits = set-Fits s.fd_table i l h.fits k;
    bounded = rw (length-set s.fd_table i (some l)) h.bounded;
  }

  pub Keeps-update :
      (i : ℕ) (f : FdElem → FdElem)
      → ((l : FdElem) → Fits i l → Fits i (f l))
      → Keeps {W = W} IsIndexed (update_elem i f)
  unfolding update_elem
  Keeps-update i f k = record {
    at = λ s h. elim (Option-cases (get_elem? s.fd_table i)) [
      | inl e ↦ rw (e, After) tt
      | inr (none, e) ↦ rw (e, After) tt
      | inr (some l, e) ↦ rw (e, After) (put-IsIndexed s i (f l) h (k l (h.fits i l e)))
    ];
  }

  pub Keeps-get_fd_elem_from_fd : (fd : ℤ) → Keeps {W = W} IsIndexed (get_fd_elem_from_fd fd)
  unfolding get_fd_elem_from_fd
  Keeps-get_fd_elem_from_fd (pos fd) = record {
    at = λ s h. elim (Option-cases (get_elem? s.fd_table fd)) [
      | inl e ↦ rw (e, After) tt
      | inr (x, e) ↦ rw (e, After) h
    ];
  }
  Keeps-get_fd_elem_from_fd (negsuc n) = record { at = λ s h. tt }

  pub Keeps-get_socket_from_fd : (fd : ℤ) → Keeps {W = W} IsIndexed (get_socket_from_fd fd)
  unfolding get_socket_from_fd
  Keeps-get_socket_from_fd fd = Keeps->>= _ _ (Keeps-get_fd_elem_from_fd fd) (λ l. Keeps-return _)

  pub Keeps-elem_at : (i : ℕ) → Keeps {W = W} IsIndexed (elem_at i)
  unfolding elem_at
  Keeps-elem_at i = record {
    at = λ s h. elim (Option-cases (get_elem? s.fd_table i)) [
      | inl e ↦ rw (e, After) tt
      | inr (none, e) ↦ rw (e, After) tt
      | inr (some l, e) ↦ rw (e, After) h
    ];
  }

  Keeps-store_elem :
      (fd0 : ℕ) (l : FdElem) → Fits fd0 l → Keeps {W = W} IsIndexed (store_elem fd0 l)
  unfolding store_elem
  Keeps-store_elem fd0 l k = record {
    at = λ s h. elim (Option-cases (get_elem? s.fd_table fd0)) [
      | inl e ↦ rw (e, After) tt
      | inr (none, e) ↦ rw (e, After) (put-IsIndexed s fd0 l h k)
      | inr (some l', e) ↦ rw (e, After) (record { fits = h.fits; bounded = h.bounded })
    ];
  }

  Keeps-grow : Keeps {W = W} IsIndexed (
      modify (λ t. record t {
        fd_table = take t.fd_table_size t.fd_table ++ nulls t.fd_table_size;
        fd_table_size = 2 * t.fd_table_size;
      }))
  Keeps-grow = record {
    at = λ s h. record {
      fits = λ i l x. grown-Fits s.fd_table s.fd_table_size i l h.fits h.bounded x;
      bounded = rw (take_all s.fd_table_size s.fd_table h.bounded) (
          omega (
            arith,
            h.bounded,
            length-append s.fd_table (nulls s.fd_table_size),
            length-nulls s.fd_table_size,
          ));
    };
  }

  Keeps-grow_table : (c : Calls W) → Keeps IsIndexed (grow_table c)
  unfolding grow_table
  Keeps-grow_table c =
      search (Keeps->>=, Keeps->>, Keeps-if, Keeps-return, Keeps-outside, Keeps-grow)

  Keeps-double_table : (c : Calls W) → Keeps IsIndexed (double_table c)
  unfolding double_table
  Keeps-double_table c = record {
    at = λ s h. elim (Bool-cases (ltb_ℤ s.max_fd (pos (2 * s.fd_table_size)))) [
      | inl e ↦ rw (e, After) (record { fits = h.fits; bounded = h.bounded })
      | inr e ↦ rw e ((Keeps-grow_table c).at s h)
    ];
  }

  Keeps-make_room : (c : Calls W) (fd0 fd1 : ℕ) → Keeps IsIndexed (make_room c fd0 fd1)
  unfolding make_room
  Keeps-make_room c fd0 fd1 = record {
    at = λ s h. elim (Bool-cases (leb s.fd_table_size fd0 || leb s.fd_table_size fd1)) [
      | inl e ↦ rw e ((Keeps-double_table c).at s h)
      | inr e ↦ rw (e, After) h
    ];
  }

  Keeps-make_sems : (c : Calls W) → Keeps IsIndexed (make_sems c)
  unfolding make_sems
  Keeps-make_sems c = search keeping_rules depth 14

  Keeps-store_new :
      (fd0 fd1 socket : ℕ) → Keeps {W = W} IsIndexed (store_elem fd0 (new_elem fd0 fd1 socket))
  Keeps-store_new fd0 fd1 socket =
      Keeps-store_elem fd0 (new_elem fd0 fd1 socket) (new_elem-Fits fd0 fd1 socket)

  pub Keeps-fd_elem_create :
      (c : Calls W) (fd0 fd1 socket : ℕ) → Keeps IsIndexed (fd_elem_create c fd0 fd1 socket)
  unfolding fd_elem_create
  Keeps-fd_elem_create c fd0 fd1 socket =
      search (keeping_rules, Keeps-make_sems, Keeps-make_room, Keeps-store_new) depth 14

  pub nulls-IsIndexed : (s : Fds W) → IsIndexed (record s { fd_table = nulls s.fd_table_size })
  nulls-IsIndexed s = record {
    fits = λ i l h. absurd (nulls-none s.fd_table_size i l h);
    bounded = omega (arith, length-nulls s.fd_table_size);
  }

  pub free-IsIndexed :
      (s : Fds W) (i : ℕ) → IsIndexed s → IsIndexed (record s { fd_table = set s.fd_table i none })
  free-IsIndexed s i h = record {
    fits = λ j k x. elim (get_elem?-set_cases s.fd_table i j none x) [
      | inl p ↦ cc
      | inr q ↦ h.fits j k q
    ];
    bounded = rw (length-set s.fd_table i none) h.bounded;
  }
