-- ===== src/Fd/Piping.antt =====
-- The parts of `fd_pico_socket_read` (fd_functions.c): the pipe is emptied, its semaphore taken and
-- freed again.
use fd_picotcp.Prelude.{
  ℕ, zero, suc, ◌+◌, ◌-◌, ◌<◌, ◌≡◌, ◌≢◌, refl, ◌∙◌, ap, arith, inl, inr, pos, ◌-ℤ◌, ltb_ℤ, Bool,
  true, false, List, some, leb, ltb, ◌==◌, if◌then◌else◌, length, get_elem?, set, get_elem?-set,
  get_elem?-set_other, Bool-cases, ltb→lt,
}
use fd_picotcp.Fd.Types.{Fds, FdElem}
use fd_picotcp.Fd.Calls.{Calls, sys_read, sys_write}
use fd_picotcp.Fd.Run.{returns, return}
use fd_picotcp.Fd.Table.{update_elem}
use fd_picotcp.Fd.Events.{unlock_sem}
use fd_picotcp.Fd.Functions.{drain, wait_read}
use fd_picotcp.Fd.Lookup.{elem_at_lem, update_elem_lem}

-- What a pipe with room does: a read takes as many bytes as there are, up to its size, and a write
-- adds its own to those of the read end. The stack does not touch the pipes.
pub record Pipes {W : Type 0} (c : Calls W) : Type 0 where
  pub held : ℕ → W → ℕ
  pub read_some :
      (fd n : ℕ) (w : W)
      → 0 < held fd w
      → (c.syscall (sys_read (pos fd) n) w).0.result
        ≡ pos (if leb n (held fd w) then n else held fd w)
  pub read_rest : (fd n : ℕ) (w : W) → held fd (c.syscall (sys_read (pos fd) n) w).1 ≡ held fd w - n
  pub read_end : ℕ → ℕ
  pub write_more :
      (fd : ℕ) (bytes : List ℕ) (w : W)
      → held (read_end fd) (c.syscall (sys_write (pos fd) bytes) w).1
        ≡ held (read_end fd) w + length bytes
  pub stack_apart : (fd k n : ℕ) (w : W) → held fd (c.pico_socket_read k n w).1 ≡ held fd w

-- The element at `i` is `l`, and every other entry is as in `s`.
pub record Holds {W : Type 0} (i : ℕ) (l : FdElem) (s t : Fds W) : Type 0 where
  pub elem : get_elem? t.fd_table i ≡ some (some l)
  pub others : (j : ℕ) → j ≢ i → get_elem? t.fd_table j ≡ get_elem? s.fd_table j

take_from : (k n : ℕ) → pos k -ℤ pos (if leb n k then n else k) ≡ pos (k - n)
unfolding ◌-ℤ◌
take_from k n = ground arith

module _ {W : Type 0} (c : Calls W) (p : Pipes c) where
  pub drain_lem :
      (rounds i : ℕ) (l : FdElem) (s : Fds W)
      → get_elem? s.fd_table i ≡ some (some l)
      → l.fd_write_count ≡ pos (p.held l.fd0 s.world)
      → p.held l.fd0 s.world < rounds
      → (t : Fds W) × (drain c rounds i s ≡ returns tt t)
        × Holds i (record l { fd_write_count = pos 0 }) s t
        × (p.held l.fd0 t.world ≡ 0)
  unfolding drain
  drain_lem zero i l s h e lt = absurd (omega arith)
  drain_lem (suc rounds) i l s h e lt = elim (Bool-cases (ltb 0 (p.held l.fd0 s.world))) [
    | inl f ↦
        let some_held : 0 < p.held l.fd0 s.world = ltb→lt 0 _ f in
        let read = c.syscall (sys_read (pos l.fd0) 10) s.world in
        let l' : FdElem = record l { fd_write_count = l.fd_write_count -ℤ read.0.result } in
        let s' : Fds W = record s { fd_table = set s.fd_table i (some l'); world = read.1 } in
        let test : ltb_ℤ (pos 0) l.fd_write_count ≡ true = rw e (ground arith) in
        let left : l.fd_write_count -ℤ read.0.result ≡ pos (p.held l.fd0 read.1) =
          rw (e, p.read_some l.fd0 10 s.world some_held, p.read_rest l.fd0 10 s.world)
            (take_from (p.held l.fd0 s.world) 10) in
        let less : p.held l.fd0 read.1 < rounds = rw (p.read_rest l.fd0 10 s.world) (omega arith) in
        let (t, run, at, empty) =
          drain_lem rounds i l' s' (get_elem?-set s.fd_table i (some l') h) left less in
        (
          t,
          rw (elem_at_lem i s l h) (
              rw test (
                rw
                  (update_elem_lem i (record s { world = read.1 })
                    (λ x. record x { fd_write_count = x.fd_write_count -ℤ read.0.result }) l h)
                  run)),
          record {
            elem = at.elem;
            others = λ j ne. at.others j ne ∙ get_elem?-set_other s.fd_table i j (some l') ne;
          },
          empty,
        )
    | inr f ↦
        let nothing : p.held l.fd0 s.world ≡ 0 = ground arith in
        let test : ltb_ℤ (pos 0) l.fd_write_count ≡ false = rw (e, nothing) refl in
        (
          s,
          rw (elem_at_lem i s l h) (rw test refl),
          record {
            elem = h ∙ ap (λ n. some (some (record l { fd_write_count = n }))) (e ∙ ap pos nothing);
            others = λ j ne. refl;
          },
          nothing,
        )
  ]

  pub wait_read_lem :
      (i v : ℕ) (l : FdElem) (s : Fds W)
      → get_elem? s.fd_table i ≡ some (some l)
      → l.read_sem ≡ suc v
      → wait_read c i l s
        ≡ returns tt (record s { fd_table = set s.fd_table i (some (record l { read_sem = v })) })
  unfolding wait_read
  wait_read_lem i v l s h e =
      let test : (l.read_sem == 0) ≡ false = rw e (ground arith) in
      let less : l.read_sem - 1 ≡ v = omega arith in
      rw test (
        update_elem_lem i s (λ x. record x { read_sem = x.read_sem - 1 }) l h
        ∙ ap
            (λ n.
              returns tt
                (record s { fd_table = set s.fd_table i (some (record l { read_sem = n })) }))
            less)

  -- The last step of a read: the semaphore is freed again where the buffer has been filled.
  pub refill_lem :
      (full : Bool) (i : ℕ) (l : FdElem) (s : Fds W)
      → get_elem? s.fd_table i ≡ some (some l)
      → (t : Fds W) × ((if full
              then update_elem i (λ e. record e { read_sem = unlock_sem e.read_sem })
              else return tt)
            s
          ≡ returns tt t)
        × Holds i (record l { read_sem = if full then unlock_sem l.read_sem else l.read_sem }) s t
        × (t.world ≡ s.world)
  refill_lem true i l s h =
      let l' : FdElem = record l { read_sem = unlock_sem l.read_sem } in
      (
        record s { fd_table = set s.fd_table i (some l') },
        update_elem_lem i s (λ e. record e { read_sem = unlock_sem e.read_sem }) l h,
        record {
          elem = get_elem?-set s.fd_table i (some l') h;
          others = λ j ne. get_elem?-set_other s.fd_table i j (some l') ne;
        },
        refl,
      )
  refill_lem false i l s h = (s, refl, record { elem = h; others = λ j ne. refl }, refl)
