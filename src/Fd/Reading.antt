-- ===== src/Fd/Reading.antt =====
-- Waiting and reading: `handle_wakeup` of fd_picotcp.c and `fd_pico_socket_read` of fd_functions.c, with the
-- pipe that `select` and `poll` look at.
use fd_picotcp.Prelude.{
  ℕ, suc, ◌+◌, ◌<◌, ◌≡◌, refl, ◌∙◌, ap, subst, arith, pos, negsuc, ◌-ℤ◌, eqb_ℤ, [], ◌∷◌, some,
  if◌then◌else◌, get_elem?, set, get_elem?-set, get_elem?-set_other,
}
use fd_picotcp.Fd.Types.{Fds, FdElem}
use fd_picotcp.Fd.Calls.{Calls, sys_write}
use fd_picotcp.Fd.Run.{returns, blocks}
use fd_picotcp.Fd.Table.{get_fd_elem_from_socket, find_socket}
use fd_picotcp.Fd.Events.{handle_wakeup, wake_reader, unlock_sem, ev_rd}
use fd_picotcp.Fd.Functions.{wait_read, fd_pico_socket_read}
use fd_picotcp.Fd.Lookup.{get_fd_elem_at, elem_at_lem, update_elem_lem}
use fd_picotcp.Fd.Piping.{Pipes, Holds, drain_lem, wait_read_lem, refill_lem}

unlock-taken : unlock_sem 0 ≡ suc 0
unfolding unlock_sem
unlock-taken = refl

one_more : (k : ℕ) → pos k -ℤ negsuc 0 ≡ pos (k + 1)
unfolding ◌-ℤ◌
one_more k = ground arith

module _ {W : Type 0} (c : Calls W) (p : Pipes c) where
  -- A read on an open descriptor whose semaphore is free, with a count that is the number of
  -- bytes in its pipe, returns what the stack reads. It empties the pipe, takes the semaphore,
  -- and frees it again exactly where the buffer has been filled; no other entry changes. As many
  -- rounds as the pipe has bytes, and one, are enough.
  pub read_lem :
      (rounds fd len v : ℕ) (l : FdElem) (s : Fds W)
      → get_elem? s.fd_table fd ≡ some (some l)
      → l.read_sem ≡ suc v
      → l.fd_write_count ≡ pos (p.held l.fd0 s.world)
      → p.held l.fd0 s.world < rounds
      → (w : W) × (t : Fds W) × (fd_pico_socket_read c rounds (pos fd) len s
          ≡ returns (c.pico_socket_read l.socket len w).0 t)
        × Holds fd
            (record l {
              fd_write_count = pos 0;
              read_sem =
                  if eqb_ℤ (pos len) (c.pico_socket_read l.socket len w).0.result
                  then unlock_sem v
                  else v;
            })
            s
            t
        × (p.held l.fd0 t.world ≡ 0)
  unfolding fd_pico_socket_read
  read_lem rounds fd len v l s h free counted enough =
      let l1 : FdElem = record l { read_sem = v } in
      let s1 : Fds W = record s { fd_table = set s.fd_table fd (some l1) } in
      let (s2, drained, at2, empty) =
        drain_lem c p rounds fd l1 s1 (get_elem?-set s.fd_table fd (some l1) h) counted enough in
      let got = c.pico_socket_read l.socket len s2.world in
      let (t, refilled, at3, same) =
        refill_lem c p (eqb_ℤ (pos len) got.0.result) fd (record l1 { fd_write_count = pos 0 })
          (record s2 { world = got.1 }) at2.elem in
      (
        s2.world,
        t,
        rw (get_fd_elem_at fd s (some l) h)
            (rw (wait_read_lem c p fd v l s h free) (rw drained (rw refilled refl))),
        record {
          elem = at3.elem;
          others = λ j ne.
              at3.others j ne
              ∙ (at2.others j ne ∙ get_elem?-set_other s.fd_table fd j (some l1) ne);
        },
        rw same (p.stack_apart l.fd0 l.socket len s2.world ∙ empty),
      )

  -- A callback for data counts the byte that it writes, so that the count stays the number of
  -- bytes in the pipe, and frees the semaphore of the first element with the socket; no other
  -- entry changes.
  pub wakeup_lem :
      (socket i : ℕ) (l : FdElem) (s : Fds W)
      → find_socket s.fd_table socket ≡ some i
      → get_elem? s.fd_table i ≡ some (some l)
      → p.read_end l.fd1 ≡ l.fd0
      → l.fd_write_count ≡ pos (p.held l.fd0 s.world)
      → (t : Fds W) × (handle_wakeup c ev_rd socket s ≡ returns tt t)
        × Holds i
            (record l {
              fd_write_count = pos (p.held l.fd0 t.world);
              read_sem = unlock_sem l.read_sem;
            })
            s
            t
        × (p.held l.fd0 t.world ≡ p.held l.fd0 s.world + 1)
  unfolding handle_wakeup wake_reader get_fd_elem_from_socket
  wakeup_lem socket i l s found h own counted =
      let w = (c.syscall (sys_write (pos l.fd1) (97 ∷ [])) s.world).1 in
      let f : FdElem → FdElem = λ e. record e {
        fd_write_count = e.fd_write_count -ℤ negsuc 0;
        read_sem = unlock_sem e.read_sem;
      } in
      let more : p.held l.fd0 w ≡ p.held l.fd0 s.world + 1 =
        subst (λ e. p.held e w ≡ p.held e s.world + 1) own (p.write_more l.fd1 (97 ∷ []) s.world) in
      let count : l.fd_write_count -ℤ negsuc 0 ≡ pos (p.held l.fd0 w) =
        rw (counted, more) (one_more (p.held l.fd0 s.world)) in
      (
        record s { fd_table = set s.fd_table i (some (f l)); world = w },
        rw found (rw (elem_at_lem i s l h) (update_elem_lem i (record s { world = w }) f l h)),
        record {
          elem =
              get_elem?-set s.fd_table i (some (f l)) h
              ∙ ap
                  (λ n.
                    some (some (record l { fd_write_count = n; read_sem = unlock_sem l.read_sem })))
                  count;
          others = λ j ne. get_elem?-set_other s.fd_table i j (some (f l)) ne;
        },
        more,
      )

  -- A read on an open descriptor whose semaphore is taken waits.
  pub read_waits :
      (rounds fd len : ℕ) (l : FdElem) (s : Fds W)
      → get_elem? s.fd_table fd ≡ some (some l)
      → l.read_sem ≡ 0
      → fd_pico_socket_read c rounds (pos fd) len s ≡ blocks
  unfolding fd_pico_socket_read wait_read
  read_waits rounds fd len l s h taken = rw (get_fd_elem_at fd s (some l) h) (rw taken refl)

  -- A read that waits goes on after a callback for data on its socket, and leaves the pipe empty.
  pub read_after_wakeup :
      (rounds i len : ℕ) (l : FdElem) (s : Fds W)
      → find_socket s.fd_table l.socket ≡ some i
      → get_elem? s.fd_table i ≡ some (some l)
      → p.read_end l.fd1 ≡ l.fd0
      → l.fd_write_count ≡ pos (p.held l.fd0 s.world)
      → l.read_sem ≡ 0
      → p.held l.fd0 s.world + 1 < rounds
      → (fd_pico_socket_read c rounds (pos i) len s ≡ blocks)
        × ((t : Fds W) × (handle_wakeup c ev_rd l.socket s ≡ returns tt t)
            × ((w : W) × (u : Fds W) × (fd_pico_socket_read c rounds (pos i) len t
                  ≡ returns (c.pico_socket_read l.socket len w).0 u)
                × (p.held l.fd0 u.world ≡ 0)))
  read_after_wakeup rounds i len l s found h own counted taken enough =
      let (t, woken, at, more) = wakeup_lem l.socket i l s found h own counted in
      let l' : FdElem = record l {
        fd_write_count = pos (p.held l.fd0 t.world);
        read_sem = unlock_sem l.read_sem;
      } in
      let (w, u, run, _, empty) =
        read_lem rounds i len 0 l' t at.elem (rw taken unlock-taken) refl (omega arith) in
      (read_waits rounds i len l s h taken, (t, woken, (w, u, run, empty)))
