-- ===== src/Fd/Keeping/Functions.antt =====
-- The functions of fd_picotcp.c and fd_functions.c keep the table indexed.
use fd_picotcp.Prelude.{
  ℕ, zero, suc, ◌≤◌, ◌-◌, ◌≡◌, refl, arith, inl, inr, List, [], ◌∷◌, Option, none, Bool, true, ltb,
  leb, pos, ◌-ℤ◌, ℤ, length, Bool-cases, ◌++◌, set,
}
use fd_picotcp.Fd.Types.{Fds, FdElem, Settings}
use fd_picotcp.Fd.Calls.{Calls, Accepted, Reply, sys_read, sys_write}
use fd_picotcp.Fd.Run.{M, modify}
use fd_picotcp.Fd.Table.{nulls, update_elem, get_fd_elem_from_socket, fd_elem_delete}
use fd_picotcp.Fd.Events.{
  unlock_sem, wake_reader, handle_wakeup, create_device, name_device, init, pid_string,
}
use fd_picotcp.Fd.Functions.{
  mark_version, fd_pico_socket_open, bind_ipv4, wait_link, await_link, bind_ipv6,
  fd_pico_socket_bind, fd_pico_socket_listen, fd_pico_socket_connect, wait_accept, wait_read,
  accept_connection, fd_pico_socket_accept, fd_pico_socket_write, drain, fd_pico_socket_read,
  fd_pico_socket_close,
}
use fd_picotcp.Fd.Keeping.{
  After, Keeps, Keeps->>, Keeps->>=, Keeps-if, Keeps-return, Keeps-fault, Keeps-block,
}
use fd_picotcp.Fd.Keeping.Index.{
  IsIndexed, keeping_rules, Keeps-outside, Keeps-update, Keeps-elem_at, Keeps-get_fd_elem_from_fd,
  Keeps-get_socket_from_fd, Keeps-fd_elem_create, nulls-IsIndexed, free-IsIndexed,
}

unlock-bounded : (v : ℕ) → v ≤ 1 → unlock_sem v ≤ 1
unfolding unlock_sem
unlock-bounded v h = ground arith

module _ {W : Type 0} where
  Keeps-modify :
      (f : Fds W → Fds W)
      → ((s : Fds W) → (f s).fd_table ≡ s.fd_table)
      → ((s : Fds W) → (f s).fd_table_size ≡ s.fd_table_size)
      → Keeps IsIndexed (modify f)
  Keeps-modify f t n = record {
    at = λ s h. record { fits = λ i l. rw (t s) (h.fits i l); bounded = rw (t s, n s) h.bounded };
  }

  Keeps-get_fd_elem_from_socket : (k : ℕ) → Keeps {W = W} IsIndexed (get_fd_elem_from_socket k)
  unfolding get_fd_elem_from_socket
  Keeps-get_fd_elem_from_socket k = search keeping_rules

  Keeps-free_read :
      (i : ℕ)
      → Keeps {W = W} IsIndexed (update_elem i (λ e. record e { read_sem = unlock_sem e.read_sem }))
  Keeps-free_read i = Keeps-update i _ (λ l h. (h.0, h.1, unlock-bounded l.read_sem h.2))

  Keeps-free_accept :
      (i : ℕ)
      → Keeps {W = W} IsIndexed
          (update_elem i (λ e. record e { accept_sem = unlock_sem e.accept_sem }))
  Keeps-free_accept i = Keeps-update i _ (λ l h. (h.0, unlock-bounded l.accept_sem h.1, h.2))

  Keeps-wake_reader : (c : Calls W) (i : ℕ) (l : FdElem) → Keeps IsIndexed (wake_reader c i l)
  unfolding wake_reader
  Keeps-wake_reader c i l =
      Keeps->> {A = Reply} _ _ (Keeps-outside (c.syscall (sys_write (pos l.fd1) (97 ∷ []))))
        (Keeps-update i _ (λ e h. (h.0, h.1, unlock-bounded e.read_sem h.2)))

  pub Keeps-handle_wakeup : (c : Calls W) (ev k : ℕ) → Keeps IsIndexed (handle_wakeup c ev k)
  unfolding handle_wakeup
  Keeps-handle_wakeup c ev k =
      search
        (
          keeping_rules, Keeps-get_fd_elem_from_socket, Keeps-free_accept, Keeps-elem_at,
          Keeps-wake_reader,
        )
        depth 12

  Keeps-create_device : (c : Calls W) (g : Settings) → Keeps IsIndexed (create_device c g)
  unfolding create_device
  Keeps-create_device c g = search keeping_rules depth 10

  Keeps-name_device : (c : Calls W) (pid : ℕ) → Keeps IsIndexed (name_device c pid)
  unfolding name_device
  Keeps-name_device c pid = record {
    at = λ s h. elim (Bool-cases (ltb 7 (length (s.settings.device_name ++ pid_string pid)))) [
      | inl e ↦ rw (e, After) tt
      | inr e ↦ rw (e, After) (record { fits = h.fits; bounded = h.bounded })
    ];
  }

  Keeps-clear :
      Keeps {W = W} IsIndexed (modify (λ s. record s { fd_table = nulls s.fd_table_size }))
  Keeps-clear = record { at = λ s h. nulls-IsIndexed s }

  Keeps-limits :
      (c : Calls W)
      → Keeps IsIndexed (
          modify (λ (s : Fds W). record s {
            max_fd = c.getrlimit s.world;
            world = c.pico_stack_init s.world;
          }))
  Keeps-limits c = Keeps-modify _ (λ s. refl) (λ s. refl)

  Keeps-pico_dev :
      (d : Option ℕ)
      → Keeps IsIndexed
          (modify (λ (s : Fds W). record s { settings = record s.settings { pico_dev = d } }))
  Keeps-pico_dev d = Keeps-modify _ (λ s. refl) (λ s. refl)

  Keeps-init : (c : Calls W) → Keeps IsIndexed (init c)
  unfolding init
  Keeps-init c =
      search
        (
          keeping_rules, Keeps-clear, Keeps-name_device, Keeps-create_device, Keeps-limits,
          Keeps-pico_dev,
        )
        depth 20

  Keeps-launch : Keeps {W = W} IsIndexed (modify (λ s. record s { thread_launched = true }))
  Keeps-launch = Keeps-modify _ (λ s. refl) (λ s. refl)

  Keeps-mark :
      (i : ℕ) (b : Bool) → Keeps {W = W} IsIndexed (update_elem i (λ e. record e { is_ipv6 = b }))
  Keeps-mark i b = Keeps-update i _ (λ l h. h)

  Keeps-mark_version : (c : Calls W) (net : ℕ) (fd : ℤ) → Keeps IsIndexed (mark_version c net fd)
  unfolding mark_version
  Keeps-mark_version c net fd = search (keeping_rules, Keeps-mark) depth 8

  pub Keeps-open : (c : Calls W) (net proto : ℕ) → Keeps IsIndexed (fd_pico_socket_open c net proto)
  unfolding fd_pico_socket_open
  Keeps-open c net proto =
      search (keeping_rules, Keeps-launch, Keeps-init, Keeps-fd_elem_create, Keeps-mark_version)
        depth 20

  Keeps-bind_ipv4 :
      (c : Calls W) (k : ℕ) (text : List ℕ) (port : ℕ) → Keeps IsIndexed (bind_ipv4 c k text port)
  unfolding bind_ipv4
  Keeps-bind_ipv4 c k text port = search keeping_rules depth 20

  Keeps-wait_link :
      (c : Calls W) (rounds start ip : ℕ) → Keeps IsIndexed (wait_link c rounds start ip)
  unfolding wait_link
  Keeps-wait_link c zero start ip = record { at = λ s h. tt }
  Keeps-wait_link c (suc rounds) start ip = record {
    at = λ s h. elim (Bool-cases (c.pico_ipv6_link_find ip s.world)) [
      | inl e ↦ rw (e, After) h
      | inr e ↦ rw e (elim (Bool-cases (leb 3 (c.time s.world - start))) [
        | inl f ↦ rw (f, After) h
        | inr f ↦ rw f (
            (Keeps-wait_link c rounds start ip).at (record s { world = c.usleep s.world })
              (record { fits = h.fits; bounded = h.bounded }))
      ])
    ];
  }

  Keeps-await_link :
      (c : Calls W) (rounds k ip port : ℕ) → Keeps IsIndexed (await_link c rounds k ip port)
  unfolding await_link
  Keeps-await_link c rounds k ip port = search (keeping_rules, Keeps-wait_link) depth 24

  Keeps-bind_ipv6 :
      (c : Calls W) (rounds k : ℕ) (text : List ℕ) (port : ℕ)
      → Keeps IsIndexed (bind_ipv6 c rounds k text port)
  unfolding bind_ipv6
  Keeps-bind_ipv6 c rounds k text port = search (keeping_rules, Keeps-await_link) depth 24

  pub Keeps-bind :
      (c : Calls W) (rounds : ℕ) (fd : ℤ) (text : List ℕ) (port : ℕ)
      → Keeps IsIndexed (fd_pico_socket_bind c rounds fd text port)
  unfolding fd_pico_socket_bind
  Keeps-bind c rounds fd text port =
      search (keeping_rules, Keeps-get_socket_from_fd, Keeps-bind_ipv4, Keeps-bind_ipv6) depth 12

  pub Keeps-listen :
      (c : Calls W) (fd backlog : ℤ) → Keeps IsIndexed (fd_pico_socket_listen c fd backlog)
  unfolding fd_pico_socket_listen
  Keeps-listen c fd backlog = search (keeping_rules, Keeps-get_socket_from_fd) depth 8

  pub Keeps-connect :
      (c : Calls W) (fd : ℤ) (text : List ℕ) (port : ℕ)
      → Keeps IsIndexed (fd_pico_socket_connect c fd text port)
  unfolding fd_pico_socket_connect
  Keeps-connect c fd text port = search (keeping_rules, Keeps-get_fd_elem_from_fd) depth 8

  pub Keeps-write :
      (c : Calls W) (fd : ℤ) (text : List ℕ) → Keeps IsIndexed (fd_pico_socket_write c fd text)
  unfolding fd_pico_socket_write
  Keeps-write c fd text = search (keeping_rules, Keeps-get_fd_elem_from_fd) depth 8

  Keeps-wait_accept : (c : Calls W) (i : ℕ) (l : FdElem) → Keeps IsIndexed (wait_accept c i l)
  unfolding wait_accept
  Keeps-wait_accept c i l =
      Keeps-if _ _ _ Keeps-block (Keeps-update i _ (λ e h. (h.0, omega (arith, h.1), h.2)))

  Keeps-wait_read : (c : Calls W) (i : ℕ) (l : FdElem) → Keeps IsIndexed (wait_read c i l)
  unfolding wait_read
  Keeps-wait_read c i l =
      Keeps-if _ _ _ Keeps-block (Keeps-update i _ (λ e h. (h.0, h.1, omega (arith, h.2))))

  Keeps-accept_connection :
      (c : Calls W) (b : Bool) (a : Accepted) → Keeps IsIndexed (accept_connection c b a)
  unfolding accept_connection
  Keeps-accept_connection c b a = search (keeping_rules, Keeps-fd_elem_create, Keeps-mark) depth 16

  pub Keeps-accept : (c : Calls W) (fd : ℤ) → Keeps IsIndexed (fd_pico_socket_accept c fd)
  unfolding fd_pico_socket_accept
  Keeps-accept c fd =
      search (keeping_rules, Keeps-get_fd_elem_from_fd, Keeps-wait_accept, Keeps-accept_connection)
        depth 12

  Keeps-consume :
      (i : ℕ) (n : ℤ)
      → Keeps {W = W} IsIndexed
          (update_elem i (λ e. record e { fd_write_count = e.fd_write_count -ℤ n }))
  Keeps-consume i n = Keeps-update i _ (λ l h. h)

  Keeps-drain : (c : Calls W) (rounds i : ℕ) → Keeps IsIndexed (drain c rounds i)
  unfolding drain
  Keeps-drain c zero i = Keeps-fault
  Keeps-drain c (suc rounds) i =
      let more = Keeps-drain c rounds i in
      Keeps->>= _ _ (Keeps-elem_at i) λ l.
        Keeps-if _ _ _
          (Keeps->>= {A = Reply} _ _ (Keeps-outside (c.syscall (sys_read (pos l.fd0) 10)))
            λ r. Keeps->> _ _ (Keeps-consume i r.result) more)
          (Keeps-return tt)

  pub Keeps-read :
      (c : Calls W) (rounds : ℕ) (fd : ℤ) (len : ℕ)
      → Keeps IsIndexed (fd_pico_socket_read c rounds fd len)
  unfolding fd_pico_socket_read
  Keeps-read c rounds fd len =
      search
        (keeping_rules, Keeps-get_fd_elem_from_fd, Keeps-wait_read, Keeps-drain, Keeps-free_read)
        depth 16

  Keeps-free :
      (i : ℕ)
      → Keeps {W = W} IsIndexed (modify (λ s. record s { fd_table = set s.fd_table i none }))
  Keeps-free i = record { at = λ s h. free-IsIndexed s i h }

  Keeps-delete :
      (close : ℤ → M W ℤ) (fd : ℤ)
      → ((k : ℤ) → Keeps IsIndexed (close k))
      → Keeps IsIndexed (fd_elem_delete close fd)
  unfolding fd_elem_delete
  Keeps-delete close fd kc =
      search (keeping_rules, Keeps-get_fd_elem_from_fd, kc, Keeps-free) depth 16

  pub Keeps-close :
      (c : Calls W) (close : ℤ → M W ℤ) (fd : ℤ)
      → ((k : ℤ) → Keeps IsIndexed (close k))
      → Keeps IsIndexed (fd_pico_socket_close c close fd)
  unfolding fd_pico_socket_close
  Keeps-close c close fd kc =
      search (keeping_rules, Keeps-get_socket_from_fd, Keeps-delete, kc) depth 12
