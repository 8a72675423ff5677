-- ===== src/Fd/Accepting.antt =====
-- `accept` of socket.c.
use fd_picotcp.Prelude.{
  ℕ, suc, ◌-◌, ◌*◌, ◌<◌, ◌≡◌, ◌≢◌, refl, ap, ◌∙◌, arith, pos, ltb_ℤ, Bool, true, false, none, some,
  length, get_elem?, set, ◌==◌, get_elem?-set, get_elem?-set_other, get_elem?-in, length-set, sym,
  List, [], Option, if◌then◌else◌,
}
use fd_picotcp.Fd.Types.{Fds, FdElem}
use fd_picotcp.Fd.Calls.{Calls, Accepted, SockAddr}
use fd_picotcp.Fd.Run.{returns, faults}
use fd_picotcp.Fd.Table.{get_fd_elem_from_fd, new_elem}
use fd_picotcp.Fd.Functions.{AcceptResult, fd_pico_socket_accept, accept_connection, wait_accept}
use fd_picotcp.Fd.Socket.{accept, fill_peer, sockaddr_in_size, sockaddr_in6_size}
use fd_picotcp.Fd.Creating.{Provides, fd_elem_create_lem}
use fd_picotcp.Fd.Lookup.{get_fd_elem_at, update_elem_lem, by_table_own}

module _ {W : Type 0} (c : Calls W) (fd v : ℕ) (l : FdElem) (s : Fds W)
    (h : get_elem? s.fd_table fd ≡ some (some l)) (free : l.accept_sem ≡ suc v) where
  wait_accept_lem :
      wait_accept c fd l s
      ≡ returns tt (record s { fd_table = set s.fd_table fd (some (record l { accept_sem = v })) })
  unfolding wait_accept
  wait_accept_lem =
      let test : (l.accept_sem == 0) ≡ false = rw free (ground arith) in
      let less : l.accept_sem - 1 ≡ v = omega arith in
      rw test (
        update_elem_lem fd s (λ x. record x { accept_sem = x.accept_sem - 1 }) l h
        ∙ ap
            (λ n.
              returns tt
                (record s { fd_table = set s.fd_table fd (some (record l { accept_sem = n })) }))
            less)

  -- Where the semaphore of an open descriptor is free but the stack has no connection, the
  -- descriptor -1 of the failed call is looked up in the table, outside the array.
  pub accept_without_connection :
      (given : Bool) (len : ℕ)
      → (c.pico_socket_accept l.socket s.world).0 ≡ none
      → accept c (pos fd) given len s ≡ faults
  unfolding accept fd_pico_socket_accept get_fd_elem_from_fd
  accept_without_connection given len nothing =
      by_table_own fd s _ _ l h
      ∙ rw (get_fd_elem_at fd s (some l) h) (rw wait_accept_lem (rw nothing refl))

nonneg : (n : ℕ) → ltb_ℤ (pos n) (pos 0) ≡ false
nonneg n = ground arith

module _ {W : Type 0} (c : Calls W) where
  -- The peer as the caller sees it: its address goes by way of a text.
  abbrev pub peer_of : Bool → Accepted → SockAddr
  peer_of true a = record {
    family = 10;
    port = a.port;
    addr = c.inet_pton (c.pico_ipv6_to_string a.addr);
  }
  peer_of false a = record {
    family = 2;
    port = a.port;
    addr = c.inet_addr (c.pico_ipv4_to_string a.addr);
  }

  abbrev pub peer_size : Bool → ℕ
  peer_size true = sockaddr_in6_size
  peer_size false = sockaddr_in_size

  abbrev accepted_as : Bool → Accepted → ℕ → AcceptResult
  accepted_as b a fd0 = record {
    fd = pos fd0;
    str_addr = if b then c.pico_ipv6_to_string a.addr else c.pico_ipv4_to_string a.addr;
    port = a.port;
  }

  -- The element of a connection, in a table where every other entry is as `before`.
  pub record Joins (b : Bool) (a : Accepted) (fd0 fd1 : ℕ) (before : List (Option FdElem))
      (t : Fds W) : Type 0 where
    pub elem :
        get_elem? t.fd_table fd0 ≡ some (some (record (new_elem fd0 fd1 a.socket) { is_ipv6 = b }))
    pub others : (i : ℕ) → i ≢ fd0 → i < length before → get_elem? t.fd_table i ≡ get_elem? before i

  module _ (p : Provides c) where
    accept_connection_lem :
        (b : Bool) (a : Accepted) (fd0 fd1 : ℕ) (w : W) (s : Fds W)
        → c.pipe s.world ≡ (some (fd0, fd1), w)
        → length s.fd_table ≡ s.fd_table_size
        → fd0 < 2 * s.fd_table_size
        → (fd0 < s.fd_table_size → get_elem? s.fd_table fd0 ≡ some none)
        → ltb_ℤ s.max_fd (pos (2 * s.fd_table_size)) ≡ false
        → (t : Fds W) × (accept_connection c b a s ≡ returns (accepted_as b a fd0) t)
          × Joins b a fd0 fd1 s.fd_table t
    unfolding accept_connection new_elem
    accept_connection_lem true a fd0 fd1 w s ends same lt free allowed =
        let (t, made, at, others) =
          fd_elem_create_lem c p fd0 fd1 a.socket (record s { world = w }) same lt free allowed in
        let l : FdElem = record (new_elem fd0 fd1 a.socket) { is_ipv6 = true } in
        (
          record t { fd_table = set t.fd_table fd0 (some l) },
          rw ends (
              rw made (
                rw (nonneg fd0) (
                  rw
                    (update_elem_lem fd0 t (λ e. record e { is_ipv6 = true })
                      (new_elem fd0 fd1 a.socket) at)
                    refl))),
          record {
            elem = get_elem?-set t.fd_table fd0 (some l) at;
            others = λ i ne h. get_elem?-set_other t.fd_table fd0 i (some l) ne ∙ others i ne h;
          },
        )
    accept_connection_lem false a fd0 fd1 w s ends same lt free allowed =
        let (t, made, at, others) =
          fd_elem_create_lem c p fd0 fd1 a.socket (record s { world = w }) same lt free allowed in
        (t, rw ends (rw made (rw (nonneg fd0) refl)), record { elem = at; others = others })

  fill_peer_lem :
      (b : Bool) (a : Accepted) (fd0 : ℕ) (l : FdElem) (s : Fds W)
      → l.is_ipv6 ≡ b
      → fill_peer c true (accepted_as b a fd0) l s
        ≡ returns
            (record {
              result = pos fd0;
              bytes = [];
              peer = some (peer_of b a);
              peer_len = peer_size b;
            })
            s
  unfolding fill_peer
  fill_peer_lem true a fd0 l s e = rw e refl
  fill_peer_lem false a fd0 l s e = rw e refl

  module _ (p : Provides c) where
    -- Where the semaphore of an open descriptor is free, the stack has a connection, and its pipe fits
    -- into the table, an accept returns the read end of the pipe, with the peer in the form of the
    -- listening socket's IP version. The connection's element has that version, the listening
    -- element has one accept less to come, and every other entry is as it was.
    pub accept_lem :
        (fd len v fd0 fd1 : ℕ) (l : FdElem) (a : Accepted) (w w' : W) (s : Fds W)
        → get_elem? s.fd_table fd ≡ some (some l)
        → l.accept_sem ≡ suc v
        → c.pico_socket_accept l.socket s.world ≡ (some a, w)
        → c.pipe w ≡ (some (fd0, fd1), w')
        → length s.fd_table ≡ s.fd_table_size
        → fd0 < 2 * s.fd_table_size
        → (fd0 < s.fd_table_size → get_elem? s.fd_table fd0 ≡ some none)
        → ltb_ℤ s.max_fd (pos (2 * s.fd_table_size)) ≡ false
        → (t : Fds W) × (accept c (pos fd) true len s
            ≡ returns
                (record {
                  result = pos fd0;
                  bytes = [];
                  peer = some (peer_of l.is_ipv6 a);
                  peer_len = peer_size l.is_ipv6;
                })
                t)
          × Joins l.is_ipv6 a fd0 fd1 (set s.fd_table fd (some (record l { accept_sem = v }))) t
          × (get_elem? t.fd_table fd ≡ some (some (record l { accept_sem = v })))
    unfolding accept fd_pico_socket_accept
    accept_lem fd len v fd0 fd1 l a w w' s h free given ends same lt vacant allowed =
        let l1 : FdElem = record l { accept_sem = v } in
        let s1 : Fds W = record s { fd_table = set s.fd_table fd (some l1) } in
        let inside : fd < length s.fd_table = get_elem?-in s.fd_table fd h in
        let apart : fd0 ≢ fd = λ e.
          let clash : some none ≡ some (some l) =
            sym (vacant (omega arith)) ∙ (ap (get_elem? s.fd_table) e ∙ h) in
          cc in
        let (t, run, joins) =
          accept_connection_lem p l.is_ipv6 a fd0 fd1 w' (record s1 { world = w }) ends
            (length-set s.fd_table fd (some l1) ∙ same) lt
            (λ b. get_elem?-set_other s.fd_table fd fd0 (some l1) apart ∙ vacant b) allowed in
        (
          t,
          by_table_own fd s _ _ l h
              ∙ rw (get_fd_elem_at fd s (some l) h) (
                  rw (wait_accept_lem c fd v l s h free) (
                    rw given (
                      rw run (
                        rw (get_fd_elem_at fd0 t (some _) joins.elem)
                          (fill_peer_lem l.is_ipv6 a fd0 _ t refl))))),
          joins,
          joins.others fd (λ e. apart (sym e)) (omega (arith, length-set s.fd_table fd (some l1)))
              ∙ get_elem?-set s.fd_table fd (some l1) h,
        )
