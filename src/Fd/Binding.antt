-- ===== src/Fd/Binding.antt =====
-- `bind` of socket.c and `fd_pico_socket_bind` of fd_functions.c.
use fd_picotcp.Prelude.{
  ℕ, ℤ, ◌≡◌, refl, inl, inr, pos, eqb_ℤ, Bool, true, false, List, some, get_elem?, Bool-cases,
  Option-cases,
}
use fd_picotcp.Fd.Types.{
  Fds, FdElem, FdError, fd_invalid_address, fd_invalid_netmask, fd_interface_not_linked,
}
use fd_picotcp.Fd.Calls.{Calls, SockAddr}
use fd_picotcp.Fd.Run.{Run, returns, outside}
use fd_picotcp.Fd.Table.{minus_one}
use fd_picotcp.Fd.Events.{is_ipv4_text, is_ipv6_text}
use fd_picotcp.Fd.Functions.{wait_link, await_link, bind_ipv4, bind_ipv6, fd_pico_socket_bind}
use fd_picotcp.Fd.Socket.{bind, address_text}
use fd_picotcp.Fd.Lookup.{get_socket_at, by_table_own}
use fd_picotcp.Fd.Linking.{Clock, Over, wait_link_ends}

-- The errors that a bind of an open descriptor sets.
pub data Refusal : FdError → Type 0 where
  bad_address : Refusal fd_invalid_address
  bad_netmask : Refusal fd_invalid_netmask
  no_link : Refusal fd_interface_not_linked

module _ {W : Type 0} (c : Calls W) (s : Fds W) where
  -- The device has the address: it had it before, or it has been given it, with the netmask set.
  pub data Linked4 (ip : ℕ) : W → Type 0 where
    had : c.pico_ipv4_link_find ip s.world ≡ true → Linked4 ip s.world
    given :
        (netmask : ℕ)
        → c.pico_string_to_ipv4 s.settings.ipv4_mask_string ≡ some netmask
        → eqb_ℤ (c.pico_ipv4_link_add s.settings.pico_dev ip netmask s.world).0 minus_one ≡ false
        → Linked4 ip (c.pico_ipv4_link_add s.settings.pico_dev ip netmask s.world).1

  -- How a bind ends: refused with an error, or in the bind of the stack, on the address of the text
  -- and the port as they are, when the address is there.
  pub data Outcome (socket port : ℕ) (text : List ℕ) (r : Run W ℤ) : Type 0 where
    refused :
        (e : FdError) (w : W)
        → Refusal e
        → r ≡ returns minus_one (record s { fd_err = e; world = w })
        → Outcome socket port text r
    bound_ipv4 :
        (ip : ℕ) (w : W)
        → is_ipv4_text text ≡ true
        → c.pico_string_to_ipv4 text ≡ some ip
        → Linked4 ip w
        → r ≡ outside (c.pico_socket_bind socket ip port) (record s { world = w })
        → Outcome socket port text r
    bound_ipv6 :
        (ip : ℕ) (w : W)
        → is_ipv4_text text ≡ false
        → is_ipv6_text text ≡ true
        → c.pico_string_to_ipv6 text ≡ some ip
        → c.pico_ipv6_link_find ip w ≡ true
        → r ≡ outside (c.pico_socket_bind socket ip port) (record s { world = w })
        → Outcome socket port text r

  module _ (socket port : ℕ) (text : List ℕ) where
    bind_ipv4-Outcome :
        is_ipv4_text text ≡ true → Outcome socket port text (bind_ipv4 c socket text port s)
    unfolding bind_ipv4
    bind_ipv4-Outcome v4 = elim (Option-cases (c.pico_string_to_ipv4 text)) [
      | inl e ↦ refused fd_invalid_address s.world bad_address (rw e refl)
      | inr (ip, e) ↦ elim (Option-cases (c.pico_string_to_ipv4 s.settings.ipv4_mask_string)) [
        | inl f ↦ refused fd_invalid_netmask s.world bad_netmask (rw e (rw f refl))
        | inr (mask, f) ↦ elim (Bool-cases (c.pico_ipv4_link_find ip s.world)) [
          | inl g ↦ bound_ipv4 ip s.world v4 e (had g) (rw e (rw f (rw g refl)))
          | inr g ↦
              let add = c.pico_ipv4_link_add s.settings.pico_dev ip mask s.world in
              elim (Bool-cases (eqb_ℤ add.0 minus_one)) [
                | inl a ↦
                    refused fd_interface_not_linked add.1 no_link (rw e (rw f (rw g (rw a refl))))
                | inr a ↦ bound_ipv4 ip add.1 v4 e (given mask f a) (rw e (rw f (rw g (rw a refl))))
              ]
        ]
      ]
    ]

    module _ (k : Clock c) (v4 : is_ipv4_text text ≡ false) (v6 : is_ipv6_text text ≡ true) (ip : ℕ)
        (parsed : c.pico_string_to_ipv6 text ≡ some ip) where
      -- After the wait for the link, in a state that differs in what is outside only.
      settled-Outcome :
          (w : W) (b : Bool) (w' : W)
          → wait_link c 3002 (c.time w) ip (record s { world = w })
            ≡ returns b (record s { world = w' })
          → Over c (c.time w) ip b w'
          → Outcome socket port text (await_link c 3002 socket ip port (record s { world = w }))
      unfolding await_link
      settled-Outcome w true w' run over = bound_ipv6 ip w' v4 v6 parsed over (rw run refl)
      settled-Outcome w false w' run over = refused fd_interface_not_linked w' no_link (rw run refl)

      await-Outcome :
          (w : W)
          → Outcome socket port text (await_link c 3002 socket ip port (record s { world = w }))
      await-Outcome w =
          let (b, w', run, over) = wait_link_ends c k (c.time w) ip (record s { world = w }) refl in
          settled-Outcome w b w' run over

    bind_ipv6-Outcome :
        Clock c
        → is_ipv4_text text ≡ false
        → is_ipv6_text text ≡ true
        → Outcome socket port text (bind_ipv6 c 3002 socket text port s)
    unfolding bind_ipv6
    bind_ipv6-Outcome k v4 v6 = elim (Option-cases (c.pico_string_to_ipv6 text)) [
      | inl e ↦ refused fd_invalid_address s.world bad_address (rw e refl)
      | inr (ip, e) ↦ elim (Option-cases (c.pico_string_to_ipv6 s.settings.ipv6_mask_string)) [
        | inl f ↦ refused fd_invalid_netmask s.world bad_netmask (rw e (rw f refl))
        | inr (mask, f) ↦ elim (Bool-cases (c.pico_ipv6_link_find ip s.world)) [
          | inl g ↦ rw e (rw f (rw g (await-Outcome k v4 v6 ip e s.world)))
          | inr g ↦
              let add = c.pico_ipv6_link_add s.settings.pico_dev ip mask s.world in
              elim (Bool-cases add.0) [
                | inl a ↦ rw e (rw f (rw g (rw a (await-Outcome k v4 v6 ip e add.1))))
                | inr a ↦
                    refused fd_interface_not_linked add.1 no_link (rw e (rw f (rw g (rw a refl))))
              ]
        ]
      ]
    ]

    text-Outcome :
        Clock c
        → (fd : ℕ) (l : FdElem) → get_elem? s.fd_table fd ≡ some (some l)
        → l.socket ≡ socket
        → Outcome socket port text (fd_pico_socket_bind c 3002 (pos fd) text port s)
    unfolding fd_pico_socket_bind
    text-Outcome k fd l h same = rw (get_socket_at fd s l h) (
        rw same (elim (Bool-cases (is_ipv4_text text)) [
          | inl e ↦ rw e (bind_ipv4-Outcome e)
          | inr e ↦ elim (Bool-cases (is_ipv6_text text)) [
            | inl f ↦ rw e (rw f (bind_ipv6-Outcome k e f))
            | inr f ↦ refused fd_invalid_address s.world bad_address (rw e (rw f refl))
          ]
        ]))

  -- A bind of an open descriptor comes back, within 3002 rounds of the wait for a link, on a clock that
  -- moves on in each sleep. Either it is refused, with one of three errors set, or it is the
  -- stack's bind of the descriptor's socket, on the address that its text stands for and the port,
  -- when the device has the address, which for IPv6 is the case at that very moment. The table and
  -- the settings are as they were.
  pub bind_lem :
      Clock c
      → (fd addrlen : ℕ) (l : FdElem) (a : SockAddr) (text : List ℕ)
      → get_elem? s.fd_table fd ≡ some (some l)
      → address_text c a addrlen ≡ some text
      → Outcome l.socket a.port text (bind c 3002 (pos fd) a addrlen s)
  unfolding bind
  bind_lem k fd addrlen l a text h shown =
      rw (by_table_own fd s _ _ l h) (rw shown (text-Outcome l.socket a.port text k fd l h refl))
