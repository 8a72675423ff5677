-- ===== src/Fd/Addressing.antt =====
-- The wrapper on the stack's own functions for addresses: addresses become texts in socket.c, and
-- numbers again in fd_functions.c.
use fd_picotcp.Prelude.{
  ℕ, ℤ, pos, ◌^◌, ◌<◌, ◌≡◌, refl, ap, sym, ◌∙◌, ◌⊎◌, inl, inr, true, false, List, [], ◌∷◌, ◌++◌,
  some, get_elem?, ◌==◌, Bool-cases, ==_refl, subst,
}
use fd_picotcp.Fd.Types.{Fds, FdElem, FdError}
use fd_picotcp.Fd.Calls.{Calls, SockAddr}
use fd_picotcp.Fd.Run.{Run, returns, outside}
use fd_picotcp.Fd.Table.{minus_one}
use fd_picotcp.Fd.Events.{is_ipv4_text, contains}
use fd_picotcp.Fd.Functions.{fd_pico_socket_connect}
use fd_picotcp.Fd.Socket.{connect, address_text}
use fd_picotcp.Fd.Lookup.{get_fd_elem_at, by_table_own}
use fd_picotcp.Fd.Binding.{Refusal, Linked4, Outcome, bound_ipv4, bound_ipv6, refused, bind_lem}
use fd_picotcp.Fd.Linking.{Clock}
use fd_picotcp.Fd.Socket.{bind}
use fd_picotcp.Pico.Words.{byte_of}
use fd_picotcp.Pico.Addresses.{pico_ipv4_to_string, pico_string_to_ipv4, octet}
use fd_picotcp.Pico.Addresses.Text.{ipv4_text_lem}

-- The stack's functions are those of pico_ipv4.c, and inet_ntoa prints the four bytes in decimal,
-- with full stops between them.
pub record Resolves {W : Type 0} (c : Calls W) : Type 0 where
  pub reads : (text : List ℕ) → c.pico_string_to_ipv4 text ≡ pico_string_to_ipv4 text
  pub prints : (ip : ℕ) → c.inet_ntoa ip ≡ pico_ipv4_to_string ip

contains_here : (x : ℕ) (text more : List ℕ) → contains x (text ++ (x ∷ more)) ≡ true
unfolding contains
contains_here x [] more = rw (==_refl x) refl
contains_here x (b ∷ text) more = elim (Bool-cases (b == x)) [
  | inl e ↦ rw e refl
  | inr e ↦ rw e (contains_here x text more)
]

printed_lem : (ip : ℕ) → is_ipv4_text (pico_ipv4_to_string ip) ≡ true
unfolding is_ipv4_text pico_ipv4_to_string
printed_lem ip = contains_here 46 (octet (byte_of ip 0)) _

some-injective : {x y : ℕ} → some x ≡ some y → x ≡ y
some-injective h = cc

module _ {W : Type 0} (c : Calls W) (r : Resolves c) (fd : ℕ) (l : FdElem) (a : SockAddr)
    (s : Fds W) (ip : a.addr < 2 ^ 32) (open_fd : get_elem? s.fd_table fd ≡ some (some l)) where
  read_back : c.pico_string_to_ipv4 (c.inet_ntoa a.addr) ≡ some a.addr
  read_back = rw (r.prints a.addr, r.reads (pico_ipv4_to_string a.addr)) (ipv4_text_lem a.addr ip)

  -- A connect of an IPv4 socket to an IPv4 address reaches the stack with the socket of the
  -- descriptor and with the address and the port as they are, and returns what the stack returns.
  pub connect_reaches :
      l.is_ipv6 ≡ false
      → connect c (pos fd) a 16 s ≡ outside (c.pico_socket_connect l.socket a.addr a.port) s
  unfolding connect address_text fd_pico_socket_connect
  connect_reaches v =
      by_table_own fd s _ _ l open_fd ∙ rw (get_fd_elem_at fd s (some l) open_fd, v, read_back) refl

  text_lem : address_text c a 16 ≡ some (c.inet_ntoa a.addr)
  unfolding address_text
  text_lem = refl

  reached :
      (run : Run W ℤ)
      → Outcome c s l.socket a.port (c.inet_ntoa a.addr) run
      → ((e : FdError) × (w : W) × Refusal e
          × (run ≡ returns minus_one (record s { fd_err = e; world = w })))
        ⊎ ((w : W) × Linked4 c s a.addr w
            × (run ≡ outside (c.pico_socket_bind l.socket a.addr a.port) (record s { world = w })))
  reached run (refused e w q h) = inl (e, w, q, h)
  reached run (bound_ipv4 ip' w v p k h) =
      let same : ip' ≡ a.addr = some-injective (sym p ∙ read_back) in
      inr (
        w,
        subst (λ x. Linked4 c s x w) same k,
        h ∙ ap (λ x. outside (c.pico_socket_bind l.socket x a.port) (record s { world = w })) same,
      )
  reached run (bound_ipv6 ip' w v v6 p k h) =
      absurd (cc (v, ap is_ipv4_text (r.prints a.addr), printed_lem a.addr))

  -- A bind to an IPv4 address is refused, with one of three errors set, or it reaches the stack with
  -- the socket of the descriptor and with the address and the port as they are, when the device has
  -- the address.
  pub bind_reaches :
      Clock c
      → ((e : FdError) × (w : W) × Refusal e
          × (bind c 3002 (pos fd) a 16 s ≡ returns minus_one (record s { fd_err = e; world = w })))
        ⊎ ((w : W) × Linked4 c s a.addr w
            × (bind c 3002 (pos fd) a 16 s
                ≡ outside (c.pico_socket_bind l.socket a.addr a.port) (record s { world = w })))
  bind_reaches k =
      reached (bind c 3002 (pos fd) a 16 s)
        (bind_lem c s k fd 16 l a (c.inet_ntoa a.addr) open_fd text_lem)
