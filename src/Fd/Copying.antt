-- ===== src/Fd/Copying.antt =====
-- fede_socket.c beside socket.c.
use fd_picotcp.Prelude.{
  ℕ, Bool, true, false, none, some, ◌≡◌, refl, ap, sym, ◌∙◌, pos, Option, get_elem?, ◌==◌,
  if◌then◌else◌,
}
use fd_picotcp.Fd.Types.{Fds, FdElem}
use fd_picotcp.Fd.Calls.{Calls, Reply, SockAddr}
use fd_picotcp.Fd.Run.{maybe, and_then, return, fault, ◌>>=◌, Run, returns, blocks, faults}
use fd_picotcp.Fd.Functions.{AcceptResult, fd_pico_socket_accept}
use fd_picotcp.Fd.Table.{get_fd_elem_from_fd}
use fd_picotcp.Fd.Lookup.{by_table_own}
use fd_picotcp.Fd.Socket
use fd_picotcp.Fd.Socket.{open_by_type, no_peer, fill_peer, sockaddr_in_size, sockaddr_in6_size}
use fd_picotcp.Fd.Copies.{report_peer, pico_accept}

-- What the copy of `accept` does otherwise: the length of an IPv4 peer stays the caller's.
abbrev shorten_peer : ℕ → Option SockAddr → ℕ → ℕ
shorten_peer len none n = n
shorten_peer len (some a) n = if a.family == 2 then len else n

abbrev pub shorten : ℕ → Reply → Reply
shorten len r = record r { peer_len = shorten_peer len r.peer r.peer_len }

abbrev pub map_result {ℓ κ} : {W : Type 0} {A : Type ℓ} {B : Type κ} → (A → B) → Run W A → Run W B
map_result f (returns a s) = returns (f a) s
map_result f blocks = blocks
map_result f faults = faults

module _ {W : Type 0} (c : Calls W) where
  report_lem :
      (given : Bool) (len : ℕ) (r : AcceptResult) (v : Bool) (l : FdElem) (s : Fds W)
      → l.is_ipv6 ≡ v
      → report_peer c given len r l s ≡ map_result (shorten len) (fill_peer c given r l s)
  unfolding report_peer fill_peer
  report_lem true len r true l s e = rw e refl
  report_lem true len r false l s e = rw e refl
  report_lem false len r v l s e = refl

  found_lem :
      (given : Bool) (len : ℕ) (r : AcceptResult) (found : Run W (Option FdElem))
      → and_then found
          (λ l. maybe l (if given then return (no_peer c) else fault) (report_peer c given len r))
        ≡ map_result (shorten len) (
            and_then found
              (λ l. maybe l (if given then return (no_peer c) else fault) (fill_peer c given r)))
  found_lem true len r (returns none s) = refl
  found_lem false len r (returns none s) = refl
  found_lem given len r (returns (some l) s) = report_lem given len r l.is_ipv6 l s refl
  found_lem given len r blocks = refl
  found_lem given len r faults = refl

  accepted_lem :
      (given : Bool) (len : ℕ) (accepted : Run W AcceptResult)
      → and_then accepted (λ r. get_fd_elem_from_fd r.fd >>= λ l.
          maybe l (if given then return (no_peer c) else fault) (report_peer c given len r))
        ≡ map_result (shorten len) (
            and_then accepted (λ r. get_fd_elem_from_fd r.fd >>= λ l.
            maybe l (if given then return (no_peer c) else fault) (fill_peer c given r)))
  accepted_lem given len (returns r s) = found_lem given len r (get_fd_elem_from_fd r.fd s)
  accepted_lem given len blocks = refl
  accepted_lem given len faults = refl

  -- On an open descriptor, the accept of the test copy is that of socket.c, its waiting and its
  -- faults included, but for one thing: where the peer is an IPv4 address, the length stays the one
  -- that the caller has passed.
  pub accept_copied :
      (fd : ℕ) (given : Bool) (len : ℕ) (l : FdElem) (s : Fds W)
      → get_elem? s.fd_table fd ≡ some (some l)
      → pico_accept c (pos fd) given len s
        ≡ map_result (shorten len) (Socket.accept c (pos fd) given len s)
  unfolding pico_accept Socket.accept
  accept_copied fd given len l s h =
      by_table_own fd s _ _ l h
      ∙ (accepted_lem given len (fd_pico_socket_accept c (pos fd) s)
          ∙ ap (map_result (shorten len)) (sym (by_table_own fd s _ _ l h)))
