-- ===== src/Ppp/Session/Receiving.antt =====
-- Received packets and modem answers in modules/pico_dev_ppp.c keep the layers, whatever they hold.
use fd_picotcp.Prelude.{
  ℕ, ◌+◌, inl, inr, Bool-cases, Option, none, some, ◌>>=◌, Bool, true, false, ◌&&◌, ◌||◌, ◌≡◌, refl,
  sym, bit_and, bit_xor, subst, ◌==◌, if◌then◌else◌, drop,
}
use mathlib.Core.Option.{some-injective}
use fd_picotcp.Ppp.Types.{Ppp, LcpEvent, byte, pppf_addr, pppf_ctrl}
use fd_picotcp.Ppp.Wire.{u32, ppp_fcs_verify}
use fd_picotcp.Ppp.Lcp.{OptScan, lcp_optflags}
use fd_picotcp.Ppp.Engine.{Event, lcp, evaluate, depth}
use fd_picotcp.Ppp.Ipcp.{ipcp_reject_vj}
use fd_picotcp.Ppp.LcpInput.{
  lcp_process_in, lcp_configure_request, pap_process_in, chap_process_in, adjust, set_request,
  set_lcpopt,
}
use fd_picotcp.Ppp.IpcpInput.{
  IpcpScan, ipcp_options, ipcp_process_in, ipcp_dispatch, take_ipcp_scan,
}
use fd_picotcp.Ppp.Input.{data_in, ppp_process_packet_payload, ppp_process_packet}
use fd_picotcp.Ppp.Control.Layers.{IsLayered, is_external}
use fd_picotcp.Ppp.Control.Agree.{Stays, evaluate-Stays}

pub Stays-if : (b : Bool) (x y : Option Ppp) → Stays x → Stays y → Stays (if b then x else y)
Stays-if true x y p q = p
Stays-if false x y p q = q

pub Stays-some : (s : Ppp) → IsLayered s.control → Stays (some s)
Stays-some s v = record {
  layered = λ t e. subst (λ (u : Ppp). IsLayered u.control) (some-injective s t e) v;
}

Stays-none : Stays none
Stays-none = record { layered = λ t e. cc }

Stays-scan :
    {A : Type 0} (r : Option A) (f : A → Option Ppp) → ((a : A) → Stays (f a)) → Stays (r >>= f)
Stays-scan none f k = Stays-none
Stays-scan (some a) f k = k a

pub Stays->>= :
    (r : Option Ppp) (f : Ppp → Option Ppp)
    → Stays r
    → ((t : Ppp) → IsLayered t.control → Stays (f t))
    → Stays (r >>= f)
Stays->>= none f p k = Stays-none
Stays->>= (some t) f p k = k t (p.layered t refl)

module _ (s : Ppp) (v : IsLayered s.control) where
  -- An event on a device whose states are those of `s`.
  raised :
      (e : Event) (t : Ppp)
      → is_external e ≡ true
      → t.control ≡ s.control
      → Stays (evaluate depth e t)
  raised e t x same = evaluate-Stays e t x (subst IsLayered (sym same) v)

  unmoved : Stays (some s)
  unmoved = Stays-some s v

  configure_request-Stays : (p len : ℕ) (r : OptScan) → Stays (lcp_configure_request s p len r)
  unfolding lcp_configure_request adjust set_request set_lcpopt
  configure_request-Stays p len r =
      Stays-if (bit_and r.flags (bit_xor s.lcpopt_local 0xffff) == 0) _ _ (raised _ _ refl refl)
        (raised _ _ refl refl)

  lcp-Stays : (p len : ℕ) → Stays (lcp_process_in s p len)
  unfolding lcp_process_in adjust set_lcpopt
  lcp-Stays p len =
      let code = byte (drop p s.recv_buf) 0 in
      let scan = lcp_optflags s.mru s.config.auth (drop p s.recv_buf) len in
      Stays-if (code == 1) _ _ (Stays-scan scan _ (λ r. configure_request-Stays p len r)) (
        Stays-if (code == 2) _ _ (raised _ _ refl refl) (
          Stays-if (code == 3) _ _ (Stays-scan scan _ (λ r. raised _ (adjust s r) refl refl)) (
            Stays-if (code == 4) _ _
              (Stays-scan scan _ (λ r.
                raised (lcp LcpEvent.rcn)
                  (set_lcpopt s (bit_and s.lcpopt_local (bit_xor r.flags 0xffff)) s.lcpopt_peer)
                  refl refl))
              (Stays-if (code == 9) _ _ (raised _ _ refl refl) unmoved))))

  pap-Stays : (p len : ℕ) → Stays (pap_process_in s p len)
  unfolding pap_process_in
  pap-Stays p len =
      let code = byte (drop p s.recv_buf) 0 in
      Stays-if (s.config.auth == 0xc023) _ _
        (Stays-if (code == 2) _ _ (raised _ _ refl refl)
          (Stays-if (code == 3) _ _ (raised _ _ refl refl) unmoved))
        unmoved

  chap-Stays : (p len : ℕ) → Stays (chap_process_in s p len)
  unfolding chap_process_in set_request
  chap-Stays p len =
      let code = byte (drop p s.recv_buf) 0 in
      Stays-if (s.config.auth == 0xc223) _ _
        (Stays-if (code == 1) _ _ (raised _ _ refl refl) (
          Stays-if (code == 3) _ _ (raised _ _ refl refl)
            (Stays-if (code == 4) _ _ (raised _ _ refl refl) unmoved)))
        unmoved

  dispatch-Stays : (code : ℕ) (t : Ppp) → t.control ≡ s.control → Stays (ipcp_dispatch code t)
  unfolding ipcp_dispatch
  dispatch-Stays code t same = Stays-if (code == 2) _ _ (raised _ _ refl same) (
      Stays-if (code == 1) _ _ (raised _ _ refl same) (
        Stays-if (code == 3) _ _ (raised _ _ refl same) (
          Stays-if (code == 4) _ _ (raised _ _ refl same)
            (Stays-some t (subst IsLayered (sym same) v)))))

  ipcp-Stays : (p len : ℕ) → Stays (ipcp_process_in s p len)
  unfolding ipcp_process_in take_ipcp_scan set_request
  ipcp-Stays p len =
      let m = drop p s.recv_buf in
      let start : IpcpScan = record {
        allowed = s.ipcp_allowed_fields;
        addresses = s.addresses;
        reject = 0;
        offset = 4;
      } in
      Stays-scan (ipcp_options (len + 1) (byte m 0) m len start) _ λ (r : IpcpScan).
        let s' = take_ipcp_scan s r in
        Stays-if (r.reject == 0) _ _ (dispatch-Stays (byte m 0) (set_request s' p len s'.rej) refl)
          (Stays-some (record s' { io = ipcp_reject_vj s' (drop r.offset m) }) v)

  data-Stays : (p len : ℕ) → Stays (some (data_in s p len))
  unfolding data_in
  data-Stays p len =
      let m = drop p s.recv_buf in
      elim (Bool-cases (byte m 0 == 0x21 || byte m 0 == 0x57)) [
        | inl e ↦ rw e (Stays-some _ v)
        | inr e ↦ rw e (Stays-some s v)
      ]

  payload-Stays : (p len : ℕ) → Stays (ppp_process_packet_payload s p len)
  unfolding ppp_process_packet_payload
  payload-Stays p len =
      let m = drop p s.recv_buf in
      Stays-if (byte m 0 == 0xc0) _ _
        (Stays-if (byte m 1 == 0x21) _ _ (lcp-Stays _ _)
          (Stays-if (byte m 1 == 0x23) _ _ (pap-Stays _ _) unmoved))
        (Stays-if (byte m 0 == 0xc2 && byte m 1 == 0x23) _ _ (chap-Stays _ _) (
          Stays-if (byte m 0 == 0x80) _ _ (Stays-if (byte m 1 == 0x21) _ _ (ipcp-Stays _ _) unmoved)
            (Stays-if (byte m 0 == 0x00) _ _ (data-Stays (p + 1) (u32 (len + 4294967295)))
              (data-Stays p len))))

  pub packet-Stays : (len : ℕ) → Stays (ppp_process_packet s len)
  unfolding ppp_process_packet
  packet-Stays len =
      let m = s.recv_buf in
      Stays-if (ppp_fcs_verify m len) _ _
        (Stays-if (byte m 0 == pppf_addr && byte m 1 == pppf_ctrl) _ _
          (payload-Stays 2 (u32 (u32 (len + 4294967294) + 4294967294)))
          (payload-Stays 0 (u32 (len + 4294967294))))
        unmoved
