-- ===== src/Ppp/Poll.antt =====
-- modules/pico_dev_ppp.c: `pico_ppp_poll`, which takes bytes from the serial line, and the dialogue
-- with the modem. What `serial_recv` yields until it has no more is a list of bytes.
use fd_picotcp.Prelude.{
  codes, ℕ, ◌+◌, ◌-◌, bit_xor, Bool, true, false, ◌&&◌, List, [], ◌∷◌, Option, some, ◌>>=◌, ◌==◌,
  ltb, if◌then◌else◌, take, set,
}
use fd_picotcp.Ppp.Types.{Ppp, ModemState, ModemEvent, ppp_maxpkt, pppf_flag_seq, pppf_ctrl_esc}
use fd_picotcp.Ppp.Engine.{modem, evaluate, depth}
use fd_picotcp.Ppp.Input.{ppp_process_packet}

-- The static variables of `pico_ppp_poll`.
pub record Line : Type 0 where
  pub at : ℕ
  pub control_escape : Bool
  pub s3 : Bool

-- `ppp_recv_buf[i] = b`. Outside the array, where C writes on, nothing is stored here.
unfoldable pub store : Ppp → ℕ → ℕ → Ppp
store s i b = record s { request = record s.request { recv_buf = set s.recv_buf i b } }

unfoldable pub c_string : List ℕ → List ℕ
c_string [] = []
c_string (b ∷ m) = let rest = c_string m in if b == 0 then [] else b ∷ rest

unfoldable pub same_bytes : List ℕ → List ℕ → Bool
same_bytes [] [] = true
same_bytes [] (b ∷ bs) = false
same_bytes (a ∷ as') [] = false
same_bytes (a ∷ as') (b ∷ bs) = a == b && same_bytes as' bs

unfoldable pub raise_if : Bool → ModemEvent → Ppp → Option Ppp
raise_if test e s = let r = evaluate depth (modem e) s in if test then r else some s

unfoldable pub ppp_modem_recv : Ppp → ℕ → Option Ppp
unfolding c_string same_bytes raise_if
ppp_modem_recv s len =
    let text = c_string (take len s.recv_buf) in
    raise_if (same_bytes text (codes "OK")) ModemEvent.ok s >>= λ s1.
    raise_if (same_bytes text (codes "ERROR")) ModemEvent.stop s1 >>= λ s2.
    raise_if (same_bytes (take 7 text) (codes "CONNECT")) ModemEvent.connect s2

-- The device, the line, and what is left of the loop's score.
pub record Polled : Type 0 where
  pub device : Ppp
  pub line : Line
  pub score : ℕ

unfoldable pub receive_flag : Ppp → Line → ℕ → Option Polled
receive_flag s l score =
    let at = if l.control_escape then 0 else l.at in
    if ltb 1 at
    then (ppp_process_packet s at >>= λ t. some (record {
      device = t;
      line = record l { at = 0; control_escape = false };
      score = score - 1;
    }))
    else some
        (record { device = s; line = record l { at = at; control_escape = false }; score = score })

-- A byte that stands in the buffer already, while the modem is connected.
unfoldable pub connected_byte : Ppp → Line → ℕ → ℕ → Option Polled
unfolding receive_flag store
connected_byte s l score b =
    if b == pppf_flag_seq
    then receive_flag s l score
    else (if l.control_escape
        then some (record {
          device = store s l.at (bit_xor b 0x20);
          line = record l { at = l.at + 1; control_escape = false };
          score = score;
        })
        else (if b == pppf_ctrl_esc
            then some
                (record { device = s; line = record l { control_escape = true }; score = score })
            else some (record { device = s; line = record l { at = l.at + 1 }; score = score })))

-- The same while it is not: a line of text ends with a carriage return.
unfoldable pub modem_byte : Ppp → Line → ℕ → ℕ → Option Polled
unfolding store
modem_byte s l score b =
    if b == 0x0d
    then (if ltb 0 l.at
        then (ppp_modem_recv (store s l.at 0) l.at >>= λ t.
            some (record { device = t; line = record l { at = 0; s3 = true }; score = score }))
        else some (record { device = s; line = record l { s3 = true }; score = score }))
    else (if b == 0x0a
        then some (record {
          device = s;
          line = record l { at = if l.s3 then l.at else l.at + 1; s3 = false };
          score = score;
        })
        else some
            (record { device = s; line = record l { at = l.at + 1; s3 = false }; score = score }))

abbrev pub modem_connected : ModemState → Bool
modem_connected ModemState.connected = true
modem_connected _ = false

unfoldable pub poll_byte : Ppp → Line → ℕ → ℕ → Option Polled
unfolding store connected_byte modem_byte
poll_byte s l score b =
    let s' = store s l.at b in
    if modem_connected s.modem_state then connected_byte s' l score b else modem_byte s' l score b

-- The loop on what the line yields. It leaves bytes unread when the buffer or the score runs out.
unfoldable pub poll_loop : List ℕ → Ppp → Line → ℕ → Option Polled
unfolding poll_byte
poll_loop [] s l score = some (record { device = s; line = l; score = score })
poll_loop (b ∷ bs) s l score = poll_byte s l score b >>= λ r.
    (let rest = poll_loop bs r.device r.line r.score in
      if ltb r.line.at ppp_maxpkt && ltb 0 r.score then rest else some r)

unfoldable pub pico_ppp_poll : List ℕ → Ppp → Line → ℕ → Option Polled
unfolding poll_loop
pico_ppp_poll input s l score =
    if s.serial_recv
    then poll_loop input s l score
    else some (record { device = s; line = l; score = score })
