-- ===== src/Ppp/ModemTable.antt =====
-- modules/pico_dev_ppp.c: the transition table of the modem dialogue.
use fd_picotcp.Prelude.{List, [], ◌∷◌}
use fd_picotcp.Ppp.Types.{ModemState, ModemEvent}
use fd_picotcp.Ppp.Handlers.{
  Handler, ppp_modem_send_reset, ppp_modem_send_echo, ppp_modem_send_creg, ppp_modem_send_cgreg,
  ppp_modem_send_cgdcont, ppp_modem_send_cgatt, ppp_modem_send_dial, ppp_modem_connected,
  ppp_modem_disconnected,
}

unfoldable pub ppp_modem_fsm : ModemState → ModemEvent → ModemState × List Handler
ppp_modem_fsm ModemState.initial ModemEvent.start = (ModemState.reset, ppp_modem_send_reset ∷ [])
ppp_modem_fsm ModemState.initial ModemEvent.stop = (ModemState.initial, [])
ppp_modem_fsm ModemState.initial ModemEvent.ok = (ModemState.initial, [])
ppp_modem_fsm ModemState.initial ModemEvent.connect = (ModemState.initial, [])
ppp_modem_fsm ModemState.initial ModemEvent.timeout =
    (ModemState.initial, ppp_modem_send_reset ∷ [])
ppp_modem_fsm ModemState.reset ModemEvent.start = (ModemState.reset, [])
ppp_modem_fsm ModemState.reset ModemEvent.stop = (ModemState.initial, [])
ppp_modem_fsm ModemState.reset ModemEvent.ok = (ModemState.echo, ppp_modem_send_echo ∷ [])
ppp_modem_fsm ModemState.reset ModemEvent.connect = (ModemState.reset, [])
ppp_modem_fsm ModemState.reset ModemEvent.timeout = (ModemState.reset, ppp_modem_send_reset ∷ [])
ppp_modem_fsm ModemState.echo ModemEvent.start = (ModemState.echo, [])
ppp_modem_fsm ModemState.echo ModemEvent.stop = (ModemState.initial, [])
ppp_modem_fsm ModemState.echo ModemEvent.ok = (ModemState.creg, ppp_modem_send_creg ∷ [])
ppp_modem_fsm ModemState.echo ModemEvent.connect = (ModemState.echo, [])
ppp_modem_fsm ModemState.echo ModemEvent.timeout = (ModemState.reset, ppp_modem_send_reset ∷ [])
ppp_modem_fsm ModemState.creg ModemEvent.start = (ModemState.creg, [])
ppp_modem_fsm ModemState.creg ModemEvent.stop = (ModemState.initial, [])
ppp_modem_fsm ModemState.creg ModemEvent.ok = (ModemState.cgreg, ppp_modem_send_cgreg ∷ [])
ppp_modem_fsm ModemState.creg ModemEvent.connect = (ModemState.creg, [])
ppp_modem_fsm ModemState.creg ModemEvent.timeout = (ModemState.reset, ppp_modem_send_reset ∷ [])
ppp_modem_fsm ModemState.cgreg ModemEvent.start = (ModemState.cgreg, [])
ppp_modem_fsm ModemState.cgreg ModemEvent.stop = (ModemState.initial, [])
ppp_modem_fsm ModemState.cgreg ModemEvent.ok = (ModemState.cgdcont, ppp_modem_send_cgdcont ∷ [])
ppp_modem_fsm ModemState.cgreg ModemEvent.connect = (ModemState.cgreg, [])
ppp_modem_fsm ModemState.cgreg ModemEvent.timeout = (ModemState.reset, ppp_modem_send_reset ∷ [])
ppp_modem_fsm ModemState.cgdcont ModemEvent.start = (ModemState.cgdcont, [])
ppp_modem_fsm ModemState.cgdcont ModemEvent.stop = (ModemState.initial, [])
ppp_modem_fsm ModemState.cgdcont ModemEvent.ok = (ModemState.cgatt, ppp_modem_send_cgatt ∷ [])
ppp_modem_fsm ModemState.cgdcont ModemEvent.connect = (ModemState.cgdcont, [])
ppp_modem_fsm ModemState.cgdcont ModemEvent.timeout = (ModemState.reset, ppp_modem_send_reset ∷ [])
ppp_modem_fsm ModemState.cgatt ModemEvent.start = (ModemState.cgatt, [])
ppp_modem_fsm ModemState.cgatt ModemEvent.stop = (ModemState.initial, [])
ppp_modem_fsm ModemState.cgatt ModemEvent.ok = (ModemState.dial, ppp_modem_send_dial ∷ [])
ppp_modem_fsm ModemState.cgatt ModemEvent.connect = (ModemState.cgatt, [])
ppp_modem_fsm ModemState.cgatt ModemEvent.timeout = (ModemState.reset, ppp_modem_send_reset ∷ [])
ppp_modem_fsm ModemState.dial ModemEvent.start = (ModemState.dial, [])
ppp_modem_fsm ModemState.dial ModemEvent.stop = (ModemState.initial, [])
ppp_modem_fsm ModemState.dial ModemEvent.ok = (ModemState.dial, [])
ppp_modem_fsm ModemState.dial ModemEvent.connect = (ModemState.connected, ppp_modem_connected ∷ [])
ppp_modem_fsm ModemState.dial ModemEvent.timeout = (ModemState.reset, ppp_modem_send_reset ∷ [])
ppp_modem_fsm ModemState.connected ModemEvent.start = (ModemState.connected, [])
ppp_modem_fsm ModemState.connected ModemEvent.stop =
    (ModemState.initial, ppp_modem_disconnected ∷ [])
ppp_modem_fsm ModemState.connected ModemEvent.ok = (ModemState.connected, [])
ppp_modem_fsm ModemState.connected ModemEvent.connect = (ModemState.connected, [])
ppp_modem_fsm ModemState.connected ModemEvent.timeout = (ModemState.connected, [])
