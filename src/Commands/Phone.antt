-- ===== src/Commands/Phone.antt =====
-- The handlers of bin/commands.c for the modem and for voice over IP. `argv` begins with the name of
-- the command, has `argc` strings and no NULL among them.
use rcrpc.Base.{
  ℕ, ◌%◌, ◌^◌, not, if◌then◌else◌, Option, none, some, List, [], ◌∷◌, get_elem?, get_or, ℤ, neg,
  is_neg, einval,
}
use rcrpc.Names.Tables.{codes}
use rcrpc.Phone.Modem.{
  ModemStubs, remote_modem_init, remote_modem_deinit, remote_modem_pick_up, remote_modem_hang_up,
  remote_modem_dial,
}
use rcrpc.Phone.Voip.{
  VoipStubs, Account, remote_voip_login, remote_voip_logout, remote_voip_connect_to,
  remote_voip_accept_incoming, remote_voip_disconnect, remote_voip_dial,
}
use rcrpc.Commands.Numbers.{strtoul}
use rcrpc.Commands.IrqPoll.{Line}
use rcrpc.Commands.Gpio.{error_line}
use rcrpc.Commands.Lines.{line, ended, ended_line, text_or_null}

module _ {W : Type 0} (stubs : ModemStubs W) where
  -- The result, the lines and the state. Without a number the NULL behind the last argument is sent.
  abbrev pub exec_modem_call : List (List ℕ) → W → ℤ × List Line × W
  exec_modem_call argv w = ended (remote_modem_dial stubs (get_elem? argv 1) w)

  abbrev pub exec_modem_accept : List (List ℕ) → W → ℤ × List Line × W
  exec_modem_accept argv w = ended (remote_modem_pick_up stubs w)

  abbrev pub exec_modem_terminate : List (List ℕ) → W → ℤ × List Line × W
  exec_modem_terminate argv w = ended (remote_modem_hang_up stubs w)

  unfoldable pub exec_modem_reset : List (List ℕ) → W → ℤ × List Line × W
  exec_modem_reset argv w =
      let (err, w') = remote_modem_deinit stubs w in
      if is_neg err then (err, error_line err ∷ [], w') else ended (remote_modem_init stubs w')

module _ {W : Type 0} (stubs : VoipStubs W) where
  -- The login with the port that was read.
  unfoldable pub login_with : List (List ℕ) → ℕ → W → Option (ℤ × List Line × W)
  login_with argv port w =
      let account : Account = record {
        proxy = get_elem? argv 1;
        port = port;
        username = get_elem? argv 3;
        password = get_elem? argv 4;
      } in
      elim (remote_voip_login stubs account w) [ none ↦ none | some result ↦ some (ended result) ]

  -- `none` is undefined behaviour of the client library.
  unfoldable pub exec_voip_login : List (List ℕ) → W → Option (ℤ × List Line × W)
  unfolding login_with
  exec_voip_login argv w = elim (get_elem? argv 2) [
    | none ↦ login_with argv 0 w
    | some text ↦
        let (port, found) = strtoul 0 text in
        if not found then some (neg einval, [], w) else login_with argv (port % 2 ^ 16) w
  ]

  abbrev pub exec_voip_logout : List (List ℕ) → W → ℤ × List Line × W
  exec_voip_logout argv w = ended (remote_voip_logout stubs w)

  abbrev pub exec_voip_call : List (List ℕ) → W → ℤ × List Line × W
  exec_voip_call (name ∷ uri ∷ rest) w = ended (remote_voip_connect_to stubs uri w)
  exec_voip_call _ w = (neg einval, [], w)

  abbrev pub exec_voip_accept : List (List ℕ) → W → ℤ × List Line × W
  exec_voip_accept argv w =
      let (err, caller, w') = remote_voip_accept_incoming stubs none w in
      ended_line err (line (codes "caller: %s\n") (text_or_null caller)) w'

  abbrev pub exec_voip_terminate : List (List ℕ) → W → ℤ × List Line × W
  exec_voip_terminate argv w = ended (remote_voip_disconnect stubs w)

  -- The first byte of the argument, or the terminator of an empty one.
  abbrev pub exec_voip_dtmf : List (List ℕ) → W → ℤ × List Line × W
  exec_voip_dtmf (name ∷ text ∷ rest) w = ended (remote_voip_dial stubs (get_or text 0 0 % 2 ^ 8) w)
  exec_voip_dtmf _ w = (neg einval, [], w)
