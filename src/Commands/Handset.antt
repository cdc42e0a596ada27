-- ===== src/Commands/Handset.antt =====
-- The handlers of bin/commands.c for the handset. `argv` begins with the name of the command, has
-- `argc` strings and no NULL among them.
use rcrpc.Base.{
  ℕ, ◌%◌, ◌^◌, not, if◌then◌else◌, Option, none, some, List, [], ◌∷◌, ℤ, pos, neg, is_neg, einval,
}
use rcrpc.Names.Tables.{codes}
use rcrpc.Cli.Exec.{str_eq}
use rcrpc.Services.Handset.{
  HandsetStubs, remote_handset_display_clear, remote_handset_display_sync,
  remote_handset_display_set_brightness, remote_handset_keypad_set_brightness,
  remote_handset_show_icon, remote_handset_show_text,
}
use rcrpc.Commands.Numbers.{strtoul}
use rcrpc.Commands.Remote.{arg_text}
use rcrpc.Commands.IrqPoll.{Line}
use rcrpc.Commands.Lines.{line, ended}

-- The icon of a name, with the numbers of `enum remote_handset_icon`.
abbrev pub icon_of_name : List ℕ → Option ℕ
icon_of_name text =
    if str_eq text (codes "phone")
    then some 0
    else if str_eq text (codes "radio")
    then some 1
    else if str_eq text (codes "tv")
    then some 2
    else if str_eq text (codes "logo")
    then some 3
    else none

-- An error of the brightness is returned without a line.
abbrev pub ended_quietly : {W : Type 0} → ℤ × W → ℤ × List Line × W
ended_quietly (err, w) = if is_neg err then (err, [], w) else (pos 0, [], w)

module _ {W : Type 0} (stubs : HandsetStubs W) where
  abbrev pub exec_handset_display_clear : List (List ℕ) → W → ℤ × List Line × W
  exec_handset_display_clear argv w = ended (remote_handset_display_clear stubs w)

  abbrev pub exec_handset_display_sync : List (List ℕ) → W → ℤ × List Line × W
  exec_handset_display_sync argv w = ended (remote_handset_display_sync stubs w)

  -- The functions of the client library take an `unsigned int`.
  unfoldable pub exec_handset_backlight : List (List ℕ) → W → ℤ × List Line × W
  exec_handset_backlight (name ∷ target ∷ text ∷ rest) w =
      let (brightness, found) = strtoul 10 text in
      if not found
      then (neg einval, [], w)
      else if str_eq target (codes "display")
      then ended_quietly (remote_handset_display_set_brightness stubs (brightness % 2 ^ 32) w)
      else if str_eq target (codes "keypad")
      then ended_quietly (remote_handset_keypad_set_brightness stubs (brightness % 2 ^ 32) w)
      else (neg einval, [], w)
  exec_handset_backlight _ w = (neg einval, [], w)

  abbrev pub exec_handset_show_icon : List (List ℕ) → W → ℤ × List Line × W
  exec_handset_show_icon (name ∷ text ∷ rest) w = elim (icon_of_name text) [
    | none ↦ (neg einval, [], w)
    | some id ↦ ended (remote_handset_show_icon stubs id w)
  ]
  exec_handset_show_icon _ w = (neg einval, [], w)

  unfoldable pub exec_handset_show_text : List (List ℕ) → W → ℤ × List Line × W
  exec_handset_show_text [] w = (neg einval, [], w)
  exec_handset_show_text (name ∷ []) w = (neg einval, [], w)
  exec_handset_show_text (name ∷ text ∷ []) w = ended (remote_handset_show_text stubs 8 48 text w)
  exec_handset_show_text (name ∷ first ∷ text ∷ []) w =
      let (x, found) = strtoul 10 first in
      if not found
      then (neg einval, line (codes "invalid X-coordinate: %s\n") (arg_text first) ∷ [], w)
      else ended (remote_handset_show_text stubs (x % 2 ^ 32) 48 text w)
  exec_handset_show_text (name ∷ first ∷ second ∷ text ∷ rest) w =
      let (x, found) = strtoul 10 first in
      let (y, found') = strtoul 10 second in
      if not found
      then (neg einval, line (codes "invalid X-coordinate: %s\n") (arg_text first) ∷ [], w)
      else if not found'
      then (neg einval, line (codes "invalid Y-coordinate: %s\n") (arg_text second) ∷ [], w)
      else ended (remote_handset_show_text stubs (x % 2 ^ 32) (y % 2 ^ 32) text w)
