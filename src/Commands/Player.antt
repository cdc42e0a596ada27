-- ===== src/Commands/Player.antt =====
-- The handlers of bin/commands.c for the media player, sound and the tuner. `argv` begins with the
-- name of the command, has `argc` strings and no NULL among them.
use rcrpc.Base.{
  ℕ, ◌%◌, ◌^◌, ◌==◌, ◌&&◌, not, false, if◌then◌else◌, Option, none, some, List, [], ◌∷◌, get_elem?,
  ℤ, pos, neg, is_neg, einval,
}
use rcrpc.Names.Tables.{codes}
use rcrpc.Media.Player.{
  PlayerStubs, remote_media_player_start, remote_media_player_stop, remote_media_player_is_running,
  remote_media_player_get_stream, remote_media_player_set_stream,
  remote_media_player_set_output_window, remote_media_player_pause, remote_media_player_resume,
  remote_media_player_get_duration, remote_media_player_get_position,
  remote_media_player_set_position,
}
use rcrpc.Media.Sound.{SoundStubs, remote_sound_play, remote_sound_stop, remote_tuner_set_frequency}
use rcrpc.Commands.Numbers.{strtoul}
use rcrpc.Commands.Remote.{arg_text, arg_number, arg_error}
use rcrpc.Commands.IrqPoll.{Line}
use rcrpc.Commands.Gpio.{error_line}
use rcrpc.Commands.Lines.{line, ended, ended_with, ended_line, text_or_null, variable}

-- A coordinate of the window: a `uint16_t` from the argument, UINT16_MAX without a number.
abbrev pub coordinate : Option (List ℕ) → ℕ
coordinate none = 65535
coordinate (some text) =
    let (value, found) = strtoul 0 text in if found then value % 2 ^ 16 else 65535

module _ {W : Type 0} (stubs : PlayerStubs W) where
  -- The result, the lines and the state.
  unfoldable pub exec_media_player_uri : List (List ℕ) → W → ℤ × List Line × W
  exec_media_player_uri (name ∷ text ∷ rest) w = ended (remote_media_player_set_stream stubs text w)
  exec_media_player_uri _ w =
      let (err, uri, w') = remote_media_player_get_stream stubs none w in
      ended_line err (line (codes "URI: %s\n") (text_or_null uri)) w'

  unfoldable pub exec_media_player_output : List (List ℕ) → W → ℤ × List Line × W
  exec_media_player_output argv w =
      let x = coordinate (get_elem? argv 1) in
      let y = coordinate (get_elem? argv 2) in
      let width = coordinate (get_elem? argv 3) in
      let height = coordinate (get_elem? argv 4) in
      if x == 65535 && (y == 65535 && (width == 65535 && height == 65535))
      then (pos 0, [], w)
      else ended (remote_media_player_set_output_window stubs x y width height w)

  unfoldable pub exec_media_player_play : List (List ℕ) → W → ℤ × List Line × W
  exec_media_player_play (name ∷ text ∷ rest) w =
      let (err, w') = remote_media_player_set_stream stubs text w in
      if is_neg err
      then (err, error_line err ∷ [], w')
      else ended (remote_media_player_start stubs w')
  exec_media_player_play _ w = ended (remote_media_player_start stubs w)

  abbrev pub exec_media_player_stop : List (List ℕ) → W → ℤ × List Line × W
  exec_media_player_stop argv w = ended (remote_media_player_stop stubs w)

  abbrev pub exec_media_player_pause : List (List ℕ) → W → ℤ × List Line × W
  exec_media_player_pause argv w = ended (remote_media_player_pause stubs w)

  abbrev pub exec_media_player_resume : List (List ℕ) → W → ℤ × List Line × W
  exec_media_player_resume argv w = ended (remote_media_player_resume stubs w)

  unfoldable pub exec_media_player_duration : List (List ℕ) → W → ℤ × List Line × W
  exec_media_player_duration argv w =
      let (err, duration, w') = remote_media_player_get_duration stubs (some 0) w in
      ended_line err (line (codes "Duration: %lu\n") (arg_number (pos (variable duration)))) w'

  unfoldable pub exec_media_player_position : List (List ℕ) → W → ℤ × List Line × W
  exec_media_player_position (name ∷ text ∷ rest) w =
      let (position, found) = strtoul 10 text in
      if not found
      then (neg einval, line (codes "invalid position: %s\n") (arg_text text) ∷ [], w)
      else ended (remote_media_player_set_position stubs position w)
  exec_media_player_position _ w =
      let (err, position, w') = remote_media_player_get_position stubs (some 0) w in
      ended_line err (line (codes "Position: %lu\n") (arg_number (pos (variable position)))) w'

  unfoldable pub exec_media_player_state : List (List ℕ) → W → ℤ × List Line × W
  exec_media_player_state argv w =
      let (err, running, w') = remote_media_player_is_running stubs false w in
      ended_line err
        (line (codes "state: %s\n")
          (arg_text (if running then codes "playing" else codes "stopped")))
        w'

module _ {W : Type 0} (stubs : SoundStubs W) where
  abbrev pub exec_sound_play : List (List ℕ) → W → ℤ × List Line × W
  exec_sound_play (name ∷ text ∷ rest) w = ended_with (remote_sound_play stubs text w)
  exec_sound_play _ w = (neg einval, [], w)

  abbrev pub exec_sound_stop : List (List ℕ) → W → ℤ × List Line × W
  exec_sound_stop argv w = ended_with (remote_sound_stop stubs w)

  -- The error number is what `errno` holds.
  abbrev pub exec_tuner_frequency : ℕ → List (List ℕ) → W → ℤ × List Line × W
  exec_tuner_frequency errno (name ∷ text ∷ rest) w =
      let (frequency, found) = strtoul 0 text in
      if not found
      then (neg einval, line (codes "%s\n") (arg_error (neg errno)) ∷ [], w)
      else ended (remote_tuner_set_frequency stubs frequency w)
  exec_tuner_frequency errno _ w = (neg einval, [], w)
