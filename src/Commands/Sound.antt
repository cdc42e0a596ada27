-- ===== src/Commands/Sound.antt =====
-- The handlers of bin/commands.c for audio, the mixer and the backlight. `argv` begins with the name
-- of the command, has `argc` strings and no NULL among them.
use rcrpc.Base.{
  ℕ, zero, suc, Bool, true, false, ◌&&◌, ◌||◌, not, if◌then◌else◌, List, [], ◌∷◌, ltb, ℤ, pos, neg,
  is_neg, pos_part, Option, some, eq_ℤ, einval, ebusy, esrch,
}
use rcrpc.Names.Tables.{
  codes, parse_bool, parse_audio_state, audio_state_name, parse_mixer_control,
  mixer_input_source_name, parse_mixer_input_source,
}
use rcrpc.Commands.Numbers.{strtoul, atol, to_int32}
use rcrpc.Commands.Remote.{arg_text, arg_number, arg_error, Remote}

module _ {W : Type 0} (remote : Remote W) where
  open remote use {printf}

  -- `printf("%s\n", strerror(-err)); return err;` for an error, and `return 0;` else.
  unfoldable pub finish_call : ℤ × W → ℤ × W
  finish_call (err, w) =
      if is_neg err then (err, printf (codes "%s\n") (arg_error err ∷ []) w) else (pos 0, w)

  unfoldable pub exec_audio_volume : List (List ℕ) → W → ℤ × W
  exec_audio_volume (name ∷ []) w =
      let (err, volume, w') = remote.audio_get_volume 0 w in
      (
        err,
        if is_neg err
            then printf (codes "Current volume: Unknown\n") [] w'
            else printf (codes "Current volume: %d\n") (arg_number (pos volume) ∷ []) w',
      )
  exec_audio_volume (name ∷ text ∷ []) w =
      let volume = to_int32 (atol text) in
      if is_neg volume || ltb 255 (pos_part volume)
      then (neg einval, w)
      else remote.audio_set_volume (pos_part volume) w
  exec_audio_volume _ w = (neg einval, printf (codes "Invalid argument count, try help\n") [] w)

  -- The loop that lists the states: it prints the name of `state`, the unknown one, in every round.
  unfoldable pub list_states : ℕ → W → W
  list_states zero w = w
  list_states (suc n) w =
      let (err, name) = audio_state_name (neg 1) 32 in
      list_states n (printf (codes "   %s\n") (arg_text name ∷ []) w)

  -- `scan` is sscanf with "%d".
  unfoldable pub exec_audio_state : (List ℕ → Option ℤ) → List (List ℕ) → W → ℤ × W
  exec_audio_state scan (name ∷ []) w =
      let (err, state, w') = remote.audio_get_state (neg 1) w in
      if is_neg err
      then finish_call (err, w')
      else let (length, text) = audio_state_name state 32 in
        (pos 0, printf (codes "current state: %s\n") (arg_text text ∷ []) w')
  exec_audio_state scan (name ∷ text ∷ []) w =
      finish_call (remote.audio_set_state (parse_audio_state scan (some text)) true w)
  exec_audio_state scan _ w = (
    neg einval,
    list_states 42 (printf (codes "ERROR: Invalid argument, valid states are:\n") [] w),
  )

  unfoldable pub exec_mixer_volume : List (List ℕ) → W → ℤ × W
  exec_mixer_volume (name ∷ control ∷ []) w =
      let (err, volume, w') = remote.mixer_get_volume (parse_mixer_control control) 0 w in
      if is_neg err
      then finish_call (err, w')
      else (pos 0, printf (codes "volume: %u\n") (arg_number (pos volume) ∷ []) w')
  exec_mixer_volume (name ∷ control ∷ text ∷ rest) w =
      let (volume, found) = strtoul 0 text in
      if not found || ltb 255 volume
      then (neg einval, printf (codes "invalid volume: %s\n") (arg_text text ∷ []) w)
      else finish_call (remote.mixer_set_volume (parse_mixer_control control) volume w)
  exec_mixer_volume _ w = (neg einval, w)

  unfoldable pub exec_mixer_mute : List (List ℕ) → W → ℤ × W
  exec_mixer_mute (name ∷ control ∷ []) w =
      let (err, mute, w') = remote.mixer_get_mute (parse_mixer_control control) false w in
      if is_neg err then finish_call (err, w') else (
        pos 0,
        printf (codes "muted: %s\n") (arg_text (if mute then codes "yes" else codes "no") ∷ []) w',
      )
  exec_mixer_mute (name ∷ control ∷ text ∷ rest) w =
      let (bad, mute) = parse_bool text false in
      if is_neg bad
      then (neg einval, printf (codes "Invalid boolean value '%s'.\n") (arg_text text ∷ []) w)
      else finish_call (remote.mixer_set_mute (parse_mixer_control control) mute w)
  exec_mixer_mute _ w = (neg einval, w)

  unfoldable pub exec_mixer_input : List (List ℕ) → W → ℤ × W
  exec_mixer_input (name ∷ text ∷ rest) w =
      finish_call (remote.mixer_set_input_source (parse_mixer_input_source text) w)
  exec_mixer_input _ w =
      let (err, input, w') = remote.mixer_get_input_source (pos 0) w in
      if is_neg err
      then finish_call (err, w')
      else let (length, text) = mixer_input_source_name input 16 in
        if is_neg length
        then finish_call (length, w')
        else (pos 0, printf (codes "input source: %s\n") (arg_text text ∷ []) w')

  -- The end of the loopback command.
  unfoldable pub say_loopback : Bool → W → ℤ × W
  say_loopback enable w = (
    pos 0,
    printf (codes "loopback %sabled\n") (arg_text (if enable then codes "en" else codes "dis") ∷ [])
        w,
  )

  -- A busy or missing process is no error of a change.
  unfoldable pub exec_mixer_loopback : List (List ℕ) → W → ℤ × W
  exec_mixer_loopback (name ∷ text ∷ rest) w =
      let (bad, enable) = parse_bool text false in
      if is_neg bad
      then (neg einval, printf (codes "Invalid boolean value '%s'.\n") (arg_text text ∷ []) w)
      else let (err, w') = remote.mixer_loopback_enable enable w in
        if is_neg err && not (eq_ℤ err (neg ebusy)) && not (eq_ℤ err (neg esrch))
        then (err, printf (codes "ERROR: %s\n") (arg_error err ∷ []) w')
        else say_loopback enable w'
  exec_mixer_loopback _ w =
      let (err, enable, w') = remote.mixer_loopback_is_enabled false w in
      if is_neg err
      then (err, printf (codes "ERROR: %s\n") (arg_error err ∷ []) w')
      else say_loopback enable w'

  unfoldable pub exec_backlight_power : List (List ℕ) → W → ℤ × W
  exec_backlight_power (name ∷ text ∷ rest) w =
      let (bad, enable) = parse_bool text false in
      if is_neg bad
      then (neg einval, printf (codes "Invalid boolean value '%s'.\n") (arg_text text ∷ []) w)
      else finish_call (remote.backlight_enable (if enable then 1 else 0) w)
  exec_backlight_power _ w = (neg einval, w)

  unfoldable pub exec_backlight_brightness : List (List ℕ) → W → ℤ × W
  exec_backlight_brightness (name ∷ text ∷ rest) w =
      let (value, found) = strtoul 0 text in
      if not found
      then (neg einval, printf (codes "Invalid numerical value '%s'.\n") (arg_text text ∷ []) w)
      else if ltb 255 value
      then (
        neg einval,
        printf (codes "Invalid backlight brightness %lu. Must be less than or equal to 255.\n")
            (arg_number (pos value) ∷ []) w,
      )
      else finish_call (remote.backlight_set value w)
  exec_backlight_brightness _ w =
      let (err, brightness, w') = remote.backlight_get 0 w in
      if is_neg err
      then finish_call (err, w')
      else (pos 0, printf (codes "brightness: %u\n") (arg_number (pos brightness) ∷ []) w')
