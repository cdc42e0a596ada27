-- ===== src/Examples/Commands.antt =====
-- Commands of bin/commands.c over a mixer that keeps what it is given.
use rcrpc.Base.{ltb, if◌then◌else◌, arith, ℕ, suc, ◌≡◌, refl, true, [], ◌∷◌, ℤ, pos, neg}
use rcrpc.Names.Tables.{codes, name_of_id}
use rcrpc.Cli.Shell.{is_space, skip_spaces}
use rcrpc.Commands.Numbers.{strtoul, atol, to_int32}
use rcrpc.Commands.Remote.{Remote, arg_text}
use rcrpc.Commands.Sound.{
  exec_audio_volume, exec_mixer_volume, exec_mixer_input, exec_backlight_brightness, finish_call,
}
use rcrpc.Commands.Bounds.{exec_volumes_bounds}
use rcrpc.Commands.EndToEnd.{connected_remote, exec_mixer_input_shown}
use rcrpc.Devices.Mixer.{
  MixerInputSource, MixerApi, input_unknown, mixer_set_input_source, remote_mixer_set_input_source,
}
use rcrpc.Devices.RoundTrip.{MixerKeeps, mixer_loopback}

record Board : Type 0 where
  input : MixerInputSource
  volume : ℕ
  printed : ℕ

abbrev board : Board
board = record { input = input_unknown; volume = 0; printed = 0 }

abbrev mixer_api : MixerApi Board
mixer_api = record {
  set_volume = λ c v w. (pos 0, record w { volume = v });
  get_volume = λ c v w. (pos 0, w.volume, w);
  set_mute = λ c m w. (pos 0, w);
  is_muted = λ c m w. (pos 0, m, w);
  set_input_source = λ s w. (pos 0, record w { input = s });
  get_input_source = λ s w. (pos 0, w.input, w);
  loopback_enable = λ e w. (pos 0, w);
  loopback_is_enabled = λ e w. (pos 0, e, w);
}

abbrev mixer_keeps : MixerKeeps mixer_api
mixer_keeps = record { keeps_input = λ s t w h. refl; keeps_volume = λ c v u w h. refl }

-- A client library whose calls fail, until its mixer is connected.
abbrev offline : Remote Board
offline = record {
  audio_get_volume = λ v w. (neg 5, v, w);
  audio_set_volume = λ v w. (neg 5, w);
  audio_get_state = λ s w. (neg 5, s, w);
  audio_set_state = λ s f w. (neg 5, w);
  mixer_get_volume = λ c v w. (neg 5, v, w);
  mixer_set_volume = λ c v w. (neg 5, w);
  mixer_get_mute = λ c m w. (neg 5, m, w);
  mixer_set_mute = λ c m w. (neg 5, w);
  mixer_get_input_source = λ s w. (neg 5, s, w);
  mixer_set_input_source = λ s w. (neg 5, w);
  mixer_loopback_is_enabled = λ e w. (neg 5, e, w);
  mixer_loopback_enable = λ e w. (neg 5, w);
  backlight_enable = λ f w. (neg 5, w);
  backlight_get = λ b w. (neg 5, b, w);
  backlight_set = λ b w. (neg 5, w);
  printf = λ f a w. record w { printed = suc w.printed };
}

strtoul_hex : strtoul 0 (codes " 0x1fz") ≡ (31, true)
unfolding strtoul skip_spaces is_space
strtoul_hex = refl

strtoul_minus : strtoul 0 (codes "-1") ≡ (18446744073709551615, true)
unfolding strtoul skip_spaces is_space
strtoul_minus = refl

-- audio-volume takes 4294967297 for the volume 1.
atol_wraps : to_int32 (atol (codes "4294967297")) ≡ pos 1
unfolding atol to_int32 skip_spaces is_space
atol_wraps = refl

-- A library that would count a volume above 255 as a success.
abbrev lax : ℕ → Board → ℤ × Board
lax v w = if ltb v 256 then (neg 5, w) else (pos 0, w)

abbrev other : Remote Board
other = record offline {
  audio_set_volume = lax;
  backlight_set = lax;
  mixer_set_volume = λ c v w. lax v w;
}

exec_volumes_bounds_example :
    (exec_audio_volume other (codes "v" ∷ codes "300" ∷ []) board
      ≡ exec_audio_volume offline (codes "v" ∷ codes "300" ∷ []) board)
    × (exec_mixer_volume other (codes "v" ∷ codes "300" ∷ []) board
        ≡ exec_mixer_volume offline (codes "v" ∷ codes "300" ∷ []) board)
    × (exec_backlight_brightness other (codes "v" ∷ codes "300" ∷ []) board
        ≡ exec_backlight_brightness offline (codes "v" ∷ codes "300" ∷ []) board)
exec_volumes_bounds_example =
    exec_volumes_bounds offline lax lax (λ c v w. lax v w) (λ v w h. ground arith)
      (λ v w h. ground arith) (λ c v w h. ground arith) (codes "v" ∷ codes "300" ∷ []) board

abbrev online : Remote Board
online = connected_remote offline mixer_api

exec_mixer_input_shown_example :
    exec_mixer_input online
      (codes "mixer-input" ∷ [])
      (exec_mixer_input online (codes "mixer-input" ∷ codes "line" ∷ []) board).1
    ≡ (
      pos 0,
      offline.printf
          (codes "input source: %s\n")
          (arg_text (codes "line") ∷ [])
          (exec_mixer_input online (codes "mixer-input" ∷ codes "line" ∷ []) board).1,
    )
unfolding exec_mixer_input finish_call remote_mixer_set_input_source mixer_loopback
    mixer_set_input_source name_of_id
exec_mixer_input_shown_example =
    exec_mixer_input_shown offline mixer_api mixer_keeps (codes "mixer-input") (codes "line")
      (pos 3) [] board refl refl
