-- ===== src/Examples/Devices.antt =====
-- The audio of src/rcrpc and src/rcrpc-client over one that keeps what it is given.
use rcrpc.Base.{◌≡◌, refl, true, pos, neg}
use rcrpc.Devices.Audio.{
  AudioState, AudioApi, inactive, audio_set_state, remote_audio_set_state, remote_audio_get_state,
}
use rcrpc.Devices.RoundTrip.{AudioKeeps, audio_loopback, remote_audio_set_state-get}

abbrev audio_api : AudioApi AudioState
audio_api = record {
  set_state = λ s w. (pos 0, s);
  get_state = λ w. (pos 0, w, w);
  set_volume = λ v w. (neg 5, w);
  get_volume = λ v w. (neg 5, v, w);
  set_speakers_enable = λ e w. (pos 0, w);
  get_speakers_enable = λ e w. (pos 0, e, w);
}

abbrev audio_keeps : AudioKeeps audio_api
audio_keeps = record { keeps_state = λ s w h. refl }

remote_audio_set_state-get_example :
    remote_audio_get_state
      (audio_loopback audio_api)
      (neg 1)
      (remote_audio_set_state (audio_loopback audio_api) (pos 11) true inactive).1
    ≡ (pos 0, pos 11, (remote_audio_set_state (audio_loopback audio_api) (pos 11) true inactive).1)
unfolding remote_audio_set_state audio_loopback audio_set_state
remote_audio_set_state-get_example =
    remote_audio_set_state-get audio_api audio_keeps (pos 11) (neg 1) true inactive refl
