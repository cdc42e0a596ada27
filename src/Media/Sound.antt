-- ===== src/Media/Sound.antt =====
-- src/rcrpc/sound.c, src/rcrpc/tuner.c, src/rcrpc/media.c and src/rcrpc/system.c, with
-- src/rcrpc-client/sound-manager.c and src/rcrpc-client/tuner.c.
use rcrpc.Base.{ℕ, ◌%◌, ◌^◌, List, ℤ, neg, returned, enosys}

-- The calls of the platform library.
pub record SoundApi (W : Type 0) : Type 0 where
  pub manager_play : List ℕ → W → ℤ × W
  pub manager_stop : W → ℤ × W

module _ {W : Type 0} (api : SoundApi W) where
  abbrev pub sound_play_async : List ℕ → W → ℤ × W
  sound_play_async filename w = (neg enosys, w)

  abbrev pub sound_play_sync : List ℕ → W → ℤ × W
  sound_play_sync filename w = (neg enosys, w)

  abbrev pub sound_play : List ℕ → W → ℤ × W
  sound_play uri w = api.manager_play uri w

  abbrev pub sound_stop : W → ℤ × W
  sound_stop w = api.manager_stop w

-- The tuner, the media command and the reset are not implemented. A command of the media is a number
-- with two parameters, a source and a channel are numbers.
module _ {W : Type 0} where
  abbrev pub tuner_set_output_window : ℕ → ℕ → ℕ → ℕ → W → ℤ × W
  tuner_set_output_window x y width height w = (neg enosys, w)

  abbrev pub tuner_set_output_channel : ℕ → W → ℤ × W
  tuner_set_output_channel channel w = (neg enosys, w)

  abbrev pub tuner_set_source : ℕ → W → ℤ × W
  tuner_set_source source w = (neg enosys, w)

  abbrev pub tuner_set_frequency : ℕ → W → ℤ × W
  tuner_set_frequency frequency w = (neg enosys, w)

  abbrev pub media_command : ℕ → ℤ → List ℕ → W → ℤ × W
  media_command command p1 p2 w = (neg enosys, w)

  abbrev pub reset : W → ℤ × W
  reset w = (neg enosys, w)

-- The stubs of the client.
pub record SoundStubs (W : Type 0) : Type 0 where
  pub stub_play : List ℕ → W → ℤ × ℤ × W
  pub stub_stop_sound : W → ℤ × ℤ × W
  pub stub_set_frequency : ℕ → W → ℤ × ℤ × W

module _ {W : Type 0} (stubs : SoundStubs W) where
  abbrev pub remote_sound_play : List ℕ → W → ℤ × W
  remote_sound_play url w = let (err, ret, w') = stubs.stub_play url w in (returned err ret, w')

  abbrev pub remote_sound_stop : W → ℤ × W
  remote_sound_stop w = let (err, ret, w') = stubs.stub_stop_sound w in (returned err ret, w')

  -- The stub takes a `uint32_t`.
  abbrev pub remote_tuner_set_frequency : ℕ → W → ℤ × W
  remote_tuner_set_frequency frequency w =
      let (err, ret, w') = stubs.stub_set_frequency (frequency % 2 ^ 32) w in (returned err ret, w')
