-- ===== src/Devices/RoundTrip.antt =====
-- src/rcrpc-client over src/rcrpc: what a client sets on a device, it reads back.
use rcrpc.Base.{
  ℕ, ◌+◌, ◌<◌, ◌≡◌, ◌≢◌, arith, Bool, false, if◌then◌else◌, Option, none, some, ℤ, pos, negsuc,
  is_neg, inl, inr, Option-cases, eq_ℤ,
}
use rcrpc.Devices.Audio.{
  AudioState, AudioApi, AudioStubs, state_of_rpc, state_to_rpc, audio_set_state, audio_get_state,
  audio_set_volume, audio_get_volume, remote_audio_set_state, remote_audio_get_state,
}
use rcrpc.Devices.Mixer.{
  MixerInputSource, MixerApi, MixerStubs, input_of_rpc, input_to_rpc, input_unknown,
  mixer_set_volume, mixer_get_volume, mixer_set_mute, mixer_is_muted, mixer_set_input_source,
  mixer_get_input_source, mixer_loopback_enable, mixer_loopback_is_enabled, remote_mixer_set_volume,
  remote_mixer_get_volume, remote_mixer_set_input_source, remote_mixer_get_input_source,
}
use rcrpc.Devices.Panel.{
  BacklightApi, BacklightStubs, backlight_enable, backlight_set, backlight_get,
  remote_backlight_set, remote_backlight_get, SmartcardType, type_i2c, card_get_type,
  remote_card_get_type,
}

-- The stubs of a client whose calls reach the server and come back.
unfoldable pub audio_loopback : {W : Type 0} → AudioApi W → AudioStubs W
audio_loopback api = record {
  stub_get_state = λ s w. let (ret, value, w') = audio_get_state api s w in (pos 0, ret, value, w');
  stub_set_state = λ s f w. let (ret, w') = audio_set_state api s f w in (pos 0, ret, w');
  stub_get_volume =
      λ v w. let (ret, value, w') = audio_get_volume api v w in (pos 0, ret, value, w');
  stub_set_volume = λ v w. let (ret, w') = audio_set_volume api v w in (pos 0, ret, w');
}

-- The `uint8_t` behind a pointer that the stub of the server passes.
abbrev byte_or : Option ℕ → ℕ
byte_or none = 0
byte_or (some b) = b

unfoldable pub mixer_loopback : {W : Type 0} → MixerApi W → MixerStubs W
mixer_loopback api = record {
  stub_set_mute = λ c m w. let (ret, w') = mixer_set_mute api c m w in (pos 0, ret, w');
  stub_is_muted =
      λ c m w. let (ret, value, w') = mixer_is_muted api c m w in (pos 0, ret, value, w');
  stub_set_volume = λ c v w. let (ret, w') = mixer_set_volume api c v w in (pos 0, ret, w');
  stub_get_volume = λ c v w.
      let (ret, volume, w') = mixer_get_volume api c (some v) w in (pos 0, ret, byte_or volume, w');
  stub_set_input_source = λ s w. let (ret, w') = mixer_set_input_source api s w in (pos 0, ret, w');
  stub_get_input_source =
      λ s w. let (ret, value, w') = mixer_get_input_source api s w in (pos 0, ret, value, w');
  stub_loopback_enable = λ e w. let (ret, w') = mixer_loopback_enable api e w in (pos 0, ret, w');
  stub_loopback_is_enabled =
      λ e w. let (ret, value, w') = mixer_loopback_is_enabled api e w in (pos 0, ret, value, w');
}

unfoldable pub backlight_loopback : {W : Type 0} → BacklightApi W → BacklightStubs W
backlight_loopback api = record {
  stub_enable = λ f w. let (ret, w') = backlight_enable api f w in (pos 0, ret, w');
  stub_set = λ b w. let (ret, w') = backlight_set api b w in (pos 0, ret, w');
  stub_get = λ b w. let (ret, value, w') = backlight_get api b w in (pos 0, ret, value, w');
}

state_to_rpc-state_of_rpc : (v : ℤ) (s : AudioState) → state_of_rpc v ≡ some s → state_to_rpc s ≡ v
unfolding state_of_rpc state_to_rpc
state_to_rpc-state_of_rpc (pos n) s h = ground arith
state_to_rpc-state_of_rpc (negsuc n) s h = ground arith

-- A device that took a state answers with it.
pub record AudioKeeps {W : Type 0} (api : AudioApi W) : Type 0 where
  pub keeps_state :
      (s : AudioState) (w : W)
      → is_neg (api.set_state s w).0 ≡ false
      → api.get_state (api.set_state s w).1 ≡ (pos 0, s, (api.set_state s w).1)

module _ {W : Type 0} (api : AudioApi W) (keeps : AudioKeeps api) where
  taken :
      (v : ℤ) (s : AudioState) (force : Bool) (w : W)
      → state_of_rpc v ≡ some s
      → is_neg (remote_audio_set_state (audio_loopback api) v force w).0 ≡ false
      → is_neg (api.set_state s w).0 ≡ false
  unfolding remote_audio_set_state audio_loopback audio_set_state
  taken v s force w e h = ground (arith, e)

  -- After an audio state that the client set without an error, it reads the same number back, and
  -- nothing else changes.
  pub remote_audio_set_state-get :
      (v statep : ℤ) (force : Bool) (w : W)
      → is_neg (remote_audio_set_state (audio_loopback api) v force w).0 ≡ false
      → remote_audio_get_state
          (audio_loopback api)
          statep
          (remote_audio_set_state (audio_loopback api) v force w).1
        ≡ (pos 0, v, (remote_audio_set_state (audio_loopback api) v force w).1)
  unfolding remote_audio_set_state remote_audio_get_state audio_loopback audio_set_state
      audio_get_state
  remote_audio_set_state-get v statep force w h = elim (Option-cases (state_of_rpc v)) [
    | inl e ↦ ground (arith, e)
    | inr (s, e) ↦
        ground
          (arith, e, keeps.keeps_state s w (taken v s force w e h), state_to_rpc-state_of_rpc v s e)
  ]

-- A mixer that took a source or a volume answers with it.
pub record MixerKeeps {W : Type 0} (api : MixerApi W) : Type 0 where
  pub keeps_input :
      (s t : MixerInputSource) (w : W)
      → is_neg (api.set_input_source s w).0 ≡ false
      → api.get_input_source t (api.set_input_source s w).1
        ≡ (pos 0, s, (api.set_input_source s w).1)
  pub keeps_volume :
      (c : ℤ) (v u : ℕ) (w : W)
      → is_neg (api.set_volume c v w).0 ≡ false
      → api.get_volume c u (api.set_volume c v w).1 ≡ (pos 0, v, (api.set_volume c v w).1)

module _ {W : Type 0} (api : MixerApi W) (keeps : MixerKeeps api) where
  -- After an input source that the client set without an error, it reads the same number back, or 0,
  -- the unknown source, if the number was none of the three sources.
  pub remote_mixer_set_input_source-get :
      (v sourcep : ℤ) (w : W)
      → is_neg (remote_mixer_set_input_source (mixer_loopback api) v w).0 ≡ false
      → remote_mixer_get_input_source
          (mixer_loopback api)
          sourcep
          (remote_mixer_set_input_source (mixer_loopback api) v w).1
        ≡ (
          pos 0,
          (if eq_ℤ v (pos 1)
              then v
              else if eq_ℤ v (pos 2)
              then v
              else if eq_ℤ v (pos 3)
              then v
              else pos 0),
          (remote_mixer_set_input_source (mixer_loopback api) v w).1,
        )
  unfolding remote_mixer_set_input_source remote_mixer_get_input_source mixer_loopback
      mixer_set_input_source mixer_get_input_source input_of_rpc input_to_rpc
  remote_mixer_set_input_source-get (pos n) sourcep w h =
      ground (arith, keeps.keeps_input (input_of_rpc (pos n)) input_unknown w h)
  remote_mixer_set_input_source-get (negsuc n) sourcep w h =
      ground (arith, keeps.keeps_input (input_of_rpc (negsuc n)) input_unknown w h)

  -- After a volume below 256 that the client set without an error, it reads the same volume back.
  pub remote_mixer_set_volume-get :
      (control : ℤ) (volume volumep : ℕ) (w : W)
      → volume < 256
      → is_neg (remote_mixer_set_volume (mixer_loopback api) control volume w).0 ≡ false
      → remote_mixer_get_volume
          (mixer_loopback api)
          control
          volumep
          (remote_mixer_set_volume (mixer_loopback api) control volume w).1
        ≡ (pos 0, volume, (remote_mixer_set_volume (mixer_loopback api) control volume w).1)
  unfolding remote_mixer_set_volume remote_mixer_get_volume mixer_loopback mixer_get_volume
  remote_mixer_set_volume-get control volume volumep w b h =
      ground (arith, keeps.keeps_volume control volume 0 w h)

-- A backlight answers with the level that it took.
pub record BacklightKeeps {W : Type 0} (api : BacklightApi W) : Type 0 where
  pub keeps_level :
      (b : ℕ) (w : W)
      → is_neg (api.set b w).0 ≡ false
      → api.get (api.set b w).1 ≡ (pos b, (api.set b w).1)

module _ {W : Type 0} (api : BacklightApi W) (keeps : BacklightKeeps api) where
  -- After a brightness below 256 that the client set without an error, it reads the brightness back
  -- with the result 0.
  pub remote_backlight_set-get :
      (brightness old : ℕ) (w : W)
      → brightness < 256
      → is_neg (remote_backlight_set (backlight_loopback api) brightness w).0 ≡ false
      → remote_backlight_get
          (backlight_loopback api)
          old
          (remote_backlight_set (backlight_loopback api) brightness w).1
        ≡ (pos 0, brightness, (remote_backlight_set (backlight_loopback api) brightness w).1)
  unfolding remote_backlight_set remote_backlight_get backlight_loopback backlight_get
  remote_backlight_set-get brightness old w b h = ground (arith, keeps.keeps_level brightness w h)

-- REMOTE_CARD_TYPE_I2C of the client's header.
abbrev pub remote_card_type_i2c : ℤ
remote_card_type_i2c = pos 1

module _ {W : Type 0} (get_type : W → ℤ × SmartcardType × W) where
  abbrev pub card_stub : ℕ → ℤ → W → ℤ × ℤ × ℤ × W
  card_stub first typep w =
      let (ret, card, w') = card_get_type get_type first typep w in (pos 0, ret, card, w')

  -- The client passes the server's number of a card type on, and the two enumerations differ: an I2C
  -- card, REMOTE_CARD_TYPE_I2C of the client, arrives as another number whatever the first value of
  -- the server's enumeration is.
  remote_card_get_type_i2c :
      (first : ℕ) (typep : ℤ) (w w' : W)
      → get_type w ≡ (pos 0, type_i2c, w')
      → (remote_card_get_type (card_stub first) first typep w ≡ (pos 0, pos (first + 5), w'))
        × (pos (first + 5) ≢ remote_card_type_i2c)
  unfolding remote_card_get_type card_get_type
  remote_card_get_type_i2c first typep w w' e = (ground (arith, e), ground arith)
