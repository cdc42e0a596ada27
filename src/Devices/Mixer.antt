-- ===== src/Devices/Mixer.antt =====
-- src/rcrpc/mixer.c, the procedures of the mixer, and src/rcrpc-client/mixer.c, the functions of the
-- client library that call them.
use rcrpc.Base.{ℕ, ◌%◌, Bool, if◌then◌else◌, Option, none, some, ℤ, pos, is_neg, eq_ℤ}

-- `enum mixer_input_source` of the platform library: the sources that mixer.c names, the unknown one
-- and any other.
pub data MixerInputSource : Type 0 where
  input_unknown : MixerInputSource
  input_headset : MixerInputSource
  input_handset : MixerInputSource
  input_line : MixerInputSource
  other_input : MixerInputSource

-- The calls of the platform library. A control is passed on as it is.
pub record MixerApi (W : Type 0) : Type 0 where
  pub set_volume : ℤ → ℕ → W → ℤ × W
  pub get_volume : ℤ → ℕ → W → ℤ × ℕ × W
  pub set_mute : ℤ → Bool → W → ℤ × W
  pub is_muted : ℤ → Bool → W → ℤ × Bool × W
  pub set_input_source : MixerInputSource → W → ℤ × W
  pub get_input_source : MixerInputSource → W → ℤ × MixerInputSource × W
  pub loopback_enable : Bool → W → ℤ × W
  pub loopback_is_enabled : Bool → W → ℤ × Bool × W

-- The switches of mixer_set_input_source and mixer_get_input_source.
unfoldable pub input_of_rpc : ℤ → MixerInputSource
input_of_rpc source =
    if eq_ℤ source (pos 1)
    then input_headset
    else if eq_ℤ source (pos 2)
    then input_handset
    else if eq_ℤ source (pos 3)
    then input_line
    else input_unknown

unfoldable pub input_to_rpc : MixerInputSource → ℤ
input_to_rpc input_unknown = pos 0
input_to_rpc input_headset = pos 1
input_to_rpc input_handset = pos 2
input_to_rpc input_line = pos 3
input_to_rpc other_input = pos 0

-- A number in a `uint8_t`, where the pointer is not NULL.
abbrev pub write_byte : Option ℕ → ℕ → Option ℕ
write_byte none value = none
write_byte (some old) value = some (value % 256)

module _ {W : Type 0} (api : MixerApi W) where
  abbrev pub mixer_set_volume : ℤ → ℕ → W → ℤ × W
  mixer_set_volume control volume w = api.set_volume control volume w

  -- The result and `*volumep`.
  unfoldable pub mixer_get_volume : ℤ → Option ℕ → W → ℤ × Option ℕ × W
  mixer_get_volume control volumep w =
      let (ret, volume, w') = api.get_volume control 0 w in (ret, write_byte volumep volume, w')

  abbrev pub mixer_set_mute : ℤ → Bool → W → ℤ × W
  mixer_set_mute control mute w = api.set_mute control mute w

  abbrev pub mixer_is_muted : ℤ → Bool → W → ℤ × Bool × W
  mixer_is_muted control mutep w = api.is_muted control mutep w

  unfoldable pub mixer_set_input_source : ℤ → W → ℤ × W
  unfolding input_of_rpc
  mixer_set_input_source source w = api.set_input_source (input_of_rpc source) w

  unfoldable pub mixer_get_input_source : ℤ → W → ℤ × ℤ × W
  unfolding input_to_rpc
  mixer_get_input_source sourcep w =
      let (err, input, w') = api.get_input_source input_unknown w in
      if is_neg err then (err, sourcep, w') else (pos 0, input_to_rpc input, w')

  abbrev pub mixer_loopback_enable : Bool → W → ℤ × W
  mixer_loopback_enable enable w = api.loopback_enable enable w

  abbrev pub mixer_loopback_is_enabled : Bool → W → ℤ × Bool × W
  mixer_loopback_is_enabled enabled w = api.loopback_is_enabled enabled w

-- The stubs of the client: what the call itself returns, the result of the server, what it wrote, and
-- the state.
pub record MixerStubs (W : Type 0) : Type 0 where
  pub stub_set_mute : ℤ → Bool → W → ℤ × ℤ × W
  pub stub_is_muted : ℤ → Bool → W → ℤ × ℤ × Bool × W
  pub stub_set_volume : ℤ → ℕ → W → ℤ × ℤ × W
  pub stub_get_volume : ℤ → ℕ → W → ℤ × ℤ × ℕ × W
  pub stub_set_input_source : ℤ → W → ℤ × ℤ × W
  pub stub_get_input_source : ℤ → W → ℤ × ℤ × ℤ × W
  pub stub_loopback_enable : Bool → W → ℤ × ℤ × W
  pub stub_loopback_is_enabled : Bool → W → ℤ × ℤ × Bool × W

module _ {W : Type 0} (stubs : MixerStubs W) where
  unfoldable pub remote_mixer_set_mute : ℤ → Bool → W → ℤ × W
  remote_mixer_set_mute control mute w =
      let (err, ret, w') = stubs.stub_set_mute control mute w in
      (if is_neg err then err else ret, w')

  unfoldable pub remote_mixer_get_mute : ℤ → Bool → W → ℤ × Bool × W
  remote_mixer_get_mute control mutep w =
      let (err, ret, mute, w') = stubs.stub_is_muted control mutep w in
      (if is_neg err then err else ret, mute, w')

  unfoldable pub remote_mixer_set_volume : ℤ → ℕ → W → ℤ × W
  remote_mixer_set_volume control volume w =
      let (err, ret, w') = stubs.stub_set_volume control volume w in
      (if is_neg err then err else ret, w')

  unfoldable pub remote_mixer_get_volume : ℤ → ℕ → W → ℤ × ℕ × W
  remote_mixer_get_volume control volumep w =
      let (err, ret, volume, w') = stubs.stub_get_volume control volumep w in
      (if is_neg err then err else ret, volume, w')

  unfoldable pub remote_mixer_set_input_source : ℤ → W → ℤ × W
  remote_mixer_set_input_source source w =
      let (err, ret, w') = stubs.stub_set_input_source source w in
      (if is_neg err then err else ret, w')

  -- Here `*sourcep` is written even if the call fails.
  unfoldable pub remote_mixer_get_input_source : ℤ → W → ℤ × ℤ × W
  remote_mixer_get_input_source sourcep w =
      let (err, ret, source, w') = stubs.stub_get_input_source (pos 0) w in
      (if is_neg err then err else ret, source, w')

  unfoldable pub remote_mixer_loopback_enable : Bool → W → ℤ × W
  remote_mixer_loopback_enable enable w =
      let (err, ret, w') = stubs.stub_loopback_enable enable w in
      (if is_neg err then err else ret, w')

  unfoldable pub remote_mixer_loopback_is_enabled : Bool → W → ℤ × Bool × W
  remote_mixer_loopback_is_enabled enabled w =
      let (err, ret, enabled', w') = stubs.stub_loopback_is_enabled enabled w in
      (if is_neg err then err else ret, enabled', w')
