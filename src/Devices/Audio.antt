-- ===== src/Devices/Audio.antt =====
-- src/rcrpc/audio.c, the procedures of the audio device, and src/rcrpc-client/audio.c, the functions
-- of the client library that call them.
use rcrpc.Base.{
  ℕ, Bool, if◌then◌else◌, Option, none, some, ℤ, pos, neg, is_neg, eq_ℤ, einval, enosys,
}

-- `enum audio_state` of the platform library: the states that audio.c names, and any other.
pub data AudioState : Type 0 where
  inactive : AudioState
  hifi_playback_speaker : AudioState
  hifi_playback_headset : AudioState
  voicecall_handset : AudioState
  voicecall_headset : AudioState
  voicecall_speaker : AudioState
  voicecall_ip_handset : AudioState
  voicecall_ip_headset : AudioState
  voicecall_ip_speaker : AudioState
  linein_speaker : AudioState
  linein_headset : AudioState
  other_state : AudioState

-- The calls of the platform library: the result, what is written behind the pointer, the state.
pub record AudioApi (W : Type 0) : Type 0 where
  pub set_state : AudioState → W → ℤ × W
  pub get_state : W → ℤ × AudioState × W
  pub set_volume : ℕ → W → ℤ × W
  pub get_volume : ℕ → W → ℤ × ℕ × W
  pub set_speakers_enable : Bool → W → ℤ × W
  pub get_speakers_enable : Bool → W → ℤ × Bool × W

-- The switch of audio_set_state over the values of protocol.xml; `none` is its default.
unfoldable pub state_of_rpc : ℤ → Option AudioState
state_of_rpc v =
    if eq_ℤ v (pos 0)
    then some inactive
    else if eq_ℤ v (pos 10)
    then some hifi_playback_speaker
    else if eq_ℤ v (pos 11)
    then some hifi_playback_headset
    else if eq_ℤ v (pos 20)
    then some voicecall_handset
    else if eq_ℤ v (pos 21)
    then some voicecall_headset
    else if eq_ℤ v (pos 22)
    then some voicecall_speaker
    else if eq_ℤ v (pos 30)
    then some voicecall_ip_handset
    else if eq_ℤ v (pos 31)
    then some voicecall_ip_headset
    else if eq_ℤ v (pos 32)
    then some voicecall_ip_speaker
    else if eq_ℤ v (pos 40)
    then some linein_speaker
    else if eq_ℤ v (pos 41)
    then some linein_headset
    else none

-- The switch of audio_get_state.
unfoldable pub state_to_rpc : AudioState → ℤ
state_to_rpc inactive = pos 0
state_to_rpc hifi_playback_speaker = pos 10
state_to_rpc hifi_playback_headset = pos 11
state_to_rpc voicecall_handset = pos 20
state_to_rpc voicecall_headset = pos 21
state_to_rpc voicecall_speaker = pos 22
state_to_rpc voicecall_ip_handset = pos 30
state_to_rpc voicecall_ip_headset = pos 31
state_to_rpc voicecall_ip_speaker = pos 32
state_to_rpc linein_speaker = pos 40
state_to_rpc linein_headset = pos 41
state_to_rpc other_state = neg 1

module _ {W : Type 0} (api : AudioApi W) where
  unfoldable pub audio_set_state : ℤ → Bool → W → ℤ × W
  unfolding state_of_rpc
  audio_set_state state force w = elim (state_of_rpc state) [
    | none ↦ (neg einval, w)
    | some as_state ↦ api.set_state as_state w
  ]

  -- The result and `*statep`.
  unfoldable pub audio_get_state : ℤ → W → ℤ × ℤ × W
  unfolding state_to_rpc
  audio_get_state statep w =
      let (ret, as_state, w') = api.get_state w in
      if is_neg ret then (ret, statep, w') else (ret, state_to_rpc as_state, w')

  abbrev pub audio_set_volume : ℕ → W → ℤ × W
  audio_set_volume volume w = api.set_volume volume w

  abbrev pub audio_get_volume : ℕ → W → ℤ × ℕ × W
  audio_get_volume volumep w = api.get_volume volumep w

  abbrev pub audio_enable_speakers : Bool → W → ℤ × W
  audio_enable_speakers enable w = api.set_speakers_enable enable w

  abbrev pub audio_speakers_enabled : Bool → W → ℤ × Bool × W
  audio_speakers_enabled enablep w = api.get_speakers_enable enablep w

  abbrev pub audio_call_function : ℕ → ℕ → W → ℤ × W
  audio_call_function opcode param w = (neg enosys, w)

-- The stubs of the client: what the call itself returns, the result of the server, what it wrote, and
-- the state.
pub record AudioStubs (W : Type 0) : Type 0 where
  pub stub_get_state : ℤ → W → ℤ × ℤ × ℤ × W
  pub stub_set_state : ℤ → Bool → W → ℤ × ℤ × W
  pub stub_get_volume : ℕ → W → ℤ × ℤ × ℕ × W
  pub stub_set_volume : ℕ → W → ℤ × ℤ × W

module _ {W : Type 0} (stubs : AudioStubs W) where
  -- The result and `*statep`, which only a call that came back changes.
  unfoldable pub remote_audio_get_state : ℤ → W → ℤ × ℤ × W
  remote_audio_get_state statep w =
      let (err, ret, state, w') = stubs.stub_get_state (neg 1) w in
      if is_neg err then (err, statep, w') else (ret, state, w')

  unfoldable pub remote_audio_set_state : ℤ → Bool → W → ℤ × W
  remote_audio_set_state state force w =
      let (err, ret, w') = stubs.stub_set_state state force w in
      (if is_neg err then err else ret, w')

  unfoldable pub remote_audio_get_volume : ℕ → W → ℤ × ℕ × W
  remote_audio_get_volume volume w =
      let (err, ret, volume', w') = stubs.stub_get_volume volume w in
      (if is_neg err then err else ret, volume', w')

  unfoldable pub remote_audio_set_volume : ℕ → W → ℤ × W
  remote_audio_set_volume volume w =
      let (err, ret, w') = stubs.stub_set_volume volume w in (if is_neg err then err else ret, w')
