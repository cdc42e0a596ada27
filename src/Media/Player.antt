-- ===== src/Media/Player.antt =====
-- src/rcrpc/media-player.c, the procedures of the media player, and src/rcrpc-client/media-player.c,
-- the functions of the client library that call them. An `unsigned long` has 64 bits.
use rcrpc.Base.{
  ℕ, ◌%◌, ◌^◌, Bool, true, false, if◌then◌else◌, Option, none, some, List, ℤ, pos, is_neg, returned,
}

-- `enum media_player_state` of the platform library: the states that media-player.c names, and any
-- other.
pub data PlayerState : Type 0 where
  player_stopped : PlayerState
  player_playing : PlayerState
  player_other : PlayerState

-- The calls of the platform library: the result, what is written behind the pointer, the state. A
-- string that may be NULL is an option; a time that is not written stays what it was.
pub record PlayerApi (W : Type 0) : Type 0 where
  pub api_play : W → ℤ × W
  pub api_stop : W → ℤ × W
  pub api_get_state : PlayerState → W → ℤ × PlayerState × W
  pub api_set_uri : List ℕ → W → ℤ × W
  pub api_get_uri : Option (List ℕ) → W → ℤ × Option (List ℕ) × W
  pub api_set_crop : ℕ → ℕ → ℕ → ℕ → W → ℤ × W
  pub api_set_output_window : ℕ → ℕ → ℕ → ℕ → W → ℤ × W
  pub api_pause : W → ℤ × W
  pub api_resume : W → ℤ × W
  pub api_get_duration : ℕ → W → ℤ × ℕ × W
  pub api_get_position : ℕ → W → ℤ × ℕ × W
  pub api_set_position : ℕ → W → ℤ × W

-- The switch of media_player_is_running.
abbrev pub state_running : PlayerState → Bool
state_running player_playing = true
state_running player_stopped = false
state_running player_other = false

-- What a `uint32_t` behind a pointer holds after a call that took the time, if it is not NULL.
abbrev pub time_written : ℤ → ℕ → Option ℕ → Option ℕ
time_written ret time none = none
time_written ret time (some old) = some (if is_neg ret then old else time % 2 ^ 32)

module _ {W : Type 0} (api : PlayerApi W) where
  abbrev pub media_player_start : W → ℤ × W
  media_player_start w = api.api_play w

  abbrev pub media_player_stop : W → ℤ × W
  media_player_stop w = api.api_stop w

  -- The result and `*running`.
  unfoldable pub media_player_is_running : Bool → W → ℤ × Bool × W
  media_player_is_running running w =
      let (err, state, w') = api.api_get_state player_stopped w in
      if is_neg err then (err, running, w') else (pos 0, state_running state, w')

  abbrev pub media_player_set_stream : List ℕ → W → ℤ × W
  media_player_set_stream url w = api.api_set_uri url w

  abbrev pub media_player_get_stream : Option (List ℕ) → W → ℤ × Option (List ℕ) × W
  media_player_get_stream url w = api.api_get_uri url w

  abbrev pub media_player_set_crop : ℕ → ℕ → ℕ → ℕ → W → ℤ × W
  media_player_set_crop left right top bottom w = api.api_set_crop left right top bottom w

  abbrev pub media_player_set_output_window : ℕ → ℕ → ℕ → ℕ → W → ℤ × W
  media_player_set_output_window x y width height w = api.api_set_output_window x y width height w

  abbrev pub media_player_pause : W → ℤ × W
  media_player_pause w = api.api_pause w

  abbrev pub media_player_resume : W → ℤ × W
  media_player_resume w = api.api_resume w

  -- The result and what is behind the pointer, which may be NULL.
  unfoldable pub media_player_get_duration : Option ℕ → W → ℤ × Option ℕ × W
  media_player_get_duration duration w =
      let (ret, time, w') = api.api_get_duration 0 w in (ret, time_written ret time duration, w')

  unfoldable pub media_player_get_position : Option ℕ → W → ℤ × Option ℕ × W
  media_player_get_position position w =
      let (ret, time, w') = api.api_get_position 0 w in (ret, time_written ret time position, w')

  abbrev pub media_player_set_position : ℕ → W → ℤ × W
  media_player_set_position position w = api.api_set_position position w

-- The stubs of the client: what the call itself returns, the result of the server, what it wrote, and
-- the state. The time is what the stub leaves in a variable that the client did not set.
pub record PlayerStubs (W : Type 0) : Type 0 where
  pub stub_start : W → ℤ × ℤ × W
  pub stub_stop : W → ℤ × ℤ × W
  pub stub_is_running : Bool → W → ℤ × ℤ × Bool × W
  pub stub_get_stream : Option (List ℕ) → W → ℤ × ℤ × Option (List ℕ) × W
  pub stub_set_stream : List ℕ → W → ℤ × ℤ × W
  pub stub_set_crop : ℕ → ℕ → ℕ → ℕ → W → ℤ × ℤ × W
  pub stub_set_output_window : ℕ → ℕ → ℕ → ℕ → W → ℤ × ℤ × W
  pub stub_pause : W → ℤ × ℤ × W
  pub stub_resume : W → ℤ × ℤ × W
  pub stub_get_duration : W → ℤ × ℤ × ℕ × W
  pub stub_get_position : W → ℤ × ℤ × ℕ × W
  pub stub_set_position : ℕ → W → ℤ × ℤ × W

-- What an `unsigned long` behind a pointer holds after a call that came back, if it is not NULL.
abbrev pub time_taken : ℤ → ℕ → Option ℕ → Option ℕ
time_taken err time none = none
time_taken err time (some old) = some (if is_neg err then old else time)

module _ {W : Type 0} (stubs : PlayerStubs W) where
  abbrev pub remote_media_player_start : W → ℤ × W
  remote_media_player_start w = let (err, ret, w') = stubs.stub_start w in (returned err ret, w')

  abbrev pub remote_media_player_stop : W → ℤ × W
  remote_media_player_stop w = let (err, ret, w') = stubs.stub_stop w in (returned err ret, w')

  abbrev pub remote_media_player_is_running : Bool → W → ℤ × Bool × W
  remote_media_player_is_running running w =
      let (err, ret, running', w') = stubs.stub_is_running running w in
      (returned err ret, running', w')

  abbrev pub remote_media_player_get_stream : Option (List ℕ) → W → ℤ × Option (List ℕ) × W
  remote_media_player_get_stream url w =
      let (err, ret, url', w') = stubs.stub_get_stream url w in (returned err ret, url', w')

  abbrev pub remote_media_player_set_stream : List ℕ → W → ℤ × W
  remote_media_player_set_stream url w =
      let (err, ret, w') = stubs.stub_set_stream url w in (returned err ret, w')

  abbrev pub remote_media_player_set_crop : ℕ → ℕ → ℕ → ℕ → W → ℤ × W
  remote_media_player_set_crop left right top bottom w =
      let (err, ret, w') = stubs.stub_set_crop left right top bottom w in (returned err ret, w')

  abbrev pub remote_media_player_set_output_window : ℕ → ℕ → ℕ → ℕ → W → ℤ × W
  remote_media_player_set_output_window x y width height w =
      let (err, ret, w') = stubs.stub_set_output_window x y width height w in (returned err ret, w')

  abbrev pub remote_media_player_pause : W → ℤ × W
  remote_media_player_pause w = let (err, ret, w') = stubs.stub_pause w in (returned err ret, w')

  abbrev pub remote_media_player_resume : W → ℤ × W
  remote_media_player_resume w = let (err, ret, w') = stubs.stub_resume w in (returned err ret, w')

  -- The result and what is behind the pointer, which may be NULL.
  unfoldable pub remote_media_player_get_duration : Option ℕ → W → ℤ × Option ℕ × W
  remote_media_player_get_duration duration w =
      let (err, ret, time, w') = stubs.stub_get_duration w in
      (returned err ret, time_taken err time duration, w')

  unfoldable pub remote_media_player_get_position : Option ℕ → W → ℤ × Option ℕ × W
  remote_media_player_get_position position w =
      let (err, ret, time, w') = stubs.stub_get_position w in
      (returned err ret, time_taken err time position, w')

  -- The stub takes a `uint32_t`.
  unfoldable pub remote_media_player_set_position : ℕ → W → ℤ × W
  remote_media_player_set_position position w =
      let (err, ret, w') = stubs.stub_set_position (position % 2 ^ 32) w in (returned err ret, w')
