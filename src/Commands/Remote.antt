-- ===== src/Commands/Remote.antt =====
-- What the handlers of bin/commands.c work on: the client library at `cli->client`, and printf.
use rcrpc.Base.{ℕ, Bool, List, ℤ}

-- An argument of printf; an error stands for the text that strerror has for it.
pub data Arg : Type 0 where
  arg_text : List ℕ → Arg
  arg_number : ℤ → Arg
  arg_error : ℤ → Arg

-- The functions of the client library that the handlers call: the result, what is written behind the
-- pointer, the state; and a call of printf with its format and its arguments.
pub record Remote (W : Type 0) : Type 0 where
  pub audio_get_volume : ℕ → W → ℤ × ℕ × W
  pub audio_set_volume : ℕ → W → ℤ × W
  pub audio_get_state : ℤ → W → ℤ × ℤ × W
  pub audio_set_state : ℤ → Bool → W → ℤ × W
  pub mixer_get_volume : ℤ → ℕ → W → ℤ × ℕ × W
  pub mixer_set_volume : ℤ → ℕ → W → ℤ × W
  pub mixer_get_mute : ℤ → Bool → W → ℤ × Bool × W
  pub mixer_set_mute : ℤ → Bool → W → ℤ × W
  pub mixer_get_input_source : ℤ → W → ℤ × ℤ × W
  pub mixer_set_input_source : ℤ → W → ℤ × W
  pub mixer_loopback_is_enabled : Bool → W → ℤ × Bool × W
  pub mixer_loopback_enable : Bool → W → ℤ × W
  pub backlight_enable : ℕ → W → ℤ × W
  pub backlight_get : ℕ → W → ℤ × ℕ × W
  pub backlight_set : ℕ → W → ℤ × W
  pub printf : List ℕ → List Arg → W → W
