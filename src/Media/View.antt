-- ===== src/Media/View.antt =====
-- src/rcrpc-client/media-player.c over src/rcrpc/media-player.c and a player that works.
use rcrpc.Base.{ℕ, ◌≡◌, Option, none, some, List, pos}
use rcrpc.Media.Player.{
  PlayerState, player_stopped, player_playing, player_other, PlayerApi, PlayerStubs,
  media_player_start, media_player_stop, media_player_is_running, media_player_set_stream,
  media_player_get_stream, media_player_set_crop, media_player_set_output_window,
  media_player_pause, media_player_resume, media_player_get_duration, media_player_get_position,
  media_player_set_position,
}

-- The time that the stub of the client takes from an answer.
abbrev time_or_zero : Option ℕ → ℕ
time_or_zero none = 0
time_or_zero (some t) = t

-- The stubs of a client whose calls reach the server and come back.
unfoldable pub player_loopback : {W : Type 0} → PlayerApi W → PlayerStubs W
player_loopback api = record {
  stub_start = λ w. let (ret, w') = media_player_start api w in (pos 0, ret, w');
  stub_stop = λ w. let (ret, w') = media_player_stop api w in (pos 0, ret, w');
  stub_is_running =
      λ r w. let (ret, value, w') = media_player_is_running api r w in (pos 0, ret, value, w');
  stub_get_stream =
      λ u w. let (ret, value, w') = media_player_get_stream api u w in (pos 0, ret, value, w');
  stub_set_stream = λ u w. let (ret, w') = media_player_set_stream api u w in (pos 0, ret, w');
  stub_set_crop =
      λ l r t b w. let (ret, w') = media_player_set_crop api l r t b w in (pos 0, ret, w');
  stub_set_output_window =
      λ x y a b w. let (ret, w') = media_player_set_output_window api x y a b w in (pos 0, ret, w');
  stub_pause = λ w. let (ret, w') = media_player_pause api w in (pos 0, ret, w');
  stub_resume = λ w. let (ret, w') = media_player_resume api w in (pos 0, ret, w');
  stub_get_duration = λ w.
      let (ret, time, w') = media_player_get_duration api (some 0) w in
      (pos 0, ret, time_or_zero time, w');
  stub_get_position = λ w.
      let (ret, time, w') = media_player_get_position api (some 0) w in
      (pos 0, ret, time_or_zero time, w');
  stub_set_position = λ p w. let (ret, w') = media_player_set_position api p w in (pos 0, ret, w');
}

-- What a player is, seen from outside.
pub record View : Type 0 where
  pub uri : Option (List ℕ)
  pub state : PlayerState
  pub position : ℕ

-- A player that does what it is told, without a failure.
pub record Plays {W : Type 0} (api : PlayerApi W) : Type 0 where
  pub view : W → View
  pub plays :
      (w : W)
      → (w' : W) × (api.api_play w ≡ (pos 0, w'))
        × (view w' ≡ record (view w) { state = player_playing })
  pub stops :
      (w : W)
      → (w' : W) × (api.api_stop w ≡ (pos 0, w'))
        × (view w' ≡ record (view w) { state = player_stopped })
  pub pauses :
      (w : W)
      → (w' : W) × (api.api_pause w ≡ (pos 0, w'))
        × (view w' ≡ record (view w) { state = player_other })
  pub resumes :
      (w : W)
      → (w' : W) × (api.api_resume w ≡ (pos 0, w'))
        × (view w' ≡ record (view w) { state = player_playing })
  pub takes_uri :
      (u : List ℕ) (w : W)
      → (w' : W) × (api.api_set_uri u w ≡ (pos 0, w'))
        × (view w' ≡ record (view w) { uri = some u })
  pub takes_position :
      (p : ℕ) (w : W)
      → (w' : W) × (api.api_set_position p w ≡ (pos 0, w'))
        × (view w' ≡ record (view w) { position = p })
  pub tells_state : (s : PlayerState) (w : W) → api.api_get_state s w ≡ (pos 0, (view w).state, w)
  pub tells_uri : (u : Option (List ℕ)) (w : W) → api.api_get_uri u w ≡ (pos 0, (view w).uri, w)
  pub tells_position : (t : ℕ) (w : W) → api.api_get_position t w ≡ (pos 0, (view w).position, w)
