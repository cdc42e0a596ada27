-- ===== src/Examples/Media.antt =====
-- The commands of the media player over a player that works.
use rcrpc.Base.{◌≡◌, refl, none, some, List, [], ◌∷◌, pos}
use rcrpc.Names.Tables.{codes}
use rcrpc.Cli.Shell.{is_space, skip_spaces}
use rcrpc.Media.Player.{PlayerApi, player_stopped, player_playing, player_other}
use rcrpc.Media.View.{View, Plays}
use rcrpc.Commands.Numbers.{strtoul}
use rcrpc.Commands.PlayerShown.{
  PlayerCommand, play_uri, set_position, show_position, show_state, expected, run_all,
}

abbrev pub player_api : PlayerApi View
player_api = record {
  api_play = λ w. (pos 0, record w { state = player_playing });
  api_stop = λ w. (pos 0, record w { state = player_stopped });
  api_get_state = λ s w. (pos 0, w.state, w);
  api_set_uri = λ u w. (pos 0, record w { uri = some u });
  api_get_uri = λ u w. (pos 0, w.uri, w);
  api_set_crop = λ l r t b w. (pos 0, w);
  api_set_output_window = λ x y a b w. (pos 0, w);
  api_pause = λ w. (pos 0, record w { state = player_other });
  api_resume = λ w. (pos 0, record w { state = player_playing });
  api_get_duration = λ t w. (pos 0, 60, w);
  api_get_position = λ t w. (pos 0, w.position, w);
  api_set_position = λ p w. (pos 0, record w { position = p });
}

abbrev pub plays : Plays player_api
plays = record {
  view = λ w. w;
  plays = λ w. (_, refl, refl);
  stops = λ w. (_, refl, refl);
  pauses = λ w. (_, refl, refl);
  resumes = λ w. (_, refl, refl);
  takes_uri = λ u w. (_, refl, refl);
  takes_position = λ p w. (_, refl, refl);
  tells_state = λ s w. refl;
  tells_uri = λ u w. refl;
  tells_position = λ t w. refl;
}

abbrev pub silent : View
silent = record { uri = none; state = player_stopped; position = 0 }

abbrev pub session : List PlayerCommand
session =
    play_uri (codes "a.ogg") ∷ set_position (codes "4294967300") ∷ show_position ∷ show_state ∷ []

-- The position is cut to 32 bits on its way to the player.
session_position : (run_all expected session silent).1.position ≡ 4
unfolding strtoul skip_spaces is_space
session_position = refl
