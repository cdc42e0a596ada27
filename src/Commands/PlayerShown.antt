-- ===== src/Commands/PlayerShown.antt =====
-- The commands of the media player in bin/commands.c over the client library, the server and a player
-- that works, against a description of what a sequence of them does.
use rcrpc.Base.{
  ℕ, ◌%◌, ◌^◌, ◌≡◌, refl, ap, ◌∙◌, if◌then◌else◌, none, some, List, [], ◌∷◌, ℤ, pos, neg, einval,
  Bool-cases, inl, inr,
}
use rcrpc.Names.Tables.{codes}
use rcrpc.Media.Player.{
  PlayerApi, PlayerStubs, state_running, player_stopped, player_playing, player_other,
  media_player_is_running, media_player_get_position, remote_media_player_get_position,
  remote_media_player_set_position,
}
use rcrpc.Media.View.{player_loopback, View, Plays}
use rcrpc.Commands.Numbers.{strtoul}
use rcrpc.Commands.Remote.{arg_text, arg_number}
use rcrpc.Commands.IrqPoll.{Line}
use rcrpc.Commands.Lines.{line, text_or_null}
use rcrpc.Commands.Player.{
  exec_media_player_uri, exec_media_player_play, exec_media_player_stop, exec_media_player_pause,
  exec_media_player_resume, exec_media_player_position, exec_media_player_state,
}

-- A command with its argument.
pub data PlayerCommand : Type 0 where
  play_uri : List ℕ → PlayerCommand
  play : PlayerCommand
  stop : PlayerCommand
  pause : PlayerCommand
  resume : PlayerCommand
  set_uri : List ℕ → PlayerCommand
  show_uri : PlayerCommand
  set_position : List ℕ → PlayerCommand
  show_position : PlayerCommand
  show_state : PlayerCommand

-- The handler of a command, with its words.
abbrev pub run_command : {W : Type 0} → PlayerStubs W → PlayerCommand → W → ℤ × List Line × W
run_command stubs (play_uri text) w =
    exec_media_player_play stubs (codes "media-player-play" ∷ text ∷ []) w
run_command stubs play w = exec_media_player_play stubs (codes "media-player-play" ∷ []) w
run_command stubs stop w = exec_media_player_stop stubs (codes "media-player-stop" ∷ []) w
run_command stubs pause w = exec_media_player_pause stubs (codes "media-player-pause" ∷ []) w
run_command stubs resume w = exec_media_player_resume stubs (codes "media-player-resume" ∷ []) w
run_command stubs (set_uri text) w =
    exec_media_player_uri stubs (codes "media-player-uri" ∷ text ∷ []) w
run_command stubs show_uri w = exec_media_player_uri stubs (codes "media-player-uri" ∷ []) w
run_command stubs (set_position text) w =
    exec_media_player_position stubs (codes "media-player-position" ∷ text ∷ []) w
run_command stubs show_position w =
    exec_media_player_position stubs (codes "media-player-position" ∷ []) w
run_command stubs show_state w = exec_media_player_state stubs (codes "media-player-state" ∷ []) w

-- What a command does to a player seen from outside.
abbrev pub expected : PlayerCommand → View → ℤ × List Line × View
expected (play_uri text) v = (pos 0, [], record v { uri = some text; state = player_playing })
expected play v = (pos 0, [], record v { state = player_playing })
expected stop v = (pos 0, [], record v { state = player_stopped })
expected pause v = (pos 0, [], record v { state = player_other })
expected resume v = (pos 0, [], record v { state = player_playing })
expected (set_uri text) v = (pos 0, [], record v { uri = some text })
expected show_uri v = (pos 0, line (codes "URI: %s\n") (text_or_null v.uri) ∷ [], v)
expected (set_position text) v =
    let (position, found) = strtoul 10 text in
    if found
    then (pos 0, [], record v { position = position % 2 ^ 32 })
    else (neg einval, line (codes "invalid position: %s\n") (arg_text text) ∷ [], v)
expected show_position v =
    (pos 0, line (codes "Position: %lu\n") (arg_number (pos (v.position % 2 ^ 32))) ∷ [], v)
expected show_state v = (
  pos 0,
  line (codes "state: %s\n")
        (arg_text (if state_running v.state then codes "playing" else codes "stopped"))
      ∷ [],
  v,
)

-- The results and the lines of a sequence, and the state behind it.
abbrev pub run_all :
    {S : Type 0}
    → (PlayerCommand → S → ℤ × List Line × S)
    → List PlayerCommand
    → S
    → List (ℤ × List Line) × S
run_all step [] s = ([], s)
run_all step (c ∷ cs) s =
    let (ret, lines, s') = step c s in
    let (more, s'') = run_all step cs s' in ((ret, lines) ∷ more, s'')

module _ {W : Type 0} (api : PlayerApi W) (works : Plays api) where
  open works use {view}

  command_as_expected :
      (c : PlayerCommand) (w : W)
      → let (ret, lines, w') = run_command (player_loopback api) c w in
        (ret, lines, view w') ≡ expected c (view w)
  unfolding player_loopback exec_media_player_uri exec_media_player_play exec_media_player_position
      exec_media_player_state media_player_is_running media_player_get_position
      remote_media_player_get_position remote_media_player_set_position
  command_as_expected (play_uri text) w =
      let (w', e, v) = works.takes_uri text w in
      let (w'', e', v') = works.plays w' in rw (e, e', v', v) refl
  command_as_expected play w = let (w', e, v) = works.plays w in rw (e, v) refl
  command_as_expected stop w = let (w', e, v) = works.stops w in rw (e, v) refl
  command_as_expected pause w = let (w', e, v) = works.pauses w in rw (e, v) refl
  command_as_expected resume w = let (w', e, v) = works.resumes w in rw (e, v) refl
  command_as_expected (set_uri text) w = let (w', e, v) = works.takes_uri text w in rw (e, v) refl
  command_as_expected show_uri w = rw (works.tells_uri none w) refl
  command_as_expected (set_position text) w = elim (Bool-cases (strtoul 10 text).1) [
    | inl found ↦
        let (w', e, v) = works.takes_position ((strtoul 10 text).0 % 2 ^ 32) w in
        rw (found, e, v) refl
    | inr missing ↦ rw missing refl
  ]
  command_as_expected show_position w = rw (works.tells_position 0 w) refl
  command_as_expected show_state w = rw (works.tells_state player_stopped w) refl

  -- Over a player that works, a sequence of the commands media-player-play, -stop, -pause, -resume,
  -- -uri, -position and -state gives the results and prints the lines that the description of the
  -- player says, and leaves the player as it says: a play with an address sets the address and plays,
  -- a position is kept modulo 2^32, and a text that is no number changes nothing.
  pub run_command-expected :
      (cs : List PlayerCommand) (w : W)
      → let (shown, w') = run_all (run_command (player_loopback api)) cs w in
        (shown, view w') ≡ run_all expected cs (view w)
  run_command-expected [] w = refl
  run_command-expected (c ∷ cs) w =
      let (ret, lines, w') = run_command (player_loopback api) c w in
      ap (λ (t : List (ℤ × List Line) × View). ((ret, lines) ∷ t.0, t.1))
        (run_command-expected cs w')
      ∙ ap
          (λ (t : ℤ × List Line × View).
            let (more, v) = run_all expected cs t.2 in ((t.0, t.1) ∷ more, v))
          (command_as_expected c w)
