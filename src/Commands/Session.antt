-- ===== src/Commands/Session.antt =====
-- bin/main.c and bin/commands.c together: a session in which the commands of the media player are typed,
-- one on each line.
use rcrpc.Base.{
  ℕ, zero, suc, ◌≡◌, ◌∙◌, refl, ap, Bool, true, Option, none, some, List, [], ◌∷◌, ◌++◌, map, All,
  ℤ, append-nil, append_assoc, sym,
}
use mathlib.Core.List.{Memᴰ}
use mathlib.Core.List.Memᴰ.{head, tail}
use rcrpc.Names.Tables.{codes}
use rcrpc.Media.Player.{PlayerApi}
use rcrpc.Media.View.{player_loopback, View, Plays}
use rcrpc.Cli.Task.{command_line}
use rcrpc.Cli.RoundTrip.{IsCarried}
use rcrpc.Cli.Exec.{main_line}
use rcrpc.Cli.Program.{main_lines}
use rcrpc.Commands.IrqPoll.{Line}
use rcrpc.Commands.PlayerShown.{
  PlayerCommand, play_uri, play, stop, pause, resume, set_uri, show_uri, set_position,
  show_position, show_state, run_command, run_all, expected, run_command-expected,
}
use rcrpc.Commands.Info.{Calls, CommandInfo, shown}
use rcrpc.Commands.MediaTable.{
  cmd_media_player_uri, cmd_media_player_play, cmd_media_player_stop, cmd_media_player_pause,
  cmd_media_player_resume, cmd_media_player_position, cmd_media_player_state,
}
use rcrpc.Commands.Table.{commands, table}
use rcrpc.Commands.Dispatch.{main_line-command}

-- The name and the arguments of a command as they are typed.
abbrev pub command_name : PlayerCommand → List ℕ
command_name (play_uri text) = codes "media-player-play"
command_name play = codes "media-player-play"
command_name stop = codes "media-player-stop"
command_name pause = codes "media-player-pause"
command_name resume = codes "media-player-resume"
command_name (set_uri text) = codes "media-player-uri"
command_name show_uri = codes "media-player-uri"
command_name (set_position text) = codes "media-player-position"
command_name show_position = codes "media-player-position"
command_name show_state = codes "media-player-state"

abbrev pub command_args : PlayerCommand → List (List ℕ)
command_args (play_uri text) = text ∷ []
command_args (set_uri text) = text ∷ []
command_args (set_position text) = text ∷ []
command_args _ = []

abbrev pub typed_line : PlayerCommand → List ℕ
typed_line c = command_line (command_name c ∷ command_args c)

-- A command that can be typed.
abbrev pub IsTyped : PlayerCommand → Type 0
IsTyped c = All IsCarried (command_args c)

-- What a session printed.
abbrev pub all_lines : List (ℤ × List Line) → List Line
all_lines [] = []
all_lines ((ret, lines) ∷ more) = lines ++ all_lines more

abbrev nth : {A : Type 0} → ℕ → List A → Option A
nth n [] = none
nth zero (x ∷ xs) = some x
nth (suc n) (x ∷ xs) = nth n xs

-- A command stands in the list.
pub nth-Mem : {A : Type 0} (n : ℕ) (xs : List A) (x : A) → nth n xs ≡ some x → Memᴰ x xs
nth-Mem n [] x h = cc h
nth-Mem zero (y ∷ xs) x h = head (cc h)
nth-Mem (suc n) (y ∷ xs) x h = tail (nth-Mem n xs x h)

module _ {W : Type 0} (calls : Calls W) (alloc : ℕ → Bool) (plenty : (n : ℕ) → alloc n ≡ true) where
  command_runs :
      (n : ℕ) (info : CommandInfo W) (args : List (List ℕ)) (printed : List Line) (w : W)
      → nth n (commands calls) ≡ some info
      → All IsCarried args
      → main_line alloc (table calls) (command_line (info.entry.name ∷ args)) (some (printed, w))
        ≡ some (shown printed (info.exec (info.entry.name ∷ args) w)).1
  command_runs n info args printed w e =
      main_line-command calls info alloc args printed w (nth-Mem n (commands calls) info e) plenty

  typed_line_runs :
      (c : PlayerCommand) (printed : List Line) (w : W)
      → IsTyped c
      → main_line alloc (table calls) (typed_line c) (some (printed, w))
        ≡ some (shown printed (some (run_command calls.player c w))).1
  typed_line_runs (play_uri text) printed w h =
      command_runs 12 (cmd_media_player_play calls) (text ∷ []) printed w refl h
  typed_line_runs play printed w h =
      command_runs 12 (cmd_media_player_play calls) [] printed w refl h
  typed_line_runs stop printed w h =
      command_runs 13 (cmd_media_player_stop calls) [] printed w refl h
  typed_line_runs pause printed w h =
      command_runs 14 (cmd_media_player_pause calls) [] printed w refl h
  typed_line_runs resume printed w h =
      command_runs 15 (cmd_media_player_resume calls) [] printed w refl h
  typed_line_runs (set_uri text) printed w h =
      command_runs 10 (cmd_media_player_uri calls) (text ∷ []) printed w refl h
  typed_line_runs show_uri printed w h =
      command_runs 10 (cmd_media_player_uri calls) [] printed w refl h
  typed_line_runs (set_position text) printed w h =
      command_runs 17 (cmd_media_player_position calls) (text ∷ []) printed w refl h
  typed_line_runs show_position printed w h =
      command_runs 17 (cmd_media_player_position calls) [] printed w refl h
  typed_line_runs show_state printed w h =
      command_runs 18 (cmd_media_player_state calls) [] printed w refl h

  main_lines-run_all :
      (cs : List PlayerCommand) (printed : List Line) (w : W)
      → All IsTyped cs
      → let (done, w') = run_all (run_command calls.player) cs w in
        main_lines alloc (table calls) (map typed_line cs) (some (printed, w))
        ≡ some (some (printed ++ all_lines done, w'))
  unfolding main_lines shown
  main_lines-run_all [] printed w h = ap (λ l. some (some (l, w))) (sym (append-nil printed))
  main_lines-run_all (c ∷ cs) printed w h =
      let (ret, lines, w') = run_command calls.player c w in
      rw (main_lines, typed_line_runs c printed w h.0)
        (main_lines-run_all cs (printed ++ lines) w' h.1
          ∙ ap (λ l. some (some (l, (run_all (run_command calls.player) cs w').1)))
              (append_assoc printed lines (all_lines (run_all (run_command calls.player) cs w').0)))

module _ {W : Type 0} (calls : Calls W) (api : PlayerApi W) (works : Plays api) where
  open works use {view}

  -- Over a player that works, the lines of a session in which the commands media-player-play, -stop,
  -- -pause, -resume, -uri, -position and -state are typed, each with an argument without quotes that is
  -- not empty or without one, print what the description of the player says, in this order, behind what
  -- was printed, and leave the player as it says, if memory is there.
  pub main_lines-expected :
      (alloc : ℕ → Bool) (cs : List PlayerCommand) (printed : List Line) (w : W)
      → ((n : ℕ) → alloc n ≡ true)
      → All IsTyped cs
      → let (done, v) = run_all expected cs (view w) in
        (w' : W) × (main_lines alloc
            (table (record calls { player = player_loopback api }))
            (map typed_line cs)
            (some (printed, w))
          ≡ some (some (printed ++ all_lines done, w')))
        × (view w' ≡ v)
  main_lines-expected alloc cs printed w plenty h =
      let (done, w') = run_all (run_command (player_loopback api)) cs w in
      let e = run_command-expected api works cs w in
      (
        w',
        main_lines-run_all (record calls { player = player_loopback api }) alloc plenty cs printed w
              h
            ∙ ap (λ (t : List (ℤ × List Line) × View). some (some (printed ++ all_lines t.0, w')))
                e,
        ap (λ (t : List (ℤ × List Line) × View). t.1) e,
      )
