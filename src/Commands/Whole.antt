-- ===== src/Commands/Whole.antt =====
-- bin/main.c and bin/commands.c together: a run of the program in which the commands of the media
-- player are typed.
use rcrpc.Base.{
  ℕ, ◌≡◌, refl, ap, is_neg, if◌then◌else◌, ℤ, ◌∙◌, arith, ◌==◌, Bool, true, none, some, List, [],
  ◌∷◌, ◌++◌, map, All, pos, Option,
}
use rcrpc.Names.Tables.{codes}
use rcrpc.Media.Player.{PlayerApi}
use rcrpc.Media.View.{player_loopback, Plays}
use rcrpc.Client.Connection.{RemoteClient, ClientApi, remote_init, remote_exit}
use rcrpc.Cli.Exec.{CommandTable}
use rcrpc.Cli.Program.{
  Cli, Invocation, no_args, cli_parse_command_line, main, run_parsed, run_cli, cli_init, cli_free,
  with_client, main_lines,
}
use rcrpc.Commands.Remote.{arg_error}
use rcrpc.Commands.IrqPoll.{Line}
use rcrpc.Commands.Lines.{plain, line}
use rcrpc.Commands.PlayerShown.{PlayerCommand, run_all, expected}
use rcrpc.Commands.Info.{Calls, Process}
use rcrpc.Commands.Table.{table}
use rcrpc.Commands.Session.{typed_line, IsTyped, all_lines, main_lines-expected}

-- The structure that cli_new makes.
abbrev pub new_cli : Cli
new_cli = record {
  client = none;
  hostname = codes "localhost";
  service = codes "7482";
  quiet = 0;
  verbose = 0;
  args = no_args;
}

module _ {W : Type 0} (library : ClientApi W) (alloc : ℕ → Bool) (all : CommandTable W)
    (summaries : List (List ℕ × List ℕ)) where
  cli_init_joined :
      (cli : Cli) (k : ℕ) (client : Option RemoteClient) (w w' : W)
      → remote_init library true (some cli.hostname) (some cli.service) w ≡ (pos k, client, w')
      → cli_init library cli w ≡ (pos 0, [], with_client client cli, w')
  unfolding cli_init
  cli_init_joined cli k client w w' e = rw e refl

  run_parsed_joined :
      (i : Invocation) (input : List (List ℕ)) (told printed : List Line) (cli cli' : Cli)
      (w w' : W)
      → cli_init library cli w ≡ (pos 0, printed, cli', w')
      → run_parsed library alloc all summaries i input (pos 0, told, cli) w
        ≡ run_cli library alloc all summaries cli' input told w'
  unfolding run_parsed cli_init run_cli cli_free
  run_parsed_joined i input told printed cli cli' w w' e =
      ap
        (λ (t : ℤ × List Line × Cli × W).
          let (err, lines, ready, u) = t in
          if is_neg err
          then some (
            1,
            told ++ (lines ++ line (codes "shctl_init(): %s\n") (arg_error err) ∷ []),
            (cli_free library (some ready) u).1,
          )
          else run_cli library alloc all summaries ready input told u)
        e

  run_cli_lines :
      (input : List (List ℕ)) (told : List Line) (cli : Cli) (w w' : W)
      → cli.args.argc ≡ 0
      → main_lines alloc all input w ≡ some w'
      → run_cli library alloc all summaries cli input told w
        ≡ some (0, told ++ plain (codes "\n") ∷ [], (remote_exit library cli.client w').1)
  unfolding run_cli cli_free
  run_cli_lines input told cli w w' zero e =
      let none_left : (cli.args.argc == 0) ≡ true = ground (arith, zero) in rw (none_left, e) refl

module _ {W : Type 0} (calls : Calls W) (api : PlayerApi W) (works : Plays api)
    (library : ClientApi (Process W)) where
  open works use {view}

  -- The program over the table of all the commands and a player that works: if its options leave no
  -- command and no error, and the client connects, the program ends with the status 0, the lines that
  -- are typed have printed what the description of the player says, the client is given back to
  -- remote_exit behind the last line, and the player is left as the description says.
  pub main-expected :
      (alloc : ℕ → Bool) (summaries : List (List ℕ × List ℕ)) (i : Invocation)
      (cs : List PlayerCommand) (told before : List Line) (w w' : W) (cli : Cli) (k : ℕ)
      (client : Option RemoteClient) (printed : List Line)
      → ((n : ℕ) → alloc n ≡ true)
      → All IsTyped cs
      → cli_parse_command_line alloc summaries i new_cli ≡ (pos 0, told, cli)
      → cli.args.argc ≡ 0
      → remote_init library true (some cli.hostname) (some cli.service) (some (before, w))
        ≡ (pos k, client, some (printed, w'))
      → let (done, v) = run_all expected cs (view w') in
        (w'' : W) × (main library alloc
            (table (record calls { player = player_loopback api }))
            summaries
            true
            true
            i
            (map typed_line cs)
            (some (before, w))
          ≡ some (
            0,
            told ++ plain (codes "\n") ∷ [],
            (remote_exit library client (some (printed ++ all_lines done, w''))).1,
          ))
        × (view w'' ≡ v)
  unfolding main
  main-expected alloc summaries i cs told before w w' cli k client printed plenty h parsed zero
        joined =
      let (w'', e, v) = main_lines-expected calls api works alloc cs printed w' plenty h in
      let all = table (record calls { player = player_loopback api }) in
      let start = some (before, w) in
      (
        w'',
        ap (λ r. run_parsed library alloc all summaries i (map typed_line cs) r start) parsed
            ∙ run_parsed_joined library alloc all summaries i (map typed_line cs) told [] cli
                (with_client client cli) start (some (printed, w'))
                (cli_init_joined library alloc all summaries cli k client start (some (printed, w'))
                  joined)
            ∙ run_cli_lines library alloc all summaries (map typed_line cs) told
                (with_client client cli) (some (printed, w'))
                (some (printed ++ all_lines (run_all expected cs (view w')).0, w'')) zero e,
        v,
      )
