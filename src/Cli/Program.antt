-- ===== src/Cli/Program.antt =====
-- bin/main.c: the program around the commands, from its options to its end. What getopt_long returns
-- is a list: each option with its argument, and `optind` behind the last one.
use rcrpc.Base.{
  ℕ, ◌+◌, ◌-◌, ◌%◌, ◌^◌, Bool, true, false, if◌then◌else◌, ltb, ◌==◌, Option, none, some, List, [],
  ◌∷◌, ◌++◌, not, length, ℤ, pos, neg, is_neg, is_zero, einval,
}
use rcrpc.Names.Tables.{codes}
use rcrpc.Client.Connection.{RemoteClient, ClientApi, remote_init, remote_exit}
use rcrpc.Cli.Shell.{Args}
use rcrpc.Cli.Exec.{CommandTable, cli_exec, main_line, slice_strdup}
use rcrpc.Commands.Remote.{arg_text, arg_number, arg_error}
use rcrpc.Commands.IrqPoll.{Line}
use rcrpc.Commands.Lines.{line, plain}

-- `struct cli`.
pub record Cli : Type 0 where
  pub client : Option RemoteClient
  pub hostname : List ℕ
  pub service : List ℕ
  pub quiet : ℕ
  pub verbose : ℕ
  pub args : Args

abbrev pub no_args : Args
no_args = record { argc = 0; argv = none }

-- `none` without memory.
abbrev pub cli_new : Bool → Option Cli
cli_new false = none
cli_new true = some (record {
  client = none;
  hostname = codes "localhost";
  service = codes "7482";
  quiet = 0;
  verbose = 0;
  args = no_args;
})

-- The options of the program, as cli_usage prints them.
abbrev help_options : List ℕ
help_options =
    codes "  Options:\n"
    ++ (codes "    -h, --help                show this help screen\n"
        ++ (codes "    -H, --host <hostname>     server host name\n"
            ++ (codes "    -p, --port <port>         server port\n"
                ++ (codes "    -q, --quiet               quiet mode\n"
                    ++ (codes "    -v, --verbose             increase verbosity level\n"
                        ++ codes "    -V, --version             show version information\n")))))

-- The loop over the table, with the name and the summary of each command.
abbrev pub usage_entries : List (List ℕ × List ℕ) → List Line
usage_entries [] = []
usage_entries ((name, summary) ∷ more) =
    record { format = codes "    %-25s %s\n"; args = arg_text name ∷ arg_text summary ∷ [] }
    ∷ usage_entries more

-- The name of the program is what basename makes of `argv[0]`.
abbrev pub cli_usage : List (List ℕ × List ℕ) → List ℕ → List Line
cli_usage summaries program =
    line (codes "\nUsage: %s [options] [commands]\n\n") (arg_text program)
      ∷ plain help_options
      ∷ plain (codes "\n  Commands:\n")
      ∷ usage_entries summaries
    ++ plain (codes "\n")
      ∷ plain (codes "  (specify help <command> for details about the command)\n")
      ∷ plain (codes "\n")
      ∷ []

-- What the loop over the options has seen.
pub record Parsed : Type 0 where
  pub cli : Cli
  pub help : Bool
  pub version : Bool
  pub errors : List Line

unfoldable pub parse_option : ℕ → List ℕ → Parsed → Parsed
parse_option opt optarg p =
    if opt == b'h'
    then record p { help = true }
    else if opt == b'H'
    then record p { cli = record p.cli { hostname = optarg } }
    else if opt == b'p'
    then record p { cli = record p.cli { service = optarg } }
    else if opt == b'q'
    then record p { cli = record p.cli { quiet = 1 } }
    else if opt == b'v'
    then record p { cli = record p.cli { verbose = (p.cli.verbose + 1) % 2 ^ 32 } }
    else if opt == b'V'
    then record p { version = true }
    else record p {
      errors =
          p.errors
          ++ line (codes "unsupported option '-%c'. See --help.\n") (arg_number (pos opt)) ∷ [];
    }

unfoldable pub parse_options : List (ℕ × List ℕ) → Parsed → Parsed
parse_options [] p = p
parse_options ((opt, optarg) ∷ more) p = parse_options more (parse_option opt optarg p)

-- What the program is given: the options, `optind`, the arguments, the name of the program and its
-- version.
pub record Invocation : Type 0 where
  pub options : List (ℕ × List ℕ)
  pub optind : ℕ
  pub arguments : List (List ℕ)
  pub program : List ℕ
  pub release : List ℕ

-- What cli_parse_command_line does behind its loop.
unfoldable pub parsed_result :
    (ℕ → Bool) → List (List ℕ × List ℕ) → Invocation → Parsed → ℤ × List Line × Cli
parsed_result alloc summaries i p =
    if p.help
    then (pos 1, p.errors ++ cli_usage summaries i.program, p.cli)
    else if p.version
    then (
      pos 1,
      p.errors
          ++ record {
            format = codes "%s %s\n";
            args = arg_text i.program ∷ arg_text i.release ∷ [];
          }
            ∷ [],
      p.cli,
    )
    else if ltb i.optind (length i.arguments)
    then (
      pos 0,
      p.errors,
      record p.cli {
        args = record {
          argc = length i.arguments - i.optind;
          argv = slice_strdup alloc (some i.arguments) i.optind (length i.arguments);
        };
      },
    )
    else (pos 0, p.errors, p.cli)

-- The result, the lines and the client of the command line.
abbrev pub cli_parse_command_line :
    (ℕ → Bool) → List (List ℕ × List ℕ) → Invocation → Cli → ℤ × List Line × Cli
cli_parse_command_line alloc summaries i cli =
    parsed_result alloc summaries i
      (parse_options i.options (record { cli = cli; help = false; version = false; errors = [] }))

-- `cli->client` as remote_init leaves it, which was NULL.
abbrev pub with_client : Option RemoteClient → Cli → Cli
with_client client cli = record cli { client = client }

module _ {W : Type 0} (api : ClientApi W) where
  -- The result and the state; the memory of the arguments is freed with the structure.
  unfoldable pub cli_free : Option Cli → W → ℤ × W
  cli_free none w = (neg einval, w)
  cli_free (some cli) w = (pos 0, (remote_exit api cli.client w).1)

  -- The handler of events that is registered has no effect.
  unfoldable pub cli_init : Cli → W → ℤ × List Line × Cli × W
  cli_init cli w =
      let (err, client, w') = remote_init api true (some cli.hostname) (some cli.service) w in
      (
        if is_neg err then err else pos 0,
        if is_neg err then line (codes "remote_init(): %s\n") (arg_error err) ∷ [] else [],
        with_client client cli,
        w',
      )

-- The loop over the lines that are read, up to the end of the input. `none` is undefined behaviour of a
-- line.
unfoldable pub main_lines :
    {W : Type 0} → (ℕ → Bool) → CommandTable W → List (List ℕ) → W → Option W
main_lines alloc table [] w = some w
main_lines alloc table (s ∷ more) w = elim (main_line alloc table s w) [
  | none ↦ none
  | some w' ↦ main_lines alloc table more w'
]

module _ {W : Type 0} (api : ClientApi W) (alloc : ℕ → Bool) (table : CommandTable W)
    (summaries : List (List ℕ × List ℕ)) where
  -- The commands, and the end of the program.
  unfoldable pub run_cli : Cli → List (List ℕ) → List Line → W → Option (ℕ × List Line × W)
  unfolding cli_free
  run_cli cli input printed w =
      if cli.args.argc == 0
      then elim (main_lines alloc table input w) [
        | none ↦ none
        | some w' ↦ some (0, printed ++ plain (codes "\n") ∷ [], (cli_free api (some cli) w').1)
      ]
      else elim (cli_exec table cli.args w) [
        | none ↦ none
        | some (ret, w') ↦ some (0, printed, (cli_free api (some cli) w').1)
      ]

  -- The program behind the parse of its options: the result of it, what it printed, the client.
  unfoldable pub run_parsed :
      Invocation → List (List ℕ) → ℤ × List Line × Cli → W → Option (ℕ × List Line × W)
  unfolding run_cli cli_free cli_init
  run_parsed i input (err, printed, cli) w =
      let (err', printed', cli', w') = cli_init api cli w in
      let ended = run_cli cli' input printed w' in
      if is_neg err
      then some (1, printed ++ cli_usage summaries i.program, (cli_free api (some cli) w).1)
      else if not (is_zero err)
      then some (0, printed, w)
      else if is_neg err'
      then some (
        1,
        printed ++ (printed' ++ line (codes "shctl_init(): %s\n") (arg_error err') ∷ []),
        (cli_free api (some cli') w').1,
      )
      else ended

  -- The status of the program, the lines that it prints itself, and the state. `domain` says whether the
  -- translations could be set up, `memory` whether there is memory for `struct cli`.
  unfoldable pub main : Bool → Bool → Invocation → List (List ℕ) → W → Option (ℕ × List Line × W)
  unfolding run_parsed
  main false memory i input w = some (1, [], w)
  main true memory i input w = elim (cli_new memory) [
    | none ↦ some (1, plain (codes "failed to allocate application context\n") ∷ [], w)
    | some cli ↦ run_parsed i input (cli_parse_command_line alloc summaries i cli) w
  ]
