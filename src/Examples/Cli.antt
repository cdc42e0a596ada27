-- ===== src/Examples/Cli.antt =====
-- Command lines of bin/main.c and bin/commands.c.
use rcrpc.Base.{ℕ, ◌+◌, ◌≡◌, refl, Bool, true, none, some, List, [], ◌∷◌, pos, length}
use rcrpc.Names.Tables.{codes}
use rcrpc.Cli.Shell.{
  is_space, is_quote, skip_spaces, next_quote, after_char, keeps, open_quote, unquote_copy,
  unquote_length, shell_parse, cli_parse_command,
}
use rcrpc.Cli.Split.{words}
use rcrpc.Cli.Words.{argument, parsed, arguments, cli_parse_command-words}
use rcrpc.Cli.Task.{command_line, command_line_size, append_argument, shell_str_needs_escape}
use rcrpc.Cli.RoundTrip.{IsCarried, length-command_line, cli_parse_command-command_line}
use rcrpc.Cli.Exec.{CommandTable, main_line, main_line_blank}

abbrev plenty : ℕ → Bool
plenty n = true

abbrev cp : List ℕ
cp = codes "cp"

abbrev spaced : List ℕ
spaced = codes "a b"

cp-IsCarried : IsCarried cp
unfolding is_quote
cp-IsCarried = (λ e. cc, (refl, (refl, tt)))

spaced-IsCarried : IsCarried spaced
unfolding is_quote
spaced-IsCarried = (λ e. cc, (refl, (refl, (refl, tt))))

joined : command_line (cp ∷ spaced ∷ []) ≡ codes "cp 'a b'"
unfolding command_line append_argument shell_str_needs_escape is_space
joined = refl

cli_parse_command-command_line_example :
    cli_parse_command plenty (command_line (cp ∷ spaced ∷ []))
    ≡ some (pos 2, record { argc = 2; argv = some (some cp ∷ some spaced ∷ none ∷ []) })
cli_parse_command-command_line_example =
    cli_parse_command-command_line plenty cp (spaced ∷ []) (λ n. refl) cp-IsCarried
      (spaced-IsCarried, tt)

length-command_line_example :
    length (command_line (cp ∷ spaced ∷ [])) + 1 ≡ command_line_size 0 (cp ∷ spaced ∷ [])
length-command_line_example = length-command_line cp (spaced ∷ [])

cli_parse_command-words_example :
    cli_parse_command plenty (codes " x 'y z'")
    ≡ parsed (length (words (codes " x 'y z'"))) (arguments (words (codes " x 'y z'")))
cli_parse_command-words_example = cli_parse_command-words plenty (λ n. refl) (codes " x 'y z'")

-- A quote that is left open changes what is copied, and here more than was counted is.
open_quotes :
    (argument (b'a' ∷ 34 ∷ b'b' ∷ 39 ∷ b'c' ∷ []) ≡ some (codes "abc"))
    × (cli_parse_command plenty (34 ∷ b'a' ∷ 34 ∷ 39 ∷ []) ≡ none)
unfolding is_quote is_space skip_spaces next_quote after_char keeps open_quote unquote_copy
    unquote_length shell_parse cli_parse_command
open_quotes = (refl, refl)

-- One command, which counts.
abbrev table : CommandTable ℕ
table = record {
  all_commands = record { name = cp; exec = λ argc argv w. (pos 0, w + argc) } ∷ [];
  not_found = λ n w. w;
}

main_line_blank_example : main_line plenty table (codes "  ") 0 ≡ none
unfolding is_space
main_line_blank_example = main_line_blank plenty table 32 (32 ∷ []) 0 (λ n. refl) (refl, (refl, tt))
