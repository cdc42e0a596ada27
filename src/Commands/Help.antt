-- ===== src/Commands/Help.antt =====
-- The handler of help in bin/commands.c, and audio_state_print_names of bin/utils.c.
use rcrpc.Base.{ℕ, Option, none, some, if◌then◌else◌, List, [], ◌∷◌, ◌++◌, ℤ, pos}
use rcrpc.Names.Tables.{codes, Table, audio_state_map}
use rcrpc.Cli.Exec.{str_eq}
use rcrpc.Commands.Remote.{arg_text, arg_number}
use rcrpc.Commands.IrqPoll.{Line}
use rcrpc.Commands.Lines.{line, plain}

-- What help uses of `struct cli_command_info`; `helpcmd` is what the function prints, if it is there.
pub record HelpEntry : Type 0 where
  pub name : List ℕ
  pub summary : List ℕ
  pub help : Option (List ℕ)
  pub helpcmd : Option (List Line)

-- The two loops over the table.
abbrev pub help_overview : List HelpEntry → List Line
help_overview [] = []
help_overview (c ∷ cs) =
    record { format = codes "  %-25s %s\n"; args = arg_text c.name ∷ arg_text c.summary ∷ [] }
    ∷ help_overview cs

-- The end of the page of a command.
abbrev pub help_page : Option (List ℕ) → Option (List Line) → List Line
help_page (some text) helpcmd = line (codes "%s\n\n") (arg_text text) ∷ []
help_page none none = []
help_page none (some printed) = printed

unfoldable pub help_command : List ℕ → List HelpEntry → List Line
help_command text [] = []
help_command text (c ∷ cs) =
    if str_eq text c.name
    then record { format = codes "%s - %s\n\n"; args = arg_text c.name ∷ arg_text c.summary ∷ [] }
      ∷ help_page c.help c.helpcmd
    else help_command text cs

unfoldable pub exec_help : {W : Type 0} → List HelpEntry → List (List ℕ) → W → ℤ × List Line × W
exec_help table (name ∷ text ∷ rest) w = (pos 0, help_command text table, w)
exec_help table _ w = (
  pos 0,
  plain (codes "Commands:\n") ∷ help_overview table
      ++ plain (codes "\n")
        ∷ plain (codes "(specify help <command> for details about the command)\n")
        ∷ plain (codes "\n")
        ∷ [],
  w,
)

-- The loop over a table from an entry on.
abbrev state_lines : Table → List Line
state_lines [] = []
state_lines ((id, text) ∷ more) =
    record { format = codes "   %.02d: %s\n"; args = arg_number id ∷ arg_text text ∷ [] }
    ∷ state_lines more

-- The loop leaves the first entry out.
abbrev behind_first : Table → Table
behind_first [] = []
behind_first (entry ∷ more) = more

abbrev pub audio_state_print_names : List Line
audio_state_print_names = state_lines (behind_first audio_state_map)
