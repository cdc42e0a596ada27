-- ===== src/Commands/Dispatch.antt =====
-- bin/main.c and bin/commands.c together: what a line that names a command does through the table of
-- all the commands.
use rcrpc.Base.{
  ℕ, ◌≡◌, ◌≢◌, ◌∙◌, refl, ap, Bool, true, List, [], ◌∷◌, All, some, pos, ℤ, length, ◌++◌, ==_refl,
}
use mathlib.Core.List.{Memᴰ}
use mathlib.Core.List.Memᴰ.{head}
use rcrpc.Cli.Shell.{Text, cli_parse_command}
use rcrpc.Cli.Exec.{CommandTable, exec_named, main_line}
use rcrpc.Cli.Task.{command_line}
use rcrpc.Cli.RoundTrip.{
  IsCarried, argument_vector, cli_parse_command-command_line, command_line_nonempty,
}
use rcrpc.Commands.IrqPoll.{Line}
use rcrpc.Commands.Help.{exec_help, help_command, help_page}
use rcrpc.Commands.Info.{Handler, Process, CommandInfo, Calls, strings, shown, call_handler}
use rcrpc.Commands.Table.{commands, table, cmd_help}
use rcrpc.Commands.Distinct.{
  str_eq_refl, find_command-Mem, help_command-Mem, name-IsCarried, names_distinct, names_carried,
}
use rcrpc.Commands.Remote.{arg_text}
use rcrpc.Names.Tables.{codes}

-- A call of a handler with the arguments of a parsed command line.
strings-argument_vector : (args : List (List ℕ)) → strings (argument_vector args) ≡ args
unfolding strings
strings-argument_vector [] = refl
strings-argument_vector (a ∷ rest) = ap (λ s. a ∷ s) (strings-argument_vector rest)

-- A line that is not empty and parses runs the first command of its name.
main_line_parsed :
    {W : Type 0} (alloc : ℕ → Bool) (table : CommandTable W) (s n : List ℕ) (rest : List Text)
    (k : ℕ) (w : W)
    → s ≢ []
    → cli_parse_command alloc s ≡ some (pos k, record { argc = k; argv = some (some n ∷ rest) })
    → main_line alloc table s w ≡ some (exec_named table n k (some n ∷ rest) w).1
unfolding main_line
main_line_parsed alloc table [] n rest k w h e = absurd (h refl)
main_line_parsed alloc table (c ∷ cs) n rest k w h e = rw (main_line, e) refl

call_handler-argument_vector :
    {W : Type 0} (exec : Handler W) (args : List (List ℕ)) (printed : List Line) (w : W)
    → call_handler exec (length args) (argument_vector args) (some (printed, w))
      ≡ shown printed (exec args w)
unfolding call_handler
call_handler-argument_vector exec args printed w =
    rw (strings-argument_vector args, ==_refl (length args)) refl

module _ {W : Type 0} (calls : Calls W) where
  -- The line that joins the name of a command and its arguments, each without quotes and not empty, runs
  -- the handler of this command on exactly these strings, if memory is there, and what it prints is
  -- printed behind what was there.
  pub main_line-command :
      (c : CommandInfo W) (alloc : ℕ → Bool) (args : List (List ℕ)) (printed : List Line) (w : W)
      → Memᴰ c (commands calls)
      → ((n : ℕ) → alloc n ≡ true)
      → All IsCarried args
      → main_line alloc (table calls) (command_line (c.entry.name ∷ args)) (some (printed, w))
        ≡ some (shown printed (c.exec (c.entry.name ∷ args) w)).1
  unfolding exec_named
  main_line-command c alloc args printed w m plenty h =
      let own = name-IsCarried (commands calls) c (names_carried calls) m in
      main_line_parsed alloc (table calls) (command_line (c.entry.name ∷ args)) c.entry.name
        (argument_vector args) (length (c.entry.name ∷ args)) (some (printed, w))
        (command_line_nonempty c.entry.name args own.0)
        (cli_parse_command-command_line alloc c.entry.name args plenty own h)
      ∙ rw (exec_named, find_command-Mem (commands calls) c (names_distinct calls) m)
          (ap (λ (r : ℤ × Process W). some r.1)
            (call_handler-argument_vector c.exec (c.entry.name ∷ args) printed w))

  -- The line that joins `help` and the name of a command prints its name, its summary and its page of
  -- help, behind what was printed, if memory is there, and leaves the state as it is.
  pub main_line-help :
      (c : CommandInfo W) (alloc : ℕ → Bool) (printed : List Line) (w : W)
      → Memᴰ c (commands calls)
      → ((n : ℕ) → alloc n ≡ true)
      → main_line alloc
          (table calls)
          (command_line (codes "help" ∷ c.entry.name ∷ []))
          (some (printed, w))
        ≡ some (
            some (
              printed
                  ++ record {
                    format = codes "%s - %s\n\n";
                    args = arg_text c.entry.name ∷ arg_text c.entry.summary ∷ [];
                  }
                    ∷ help_page c.entry.help c.entry.helpcmd,
              w,
            ))
  unfolding shown exec_help help_command
  main_line-help c alloc printed w m plenty =
      main_line-command (cmd_help calls) alloc (c.entry.name ∷ []) printed w (head refl) plenty
        (name-IsCarried (commands calls) c (names_carried calls) m, tt)
      ∙ rw (help_command-Mem (commands calls) c (names_distinct calls) m)
          (rw (str_eq_refl c.entry.name) refl)
