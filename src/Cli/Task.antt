-- ===== src/Cli/Task.antt =====
-- bin/commands.c: how task-exec joins its arguments to one command line (bin/utils.c decides which
-- of them are quoted).
use rcrpc.Base.{ℕ, suc, ◌+◌, Bool, true, false, if◌then◌else◌, List, [], ◌∷◌, ◌++◌, length, ltb}
use rcrpc.Cli.Shell.{is_space}

-- Whether the string holds white space.
unfoldable pub shell_str_needs_escape : List ℕ → Bool
shell_str_needs_escape [] = false
shell_str_needs_escape (c ∷ cs) = if is_space c then true else shell_str_needs_escape cs

-- The size that is allocated: a separator or the terminator for each argument, and two quotes.
unfoldable pub command_line_size : ℕ → List (List ℕ) → ℕ
command_line_size size [] = size
command_line_size size (a ∷ rest) =
    let size' = size + (length a + 1) in
    command_line_size (if shell_str_needs_escape a then size' + 2 else size') rest

-- The calls of `strcat` for one argument, the `i`-th.
unfoldable pub append_argument : ℕ → List ℕ → List ℕ → List ℕ
append_argument i cmdline a =
    let spaced = if ltb 1 i then cmdline ++ b' ' ∷ [] else cmdline in
    if shell_str_needs_escape a then ((spaced ++ 39 ∷ []) ++ a) ++ 39 ∷ [] else spaced ++ a

unfoldable pub append_arguments : ℕ → List ℕ → List (List ℕ) → List ℕ
append_arguments i cmdline [] = cmdline
append_arguments i cmdline (a ∷ rest) = append_arguments (suc i) (append_argument i cmdline a) rest

-- The arguments behind the name of the command.
unfoldable pub command_line : List (List ℕ) → List ℕ
unfolding append_arguments
command_line args = append_arguments 1 [] args
