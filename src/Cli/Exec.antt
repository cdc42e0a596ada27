-- ===== src/Cli/Exec.antt =====
-- bin/main.c: the table of commands, cli_exec and a line of the interactive loop; slice_strdup of
-- bin/utils.c, which takes the arguments of the process.
use rcrpc.Base.{
  ℕ, suc, ◌-◌, ◌≡◌, ◌≢◌, ◌∙◌, refl, Bool, true, false, ◌&&◌, if◌then◌else◌, List, [], ◌∷◌, ◌++◌,
  map, length, ltb, All, ◌==◌, Option, some, none, ℤ, neg, is_neg, enosys, drop, take,
}
use rcrpc.Cli.Shell.{Text, Args, is_space, cli_parse_command}
use rcrpc.Cli.Split.{words, words_from, words-blank, space_no_quote}
use rcrpc.Cli.Words.{cli_parse_command-words, arguments}

-- `strcmp(a, b) == 0`.
unfoldable pub str_eq : List ℕ → List ℕ → Bool
str_eq [] [] = true
str_eq (a ∷ xs) (b ∷ ys) = if a == b then str_eq xs ys else false
str_eq _ _ = false

-- `struct cli_command_info`: the name and the handler, over the state `W` of the client and outside.
pub record Command (W : Type 0) : Type 0 where
  pub name : List ℕ
  pub exec : ℕ → List Text → W → ℤ × W

-- The table, and what the line that names a missing command does.
pub record CommandTable (W : Type 0) : Type 0 where
  pub all_commands : List (Command W)
  pub not_found : List ℕ → W → W

module _ {W : Type 0} where
  -- The walk through the table that `cli_exec` makes.
  unfoldable pub find_command : List ℕ → List (Command W) → Option (Command W)
  find_command n [] = none
  find_command n (c ∷ cs) = if str_eq c.name n then some c else find_command n cs

  unfoldable pub exec_named : CommandTable W → List ℕ → ℕ → List Text → W → ℤ × W
  unfolding find_command
  exec_named table n argc argv w = elim (find_command n table.all_commands) [
    | none ↦ (neg enosys, table.not_found n w)
    | some c ↦ c.exec argc argv w
  ]

  -- `none` is the use of a NULL name, by strcmp or by printf.
  unfoldable pub cli_exec : CommandTable W → Args → W → Option (ℤ × W)
  unfolding exec_named
  cli_exec table args w = elim args.argv [
    | none ↦ none
    | some argv ↦ elim argv [
      | [] ↦ none
      | first ∷ rest ↦ elim first [
        | none ↦ none
        | some n ↦ some (exec_named table n args.argc (some n ∷ rest) w)
      ]
    ]
  ]

  -- The body of the loop of `main` for a line that was read. An empty line does nothing; `none` is a
  -- NULL name or a write behind the memory of an argument.
  unfoldable pub main_line : (ℕ → Bool) → CommandTable W → List ℕ → W → Option W
  unfolding cli_exec
  main_line alloc table [] w = some w
  main_line alloc table (c ∷ cs) w = elim (cli_parse_command alloc (c ∷ cs)) [
    | none ↦ none
    | some (err, args) ↦
        if is_neg err
        then some w
        else elim (cli_exec table args w) [ none ↦ none | some (ret, w') ↦ some w' ]
  ]

-- White space only.
abbrev pub IsBlank : List ℕ → Type 0
IsBlank = All (λ c. is_space c ≡ true)

blank-words : (s : List ℕ) → IsBlank s → words_from [] 0 s ≡ []
unfolding words_from
blank-words [] h = refl
blank-words (c ∷ cs) h = words-blank [] 0 c cs (space_no_quote c h.0) h.0 ∙ blank-words cs h.1

module _ {W : Type 0} where
  -- A line of white space, which is not empty, makes the client use a NULL name, whatever commands
  -- there are, if memory is there.
  pub main_line_blank :
      (alloc : ℕ → Bool) (table : CommandTable W) (c : ℕ) (cs : List ℕ) (w : W)
      → ((n : ℕ) → alloc n ≡ true)
      → IsBlank (c ∷ cs)
      → main_line alloc table (c ∷ cs) w ≡ none
  unfolding main_line words
  main_line_blank alloc table c cs w plenty h =
      rw (cli_parse_command-words alloc plenty (c ∷ cs), main_line) (rw (blank-words (c ∷ cs) h))

  -- A line that becomes arguments, the first of which is there, runs the first command of that name
  -- with all of them, or no command if there is none of that name.
  pub main_line_runs :
      (alloc : ℕ → Bool) (table : CommandTable W) (s : List ℕ) (n : List ℕ) (rest : List Text)
      (w : W)
      → ((n : ℕ) → alloc n ≡ true)
      → s ≢ []
      → arguments (words s) ≡ some (some n ∷ rest)
      → main_line alloc table s w ≡ some (exec_named table n (length (words s)) (some n ∷ rest) w).1
  unfolding main_line
  main_line_runs alloc table [] n rest w plenty h e = absurd (h refl)
  main_line_runs alloc table (c ∷ cs) n rest w plenty h e =
      rw (cli_parse_command-words alloc plenty (c ∷ cs), main_line) (rw e)

-- The copies of the entries from `start` up to `end`, and the NULL behind them; NULL without an array
-- or entries, or without memory.
unfoldable pub slice_strdup : (ℕ → Bool) → Option (List (List ℕ)) → ℕ → ℕ → Option (List Text)
slice_strdup alloc none start end = none
slice_strdup alloc (some argv) start end =
    if ltb start end && alloc (suc (end - start))
    then some (map some (take (end - start) (drop start argv)) ++ none ∷ [])
    else none
