-- ===== src/Cli/Arguments.antt =====
-- bin/main.c: the completion by readline of what stands behind a command.
use rcrpc.Base.{
  ℕ, ◌≡◌, ◌⊎◌, refl, inl, inr, if◌then◌else◌, ◌==◌, Option, none, some, List, [], ◌∷◌, ◌++◌,
  Option-cases, Bool-cases,
}
use rcrpc.Cli.Exec.{Command, find_command}
use rcrpc.Phone.Voip.{c_string}

-- What stands in front of the first space; `none` if there is none, where strchr answers NULL.
unfoldable pub before_space : List ℕ → Option (List ℕ)
before_space [] = none
before_space (c ∷ cs) =
    if c == b' ' then some [] else elim (before_space cs) [ none ↦ none | some s ↦ some (c ∷ s) ]

module _ {W : Type 0} where
  abbrev pub find_command_by_name : List ℕ → List (Command W) → Option (Command W)
  find_command_by_name name table = find_command name table

  -- The static variable `cmd` behind the first call of a completion. The copy of the name has one byte
  -- more than it needs, which holds what malloc leaves there; `none` is a read beyond the copy,
  -- for which there is memory.
  unfoldable pub looked_up : List (Command W) → ℕ → List ℕ → Option (Option (Command W))
  looked_up table left name = elim (c_string (name ++ left ∷ [])) [
    | none ↦ none
    | some s ↦ some (find_command_by_name s table)
  ]

  -- The answer, which is NULL, and the static variable.
  unfoldable pub readline_options_generator :
      List (Command W)
      → List ℕ
      → ℕ
      → ℕ
      → Option (Command W)
      → Option (Option (List ℕ) × Option (Command W))
  unfolding looked_up
  readline_options_generator table buffer left state cmd =
      if state == 0
      then elim (before_space buffer) [
        | none ↦ some (none, cmd)
        | some name ↦ elim (looked_up table left name) [
          | none ↦ none
          | some found ↦ some (none, found)
        ]
      ]
      else some (none, cmd)

  -- A call of the completion offers nothing behind the first word, or it reads beyond its copy.
  readline_options_generator_silent :
      (table : List (Command W)) (buffer : List ℕ) (left state : ℕ) (cmd : Option (Command W))
      → (readline_options_generator table buffer left state cmd ≡ none)
        ⊎ ((cmd' : Option (Command W)) × (readline_options_generator table buffer left state cmd
              ≡ some (none, cmd')))
  unfolding readline_options_generator
  readline_options_generator_silent table buffer left state cmd = elim (Bool-cases (state == 0)) [
    | inr later ↦ inr (cmd, rw later refl)
    | inl first ↦ elim (Option-cases (before_space buffer)) [
      | inl e ↦ inr (cmd, rw (first, e) refl)
      | inr (name, e) ↦ elim (Option-cases (looked_up table left name)) [
        | inl r ↦ inl (rw (first, e, r) refl)
        | inr (found, r) ↦ inr (found, rw (first, e, r) refl)
      ]
    ]
  ]
