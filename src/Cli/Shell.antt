-- ===== src/Cli/Shell.antt =====
-- bin/main.c: how a command line is split into arguments, and how a command is found and run.
use rcrpc.Base.{
  ℕ, zero, suc, ◌*◌, Bool, true, false, not, ◌&&◌, ◌||◌, Option, none, some, if◌then◌else◌, List,
  [], ◌∷◌, ◌++◌, ℤ, pos, neg, enomem, leb, ltb, ◌==◌, length, set, replicate,
}

-- `isspace` and the two quotes. A string is the list of its bytes, without the terminator.
unfoldable pub is_space : ℕ → Bool
is_space c = c == b' ' || (leb 9 c && leb c 13)

unfoldable pub is_quote : ℕ → Bool
is_quote c = c == b'"' || c == 39

unfoldable pub skip_spaces : List ℕ → List ℕ
skip_spaces [] = []
skip_spaces (c ∷ cs) = elim (is_space c) [ true ↦ skip_spaces cs | false ↦ c ∷ cs ]

-- The open quote after a quote character, with 0 for none.
unfoldable pub next_quote : ℕ → ℕ → ℕ
next_quote q c = if q == 0 then c else if q == c then 0 else q

-- Whether `unquote` keeps a character: all but the quotes that open or close.
unfoldable pub keeps : ℕ → ℕ → Bool
unfolding is_quote
keeps q c = if is_quote c then not (q == 0) && not (q == c) else true

-- The quote after any character.
unfoldable pub after_char : ℕ → ℕ → ℕ
unfolding is_quote next_quote
after_char q c = if is_quote c then next_quote q c else q

-- The first loop of `unquote`, which measures, and the quote that it leaves open.
unfoldable pub unquote_length : ℕ → List ℕ → ℕ
unquote_length q [] = 0
unquote_length q (c ∷ cs) =
    let n = unquote_length (after_char q c) cs in if keeps q c then suc n else n

unfoldable pub open_quote : ℕ → List ℕ → ℕ
open_quote q [] = q
open_quote q (c ∷ cs) = open_quote (after_char q c) cs

-- The second loop, which copies.
unfoldable pub unquote_copy : ℕ → List ℕ → List ℕ
unquote_copy q [] = []
unquote_copy q (c ∷ cs) =
    let rest = unquote_copy (after_char q c) cs in if keeps q c then c ∷ rest else rest

-- What is behind a pointer to a string; `none` is NULL.
abbrev pub Text : Type 0
Text = Option (List ℕ)

-- `alloc n` says whether a request of `n` bytes is met. The second loop starts with the quote that the
-- first one left open; `none` is a write behind the memory.
unfoldable pub unquote : (ℕ → Bool) → List ℕ → Option Text
unfolding unquote_length open_quote unquote_copy
unquote alloc s =
    let copied = unquote_copy (open_quote 0 s) s in
    if alloc (suc (unquote_length 0 s))
    then (if leb (length copied) (unquote_length 0 s) then some (some copied) else none)
    else some none

-- `cli->argc` and `cli->argv`; NULL is `none`.
pub record Args : Type 0 where
  pub argc : ℕ
  pub argv : Option (List Text)

module _ (alloc : ℕ → Bool) where
  -- `if (count < argc) argv[count] = unquote(...)`
  unfoldable pub store_arg : ℕ → ℕ → List ℕ → List Text → Option (List Text)
  unfolding unquote
  store_arg count argc word argv =
      if ltb count argc
      then elim (unquote alloc word) [ none ↦ none | some text ↦ some (set argv count text) ]
      else some argv

  -- The last argument, behind the loop.
  unfoldable pub shell_end : List ℕ → ℕ → ℕ → List Text → Option (ℕ × List Text)
  unfolding store_arg
  shell_end [] count argc argv = some (count, argv)
  shell_end (c ∷ word) count argc argv = elim (store_arg count argc (c ∷ word) argv) [
    | none ↦ none
    | some argv' ↦ some (suc count, argv')
  ]

  -- The loop of `shell_parse` on fuel. The word holds the characters from `last` up to `ptr`, and the
  -- string goes on behind it. `none` is a write behind the memory of an argument, or the end of the
  -- fuel.
  unfoldable pub shell_loop : ℕ → List ℕ → ℕ → List ℕ → ℕ → ℕ → List Text → Option (ℕ × List Text)
  unfolding shell_end store_arg
  shell_loop zero word q s count argc argv = none
  shell_loop (suc fuel) word q [] count argc argv = shell_end word count argc argv
  shell_loop (suc fuel) word q (c ∷ cs) count argc argv = elim (is_quote c) [
    | true ↦ shell_loop fuel (word ++ c ∷ []) (next_quote q c) cs count argc argv
    | false ↦ elim (q == 0 && is_space c) [
      | true ↦ elim (store_arg count argc word argv) [
        | none ↦ none
        | some argv' ↦ shell_loop fuel [] q (skip_spaces (c ∷ cs)) (suc count) argc argv'
      ]
      | false ↦ shell_loop fuel (word ++ c ∷ []) q cs count argc argv
    ]
  ]

  unfoldable pub shell_parse : List ℕ → ℕ → List Text → Option (ℕ × List Text)
  unfolding shell_loop
  shell_parse string argc argv =
      let s = skip_spaces string in shell_loop (suc (length s)) [] 0 s 0 argc argv

  -- The arguments that the client held are freed first. The second parse finds the count that the
  -- first did, so its result is the number of arguments.
  unfoldable pub cli_parse_command : List ℕ → Option (ℤ × Args)
  unfolding shell_parse
  cli_parse_command command = elim (shell_parse command 0 []) [
    | none ↦ none
    | some (ret, _) ↦
        if alloc (8 * suc ret)
        then elim (shell_parse command ret (replicate (suc ret) none)) [
          | none ↦ none
          | some (ret', argv) ↦ some (pos ret', record { argc = ret; argv = some argv })
        ]
        else some (neg enomem, record { argc = 0; argv = none })
  ]
