-- ===== src/Cli/RoundTrip.antt =====
-- The command line that task-exec builds fits its memory, and parses back into its arguments.
use rcrpc.Base.{
  ℕ, suc, ◌+◌, ◌≡◌, ◌≢◌, ◌∙◌, refl, sym, ap, arith, Bool, true, false, if◌then◌else◌, List, [], ◌∷◌,
  ◌++◌, map, length, ltb, append_assoc, append-nil, All, Bool-cases, inl, inr, length-append, some,
  none, pos,
}
use mathlib.Core.Path.{ap₂}
use rcrpc.Cli.Shell.{
  is_space, is_quote, next_quote, keeps, after_char, open_quote, unquote_copy, Text,
  cli_parse_command,
}
use rcrpc.Cli.Split.{words, words_from, emit, words-quote, words-blank, words-plain, words-end}
use rcrpc.Cli.Words.{in_front, argument_closed, arguments, cli_parse_command-words}
use rcrpc.Cli.Task.{
  shell_str_needs_escape, command_line_size, append_argument, append_arguments, command_line,
}

-- One argument as it stands in the command line.
abbrev piece : List ℕ → List ℕ
piece a = if shell_str_needs_escape a then 39 ∷ a ++ 39 ∷ [] else a

abbrev tail_text : List (List ℕ) → List ℕ
tail_text [] = []
tail_text (a ∷ rest) = b' ' ∷ (piece a ++ tail_text rest)

later : (i : ℕ) → ltb 1 (suc (suc i)) ≡ true
later i = ground arith

append_argument_later :
    (i : ℕ) (acc a : List ℕ) → append_argument (suc (suc i)) acc a ≡ acc ++ b' ' ∷ piece a
unfolding append_argument
append_argument_later i acc a = elim (Bool-cases (shell_str_needs_escape a)) [
  | inl e ↦ rw (later i, e) (simp append_assoc)
  | inr e ↦ rw (later i, e) (append_assoc acc (b' ' ∷ []) a)
]

append_arguments-tail :
    (i : ℕ) (acc : List ℕ) (args : List (List ℕ))
    → append_arguments (suc (suc i)) acc args ≡ acc ++ tail_text args
unfolding append_arguments
append_arguments-tail i acc [] = sym (append-nil acc)
append_arguments-tail i acc (a ∷ rest) =
    append_arguments-tail (suc i) (append_argument (suc (suc i)) acc a) rest
    ∙ rw (append_argument_later i acc a) (append_assoc acc (b' ' ∷ piece a) (tail_text rest))

command_line_text :
    (a : List ℕ) (rest : List (List ℕ)) → command_line (a ∷ rest) ≡ piece a ++ tail_text rest
unfolding command_line append_argument
command_line_text a rest = append_arguments-tail 0 (append_argument 1 [] a) rest

size_text : (n : ℕ) (args : List (List ℕ)) → command_line_size n args ≡ n + length (tail_text args)
unfolding command_line_size
size_text n [] = omega arith
size_text n (a ∷ rest) = ground (
  arith,
  size_text (n + (length a + 1)) rest,
  size_text (n + (length a + 1) + 2) rest,
  length-append (piece a) (tail_text rest),
  length-append a (39 ∷ []),
)

-- The text of one or more arguments and its terminator fill exactly the memory that is allocated.
pub length-command_line :
    (a : List ℕ) (rest : List (List ℕ))
    → length (command_line (a ∷ rest)) + 1 ≡ command_line_size 0 (a ∷ rest)
length-command_line a rest =
    omega (arith, ap length (command_line_text a rest), size_text 0 (a ∷ rest))

-- No quote stands in the argument.
abbrev pub IsUnquoted : List ℕ → Type 0
IsUnquoted = All (λ c. is_quote c ≡ false)

quote_mark : is_quote 39 ≡ true
unfolding is_quote
quote_mark = refl

space_plain : is_quote (b' ') ≡ false
unfolding is_quote
space_plain = refl

space_blank : is_space (b' ') ≡ true
unfolding is_space
space_blank = refl

plain_through :
    (a w s : List ℕ)
    → IsUnquoted a
    → shell_str_needs_escape a ≡ false
    → words_from w 0 (a ++ s) ≡ words_from (w ++ a) 0 s
unfolding shell_str_needs_escape
plain_through [] w s u n = rw append-nil
plain_through (c ∷ a) w s u n = elim (Bool-cases (is_space c)) [
  | inl e ↦ absurd (ground arith)
  | inr e ↦
      words-plain w 0 c (a ++ s) u.0 (rw e)
      ∙ plain_through a (w ++ c ∷ []) s u.1 (rw e at n)
      ∙ ap (λ v. words_from v 0 s) (append_assoc w (c ∷ []) a)
]

quoted_through :
    (a w s : List ℕ) → IsUnquoted a → words_from w 39 (a ++ s) ≡ words_from (w ++ a) 39 s
quoted_through [] w s u = rw append-nil
quoted_through (c ∷ a) w s u =
    words-plain w 39 c (a ++ s) u.0 refl
    ∙ quoted_through a (w ++ c ∷ []) s u.1
    ∙ ap (λ v. words_from v 39 s) (append_assoc w (c ∷ []) a)

-- A piece is one word up to the white space behind it.
piece-words :
    (a s : List ℕ) → IsUnquoted a → words_from [] 0 (piece a ++ s) ≡ words_from (piece a) 0 s
unfolding next_quote
piece-words a s u = elim (Bool-cases (shell_str_needs_escape a)) [
  | inl e ↦ rw e (quoted_piece e)
  | inr e ↦ rw e (plain_through a [] s u e)
]
  where
    quoted_piece :
        shell_str_needs_escape a ≡ true
        → words_from [] 0 ((39 ∷ a ++ 39 ∷ []) ++ s) ≡ words_from (39 ∷ a ++ 39 ∷ []) 0 s
    quoted_piece e =
        ap (λ v. words_from [] 0 (39 ∷ v)) (append_assoc a (39 ∷ []) s)
        ∙ words-quote [] 0 39 (a ++ 39 ∷ s) quote_mark
        ∙ quoted_through a (39 ∷ []) (39 ∷ s) u
        ∙ words-quote (39 ∷ a) 39 39 s quote_mark

piece_full : (a : List ℕ) (ws : List (List ℕ)) → a ≢ [] → emit (piece a) ws ≡ piece a ∷ ws
piece_full [] ws h = absurd (h refl)
piece_full (c ∷ a) ws h = elim (Bool-cases (shell_str_needs_escape (c ∷ a))) [
  | inl e ↦ rw e
  | inr e ↦ rw e
]

-- An argument that the command line can carry: it is not empty and holds no quote.
abbrev pub IsCarried : List ℕ → Type 0
IsCarried a = (a ≢ []) × IsUnquoted a

text-words :
    (a : List ℕ) (rest : List (List ℕ))
    → IsCarried a
    → All IsCarried rest
    → words (piece a ++ tail_text rest) ≡ piece a ∷ map piece rest
unfolding words
text-words a [] h hs = piece-words a [] h.1 ∙ words-end (piece a) 0 ∙ piece_full a [] h.0
text-words a (b ∷ rest) h hs =
    piece-words a (tail_text (b ∷ rest)) h.1
    ∙ words-blank (piece a) 0 (b' ') (piece b ++ tail_text rest) space_plain space_blank
    ∙ piece_full a _ h.0
    ∙ ap (λ ws. piece a ∷ ws) (text-words b rest hs.0 hs.1)

copy_plain : (q : ℕ) (a s : List ℕ) → IsUnquoted a → unquote_copy q (a ++ s) ≡ a ++ unquote_copy q s
unfolding unquote_copy keeps after_char
copy_plain q [] s u = refl
copy_plain q (c ∷ a) s u = ground (arith, copy_plain q a s u.1)

open_plain : (q : ℕ) (a s : List ℕ) → IsUnquoted a → open_quote q (a ++ s) ≡ open_quote q s
unfolding open_quote after_char
open_plain q [] s u = refl
open_plain q (c ∷ a) s u = ground (arith, open_plain q a s u.1)

-- The quotes of a piece are closed.
piece_closed : (a : List ℕ) → IsUnquoted a → open_quote 0 (piece a) ≡ 0
unfolding open_quote after_char
piece_closed a u = elim (Bool-cases (shell_str_needs_escape a)) [
  | inl e ↦ rw e (open_plain 39 a (39 ∷ []) u)
  | inr e ↦ rw e (ap (open_quote 0) (sym (append-nil a)) ∙ open_plain 0 a [] u)
]

piece-unquote : (a : List ℕ) → IsUnquoted a → unquote_copy 0 (piece a) ≡ a
unfolding unquote_copy keeps after_char
piece-unquote a u = elim (Bool-cases (shell_str_needs_escape a)) [
  | inl e ↦ rw e (copy_plain 39 a (39 ∷ []) u ∙ append-nil a)
  | inr e ↦ rw e (ap (unquote_copy 0) (sym (append-nil a)) ∙ copy_plain 0 a [] u ∙ append-nil a)
]

-- The arguments as `cli->argv` holds them.
abbrev pub argument_vector : List (List ℕ) → List Text
argument_vector [] = none ∷ []
argument_vector (a ∷ rest) = some a ∷ argument_vector rest

arguments-pieces :
    (args : List (List ℕ))
    → All IsCarried args
    → arguments (map piece args) ≡ some (argument_vector args)
arguments-pieces [] h = refl
arguments-pieces (a ∷ rest) h =
    ap₂ in_front
      (argument_closed (piece a) (piece_closed a h.0.1) ∙ ap some (piece-unquote a h.0.1))
      (arguments-pieces rest h.1)

length-pieces : (args : List (List ℕ)) → length (map piece args) ≡ length args
length-pieces [] = refl
length-pieces (a ∷ rest) = ap suc (length-pieces rest)

-- The command line that task-exec builds from one or more arguments, each without quotes and not
-- empty, parses back into these arguments, whatever white space they hold, if memory is there.
pub cli_parse_command-command_line :
    (alloc : ℕ → Bool) (a : List ℕ) (rest : List (List ℕ))
    → ((n : ℕ) → alloc n ≡ true)
    → IsCarried a
    → All IsCarried rest
    → cli_parse_command alloc (command_line (a ∷ rest))
      ≡ some (
        pos (length (a ∷ rest)),
        record { argc = length (a ∷ rest); argv = some (argument_vector (a ∷ rest)) },
      )
cli_parse_command-command_line alloc a rest plenty h hs =
    rw (cli_parse_command-words alloc plenty (command_line (a ∷ rest))) (
      rw (command_line_text a rest) (
        rw (text-words a rest h hs)
          (rw (arguments-pieces (a ∷ rest) (h, hs)) (rw (length-pieces rest)))))

pub command_line_nonempty :
    (a : List ℕ) (rest : List (List ℕ)) → a ≢ [] → command_line (a ∷ rest) ≢ []
command_line_nonempty [] rest h e = h refl
command_line_nonempty (c ∷ a) rest h e = elim (Bool-cases (shell_str_needs_escape (c ∷ a))) [
  | inl q ↦ cc (q, command_line_text (c ∷ a) rest, e)
  | inr q ↦ cc (q, command_line_text (c ∷ a) rest, e)
]
