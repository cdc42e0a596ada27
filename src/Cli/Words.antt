-- ===== src/Cli/Words.antt =====
-- The parse of a command line in bin/main.c against the description of its words.
use rcrpc.Base.{
  ℕ, suc, ◌+◌, ◌*◌, ◌<◌, ◌≡◌, ◌∙◌, refl, sym, ap, arith, Bool, true, Option, none, some, List, [],
  ◌∷◌, ◌++◌, pos, ℤ, leb, if◌then◌else◌, length, set, replicate, inl, inr, Option-cases,
  append_assoc, length-append,
}
use rcrpc.Cli.Shell.{
  Text, Args, after_char, unquote_length, unquote_copy, unquote, open_quote, store_arg, shell_parse,
  cli_parse_command,
}
use rcrpc.Cli.Split.{words}
use rcrpc.Cli.Fill.{counted, fill, fill-none, fill-some, fill-nothing, shell_parse-words}

-- A copy that starts as the measuring loop did fills exactly what was counted.
length-unquote_copy : (q : ℕ) (s : List ℕ) → length (unquote_copy q s) ≡ unquote_length q s
unfolding unquote_copy unquote_length
length-unquote_copy q [] = refl
length-unquote_copy q (c ∷ cs) = ground (arith, length-unquote_copy (after_char q c) cs)

set-append {ℓ} :
    {A : Type ℓ} (xs : List A) (y v : A) (ys : List A)
    → set (xs ++ y ∷ ys) (length xs) v ≡ xs ++ v ∷ ys
set-append [] y v ys = refl
set-append (x ∷ xs) y v ys = rw (set-append xs y v ys)

-- The argument that a word stands for: the word without the quotes that open and close, read as if the
-- quote that is open at its end stood in front of it. `none` if that is longer than the word without
-- its quotes.
abbrev pub argument : List ℕ → Option (List ℕ)
argument w =
    let copied = unquote_copy (open_quote 0 w) w in
    if leb (length copied) (length (unquote_copy 0 w)) then some copied else none

-- A word whose quotes are closed stands for itself without them.
pub argument_closed : (w : List ℕ) → open_quote 0 w ≡ 0 → argument w ≡ some (unquote_copy 0 w)
argument_closed w e = rw e (ground arith)

abbrev pub in_front : Option (List ℕ) → Option (List Text) → Option (List Text)
in_front none _ = none
in_front (some a) none = none
in_front (some a) (some rest) = some (some a ∷ rest)

-- The arguments that a list of words stands for, and the NULL behind them.
abbrev pub arguments : List (List ℕ) → Option (List Text)
arguments [] = some (none ∷ [])
arguments (w ∷ ws) = in_front (argument w) (arguments ws)

-- The result of a parse.
abbrev pub parsed : ℕ → Option (List Text) → Option (ℤ × Args)
parsed n none = none
parsed n (some argv) = some (pos n, record { argc = n; argv = some argv })

parsed-counted :
    (n : ℕ) (o : Option (List Text))
    → elim (counted n o) [
      | none ↦ none
      | some (m, argv) ↦ some (pos m, record { argc = n; argv = some argv })
    ]
      ≡ parsed n o
parsed-counted n none = refl
parsed-counted n (some argv) = refl

abbrev behind : List Text → Option (List Text) → Option (List Text)
behind done none = none
behind done (some rest) = some (done ++ rest)

abbrev stored : List Text → List Text → Option (List ℕ) → Option (List Text)
stored done rest none = none
stored done rest (some a) = some (done ++ some a ∷ rest)

behind-in_front :
    (done : List Text) (a : List ℕ) (o : Option (List Text))
    → behind (done ++ some a ∷ []) o ≡ behind done (in_front (some a) o)
behind-in_front done a none = refl
behind-in_front done a (some rest) = ap some (append_assoc done (some a ∷ []) rest)

behind-nil : (n : ℕ) (o : Option (List Text)) → counted n (behind [] o) ≡ counted n o
behind-nil n none = refl
behind-nil n (some rest) = refl

module _ (alloc : ℕ → Bool) (plenty : (n : ℕ) → alloc n ≡ true) where
  store_arg-append :
      (done : List Text) (w : List ℕ) (rest : List Text) (argc : ℕ)
      → length done < argc
      → store_arg alloc (length done) argc w (done ++ none ∷ rest) ≡ stored done rest (argument w)
  unfolding store_arg unquote
  store_arg-append done w rest argc h = ground (
    arith,
    set-append done none (some (unquote_copy (open_quote 0 w) w)) rest,
    plenty (suc (unquote_length 0 w)),
    length-unquote_copy 0 w,
  )

  fill-arguments :
      (k argc : ℕ) (done : List Text) (ws : List (List ℕ))
      → k ≡ length done
      → argc ≡ k + length ws
      → fill alloc k argc ws (done ++ replicate (suc (length ws)) none) ≡ behind done (arguments ws)
  unfolding fill
  fill-arguments k argc done [] e f = refl
  fill-arguments k argc done (w ∷ ws) e f =
      let rest = replicate (suc (length ws)) none in
      let written : store_arg alloc k argc w (done ++ none ∷ rest) ≡ stored done rest (argument w) =
        ap (λ (n : ℕ). store_arg alloc n argc w (done ++ none ∷ rest)) e
        ∙ store_arg-append done w rest argc (omega arith) in
      elim (Option-cases (argument w)) [
        | inl o ↦
            fill-none alloc k argc w ws (done ++ none ∷ rest) (written ∙ rw o refl) ∙ rw o refl
        | inr (a, o) ↦
            fill-some alloc k argc w ws (done ++ none ∷ rest) (done ++ some a ∷ rest)
              (written ∙ rw o refl)
            ∙ ap (fill alloc (suc k) argc ws) (sym (append_assoc done (some a ∷ []) rest))
            ∙ fill-arguments (suc k) argc (done ++ some a ∷ []) ws
                (omega (arith, length-append {0} done (some a ∷ []))) (omega arith)
            ∙ rw o (behind-in_front done a (arguments ws))
      ]

  first_pass : (s : List ℕ) → shell_parse alloc s 0 [] ≡ some (length (words s), [])
  first_pass s = shell_parse-words alloc s 0 [] ∙ rw (fill-nothing alloc 0 (words s) []) refl

  second_pass :
      (s : List ℕ)
      → shell_parse alloc s (length (words s)) (replicate (suc (length (words s))) none)
        ≡ counted (length (words s)) (arguments (words s))
  second_pass s =
      let n = length (words s) in
      shell_parse-words alloc s n (replicate (suc n) none)
      ∙ rw (fill-arguments 0 n [] (words s) refl (omega arith)) (behind-nil n (arguments (words s)))

  -- With enough memory a command line becomes one argument for each of its words and a NULL behind the
  -- last, and the result is the number of arguments. An argument is the word without the quotes that
  -- open and close, where the quote that is open at the end of the word is taken to be open at its
  -- start too. If an argument is longer than its word without the quotes as they are read from none
  -- on, the parse writes behind its memory.
  pub cli_parse_command-words :
      (s : List ℕ) → cli_parse_command alloc s ≡ parsed (length (words s)) (arguments (words s))
  unfolding cli_parse_command
  cli_parse_command-words s =
      rw (cli_parse_command, first_pass s, plenty (8 * suc (length (words s))), second_pass s)
        (parsed-counted (length (words s)) (arguments (words s)))
