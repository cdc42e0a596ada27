-- ===== src/Cli/Fill.antt =====
-- The loop of the parse in bin/main.c: it writes one argument after the other for the words of a line.
use rcrpc.Base.{
  ℕ, zero, suc, ◌+◌, ◌<◌, ◌≡◌, ◌∙◌, refl, ap, arith, Bool, ◌&&◌, Option, none, some, List, [], ◌∷◌,
  ◌++◌, ◌==◌, length, inl, inr, Bool-cases, Option-cases,
}
use rcrpc.Cli.Shell.{
  Text, is_space, is_quote, skip_spaces, next_quote, store_arg, shell_end, shell_loop, shell_parse,
}
use rcrpc.Cli.Split.{
  words, words_from, emit, words-quote, words-blank, words-plain, words-end, Ready, emit-full,
  Ready-skip_spaces, Ready-snoc, words-skip_spaces, words-skipped, is_blank, skipped-lt,
}

-- What is written, with the number of arguments.
abbrev pub counted : ℕ → Option (List Text) → Option (ℕ × List Text)
counted n none = none
counted n (some argv) = some (n, argv)

module _ (alloc : ℕ → Bool) where
  -- The arguments written one behind the other.
  unfoldable pub fill : ℕ → ℕ → List (List ℕ) → List Text → Option (List Text)
  fill count argc [] argv = some argv
  fill count argc (w ∷ ws) argv = elim (store_arg alloc count argc w argv) [
    | none ↦ none
    | some argv' ↦ fill (suc count) argc ws argv'
  ]

  module _ (count argc : ℕ) (w : List ℕ) (ws : List (List ℕ)) (argv : List Text) where
    pub fill-none : store_arg alloc count argc w argv ≡ none → fill count argc (w ∷ ws) argv ≡ none
    unfolding fill
    fill-none e = rw (fill, e) refl

    pub fill-some :
        (argv' : List Text)
        → store_arg alloc count argc w argv ≡ some argv'
        → fill count argc (w ∷ ws) argv ≡ fill (suc count) argc ws argv'
    unfolding fill
    fill-some argv' e = rw (fill, e) refl

  shell_end-fill :
      (w : List ℕ) (count argc : ℕ) (argv : List Text)
      → shell_end alloc w count argc argv
        ≡ counted (count + length (emit w [])) (fill count argc (emit w []) argv)
  unfolding shell_end fill
  shell_end-fill [] count argc argv = ap (λ n. some (n, argv)) (omega arith)
  shell_end-fill (d ∷ w) count argc argv =
      elim (Option-cases (store_arg alloc count argc (d ∷ w) argv)) [
        | inl e ↦ rw (e, shell_end) (rw (fill-none count argc (d ∷ w) [] argv e) refl)
        | inr (argv', e) ↦
            rw (e, shell_end)
              (rw (fill-some count argc (d ∷ w) [] argv argv' e)
                (ap (λ n. some (n, argv')) (omega arith)))
      ]

  shell_loop-words :
      (fuel : ℕ) (w : List ℕ) (q : ℕ) (s : List ℕ) (count argc : ℕ) (argv : List Text)
      → length s < fuel
      → Ready w s
      → shell_loop alloc fuel w q s count argc argv
        ≡ counted (count + length (words_from w q s)) (fill count argc (words_from w q s) argv)
  unfolding shell_loop fill
  shell_loop-words zero w q s count argc argv h r = elim h [ ]
  shell_loop-words (suc fuel) w q [] count argc argv h r =
      shell_end-fill w count argc argv ∙ rw (words-end w q) refl
  shell_loop-words (suc fuel) w q (c ∷ cs) count argc argv h r = elim (Bool-cases (is_quote c)) [
    | inl e ↦
        rw (e, shell_loop)
          (rw (words-quote w q c cs e) (
            shell_loop-words fuel (w ++ c ∷ []) (next_quote q c) cs count argc argv (omega arith)
              (Ready-snoc w c cs)))
    | inr e ↦ elim (Bool-cases (q == 0 && is_space c)) [
      | inl f ↦
          rw (words-blank w q c cs e f, emit-full w c cs (words_from [] 0 cs) r (is_blank q c f))
            (elim (Option-cases (store_arg alloc count argc w argv)) [
              | inl o ↦
                  rw (e, f, shell_loop, o)
                    (rw (fill-none count argc w (words_from [] 0 cs) argv o) refl)
              | inr (argv', o) ↦
                  rw (e, f, shell_loop, o)
                    (rw (fill-some count argc w (words_from [] 0 cs) argv argv' o) (
                      shell_loop-words fuel [] q (skip_spaces (c ∷ cs)) (suc count) argc argv'
                        (skipped-lt fuel c cs h (is_blank q c f)) (Ready-skip_spaces (c ∷ cs))
                      ∙ rw (words-skipped q c cs f) (
                          ap (λ n. counted n (fill (suc count) argc (words_from [] 0 cs) argv'))
                            (omega arith))))
            ])
      | inr f ↦
          rw (e, f, shell_loop)
            (rw (words-plain w q c cs e f) (
              shell_loop-words fuel (w ++ c ∷ []) q cs count argc argv (omega arith)
                (Ready-snoc w c cs)))
    ]
  ]

  -- Without places nothing is written.
  pub fill-nothing :
      (count : ℕ) (ws : List (List ℕ)) (argv : List Text) → fill count 0 ws argv ≡ some argv
  unfolding fill store_arg
  fill-nothing count [] argv = refl
  fill-nothing count (w ∷ ws) argv = ground (arith, fill-nothing (suc count) ws argv)

  -- Both passes of the parse end, with the number of words, and write the unquoted words from the
  -- first place of the array on as far as its size goes, unless one of them overruns its memory.
  pub shell_parse-words :
      (s : List ℕ) (argc : ℕ) (argv : List Text)
      → shell_parse alloc s argc argv ≡ counted (length (words s)) (fill 0 argc (words s) argv)
  unfolding shell_parse words
  shell_parse-words s argc argv =
      shell_loop-words (suc (length (skip_spaces s))) [] 0 (skip_spaces s) 0 argc argv (omega arith)
        (Ready-skip_spaces s)
      ∙ rw (words-skip_spaces s) (ground arith)
