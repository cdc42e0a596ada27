-- ===== src/Cli/Split.antt =====
-- A description of the words of a command line, for the parse of bin/main.c.
use rcrpc.Base.{
  ℕ, suc, ◌<◌, ◌≤◌, ◌≡◌, ◌∙◌, refl, sym, arith, true, false, not, ◌&&◌, List, [], ◌∷◌, ◌++◌, ◌==◌,
  length, inl, inr, Bool-cases,
}
use rcrpc.Cli.Shell.{is_space, is_quote, skip_spaces, next_quote, after_char}

-- Words end at white space outside quotes; an empty word is none.
abbrev pub emit : List ℕ → List (List ℕ) → List (List ℕ)
emit [] ws = ws
emit (c ∷ w) ws = (c ∷ w) ∷ ws

unfoldable pub words_from : List ℕ → ℕ → List ℕ → List (List ℕ)
words_from w q [] = emit w []
words_from w q (c ∷ cs) = elim (not (is_quote c) && (q == 0 && is_space c)) [
  | true ↦ emit w (words_from [] 0 cs)
  | false ↦ words_from (w ++ c ∷ []) (after_char q c) cs
]

unfoldable pub words : List ℕ → List (List ℕ)
unfolding words_from
words s = words_from [] 0 s

-- Where a word may begin, the string does not begin with white space.
abbrev pub Ready : List ℕ → List ℕ → Type 0
Ready [] [] = Unit
Ready [] (c ∷ cs) = is_space c ≡ false
Ready (c ∷ w) s = Unit

pub Ready-skip_spaces : (s : List ℕ) → Ready [] (skip_spaces s)
unfolding skip_spaces
Ready-skip_spaces [] = tt
Ready-skip_spaces (c ∷ cs) = elim (Bool-cases (is_space c)) [
  | inl e ↦ rw (e, skip_spaces) (Ready-skip_spaces cs)
  | inr e ↦ rw (e, skip_spaces) e
]

pub Ready-snoc : (w : List ℕ) (c : ℕ) (s : List ℕ) → Ready (w ++ c ∷ []) s
Ready-snoc [] c s = tt
Ready-snoc (d ∷ w) c s = tt

skip_spaces-length : (s : List ℕ) → length (skip_spaces s) ≤ length s
unfolding skip_spaces
skip_spaces-length [] = omega arith
skip_spaces-length (c ∷ cs) = ground (arith, skip_spaces-length cs)

pub space_no_quote : (c : ℕ) → is_space c ≡ true → is_quote c ≡ false
unfolding is_space is_quote
space_no_quote c h = ground arith

pub words-skip_spaces : (s : List ℕ) → words_from [] 0 (skip_spaces s) ≡ words_from [] 0 s
unfolding skip_spaces words_from
words-skip_spaces [] = refl
words-skip_spaces (c ∷ cs) = ground (arith, words-skip_spaces cs, space_no_quote c)

pub words-end : (w : List ℕ) (q : ℕ) → words_from w q [] ≡ emit w []
unfolding words_from
words-end w q = refl

module _ (w : List ℕ) (q c : ℕ) (cs : List ℕ) where
  pub words-quote :
      is_quote c ≡ true → words_from w q (c ∷ cs) ≡ words_from (w ++ c ∷ []) (next_quote q c) cs
  unfolding words_from after_char
  words-quote e = ground arith

  pub words-blank :
      is_quote c ≡ false
      → (q == 0 && is_space c) ≡ true
      → words_from w q (c ∷ cs) ≡ emit w (words_from [] 0 cs)
  unfolding words_from
  words-blank e f = ground arith

  pub words-plain :
      is_quote c ≡ false
      → (q == 0 && is_space c) ≡ false
      → words_from w q (c ∷ cs) ≡ words_from (w ++ c ∷ []) q cs
  unfolding words_from after_char
  words-plain e f = ground arith

pub words-skipped :
    (q c : ℕ) (cs : List ℕ)
    → (q == 0 && is_space c) ≡ true
    → words_from [] q (skip_spaces (c ∷ cs)) ≡ words_from [] 0 cs
unfolding skip_spaces
words-skipped q c cs f = ground (arith, words-skip_spaces cs)

pub is_blank : (q c : ℕ) → (q == 0 && is_space c) ≡ true → is_space c ≡ true
is_blank q c f = ground arith

pub skipped-lt :
    (fuel c : ℕ) (cs : List ℕ)
    → length (c ∷ cs) < suc fuel
    → is_space c ≡ true
    → length (skip_spaces (c ∷ cs)) < fuel
unfolding skip_spaces
skipped-lt fuel c cs h f = ground (arith, skip_spaces-length cs)

pub emit-full :
    (w : List ℕ) (c : ℕ) (cs : List ℕ) (ws : List (List ℕ))
    → Ready w (c ∷ cs)
    → is_space c ≡ true
    → emit w ws ≡ w ∷ ws
emit-full [] c cs ws r f = cc (sym r ∙ f)
emit-full (d ∷ w) c cs ws r f = refl
