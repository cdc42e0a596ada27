-- ===== src/Cli/Completion.antt =====
-- bin/main.c: the completion of a command by readline.
use rcrpc.Base.{
  ℕ, zero, suc, ◌<◌, ◌⊎◌, ◌≡◌, refl, sym, ap, ◌∙◌, arith, Bool, true, false, ◌&&◌, if◌then◌else◌,
  Bool-cases, inl, inr, Option, none, some, List, [], ◌∷◌, length, ◌==◌,
}

-- `strncmp(a, b, n) == 0`.
unfoldable pub strncmp_eq : List ℕ → List ℕ → ℕ → Bool
strncmp_eq a b zero = true
strncmp_eq [] [] (suc n) = true
strncmp_eq (x ∷ xs) (y ∷ ys) (suc n) = if x == y then strncmp_eq xs ys n else false
strncmp_eq _ _ (suc n) = false

-- The static variables of readline_command_generator: the names from `cmd` on, and `len`.
pub record Generator : Type 0 where
  pub rest : List (List ℕ)
  pub len : ℕ

-- The loop over the table: the copy of the next name that fits, and the names behind it.
unfoldable pub next_match : List ℕ → ℕ → List (List ℕ) → Option (List ℕ) × List (List ℕ)
next_match text len [] = (none, [])
next_match text len (name ∷ names) =
    let later = next_match text len names in
    if strncmp_eq name text len then (some name, names) else later

-- A call with the names of the table; memory for the copy is there.
unfoldable pub readline_command_generator :
    List (List ℕ) → List ℕ → ℕ → Generator → Option (List ℕ) × Generator
unfolding next_match
readline_command_generator table text state g =
    let start : Generator = if state == 0 then record { rest = table; len = length text } else g in
    let (name, names) = next_match text start.len start.rest in
    (name, record start { rest = names })

-- What readline does: calls with 0, 1, 2, ... until NULL is returned, here at most `fuel` of them.
abbrev pub generated : List (List ℕ) → List ℕ → ℕ → ℕ → Generator → List (List ℕ)
generated table text zero state g = []
generated table text (suc fuel) state g =
    let (name, g') = readline_command_generator table text state g in
    let more = generated table text fuel (suc state) g' in
    elim name [ none ↦ [] | some n ↦ n ∷ more ]

-- Whether a text is the beginning of a name.
abbrev pub is_prefix : List ℕ → List ℕ → Bool
is_prefix [] name = true
is_prefix (c ∷ cs) [] = false
is_prefix (c ∷ cs) (d ∷ ds) = d == c && is_prefix cs ds

-- The names that begin with a text, in the order of the table.
abbrev pub beginning : List ℕ → List (List ℕ) → List (List ℕ)
beginning text [] = []
beginning text (name ∷ names) =
    let later = beginning text names in if is_prefix text name then name ∷ later else later

strncmp_eq-is_prefix :
    (name text : List ℕ) → strncmp_eq name text (length text) ≡ is_prefix text name
unfolding strncmp_eq
strncmp_eq-is_prefix name [] = refl
strncmp_eq-is_prefix [] (c ∷ cs) = refl
strncmp_eq-is_prefix (d ∷ ds) (c ∷ cs) = ground (arith, strncmp_eq-is_prefix ds cs)

-- What one walk through the table finds.
next_match-beginning :
    (text : List ℕ) (names : List (List ℕ))
    → (((next_match text (length text) names).0 ≡ none) × (beginning text names ≡ []))
      ⊎ ((n : List ℕ) × (rest : List (List ℕ)) × (next_match text (length text) names
            ≡ (some n, rest))
          × (beginning text names ≡ n ∷ beginning text rest)
          × (length rest < length names))
unfolding next_match
next_match-beginning text [] = inl (refl, refl)
next_match-beginning text (name ∷ names) = elim (Bool-cases (is_prefix text name)) [
  | inl begins ↦
      inr
        (name, names, rw (strncmp_eq-is_prefix name text, begins) refl, rw begins refl, omega arith)
  | inr other ↦ elim (next_match-beginning text names) [
    | inl (e, b) ↦ inl (rw (strncmp_eq-is_prefix name text, other) e, rw other b)
    | inr (n, rest, e, b, l) ↦
        inr (n, rest, rw (strncmp_eq-is_prefix name text, other) e, rw other b, omega arith)
  ]
]

not_zero : (n : ℕ) → (suc n == 0) ≡ false
not_zero n = ground arith

-- The static variables behind a walk.
abbrev walked : List ℕ → List (List ℕ) → Generator
walked text names = record { rest = names; len = length text }

generated_one :
    (table : List (List ℕ)) (text n : List ℕ) (fuel state : ℕ) (g g' : Generator)
    → readline_command_generator table text state g ≡ (some n, g')
    → generated table text (suc fuel) state g ≡ n ∷ generated table text fuel (suc state) g'
generated_one table text n fuel state g g' e =
    ap
      (λ (t : Option (List ℕ) × Generator). elim t.0 [
        | none ↦ []
        | some m ↦ m ∷ generated table text fuel (suc state) t.1
      ])
      e

generated_last :
    (table : List (List ℕ)) (text : List ℕ) (fuel state : ℕ) (g : Generator)
    → (readline_command_generator table text state g).0 ≡ none
    → generated table text (suc fuel) state g ≡ []
generated_last table text fuel state g e = rw (generated, e) refl

later_call :
    (table : List (List ℕ)) (text : List ℕ) (names : List (List ℕ)) (state : ℕ)
    → readline_command_generator table text (suc state) (walked text names)
      ≡ (let (name, rest) = next_match text (length text) names in (name, walked text rest))
unfolding readline_command_generator
later_call table text names state = rw (not_zero state) refl

first_call :
    (table : List (List ℕ)) (text : List ℕ) (g : Generator)
    → readline_command_generator table text 0 g
      ≡ (let (name, rest) = next_match text (length text) table in (name, walked text rest))
unfolding readline_command_generator
first_call table text g = refl

abbrev pair_up : List ℕ → Option (List ℕ) × List (List ℕ) → Option (List ℕ) × Generator
pair_up text (name, rest) = (name, walked text rest)

-- From the second call on.
generated_rest :
    (table : List (List ℕ)) (text : List ℕ) (names : List (List ℕ)) (fuel state : ℕ)
    → length names < fuel
    → generated table text fuel (suc state) (walked text names) ≡ beginning text names
generated_rest table text names zero state h = elim h [ ]
generated_rest table text names (suc fuel) state h = elim (next_match-beginning text names) [
  | inl (e, b) ↦
      generated_last table text fuel (suc state) (walked text names)
        (ap (λ t. t.0) (later_call table text names state) ∙ e)
      ∙ sym b
  | inr (n, rest, e, b, l) ↦
      generated_one table text n fuel (suc state) (walked text names) (walked text rest)
        (later_call table text names state ∙ ap (pair_up text) e)
      ∙ ap (λ t. n ∷ t) (generated_rest table text rest fuel (suc state) (omega arith))
      ∙ sym b
]

-- The calls that readline makes, whatever an earlier completion left behind, yield the names of the
-- table that begin with the text, in the order of the table, each once; the NULL comes after at most
-- as many names as the table has.
pub generated-beginning :
    (table : List (List ℕ)) (text : List ℕ) (g : Generator) (fuel : ℕ)
    → length table < fuel
    → generated table text fuel 0 g ≡ beginning text table
generated-beginning table text g zero h = elim h [ ]
generated-beginning table text g (suc fuel) h = elim (next_match-beginning text table) [
  | inl (e, b) ↦
      generated_last table text fuel 0 g (ap (λ t. t.0) (first_call table text g) ∙ e) ∙ sym b
  | inr (n, rest, e, b, l) ↦
      generated_one table text n fuel 0 g (walked text rest)
        (first_call table text g ∙ ap (pair_up text) e)
      ∙ ap (λ t. n ∷ t) (generated_rest table text rest fuel 0 (omega arith))
      ∙ sym b
]
