-- ===== src/Cli/Input.antt =====
-- bin/main.c: how a line is read without readline.
use rcrpc.Base.{
  ℕ, zero, suc, ◌≤◌, ◌<◌, ◌≡◌, refl, sym, ap, ◌∙◌, arith, false, if◌then◌else◌, Option, none, some,
  List, [], ◌∷◌, ◌++◌, append-nil, ◌==◌, length, take, drop, All,
}

-- `fgets` with room for `n` bytes before the terminator: what it stores and what is left of the input.
-- It stops behind the end of a line.
unfoldable pub fgets : ℕ → List ℕ → List ℕ × List ℕ
fgets zero input = ([], input)
fgets (suc n) [] = ([], [])
fgets (suc n) (c ∷ cs) =
    let (line, rest) = fgets n cs in if c == 10 then (c ∷ [], cs) else (c ∷ line, rest)

-- The string in a memory that ends with a terminator, and the same without a last end of line.
abbrev pub until_zero : List ℕ → List ℕ
until_zero [] = []
until_zero (c ∷ cs) = if c == 0 then [] else c ∷ until_zero cs

abbrev pub chomp : List ℕ → List ℕ
chomp [] = []
chomp (c ∷ []) = if c == 10 then [] else c ∷ []
chomp (c ∷ d ∷ cs) = c ∷ chomp (d ∷ cs)

-- What is returned of what fgets stored.
abbrev pub copied : List ℕ × List ℕ → Option (List ℕ) × List ℕ
copied (line, rest) = (some (chomp (until_zero line)), rest)

-- The line, unless the input is at its end, and the rest of the input; memory for the copy is there.
unfoldable pub readline_read : List ℕ → Option (List ℕ) × List ℕ
readline_read [] = (none, [])
readline_read (c ∷ cs) = copied (fgets 1023 (c ∷ cs))

-- Text of one line.
abbrev pub IsLine : List ℕ → Type 0
IsLine = All (λ c. ((c == 10) ≡ false) × ((c == 0) ≡ false))

fgets-line :
    (s rest : List ℕ) (n : ℕ)
    → IsLine s
    → length s < n
    → fgets n (s ++ 10 ∷ rest) ≡ (s ++ 10 ∷ [], rest)
unfolding fgets
fgets-line [] rest zero h l = elim l [ ]
fgets-line [] rest (suc n) h l = refl
fgets-line (c ∷ cs) rest zero h l = elim l [ ]
fgets-line (c ∷ cs) rest (suc n) (h, t) l = rw (h.0, fgets-line cs rest n t (omega arith)) refl

fgets-long :
    (s rest : List ℕ) (n : ℕ)
    → IsLine s
    → n ≤ length s
    → fgets n (s ++ rest) ≡ (take n s, drop n s ++ rest)
unfolding fgets
fgets-long s rest zero h l = refl
fgets-long [] rest (suc n) h l = elim l [ ]
fgets-long (c ∷ cs) rest (suc n) (h, t) l = rw (h.0, fgets-long cs rest n t (omega arith)) refl

until_zero-line :
    (s more : List ℕ) → IsLine s → until_zero more ≡ more → until_zero (s ++ more) ≡ s ++ more
until_zero-line [] more h e = e
until_zero-line (c ∷ cs) more (h, t) e = rw (h.1, until_zero-line cs more t e) refl

chomp-end : (s : List ℕ) → chomp (s ++ 10 ∷ []) ≡ s
chomp-end [] = refl
chomp-end (c ∷ []) = refl
chomp-end (c ∷ d ∷ cs) = ap (λ t. c ∷ t) (chomp-end (d ∷ cs))

chomp-line : (s : List ℕ) → IsLine s → chomp s ≡ s
chomp-line [] h = refl
chomp-line (c ∷ []) h = rw h.0.0 refl
chomp-line (c ∷ d ∷ cs) (h, t) = ap (λ u. c ∷ u) (chomp-line (d ∷ cs) t)

take-IsLine : (n : ℕ) (s : List ℕ) → IsLine s → IsLine (take n s)
take-IsLine zero s h = tt
take-IsLine (suc n) [] h = tt
take-IsLine (suc n) (c ∷ cs) (h, t) = (h, take-IsLine n cs t)

unchanged : (s : List ℕ) → IsLine s → chomp (until_zero s) ≡ s
unchanged s h =
    ap (λ t. chomp (until_zero t)) (sym (append-nil s))
    ∙ ap chomp (until_zero-line s [] h refl)
    ∙ ap chomp (append-nil s)
    ∙ chomp-line s h

-- readline_read of input that begins with text of one line and its end: fewer than 1023 bytes are read
-- whole, and the input goes on behind the end of the line. Of 1023 bytes or more only the first 1023
-- are read, and the next call reads on in the same line.
pub readline_read-line :
    (s rest : List ℕ)
    → IsLine s
    → (length s < 1023 → readline_read (s ++ 10 ∷ rest) ≡ (some s, rest))
      × (1023 ≤ length s
          → readline_read (s ++ 10 ∷ rest) ≡ (some (take 1023 s), drop 1023 s ++ 10 ∷ rest))
unfolding readline_read
readline_read-line [] rest h = (λ l. ap copied (fgets-line [] rest 1023 h l), λ l. elim l [ ])
readline_read-line (c ∷ cs) rest h = (
  λ l.
      ap copied (fgets-line (c ∷ cs) rest 1023 h l)
      ∙ ap (λ t. (some (chomp t), rest)) (until_zero-line (c ∷ cs) (10 ∷ []) h refl)
      ∙ ap (λ t. (some t, rest)) (chomp-end (c ∷ cs)),
  λ l.
      ap copied (fgets-long (c ∷ cs) (10 ∷ rest) 1023 h l)
      ∙ ap (λ t. (some t, drop 1023 (c ∷ cs) ++ 10 ∷ rest))
          (unchanged (take 1023 (c ∷ cs)) (take-IsLine 1023 (c ∷ cs) h)),
)
