-- ===== src/Commands/Decimal.antt =====
-- Numbers that printf writes in base 10, read back by strtoul.
use native.Mathlib.Nat.{pow-suc}
use rcrpc.Base.{
  ℕ, zero, suc, ◌+◌, ◌-◌, ◌*◌, ◌/◌, ◌%◌, ◌^◌, ◌≤◌, ◌<◌, ◌≡◌, refl, sym, ap, ◌∙◌, arith, Bool, true,
  false, if◌then◌else◌, Bool-cases, inl, inr, Option, none, some, List, [], ◌∷◌, ◌++◌, ltb, ◌==◌,
  All,
}
use rcrpc.Cli.Shell.{is_space, skip_spaces}
use rcrpc.Commands.Numbers.{
  digit_value, digit_of, more_digits, scan_digits, scan_number, take_sign, strtoul,
}

-- The conversions %d, %u and %lu of a number with at most `fuel` digits.
unfoldable pub decimal : ℕ → ℕ → List ℕ
decimal zero n = []
decimal (suc fuel) n =
    let above = decimal fuel (n / 10) in
    if ltb n 10 then (n + b'0') ∷ [] else above ++ (n % 10 + b'0') ∷ []

-- A digit of base 10.
abbrev IsDigit : ℕ → Type 0
IsDigit c = (b'0' ≤ c) × (c ≤ b'9')

is_small : (n : ℕ) → n < 10 ^ 1 → ltb n 10 ≡ true
is_small n h = ground arith

digit_of-digit : (base d : ℕ) → d < 10 → 10 ≤ base → digit_of base (d + b'0') ≡ some d
unfolding digit_of digit_value
digit_of-digit base d h b = ground arith

digit_of-IsDigit : (base c : ℕ) → IsDigit c → 10 ≤ base → digit_of base c ≡ some (c - b'0')
unfolding digit_of digit_value
digit_of-IsDigit base c h b = ground arith

more_digits-step :
    (base acc c d : ℕ) (cs : List ℕ)
    → digit_of base c ≡ some d
    → more_digits base acc (c ∷ cs) ≡ more_digits base (acc * base + d) cs
unfolding more_digits
more_digits-step base acc c d cs e =
    ap (λ (o : Option ℕ). elim o [ none ↦ acc | some k ↦ more_digits base (acc * base + k) cs ]) e

more_digits-empty : (base acc : ℕ) → more_digits base acc [] ≡ acc
unfolding more_digits
more_digits-empty base acc = refl

scan_digits-step :
    (base c d : ℕ) (cs : List ℕ)
    → digit_of base c ≡ some d
    → scan_digits base (c ∷ cs) ≡ some (more_digits base d cs)
unfolding scan_digits
scan_digits-step base c d cs e =
    ap (λ (o : Option ℕ). elim o [ none ↦ none | some k ↦ some (more_digits base k cs) ]) e

more_digits-last :
    (acc d : ℕ) (xs : List ℕ)
    → d < 10
    → All IsDigit xs
    → more_digits 10 acc (xs ++ (d + b'0') ∷ []) ≡ more_digits 10 acc xs * 10 + d
more_digits-last acc d [] h a =
    more_digits-step 10 acc (d + b'0') d [] (digit_of-digit 10 d h (omega arith))
    ∙ more_digits-empty 10 (acc * 10 + d)
    ∙ ap (λ (m : ℕ). m * 10 + d) (sym (more_digits-empty 10 acc))
more_digits-last acc d (x ∷ xs) h (i, a) =
    let step = digit_of-IsDigit 10 x i (omega arith) in
    more_digits-step 10 acc x (x - b'0') (xs ++ (d + b'0') ∷ []) step
    ∙ more_digits-last (acc * 10 + (x - b'0')) d xs h a
    ∙ ap (λ (m : ℕ). m * 10 + d) (sym (more_digits-step 10 acc x (x - b'0') xs step))

All-append_one : (xs : List ℕ) (c : ℕ) → All IsDigit xs → IsDigit c → All IsDigit (xs ++ c ∷ [])
All-append_one [] c a i = (i, tt)
All-append_one (x ∷ xs) c (j, a) i = (j, All-append_one xs c a i)

decimal-IsDigit : (fuel n : ℕ) → All IsDigit (decimal fuel n)
unfolding decimal
decimal-IsDigit zero n = tt
decimal-IsDigit (suc fuel) n = elim (Bool-cases (ltb n 10)) [
  | inl small ↦ rw small ((omega arith, ground arith), tt)
  | inr large ↦
      rw large (All-append_one _ _ (decimal-IsDigit fuel (n / 10)) (omega arith, omega arith))
]

from_zero : (k : ℕ) → k ≡ 0 * 10 + k
from_zero k = omega arith

-- A number of one digit.
one_digit : (n : ℕ) → n < 10 → more_digits 10 0 ((n + b'0') ∷ []) ≡ n
one_digit n h =
    more_digits-step 10 0 (n + b'0') n [] (digit_of-digit 10 n h (omega arith))
    ∙ more_digits-empty 10 (0 * 10 + n)
    ∙ omega arith

more_digits-decimal : (fuel n : ℕ) → n < 10 ^ suc fuel → more_digits 10 0 (decimal (suc fuel) n) ≡ n
unfolding decimal
more_digits-decimal zero n h = rw (is_small n h) (one_digit n (omega arith))
more_digits-decimal (suc fuel) n h = elim (Bool-cases (ltb n 10)) [
  | inl small ↦ rw small (one_digit n (ground arith))
  | inr large ↦
      let above = n / 10 in
      rw large (
        more_digits-last 0 (n % 10) (decimal (suc fuel) above) (omega arith)
          (decimal-IsDigit (suc fuel) above)
        ∙ ap (λ (m : ℕ). m * 10 + n % 10)
            (more_digits-decimal fuel above (omega (arith, pow-suc 10 (suc fuel))))
        ∙ omega arith)
]

-- The first digit of a number that is not zero.
decimal-first :
    (fuel n : ℕ)
    → 0 < n
    → n < 10 ^ suc fuel
    → (c : ℕ) × (cs : List ℕ) × (decimal (suc fuel) n ≡ c ∷ cs) × (b'1' ≤ c) × (c ≤ b'9')
unfolding decimal
decimal-first zero n p h = (n + b'0', [], rw (is_small n h) refl, omega arith, omega arith)
decimal-first (suc fuel) n p h = elim (Bool-cases (ltb n 10)) [
  | inl small ↦ (n + b'0', [], rw small refl, omega arith, ground arith)
  | inr large ↦
      let (c, cs, e, low, high) =
        decimal-first fuel (n / 10) (ground arith) (omega (arith, pow-suc 10 (suc fuel))) in
      (c, cs ++ (n % 10 + b'0') ∷ [], rw (large, e) refl, low, high)
]

scan_number-first :
    (c : ℕ) (cs : List ℕ) → (c == b'0') ≡ false → scan_number 0 (c ∷ cs) ≡ scan_digits 10 (c ∷ cs)
unfolding scan_number
scan_number-first c [] h = refl
scan_number-first c (x ∷ cs) h = rw h refl

first_digit :
    (c : ℕ)
    → b'1' ≤ c
    → c ≤ b'9'
    → ((c == b'0') ≡ false) × (is_space c ≡ false) × ((c == b'-') ≡ false) × ((c == b'+') ≡ false)
unfolding is_space
first_digit c l h = (ground arith, ground arith, ground arith, ground arith)

skip_spaces-first : (c : ℕ) (cs : List ℕ) → is_space c ≡ false → skip_spaces (c ∷ cs) ≡ c ∷ cs
unfolding skip_spaces
skip_spaces-first c cs h = ap (λ (b : Bool). elim b [ true ↦ skip_spaces cs | false ↦ c ∷ cs ]) h

take_sign-first :
    (c : ℕ) (cs : List ℕ)
    → (c == b'-') ≡ false
    → (c == b'+') ≡ false
    → take_sign (c ∷ cs) ≡ (false, c ∷ cs)
unfolding take_sign
take_sign-first c cs m p = rw (m, p) refl

-- What strtoul makes of a number that was read, and of one in its range.
abbrev converted : Bool → Option ℕ → ℕ × Bool
converted negative none = (0, false)
converted negative (some n) =
    (if ltb n (2 ^ 64) then if negative then (2 ^ 64 - n) % 2 ^ 64 else n else 2 ^ 64 - 1, true)

in_range : (n : ℕ) → n < 2 ^ 64 → ltb n (2 ^ 64) ≡ true
in_range n h = ground arith

strtoul_plain :
    (base n : ℕ) (s : List ℕ)
    → skip_spaces s ≡ s
    → take_sign s ≡ (false, s)
    → scan_number base s ≡ some n
    → n < 2 ^ 64
    → strtoul base s ≡ (n, true)
unfolding strtoul
strtoul_plain base n s e f g h =
    ap (λ (t : List ℕ). converted (take_sign t).0 (scan_number base (take_sign t).1)) e
    ∙ ap (λ (t : Bool × List ℕ). converted t.0 (scan_number base t.1)) f
    ∙ ap (converted false) g
    ∙ rw (in_range n h) refl

-- strtoul with the base 0 of the decimal digits of a number that is not zero.
pub strtoul-decimal :
    (fuel n : ℕ)
    → 0 < n
    → n < 10 ^ suc fuel
    → n < 2 ^ 64
    → strtoul 0 (decimal (suc fuel) n) ≡ (n, true)
strtoul-decimal fuel n p h b =
    let (c, cs, e, low, high) = decimal-first fuel n p h in
    let (zero_not, space_not, minus_not, plus_not) = first_digit c low high in
    let digit = digit_of-IsDigit 10 c (omega arith, high) (omega arith) in
    let value : more_digits 10 (c - b'0') cs ≡ n =
      ap (λ (k : ℕ). more_digits 10 k cs) (from_zero (c - b'0'))
      ∙ sym (more_digits-step 10 0 c (c - b'0') cs digit)
      ∙ ap (more_digits 10 0) (sym e)
      ∙ more_digits-decimal fuel n h in
    ap (strtoul 0) e
    ∙ strtoul_plain 0 n (c ∷ cs) (skip_spaces-first c cs space_not)
        (take_sign-first c cs minus_not plus_not)
        (scan_number-first c cs zero_not
          ∙ scan_digits-step 10 c (c - b'0') cs digit
          ∙ ap some value)
        b
