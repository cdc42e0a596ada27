-- ===== src/Base/Bits.antt =====
-- Single bits of a word: `|`, `&` and `~` at the numbers that the code shifts by.
mod Step
use Prim.Native.Nat.{
  ℕ, zero, suc, ◌+◌, ◌-◌, ◌*◌, ◌/◌, ◌%◌, ◌^◌, ◌≤◌, ◌<◌, min, max, bit_and, bit_or,
}
use mathlib.Core.Path.{◌≡◌, refl, ap, ◌∙◌, subst, sym}
use mathlib.Core.Bool.{Bool, true, false, not, ◌&&◌, ◌||◌}
use mathlib.Core.Logic.{inl, inr}
use native.Mathlib.Omega.{arith}
use native.Mathlib.Nat.{pow-suc, one-le-pow, div-div-eq-div-mul}
use rcrpc.Base.Tests.{ltb, ◌==◌, if◌then◌else◌, Bool-cases}
use rcrpc.Base.Bits.Step.{bit_or_step, bit_and_step, zero-bit_and, bit_and-zero}

-- `1 << i`.
abbrev pub bit : ℕ → ℕ
bit i = 2 ^ i

-- Whether bit `i` of `x` is set.
abbrev pub testb : ℕ → ℕ → Bool
testb x zero = x % 2 == 1
testb x (suc i) = testb (x / 2) i

-- `x & (1 << i)`, as a condition.
abbrev pub has_bit : ℕ → ℕ → Bool
has_bit x i = not (bit_and x (bit i) == 0)

-- `x & ~(1 << i)` on 32 bits.
abbrev pub clear_bit : ℕ → ℕ → ℕ
clear_bit x i = bit_and x (2 ^ 32 - 1 - bit i)

pub testb-bit_or : (x y i : ℕ) → testb (bit_or x y) i ≡ (testb x i || testb y i)
testb-bit_or x y zero = ground (arith, bit_or_step x y)
testb-bit_or x y (suc i) =
    ap (λ (t : ℕ). testb t i) (omega (arith, bit_or_step x y)) ∙ testb-bit_or (x / 2) (y / 2) i

pub testb-bit_and : (x y i : ℕ) → testb (bit_and x y) i ≡ (testb x i && testb y i)
testb-bit_and x y zero = ground (arith, bit_and_step x y)
testb-bit_and x y (suc i) =
    ap (λ (t : ℕ). testb t i) (omega (arith, bit_and_step x y)) ∙ testb-bit_and (x / 2) (y / 2) i

pub testb-zero : (i : ℕ) → testb 0 i ≡ false
testb-zero zero = refl
testb-zero (suc i) = testb-zero i

halve-pow : (k : ℕ) → 2 ^ suc k / 2 ≡ 2 ^ k
halve-pow k = omega (arith, pow-suc 2 k)

pub testb-bit : (k i : ℕ) → testb (bit k) i ≡ (k == i)
testb-bit zero zero = refl
testb-bit zero (suc i) = ground (arith, testb-zero i)
testb-bit (suc k) zero = ground (arith, pow-suc 2 k)
testb-bit (suc k) (suc i) = rw (halve-pow k) (ground (arith, testb-bit k i))

half-lt : (w x : ℕ) → x < 2 ^ suc w → x / 2 < 2 ^ w
half-lt w x h = omega (arith, pow-suc 2 w)

-- Two words with the same bits are the same.
pub testb_ext :
    (w x y : ℕ) → x < 2 ^ w → y < 2 ^ w → ((i : ℕ) → i < w → testb x i ≡ testb y i) → x ≡ y
testb_ext zero x y p q h = omega arith
testb_ext (suc w) x y p q h = ground (
  arith,
  h 0 (omega arith),
  testb_ext w (x / 2) (y / 2) (half-lt w x p) (half-lt w y q) (λ i l. h (suc i) (omega arith)),
)

ones-half : (w : ℕ) → (2 ^ suc w - 1) / 2 ≡ 2 ^ w - 1
ones-half w = omega (arith, pow-suc 2 w, one-le-pow w 2)

testb-ones : (w j : ℕ) → j < w → testb (2 ^ w - 1) j ≡ true
testb-ones zero j h = elim h [ ]
testb-ones (suc w) zero h = ground (arith, pow-suc 2 w, one-le-pow w 2)
testb-ones (suc w) (suc j) h = rw (ones-half w) (testb-ones w j (omega arith))

bit-le-ones : (w i : ℕ) → i < w → bit i ≤ 2 ^ w - 1
bit-le-ones zero i h = elim h [ ]
bit-le-ones (suc w) zero h = omega (arith, pow-suc 2 w, one-le-pow w 2)
bit-le-ones (suc w) (suc i) h =
    omega (arith, pow-suc 2 w, pow-suc 2 i, one-le-pow w 2, bit-le-ones w i (omega arith))

pub bit-lt : (w i : ℕ) → i < w → bit i < 2 ^ w
bit-lt w i h = omega (arith, bit-le-ones w i h, one-le-pow w 2)

holed-half : (w i : ℕ) → i < w → (2 ^ suc w - 1 - bit (suc i)) / 2 ≡ 2 ^ w - 1 - bit i
holed-half w i h = omega (arith, pow-suc 2 w, pow-suc 2 i, one-le-pow w 2, bit-le-ones w i h)

lowest_holed : (w : ℕ) → (2 ^ suc w - 1 - 1) / 2 ≡ 2 ^ w - 1
lowest_holed w = omega (arith, pow-suc 2 w, one-le-pow w 2)

-- The bits of `~(1 << i)` in a word of `w` bits.
pub testb_holed : (w i j : ℕ) → i < w → j < w → testb (2 ^ w - 1 - bit i) j ≡ not (i == j)
testb_holed zero i j p q = elim p [ ]
testb_holed (suc w) zero zero p q = ground (arith, pow-suc 2 w, one-le-pow w 2)
testb_holed (suc w) zero (suc j) p q =
    rw (lowest_holed w) (ground (arith, testb-ones w j (omega arith)))
testb_holed (suc w) (suc i) zero p q =
    ground (arith, pow-suc 2 w, pow-suc 2 i, one-le-pow w 2, bit-le-ones w i (omega arith))
testb_holed (suc w) (suc i) (suc j) p q =
    rw (holed-half w i (omega arith))
      (ground (arith, testb_holed w i j (omega arith) (omega arith)))

pub testb_above : (w x j : ℕ) → x < 2 ^ w → w ≤ j → testb x j ≡ false
testb_above zero x j p q = rw (zero_of x (omega arith)) (testb-zero j)
  where
    zero_of : (n : ℕ) → n < 1 → n ≡ 0
    zero_of n h = omega arith
testb_above (suc w) x zero p q = elim q [ ]
testb_above (suc w) x (suc j) p q = testb_above w (x / 2) j (half-lt w x p) (omega arith)

pub bit_and-lt : (w x y : ℕ) → x < 2 ^ w → bit_and x y < 2 ^ w
bit_and-lt zero x y p = rw (zero_of x (omega arith)) (omega (arith, zero-bit_and y))
  where
    zero_of : (n : ℕ) → n < 1 → n ≡ 0
    zero_of n h = omega arith
bit_and-lt (suc w) x y p =
    omega (arith, bit_and_step x y, pow-suc 2 w, bit_and-lt w (x / 2) (y / 2) (half-lt w x p))

pub bit_or-lt : (w x y : ℕ) → x < 2 ^ w → y < 2 ^ w → bit_or x y < 2 ^ w
bit_or-lt zero x y p q = rw (zero_of x (omega arith), zero_of y (omega arith)) (omega arith)
  where
    zero_of : (n : ℕ) → n < 1 → n ≡ 0
    zero_of n h = omega arith
bit_or-lt (suc w) x y p q = omega (
  arith,
  bit_or_step x y,
  pow-suc 2 w,
  bit_or-lt w (x / 2) (y / 2) (half-lt w x p) (half-lt w y q),
)

-- `x & ~(1 << i)` clears bit `i` and leaves the others.
pub testb-clear_bit :
    (x i j : ℕ) → x < 2 ^ 32 → i < 32 → testb (clear_bit x i) j ≡ (testb x j && not (i == j))
testb-clear_bit x i j p q = elim (Bool-cases (ltb j 32)) [
  | inl low ↦
      testb-bit_and x (2 ^ 32 - 1 - bit i) j
      ∙ ap (λ t. testb x j && t) (testb_holed 32 i j q (ground arith))
  | inr high ↦ testb-bit_and x (2 ^ 32 - 1 - bit i) j ∙ rw (testb_above 32 x j p (ground arith))
]

bit_and-bit : (x i : ℕ) → bit_and x (bit i) ≡ (if testb x i then bit i else 0)
bit_and-bit x zero = ground (arith, bit_and_step x 1, bit_and-zero (x / 2))
bit_and-bit x (suc i) = ground (
  arith,
  bit_and_step x (2 ^ suc i),
  pow-suc 2 i,
  halve-pow i,
  ap (bit_and (x / 2)) (halve-pow i),
  bit_and-bit (x / 2) i,
)

-- The condition `x & (1 << i)` reads bit `i`.
pub has_bit-testb : (x i : ℕ) → has_bit x i ≡ testb x i
has_bit-testb x i = ground (arith, bit_and-bit x i, one-le-pow i 2)

-- Setting a bit that is set changes nothing, and so does clearing one that is clear.
pub clear_bit_idle : (x i : ℕ) → x < 2 ^ 32 → i < 32 → testb x i ≡ false → clear_bit x i ≡ x
clear_bit_idle x i p q e = testb_ext 32 (clear_bit x i) x (bit_and-lt 32 x _ p) p λ j l.
    testb-clear_bit x i j p q ∙ elim (Bool-cases (i == j)) [
      | inl same ↦ same_bit j same
      | inr other ↦ rw other (ground arith)
    ]
  where
    same_bit : (j : ℕ) → (i == j) ≡ true → (testb x j && not (i == j)) ≡ testb x j
    same_bit j h = ground (arith, subst (λ k. testb x k ≡ false) (eq_of j h) e)
      where
        eq_of : (j : ℕ) → (i == j) ≡ true → i ≡ j
        eq_of j h = ground arith

-- The bits of a mask of ones.
pub testb_ones : (w j : ℕ) → testb (2 ^ w - 1) j ≡ ltb j w
testb_ones w j = elim (Bool-cases (ltb j w)) [
  | inl low ↦ testb-ones w j (ground arith) ∙ sym low
  | inr high ↦ testb_above w (2 ^ w - 1) j (omega (arith, one-le-pow w 2)) (ground arith) ∙ sym high
]

-- `(x >> i) & 1`.
abbrev pub bit_at : ℕ → ℕ → ℕ
bit_at x i = x / 2 ^ i % 2

pub bit_at-testb : (x i : ℕ) → bit_at x i ≡ (if testb x i then 1 else 0)
bit_at-testb x zero = ground arith
bit_at-testb x (suc i) =
    ap (λ (t : ℕ). t % 2)
      (ap (λ (p : ℕ). x / p) (omega (arith, pow-suc 2 i)) ∙ sym (div-div-eq-div-mul x 2 (2 ^ i)))
    ∙ bit_at-testb (x / 2) i
