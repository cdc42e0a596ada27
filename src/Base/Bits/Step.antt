-- ===== src/Base/Bits/Step.antt =====
-- One equation for the lowest digit of `bit_or` and `bit_and`, from the recursion on binary digits
-- that the native operations stand for.
use Prim.Native.Nat.{ℕ, zero, suc, ◌+◌, ◌*◌, ◌/◌, ◌%◌, ◌≤◌, min, max, digits, bitwise}
use Prim.Native.Nat.{bit_and, bit_or, bit_and-bitwise, bit_or-bitwise}
use mathlib.Core.Path.{◌≡◌, refl}
use native.Mathlib.Omega.{arith}
use native.Mathlib.Nat.{le_refl}

module _ (ends : ℕ → ℕ) (op : ℕ → ℕ → ℕ) where
  digits-enough : (f g x y : ℕ) → x ≤ f → x ≤ g → digits ends op f x y ≡ digits ends op g x y
  digits-enough zero zero x y p q = refl
  digits-enough zero (suc g) zero y p q = refl
  digits-enough zero (suc g) (suc x) y p q = absurd (omega arith)
  digits-enough (suc f) zero zero y p q = refl
  digits-enough (suc f) zero (suc x) y p q = absurd (omega arith)
  digits-enough (suc f) (suc g) zero y p q = refl
  digits-enough (suc f) (suc g) (suc x) y p q =
      rw (digits-enough f g (suc x / 2) (y / 2) (omega arith) (omega arith))

  bitwise_lowest :
      (x y : ℕ)
      → bitwise ends op (suc x) y ≡ bitwise ends op (suc x / 2) (y / 2) * 2 + op (suc x % 2) (y % 2)
  bitwise_lowest x y =
      omega (arith, digits-enough x (suc x / 2) (suc x / 2) (y / 2) (omega arith) (le_refl _))

pub bit_or_step : (x y : ℕ) → bit_or x y ≡ bit_or (x / 2) (y / 2) * 2 + max (x % 2) (y % 2)
bit_or_step zero y = simp bit_or-bitwise (omega arith)
bit_or_step (suc x) y = simp bit_or-bitwise (bitwise_lowest (λ y. y) max x y)

pub bit_and_step : (x y : ℕ) → bit_and x y ≡ bit_and (x / 2) (y / 2) * 2 + min (x % 2) (y % 2)
bit_and_step zero y = simp bit_and-bitwise (omega arith)
bit_and_step (suc x) y = simp bit_and-bitwise (bitwise_lowest (λ y. 0) min x y)

pub zero-bit_and : (y : ℕ) → bit_and 0 y ≡ 0
zero-bit_and y = bit_and-bitwise 0 y

bit_and-zero_within : (n x : ℕ) → x ≤ n → bit_and x 0 ≡ 0
bit_and-zero_within n zero h = refl
bit_and-zero_within zero (suc x) h = absurd (omega arith)
bit_and-zero_within (suc n) (suc x) h =
    omega (arith, bit_and_step (suc x) 0, bit_and-zero_within n (suc x / 2) (omega arith))

pub bit_and-zero : (x : ℕ) → bit_and x 0 ≡ 0
bit_and-zero x = bit_and-zero_within x x (le_refl x)
