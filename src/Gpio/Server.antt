-- ===== src/Gpio/Server.antt =====
-- src/rcrpc/io.c: check_io, gpio_set_mask and gpio_get_mask.
use mathlib.Core.Option
use rcrpc.Base.{
  ℕ, zero, suc, true, false, ◌||◌, if◌then◌else◌, Option, none, some, ltb, ℤ, pos, negsuc, neg,
  is_neg, is_zero, opposite, enosys, bit_or, bit, bit_at,
}

-- The GPIO backend of remote-control, over the state `W` of everything outside.
pub record Backend (W : Type 0) : Type 0 where
  pub get_num_gpios : W → ℤ × W
  pub direction_output : ℕ → ℕ → W → ℤ × W
  pub get_value : ℕ → W → ℤ × W

unfoldable pub check_io : ℤ
check_io = neg enosys

module _ {W : Type 0} (backend : Backend W) where
  open backend use {get_num_gpios, direction_output, get_value}

  -- The loop over the pins from `i` on, with the rounds that are left. A failing pin is only logged.
  -- A shift by the width of the word or more is undefined: `none`.
  unfoldable pub set_pins : ℕ → ℕ → ℕ → W → Option W
  set_pins zero i mask w = some w
  set_pins (suc rounds) i mask w = elim (ltb i 32) [
    | true ↦ set_pins rounds (suc i) mask (direction_output i (bit_at mask i) w).1
    | false ↦ none
  ]

  -- The negated error of the backend is returned.
  unfoldable pub gpio_set_mask : ℕ → W → Option (ℤ × W)
  gpio_set_mask mask w =
      let (err, w₁) = get_num_gpios w in
      elim err [
        | negsuc n ↦ some (opposite (negsuc n), w₁)
        | pos num ↦ elim (set_pins num 0 mask w₁) [ none ↦ none | some w₂ ↦ some (pos 0, w₂) ]
      ]

  -- The value of the mask after a pin was read: a failing pin is skipped, and a pin that is high sets
  -- its bit, where the shift is defined.
  unfoldable pub with_pin : ℤ → ℕ → ℕ → Option ℕ
  with_pin ret i value =
      if is_neg ret || is_zero ret
      then some value
      else if ltb i 32
      then some (bit_or value (bit i))
      else none

  unfoldable pub get_pins : ℕ → ℕ → ℕ → W → Option (ℕ × W)
  get_pins zero i value w = some (value, w)
  get_pins (suc rounds) i value w = elim (with_pin (get_value i w).0 i value) [
    | none ↦ none
    | some value' ↦ get_pins rounds (suc i) value' (get_value i w).1
  ]

  -- The result and `*mask`, which may be NULL.
  unfoldable pub gpio_get_mask : Option ℕ → W → Option (ℤ × Option ℕ × W)
  gpio_get_mask mask w =
      let (err, w₁) = get_num_gpios w in
      elim err [
        | negsuc n ↦ some (opposite (negsuc n), mask, w₁)
        | pos num ↦ elim (get_pins num 0 0 w₁) [
          | none ↦ none
          | some (value, w₂) ↦ some (pos 0, Option.map (λ (m : ℕ). value) mask, w₂)
        ]
      ]
