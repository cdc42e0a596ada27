-- ===== src/Gpio/Client.antt =====
-- src/rcrpc-client/gpio.c: remote_gpio_set and remote_gpio_get.
use rcrpc.Base.{
  ℕ, if◌then◌else◌, Option, none, some, ltb, ◌==◌, ℤ, pos, is_neg, bit_or, bit, bit_at, clear_bit,
}

-- The stubs of the two procedures: what the call itself returns, the result `ret` of the server, the
-- mask after, and the state; `none` is undefined behaviour on the way.
pub record Stubs (W : Type 0) : Type 0 where
  pub get_mask : ℕ → W → Option (ℤ × ℤ × ℕ × W)
  pub set_mask : ℕ → W → Option (ℤ × ℤ × W)

-- The change of one pin in the mask. A shift by 32 or more is undefined.
unfoldable pub change_pin : ℕ → ℕ → ℕ → Option ℕ
change_pin gpio value mask =
    if ltb gpio 32
    then some (if value == 0 then clear_bit mask gpio else bit_or mask (bit gpio))
    else none

module _ {W : Type 0} (stubs : Stubs W) where
  open stubs use {get_mask, set_mask}

  -- The second call of `remote_gpio_set`.
  unfoldable pub send_mask : ℕ → W → Option (ℤ × W)
  send_mask mask w = elim (set_mask mask w) [
    | none ↦ none
    | some (err, ret, w') ↦ some (if is_neg err then err else ret, w')
  ]

  unfoldable pub remote_gpio_set : ℕ → ℕ → W → Option (ℤ × W)
  unfolding change_pin send_mask
  remote_gpio_set gpio value w = elim (get_mask 0 w) [
    | none ↦ none
    | some (err, ret, mask, w') ↦
        if is_neg err
        then some (err, w')
        else if is_neg ret
        then some (ret, w')
        else elim (change_pin gpio value mask) [ none ↦ none | some mask' ↦ send_mask mask' w' ]
  ]

  unfoldable pub remote_gpio_get : ℕ → W → Option (ℤ × W)
  remote_gpio_get gpio w = elim (get_mask 0 w) [
    | none ↦ none
    | some (err, ret, mask, w') ↦
        if is_neg err
        then some (err, w')
        else if is_neg ret
        then some (ret, w')
        else if ltb gpio 32
        then some (pos (bit_at mask gpio), w')
        else none
  ]
