-- ===== src/Gpio/Pins.antt =====
-- The pins that gpio_set_mask drives, gpio_get_mask reads and the client changes one by one.
use mathlib.Core.Option
use rcrpc.Base.{
  ℕ, zero, suc, ◌+◌, ◌^◌, ◌<◌, ◌≤◌, ◌≡◌, ◌∙◌, refl, ap, arith, Bool, ◌&&◌, ◌||◌, not, if◌then◌else◌,
  none, some, ltb, leb, ◌==◌, pos, negsuc, bit_or, bit, bit_at, clear_bit, testb, testb-bit_or,
  testb-bit, testb-zero, bit_at-testb, testb-clear_bit, bit_or-lt, bit-lt,
}
use rcrpc.Gpio.Server.{Backend, set_pins, gpio_set_mask, with_pin, get_pins, gpio_get_mask}
use rcrpc.Gpio.Client.{Stubs, change_pin, remote_gpio_set, remote_gpio_get}

-- A backend of `num` pins that work: a pin that is driven has the level until it is driven again, and
-- reading changes nothing.
pub record IsWorking {W : Type 0} (backend : Backend W) (num : ℕ) : Type 0 where
  pub level : W → ℕ → Bool
  pub num_pins : (w : W) → backend.get_num_gpios w ≡ (pos num, w)
  pub driven :
      (i v : ℕ) (w : W) (j : ℕ)
      → level (backend.direction_output i v w).1 j ≡ (if i == j then not (v == 0) else level w j)
  pub read : (i : ℕ) (w : W) → backend.get_value i w ≡ (if level w i then pos 1 else pos 0, w)

bit_at_high : (mask i : ℕ) → not (bit_at mask i == 0) ≡ testb mask i
bit_at_high mask i = ground (arith, bit_at-testb mask i)

module _ {W : Type 0} (backend : Backend W) (num : ℕ) (works : IsWorking backend num) where
  open works use {level}

  -- The pin lies in the range of a loop.
  abbrev within : ℕ → ℕ → ℕ → Bool
  within i rounds j = leb i j && ltb j (i + rounds)

  driven_step :
      (rounds i mask : ℕ) (w : W) (j : ℕ)
      → (if within (suc i) rounds j
          then testb mask j
          else level (backend.direction_output i (bit_at mask i) w).1 j)
        ≡ (if within i (suc rounds) j then testb mask j else level w j)
  driven_step rounds i mask w j = ground (
    arith,
    works.driven i (bit_at mask i) w j,
    bit_at_high mask i,
    λ (e : i ≡ j). ap (testb mask) e,
  )

  set_pins-level :
      (rounds i mask : ℕ) (w : W)
      → i + rounds ≤ 32
      → (w' : W) × (set_pins backend rounds i mask w ≡ some w')
        × ((j : ℕ) → level w' j ≡ (if within i rounds j then testb mask j else level w j))
  unfolding set_pins
  set_pins-level zero i mask w h = (w, refl, λ j. ground arith)
  set_pins-level (suc rounds) i mask w h =
      let (w', e, f) =
        set_pins-level rounds (suc i) mask (backend.direction_output i (bit_at mask i) w).1
          (omega arith) in
      (w', ground (arith, e), λ j. f j ∙ driven_step rounds i mask w j)

  get_step :
      (rounds i value : ℕ) (w : W)
      → i + suc rounds ≤ 32
      → get_pins backend (suc rounds) i value w
        ≡ get_pins backend rounds (suc i) (if level w i then bit_or value (bit i) else value) w
  unfolding get_pins with_pin
  get_step rounds i value w h = ground (arith, works.read i w)

  read_step :
      (rounds i value : ℕ) (w : W) (j : ℕ)
      → (testb (if level w i then bit_or value (bit i) else value) j
          || (within (suc i) rounds j && level w j))
        ≡ (testb value j || (within i (suc rounds) j && level w j))
  read_step rounds i value w j =
      ground (arith, testb-bit_or value (bit i) j, testb-bit i j, λ (e : i ≡ j). ap (level w) e)

  read_lt :
      (i value : ℕ) (w : W)
      → i < 32
      → value < 2 ^ 32
      → (if level w i then bit_or value (bit i) else value) < 2 ^ 32
  read_lt i value w h b = ground (arith, bit_or-lt 32 value (bit i) b (bit-lt 32 i h))

  get_pins-level :
      (rounds i value : ℕ) (w : W)
      → i + rounds ≤ 32
      → value < 2 ^ 32
      → (value' : ℕ) × (get_pins backend rounds i value w ≡ some (value', w))
        × (value' < 2 ^ 32)
        × ((j : ℕ) → testb value' j ≡ (testb value j || (within i rounds j && level w j)))
  unfolding get_pins
  get_pins-level zero i value w h b = (value, refl, b, λ j. ground arith)
  get_pins-level (suc rounds) i value w h b =
      let v = if level w i then bit_or value (bit i) else value in
      let (value', e, b', f) =
        get_pins-level rounds (suc i) v w (omega arith) (read_lt i value w (omega arith) b) in
      (value', get_step rounds i value w h ∙ e, b', λ j. f j ∙ read_step rounds i value w j)

  -- With at most 32 pins that work, gpio_set_mask succeeds and gives each pin the level of its bit in
  -- the mask.
  pub gpio_set_mask-level :
      (mask : ℕ) (w : W)
      → num ≤ 32
      → (w' : W) × (gpio_set_mask backend mask w ≡ some (pos 0, w'))
        × ((j : ℕ) → level w' j ≡ (if ltb j num then testb mask j else level w j))
  unfolding gpio_set_mask
  gpio_set_mask-level mask w h =
      let (w', e, f) = set_pins-level num 0 mask w (omega arith) in
      (w', ground (arith, works.num_pins w, e), λ j. f j ∙ ground arith)

  -- With at most 32 pins that work, gpio_get_mask succeeds, changes nothing and reads a word of 32
  -- bits: the level of each pin at its bit, and 0 at the bits above.
  pub gpio_get_mask-level :
      (mask : ℕ) (w : W)
      → num ≤ 32
      → (mask' : ℕ) × (gpio_get_mask backend (some mask) w ≡ some (pos 0, some mask', w))
        × (mask' < 2 ^ 32)
        × ((j : ℕ) → testb mask' j ≡ (ltb j num && level w j))
  unfolding gpio_get_mask
  gpio_get_mask-level mask w h =
      let (value, e, b, f) = get_pins-level num 0 0 w (omega arith) (omega arith) in
      (value, ground (arith, works.num_pins w, e), b, λ j. f j ∙ ground (arith, testb-zero j))

-- The stubs of a client whose calls reach the server and come back.
unfoldable pub loopback : {W : Type 0} → Backend W → Stubs W
loopback backend = record {
  get_mask = λ mask w. elim (gpio_get_mask backend (some mask) w) [
    | none ↦ none
    | some (ret, mask', w') ↦ some (pos 0, ret, Option.get_or mask' mask, w')
  ];
  set_mask = λ mask w. elim (gpio_set_mask backend mask w) [
    | none ↦ none
    | some (ret, w') ↦ some (pos 0, ret, w')
  ];
}

change_pin-testb :
    (gpio value mask : ℕ)
    → gpio < 32
    → mask < 2 ^ 32
    → (mask' : ℕ) × (change_pin gpio value mask ≡ some mask')
      × ((j : ℕ) → testb mask' j ≡ (if gpio == j then not (value == 0) else testb mask j))
unfolding change_pin
change_pin-testb gpio value mask h b = (
  if value == 0 then clear_bit mask gpio else bit_or mask (bit gpio),
  ground arith,
  λ j.
      ground
        (arith, testb-clear_bit mask gpio j b h, testb-bit_or mask (bit gpio) j, testb-bit gpio j),
)

module _ {W : Type 0} (backend : Backend W) (num : ℕ) (works : IsWorking backend num) where
  open works use {level}

  -- Over a server with at most 32 pins that work, the client's set of a pin succeeds, gives that pin
  -- the level of the value, high unless it is 0, and leaves the level of every other pin.
  pub remote_gpio_set-level :
      (gpio value : ℕ) (w : W)
      → num ≤ 32
      → gpio < num
      → (w' : W) × (remote_gpio_set (loopback backend) gpio value w ≡ some (pos 0, w'))
        × ((j : ℕ) → level w' j ≡ (if gpio == j then not (value == 0) else level w j))
  unfolding remote_gpio_set loopback
  remote_gpio_set-level gpio value w h g =
      let (mask, e, b, f) = gpio_get_mask-level backend num works 0 w h in
      let (mask', e', f') = change_pin-testb gpio value mask (omega arith) b in
      let (w', e'', f'') = gpio_set_mask-level backend num works mask' w h in
      (w', ground (arith, e, e', e''), λ j. ground (arith, f j, f' j, f'' j))

  -- A get of a pin by the client succeeds with 1 if its level is high, and else with 0.
  pub remote_gpio_get-level :
      (gpio : ℕ) (w : W)
      → num ≤ 32
      → gpio < num
      → remote_gpio_get (loopback backend) gpio w ≡ some (pos (if level w gpio then 1 else 0), w)
  unfolding remote_gpio_get loopback
  remote_gpio_get-level gpio w h g =
      let (mask, e, b, f) = gpio_get_mask-level backend num works 0 w h in
      ground (arith, e, f gpio, bit_at-testb mask gpio)

module _ {W : Type 0} (backend : Backend W) where
  -- If the backend cannot say how many pins it has, gpio_get_mask returns the positive error number
  -- and no mask, so the client takes the call for a success and reads every pin as low.
  pub remote_gpio_get_error :
      (n gpio : ℕ) (w w' : W)
      → backend.get_num_gpios w ≡ (negsuc n, w')
      → gpio < 32
      → (gpio_get_mask backend (some 0) w ≡ some (pos (suc n), some 0, w'))
        × (remote_gpio_get (loopback backend) gpio w ≡ some (pos 0, w'))
  unfolding gpio_get_mask remote_gpio_get loopback
  remote_gpio_get_error n gpio w w' e h =
      (ground (arith, e), ground (arith, e, bit_at-testb 0 gpio, testb-zero gpio))
