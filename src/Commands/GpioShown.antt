-- ===== src/Commands/GpioShown.antt =====
-- gpio-set and gpio-get of bin/commands.c over the client library, the server and pins that work.
use rcrpc.Base.{ℕ, ◌%◌, ◌^◌, ◌<◌, ◌≤◌, ◌≡◌, arith, true, ==_refl, some, List, [], ◌∷◌, pos}
use rcrpc.Gpio.Server.{Backend}
use rcrpc.Gpio.Pins.{IsWorking, loopback, remote_gpio_set-level, remote_gpio_get-level}
use rcrpc.Commands.Numbers.{strtoul}
use rcrpc.Commands.Gpio.{exec_gpio_set, exec_gpio_get, level_line}

small : (n : ℕ) → n < 2 ^ 32 → n % 2 ^ 32 ≡ n
small n h = omega arith

module _ {W : Type 0} (backend : Backend W) (num : ℕ) (works : IsWorking backend num) where
  -- Over a server with at most 32 pins that work, gpio-set of one of them to 0 or 1 succeeds and prints
  -- nothing, and gpio-get of that pin then prints that level.
  pub exec_gpio_set-exec_gpio_get :
      (name name' pin level : List ℕ) (rest rest' : List (List ℕ)) (gpio value : ℕ) (w : W)
      → num ≤ 32
      → strtoul 0 pin ≡ (gpio, true)
      → strtoul 0 level ≡ (value, true)
      → gpio < num
      → value < 2
      → (w' : W) × (exec_gpio_set (loopback backend) (name ∷ pin ∷ level ∷ rest) w
          ≡ some (pos 0, [], w'))
        × (exec_gpio_get (loopback backend) (name' ∷ pin ∷ rest') w'
            ≡ some (pos 0, level_line gpio value ∷ [], w'))
  unfolding exec_gpio_set exec_gpio_get
  exec_gpio_set-exec_gpio_get name name' pin level rest rest' gpio value w b p l g v =
      let (w', e, f) = remote_gpio_set-level backend num works gpio value w b g in
      let r = remote_gpio_get-level backend num works gpio w' b g in
      let q = small gpio (omega arith) in
      (
        w',
        rw (p, l) (rw (q, small value (omega arith)) (rw e (ground arith))),
        rw p (rw q (rw r (ground (arith, f gpio, ==_refl gpio)))),
      )
