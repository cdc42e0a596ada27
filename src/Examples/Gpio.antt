-- ===== src/Examples/Gpio.antt =====
-- src/rcrpc/io.c and src/rcrpc-client/gpio.c over eight pins.
use rcrpc.Base.{
  ℕ, suc, ◌≡◌, refl, arith, Bool, true, false, not, some, ◌==◌, pos, negsuc, if◌then◌else◌, [], ◌∷◌,
}
use rcrpc.Cli.Shell.{is_space, skip_spaces}
use rcrpc.Names.Tables.{codes}
use rcrpc.Commands.Numbers.{strtoul}
use rcrpc.Commands.Gpio.{exec_gpio_set, exec_gpio_get, level_line}
use rcrpc.Commands.GpioShown.{exec_gpio_set-exec_gpio_get}
use rcrpc.Gpio.Server.{Backend, gpio_get_mask}
use rcrpc.Gpio.Client.{remote_gpio_set, remote_gpio_get}
use rcrpc.Gpio.Pins.{IsWorking, loopback, remote_gpio_set-level, remote_gpio_get_error}

abbrev Levels : Type 0
Levels = ℕ → Bool

abbrev backend : Backend Levels
backend = record {
  get_num_gpios = λ w. (pos 8, w);
  direction_output = λ i v w. (pos 0, λ j. if i == j then not (v == 0) else w j);
  get_value = λ i w. (if w i then pos 1 else pos 0, w);
}

abbrev works : IsWorking backend 8
works = record {
  level = λ w j. w j;
  num_pins = λ w. refl;
  driven = λ i v w j. refl;
  read = λ i w. refl;
}

abbrev low : Levels
low j = false

remote_gpio_set-level_example :
    (w' : Levels) × (remote_gpio_set (loopback backend) 3 1 low ≡ some (pos 0, w'))
    × ((j : ℕ) → w' j ≡ (if 3 == j then true else false))
remote_gpio_set-level_example =
    remote_gpio_set-level backend 8 works 3 1 low (omega arith) (omega arith)

abbrev broken : Backend ℕ
broken = record {
  get_num_gpios = λ w. (negsuc 4, suc w);
  direction_output = λ i v w. (pos 0, w);
  get_value = λ i w. (pos 1, w);
}

remote_gpio_get_error_example :
    (gpio_get_mask broken (some 0) 0 ≡ some (pos 5, some 0, 1))
    × (remote_gpio_get (loopback broken) 3 0 ≡ some (pos 0, 1))
remote_gpio_get_error_example = remote_gpio_get_error broken 4 3 0 1 refl (omega arith)

exec_gpio_set-exec_gpio_get_example :
    (w' : Levels) × (exec_gpio_set
        (loopback backend)
        (codes "gpio-set" ∷ codes "0x3" ∷ codes "1" ∷ [])
        low
      ≡ some (pos 0, [], w'))
    × (exec_gpio_get (loopback backend) (codes "gpio-get" ∷ codes "0x3" ∷ []) w'
        ≡ some (pos 0, level_line 3 1 ∷ [], w'))
unfolding strtoul skip_spaces is_space
exec_gpio_set-exec_gpio_get_example =
    exec_gpio_set-exec_gpio_get backend 8 works (codes "gpio-set") (codes "gpio-get") (codes "0x3")
      (codes "1") [] [] 3 1 low (omega arith) refl refl (omega arith) (omega arith)
