-- ===== src/Commands/Gpio.antt =====
-- The handlers of gpio-get and gpio-set in bin/commands.c. `argv` begins with the name of the command,
-- has `argc` strings and no NULL among them.
use rcrpc.Base.{
  ℕ, ◌%◌, ◌^◌, ◌==◌, not, ◌||◌, if◌then◌else◌, Option, none, some, List, [], ◌∷◌, ℤ, pos, neg,
  is_neg, is_zero, einval,
}
use rcrpc.Names.Tables.{codes}
use rcrpc.Gpio.Client.{Stubs, remote_gpio_set, remote_gpio_get}
use rcrpc.Commands.Numbers.{strtoul}
use rcrpc.Commands.Remote.{arg_text, arg_number, arg_error}
use rcrpc.Commands.IrqPoll.{Line}

-- The lines that the two handlers print.
abbrev pub invalid_gpio : List ℕ → Line
invalid_gpio text = record { format = codes "invalid GPIO: %s\n"; args = arg_text text ∷ [] }

abbrev pub invalid_level : List ℕ → Line
invalid_level text = record { format = codes "invalid pin level: %s\n"; args = arg_text text ∷ [] }

abbrev pub error_line : ℤ → Line
error_line err = record { format = codes "%s\n"; args = arg_error err ∷ [] }

abbrev pub level_line : ℕ → ℕ → Line
level_line gpio level = record {
  format = codes "GPIO#%u: %u\n";
  args = arg_number (pos gpio) ∷ arg_number (pos level) ∷ [];
}

module _ {W : Type 0} (stubs : Stubs W) where
  -- The result, the lines and the state; `none` is undefined behaviour of the client library. The
  -- number of the pin is an unsigned int.
  unfoldable pub exec_gpio_get : List (List ℕ) → W → Option (ℤ × List Line × W)
  exec_gpio_get (name ∷ text ∷ rest) w =
      let (value, found) = strtoul 0 text in
      let gpio = value % 2 ^ 32 in
      if not found
      then some (neg einval, invalid_gpio text ∷ [], w)
      else elim (remote_gpio_get stubs gpio w) [
        | none ↦ none
        | some (err, w') ↦
            if is_neg err
            then some (err, error_line err ∷ [], w')
            else some (pos 0, level_line gpio (if is_zero err then 0 else 1) ∷ [], w')
      ]
  exec_gpio_get _ w =
      some (neg einval, record { format = codes "no GPIO number specified\n"; args = [] } ∷ [], w)

  unfoldable pub exec_gpio_set : List (List ℕ) → W → Option (ℤ × List Line × W)
  exec_gpio_set (name ∷ text ∷ level ∷ rest) w =
      let (pin, found) = strtoul 0 text in
      let (number, found') = strtoul 0 level in
      let value = number % 2 ^ 32 in
      if not found
      then some (neg einval, invalid_gpio text ∷ [], w)
      else if not found' || not (value == 0 || value == 1)
      then some (neg einval, invalid_level level ∷ [], w)
      else elim (remote_gpio_set stubs (pin % 2 ^ 32) value w) [
        | none ↦ none
        | some (err, w') ↦
            if is_neg err then some (err, error_line err ∷ [], w') else some (pos 0, [], w')
      ]
  exec_gpio_set _ w = some (neg einval, [], w)
