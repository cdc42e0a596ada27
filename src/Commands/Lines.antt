-- ===== src/Commands/Lines.antt =====
-- The ends that the handlers of bin/commands.c share: the lines that they print, with the result.
use rcrpc.Base.{ℕ, if◌then◌else◌, Option, none, some, List, [], ◌∷◌, ℤ, pos, is_neg}
use rcrpc.Names.Tables.{codes}
use rcrpc.Commands.Remote.{Arg, arg_text}
use rcrpc.Commands.IrqPoll.{Line}
use rcrpc.Commands.Gpio.{error_line}

-- A line without arguments, and with one.
abbrev pub plain : List ℕ → Line
plain text = record { format = text; args = [] }

abbrev pub line : List ℕ → Arg → Line
line text arg = record { format = text; args = arg ∷ [] }

-- `if (err < 0) { printf("%s\n", strerror(-err)); return err; } return 0;`
abbrev pub ended : {W : Type 0} → ℤ × W → ℤ × List Line × W
ended (err, w) = if is_neg err then (err, error_line err ∷ [], w) else (pos 0, [], w)

-- `if (err < 0) printf("%s\n", strerror(-err)); return err;`
abbrev pub ended_with : {W : Type 0} → ℤ × W → ℤ × List Line × W
ended_with (err, w) = if is_neg err then (err, error_line err ∷ [], w) else (err, [], w)

-- The same as `ended`, with a line behind a success.
abbrev pub ended_line : {W : Type 0} → ℤ → Line → W → ℤ × List Line × W
ended_line err shown w =
    if is_neg err then (err, error_line err ∷ [], w) else (pos 0, shown ∷ [], w)

-- The conversion %s of a string that may be NULL, as the C library of GNU prints it.
abbrev pub text_or_null : Option (List ℕ) → Arg
text_or_null none = arg_text (codes "(null)")
text_or_null (some s) = arg_text s

-- The variable behind a pointer that is not NULL; the value of `none` is never read.
abbrev pub variable : Option ℕ → ℕ
variable none = 0
variable (some n) = n
