-- ===== src/Commands/Info.antt =====
-- bin/remote-control-client.h: `struct cli_command_info` with the handlers of bin/commands.c, over the
-- client library and what else they are given.
use rcrpc.Base.{
  Bool, ℕ, Option, none, some, List, [], ◌∷◌, ◌++◌, ℤ, length, ◌==◌, if◌then◌else◌, pos,
}
use rcrpc.Names.Tables.{codes}
use Prim.Native.String.{String}
use rcrpc.Gpio.Client.{Stubs}
use rcrpc.Phone.Modem.{ModemStubs}
use rcrpc.Phone.Voip.{VoipStubs}
use rcrpc.Media.Player.{PlayerStubs}
use rcrpc.Media.Sound.{SoundStubs}
use rcrpc.Services.Tasks.{TaskStubs}
use rcrpc.Services.Memory.{MemoryStubs}
use rcrpc.Services.Handset.{HandsetStubs}
use rcrpc.Commands.Remote.{Remote, arg_text}
use rcrpc.Commands.IrqPoll.{Line, IrqStubs}
use rcrpc.Commands.Lines.{plain, line}
use rcrpc.Commands.Help.{HelpEntry, audio_state_print_names}
use rcrpc.Cli.Shell.{Text}
use rcrpc.Cli.Exec.{Command}

-- What the handlers call, and the memory that they are given.
pub record Calls (W : Type 0) : Type 0 where
  pub remote : Remote W
  pub gpio : Stubs W
  pub irq : IrqStubs W
  pub player : PlayerStubs W
  pub sound : SoundStubs W
  pub modem : ModemStubs W
  pub voip : VoipStubs W
  pub handset : HandsetStubs W
  pub tasks : TaskStubs W
  pub memory : MemoryStubs W
  pub scan : List ℕ → Option ℤ
  pub tuner_errno : ℕ
  pub task_memory : Bool
  pub card_buffer : List ℕ
  pub lldp_frame : Option (List ℕ)

-- A handler: the result, the lines and the state; `none` is undefined behaviour.
abbrev pub Handler : Type 0 → Type 0
Handler W = List (List ℕ) → W → Option (ℤ × List Line × W)

pub record CommandInfo (W : Type 0) : Type 0 where
  pub entry : HelpEntry
  pub exec : Handler W

-- The name and the summary, without a text of help.
abbrev pub info : String → String → HelpEntry
info name summary = record {
  name = codes name;
  summary = codes summary;
  help = none;
  helpcmd = none;
}

-- The handlers that print through the state, and those whose behaviour is always defined.
abbrev pub silent : {W : Type 0} → (List (List ℕ) → W → ℤ × W) → Handler W
silent exec argv w = let (ret, w') = exec argv w in some (ret, [], w')

abbrev pub printing : {W : Type 0} → (List (List ℕ) → W → ℤ × List Line × W) → Handler W
printing exec argv w = some (exec argv w)

abbrev pub help_audio_state : List Line
help_audio_state = plain (codes "Possible audio-states are:\n") ∷ audio_state_print_names

-- The strings in front of the NULL.
unfoldable pub strings : List Text → List (List ℕ)
strings [] = []
strings (none ∷ rest) = []
strings (some s ∷ rest) = s ∷ strings rest

-- The lines printed so far and the state; `none` behind undefined behaviour.
abbrev pub Process : Type 0 → Type 0
Process W = Option (List Line × W)

module _ {W : Type 0} where
  -- What a call of a handler makes of the process.
  unfoldable pub shown : List Line → Option (ℤ × List Line × W) → ℤ × Process W
  shown printed none = (pos 0, none)
  shown printed (some (ret, lines, w)) = (ret, some (printed ++ lines, w))

  -- A handler in the table. It may use all of `argc` strings.
  unfoldable pub call_handler : Handler W → ℕ → List Text → Process W → ℤ × Process W
  unfolding shown strings
  call_handler exec argc argv none = (pos 0, none)
  call_handler exec argc argv (some (printed, w)) =
      if argc == length (strings argv) then shown printed (exec (strings argv) w) else (pos 0, none)

  abbrev pub command_not_found : List ℕ → Process W → Process W
  command_not_found name none = none
  command_not_found name (some (printed, w)) =
      some (printed ++ line (codes "%s: command not found\n") (arg_text name) ∷ [], w)

  abbrev pub table_entry : CommandInfo W → Command (Process W)
  table_entry c = record { name = c.entry.name; exec = call_handler c.exec }
