-- ===== src/Commands/Services.antt =====
-- The handlers of bin/commands.c for tasks, the smart card and LLDP. `argv` begins with the name of the
-- command, has `argc` strings and no NULL among them.
use rcrpc.Base.{
  ℕ, not, Bool, true, if◌then◌else◌, Option, none, some, List, [], ◌∷◌, ◌++◌, ℤ, pos, negsuc, neg,
  is_neg, pos_part, enomem,
}
use rcrpc.Names.Tables.{codes}
use rcrpc.Cli.Task.{command_line}
use rcrpc.Services.Tasks.{TaskStubs, remote_task_manager_exec, remote_task_manager_kill}
use rcrpc.Services.Memory.{MemoryStubs, remote_card_read, remote_lldp_read}
use rcrpc.Dump.Hex.{print_hex_dump, prefix_offset}
use rcrpc.Commands.Numbers.{strtoul, to_int32}
use rcrpc.Commands.Remote.{arg_text, arg_number}
use rcrpc.Commands.IrqPoll.{Line}
use rcrpc.Commands.Gpio.{error_line}
use rcrpc.Commands.Lines.{line, plain, ended_with}

-- What print_hex_dump prints goes through `fprintf` piece by piece; here it is one text.
abbrev pub dump_line : List ℕ → Line
dump_line text = line (codes "%s") (arg_text text)

module _ {W : Type 0} (stubs : TaskStubs W) where
  -- Whether calloc finds memory.
  unfoldable pub exec_task_exec : Bool → List (List ℕ) → W → ℤ × List Line × W
  exec_task_exec memory (name ∷ text ∷ rest) w =
      if not memory
      then (neg enomem, [], w)
      else let (err, w') = remote_task_manager_exec stubs (command_line (text ∷ rest)) w in
        (
          err,
          (if is_neg err then error_line err else line (codes "PID: %d\n") (arg_number err)) ∷ [],
          w',
        )
  exec_task_exec memory _ w = (negsuc 0, [], w)

  -- The number of a signal that is no number is SIGTERM.
  abbrev pub signal_of : List (List ℕ) → ℤ
  signal_of [] = pos 15
  signal_of (text ∷ rest) =
      let (signum, found) = strtoul 0 text in if found then to_int32 (pos signum) else pos 15

  unfoldable pub exec_task_kill : List (List ℕ) → W → ℤ × List Line × W
  exec_task_kill (name ∷ text ∷ rest) w =
      let (pid, found) = strtoul 0 text in
      if not found
      then (negsuc 0, [], w)
      else ended_with (remote_task_manager_kill stubs (to_int32 (pos pid)) (signal_of rest) w)
  exec_task_kill _ w = (negsuc 0, [], w)

-- The dump of what was read, behind the lines before it; `none` is a read beyond the memory.
abbrev pub dumped : {W : Type 0} → List Line → List ℕ → List ℕ → ℕ → W → Option (ℤ × List Line × W)
dumped before prefix memory len w =
    elim (print_hex_dump prefix_offset prefix 16 1 true memory len) [
      | none ↦ none
      | some text ↦ some (pos 0, before ++ dump_line text ∷ [], w)
    ]

module _ {W : Type 0} (stubs : MemoryStubs W) where
  -- `buffer` is the memory of 256 bytes as it stands on the stack.
  unfoldable pub exec_smartcard_read : List ℕ → List (List ℕ) → W → Option (ℤ × List Line × W)
  exec_smartcard_read buffer argv w =
      let (err, buffer', w') = remote_card_read stubs (pos 0) buffer 256 w in
      if is_neg err then some (err, [], w') else dumped [] [] buffer' (pos_part err) w'

  -- `frame` is the memory of 1500 bytes that malloc found, if it did.
  unfoldable pub exec_lldp_dump : Option (List ℕ) → List (List ℕ) → W → Option (ℤ × List Line × W)
  exec_lldp_dump none argv w = some (neg enomem, [], w)
  exec_lldp_dump (some frame) argv w =
      let (err, frame', w') = remote_lldp_read stubs frame 1500 w in
      if is_neg err
      then some (err, error_line err ∷ [], w')
      else dumped (plain (codes "LLDP frame:\n") ∷ []) (codes "  ") frame' (pos_part err) w'
