-- ===== src/Commands/TasksShown.antt =====
-- task-exec and task-kill of bin/commands.c over the client library and the server.
use rcrpc.Base.{ℕ, ◌^◌, ◌<◌, ◌≡◌, refl, arith, true, List, [], ◌∷◌, pos}
use rcrpc.Names.Tables.{codes}
use rcrpc.Cli.Task.{command_line}
use rcrpc.Services.Tasks.{TaskApi, TaskStubs, task_manager_exec, task_manager_kill}
use rcrpc.Commands.Numbers.{to_int32}
use rcrpc.Commands.Remote.{arg_number}
use rcrpc.Commands.Lines.{line, ended_with}
use rcrpc.Commands.Decimal.{decimal, strtoul-decimal}
use rcrpc.Commands.Services.{exec_task_exec, exec_task_kill}

-- The stubs of a client whose calls reach the server and come back.
unfoldable pub task_loopback : {W : Type 0} → TaskApi W → TaskStubs W
task_loopback api = record {
  stub_exec = λ c w. let (ret, w') = task_manager_exec api c w in (pos 0, ret, w');
  stub_kill = λ p s w. let (ret, w') = task_manager_kill api p s w in (pos 0, ret, w');
}

to_int32-small : (n : ℕ) → n < 2 ^ 31 → to_int32 (pos n) ≡ pos n
unfolding to_int32
to_int32-small n h = ground arith

module _ {W : Type 0} (api : TaskApi W) where
  -- If the platform starts the joined command line as a process with a positive number below 2^31,
  -- task-exec prints that number and returns it, and task-kill of the number in the decimal digits
  -- that were printed sends SIGTERM to that process.
  pub exec_task_exec-exec_task_kill :
      (name text name' : List ℕ) (rest : List (List ℕ)) (pid : ℕ) (w w' : W)
      → api.manager_exec (command_line (text ∷ rest)) w ≡ (pos pid, w')
      → 0 < pid
      → pid < 2 ^ 31
      → (exec_task_exec (task_loopback api) true (name ∷ text ∷ rest) w
          ≡ (pos pid, line (codes "PID: %d\n") (arg_number (pos pid)) ∷ [], w'))
        × (exec_task_kill (task_loopback api) (name' ∷ decimal 10 pid ∷ []) w'
            ≡ ended_with (api.manager_kill (pos pid) (pos 15) w'))
  unfolding exec_task_exec exec_task_kill task_loopback
  exec_task_exec-exec_task_kill name text name' rest pid w w' e p b = (
    rw e refl,
    rw (strtoul-decimal 9 pid p (omega arith) (omega arith), to_int32-small pid b) refl,
  )
