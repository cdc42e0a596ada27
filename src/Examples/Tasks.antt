-- ===== src/Examples/Tasks.antt =====
-- task-exec and task-kill of bin/commands.c over a platform that remembers the last process.
use rcrpc.Base.{ℕ, ◌+◌, ◌≡◌, refl, arith, true, [], ◌∷◌, pos}
use rcrpc.Names.Tables.{codes}
use rcrpc.Services.Tasks.{TaskApi}
use rcrpc.Commands.Remote.{arg_number}
use rcrpc.Commands.Lines.{line, ended_with}
use rcrpc.Commands.Decimal.{decimal}
use rcrpc.Commands.Services.{exec_task_exec, exec_task_kill}
use rcrpc.Commands.TasksShown.{task_loopback, exec_task_exec-exec_task_kill}

abbrev task_api : TaskApi ℕ
task_api = record { manager_exec = λ c w. (pos (w + 1), w + 1); manager_kill = λ p s w. (pos 0, 0) }

decimal_of_1207 : decimal 10 1207 ≡ codes "1207"
unfolding decimal
decimal_of_1207 = refl

exec_task_exec-exec_task_kill_example :
    (exec_task_exec (task_loopback task_api) true (codes "task-exec" ∷ codes "ls" ∷ []) 1206
      ≡ (pos 1207, line (codes "PID: %d\n") (arg_number (pos 1207)) ∷ [], 1207))
    × (exec_task_kill (task_loopback task_api) (codes "task-kill" ∷ decimal 10 1207 ∷ []) 1207
        ≡ ended_with (task_api.manager_kill (pos 1207) (pos 15) 1207))
exec_task_exec-exec_task_kill_example =
    exec_task_exec-exec_task_kill task_api (codes "task-exec") (codes "ls") (codes "task-kill") []
      1207 1206 1207 refl (omega arith) (omega arith)
