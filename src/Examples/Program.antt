-- ===== src/Examples/Program.antt =====
-- The program of bin/main.c: its input, its completion and its client; the end of its thread.
use rcrpc.Base.{
  ℕ, suc, ◌-◌, ◌≡◌, ◌<◌, ◌≤◌, ◌⊎◌, refl, arith, true, false, some, List, [], ◌∷◌, ◌++◌, drop, take,
  length, pos, neg,
}
use rcrpc.Names.Tables.{codes}
use rcrpc.Cli.Exec.{CommandTable}
use rcrpc.Cli.Program.{Invocation}
use rcrpc.Cli.Completion.{Generator, generated, beginning, generated-beginning}
use rcrpc.Cli.Input.{readline_read, readline_read-line}
use rcrpc.Client.Connection.{ClientApi}
use rcrpc.Client.Release.{ClientLaws}
use rcrpc.Client.Poll.{
  Shared, ThreadStep, CallerStep, Run, here, by_thread, by_caller, go_on, set_done, stop, join,
  free, exited, thread_ended, started, at_poll, at_join, at_free,
}
use rcrpc.Client.Exit.{remote_exit_terminates, remote_exit-released}

-- The outside counts the clients.
abbrev api : ClientApi ℕ
api = record {
  client_create = λ w. (pos 0, 7, suc w);
  client_free = λ c w. w - 1;
  client_connect = λ c h s w. (pos 0, w);
  set_event_handler = λ c w. (pos 0, w);
  thread_create = λ c w. (pos 0, w);
  thread_join = λ c w. w;
  client_poll = λ c t w. (neg 110, w);
  process_events = λ c w. (pos 0, w);
}

abbrev laws : ClientLaws api
laws = record {
  clients = λ w. w;
  clients-client_create = λ w. refl;
  clients-client_free = λ c w. refl;
  clients-client_connect = λ c h s w. refl;
  clients-set_event_handler = λ c w. refl;
  clients-thread_create = λ c w. refl;
  clients-thread_join = λ c w. refl;
}

abbrev table : CommandTable ℕ
table = record {
  all_commands = record { name = codes "x"; exec = λ argc argv w. (pos 0, w) } ∷ [];
  not_found = λ n w. w;
}

abbrev invocation : Invocation
invocation = record {
  options = (b'v', []) ∷ (b'H', codes "host") ∷ [];
  optind = 3;
  arguments = codes "shctl" ∷ codes "-v" ∷ codes "-Hhost" ∷ [];
  program = codes "shctl";
  release = codes "1.0";
}

abbrev names : List (List ℕ)
names = codes "gpio-get" ∷ codes "help" ∷ codes "gpio-set" ∷ []

abbrev left_over : Generator
left_over = record { rest = []; len = 9 }

generated-beginning_example :
    generated names (codes "gp") 5 0 left_over ≡ beginning (codes "gp") names
generated-beginning_example = generated-beginning names (codes "gp") left_over 5 (omega arith)

readline_read-line_example :
    (length (codes "help") < 1023
      → readline_read (codes "help" ++ 10 ∷ codes "x") ≡ (some (codes "help"), codes "x"))
    × (1023 ≤ length (codes "help")
        → readline_read (codes "help" ++ 10 ∷ codes "x")
          ≡ (some (take 1023 (codes "help")), drop 1023 (codes "help") ++ 10 ∷ codes "x"))
readline_read-line_example =
    readline_read-line (codes "help") (codes "x")
      ((refl, refl), ((refl, refl), ((refl, refl), ((refl, refl), tt))))

-- The thread polls, and remote_exit sets `done` meanwhile.
abbrev polling : Shared
polling = record started { thread = at_poll }

abbrev leaving : Shared
leaving = record polling { caller = at_join; done = true }

leaving-Run : Run started 2 leaving
leaving-Run = by_caller (by_thread here (go_on started refl refl)) (set_done polling refl)

remote_exit_terminates_example :
    ((m : ℕ) (t : Shared) → Run leaving m t → m ≤ 5)
    × ((leaving.caller ≡ exited) ⊎ ((t : Shared) × (ThreadStep leaving t ⊎ CallerStep leaving t)))
remote_exit_terminates_example = remote_exit_terminates leaving-Run refl

-- remote_exit to its end, with a thread that stops at once.
abbrev gone : Shared
gone = record { thread = thread_ended; caller = exited; done = true; released = true }

gone-Run : Run started 4 gone
gone-Run =
    by_caller
      (by_caller
        (by_thread (by_caller here (set_done started refl))
          (stop (record started { caller = at_join; done = true }) refl refl))
        (join (record gone { caller = at_join; released = false }) refl refl))
      (free (record gone { caller = at_free; released = false }) refl)

remote_exit-released_example : (gone.thread ≡ thread_ended) × ((t : Shared) → ¬ ThreadStep gone t)
remote_exit-released_example = remote_exit-released gone-Run refl
