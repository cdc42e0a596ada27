-- ===== src/Cli/Lifecycle.antt =====
-- bin/main.c: the client of librpc from the start of the program to its end.
use rcrpc.Base.{ℕ, ◌≡◌, ◌⊎◌, Bool, true, Option, some, List, [], ◌∷◌, All}
use rcrpc.Client.Connection.{ClientApi}
use rcrpc.Client.Release.{ClientLaws}
use rcrpc.Commands.IrqPoll.{Line}
use rcrpc.Cli.Shell.{Text}
use rcrpc.Cli.Split.{words}
use rcrpc.Cli.Words.{arguments}
use rcrpc.Cli.Exec.{Command, CommandTable}
use rcrpc.Cli.Program.{Cli}

-- A line that does nothing, or becomes arguments within their memory, with a first one.
abbrev pub HasWord : List ℕ → Type 0
HasWord s =
    (s ≡ []) ⊎ ((n : List ℕ) × (rest : List Text) × (arguments (words s) ≡ some (some n ∷ rest)))

module _ {W : Type 0} (api : ClientApi W) (laws : ClientLaws api) where
  open laws use {clients}

  -- A command leaves the clients as they are.
  abbrev pub Keeps : Command W → Type 0
  Keeps c = (argc : ℕ) (argv : List Text) (w : W) → clients (c.exec argc argv w).1 ≡ clients w

  module _ (alloc : ℕ → Bool) (plenty : (n : ℕ) → alloc n ≡ true) (table : CommandTable W)
      (keeps : All Keeps table.all_commands)
      (quiet : (n : List ℕ) (w : W) → clients (table.not_found n w) ≡ clients w)
      (summaries : List (List ℕ × List ℕ)) where
    -- A run ends, and leaves `k` clients.
    Ends : Option (ℕ × List Line × W) → ℕ → Type 0
    Ends r k =
        (code : ℕ) × (lines : List Line) × (w' : W) × (r ≡ some (code, lines, w'))
        × (clients w' ≡ k)
