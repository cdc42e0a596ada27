-- ===== src/Commands/Distinct.antt =====
-- bin/commands.c: the names of the commands, by which cli_exec and help find them in the table.
use rcrpc.Base.{
  ℕ, ◌≡◌, refl, arith, Bool, true, false, ◌&&◌, not, List, [], ◌∷◌, map, some, ==_refl,
}
use mathlib.Core.List.{Memᴰ}
use mathlib.Core.List.Memᴰ.{head, tail}
use rcrpc.Cli.Shell.{is_quote}
use rcrpc.Cli.Exec.{str_eq, find_command}
use rcrpc.Cli.RoundTrip.{IsCarried, IsUnquoted}
use rcrpc.Commands.Help.{help_command}
use rcrpc.Commands.Info.{CommandInfo, Calls, table_entry}
use rcrpc.Commands.Table.{commands}

pub str_eq_refl : (s : List ℕ) → str_eq s s ≡ true
unfolding str_eq
str_eq_refl [] = refl
str_eq_refl (c ∷ s) = rw (==_refl c) (str_eq_refl s)

str_eq_sym : (a b : List ℕ) → str_eq a b ≡ str_eq b a
unfolding str_eq
str_eq_sym [] [] = refl
str_eq_sym [] (b ∷ ys) = refl
str_eq_sym (a ∷ xs) [] = refl
str_eq_sym (a ∷ xs) (b ∷ ys) = ground (arith, str_eq_sym xs ys)

both : (a b : Bool) → (a && b) ≡ true → (a ≡ true) × (b ≡ true)
both a b h = ground (arith, h)

-- No name of the list is another one.
abbrev fresh : List ℕ → List (List ℕ) → Bool
fresh n [] = true
fresh n (m ∷ ms) = not (str_eq n m) && fresh n ms

abbrev distinct : List (List ℕ) → Bool
distinct [] = true
distinct (n ∷ ns) = fresh n ns && distinct ns

-- The test of IsCarried.
abbrev unquoted : List ℕ → Bool
unquoted [] = true
unquoted (c ∷ s) = not (is_quote c) && unquoted s

abbrev carried : List ℕ → Bool
carried [] = false
carried (c ∷ s) = unquoted (c ∷ s)

abbrev all_carried : List (List ℕ) → Bool
all_carried [] = true
all_carried (s ∷ rest) = carried s && all_carried rest

unquoted_holds : (s : List ℕ) → unquoted s ≡ true → IsUnquoted s
unquoted_holds [] h = tt
unquoted_holds (c ∷ s) h =
    let (q, u) = both (not (is_quote c)) (unquoted s) h in (ground (arith, q), unquoted_holds s u)

pub carried_holds : (s : List ℕ) → carried s ≡ true → IsCarried s
carried_holds [] h = ground (arith, h)
carried_holds (c ∷ s) h = ((λ e. cc e), unquoted_holds (c ∷ s) h)

module _ {W : Type 0} where
  abbrev names : List (CommandInfo W) → List (List ℕ)
  names = map (λ (c : CommandInfo W). c.entry.name)

  fresh-Mem :
      (n : List ℕ) (cs : List (CommandInfo W)) (c : CommandInfo W)
      → fresh n (names cs) ≡ true
      → Memᴰ c cs
      → str_eq n c.entry.name ≡ false
  fresh-Mem n [] c h m = elim m [ ]
  fresh-Mem n (d ∷ cs) c h (head e) =
      let (q, u) = both (not (str_eq n d.entry.name)) (fresh n (names cs)) h in
      rw e (ground (arith, q))
  fresh-Mem n (d ∷ cs) c h (tail m) =
      let (q, u) = both (not (str_eq n d.entry.name)) (fresh n (names cs)) h in fresh-Mem n cs c u m

  pub name-IsCarried :
      (cs : List (CommandInfo W)) (c : CommandInfo W)
      → all_carried (names cs) ≡ true
      → Memᴰ c cs
      → IsCarried c.entry.name
  name-IsCarried [] c h m = elim m [ ]
  name-IsCarried (d ∷ cs) c h (head e) =
      rw e (carried_holds d.entry.name (both (carried d.entry.name) (all_carried (names cs)) h).0)
  name-IsCarried (d ∷ cs) c h (tail m) =
      name-IsCarried cs c (both (carried d.entry.name) (all_carried (names cs)) h).1 m

  pub find_command-Mem :
      (cs : List (CommandInfo W)) (c : CommandInfo W)
      → distinct (names cs) ≡ true
      → Memᴰ c cs
      → find_command c.entry.name (map table_entry cs) ≡ some (table_entry c)
  unfolding find_command
  find_command-Mem [] c h m = elim m [ ]
  find_command-Mem (d ∷ cs) c h (head e) = rw e (rw (str_eq_refl d.entry.name) refl)
  find_command-Mem (d ∷ cs) c h (tail m) =
      let (f, u) = both (fresh d.entry.name (names cs)) (distinct (names cs)) h in
      rw (fresh-Mem d.entry.name cs c f m) (find_command-Mem cs c u m)

  pub help_command-Mem :
      (cs : List (CommandInfo W)) (c : CommandInfo W)
      → distinct (names cs) ≡ true
      → Memᴰ c cs
      → help_command c.entry.name (map (λ (c : CommandInfo W). c.entry) cs)
        ≡ help_command c.entry.name (c.entry ∷ [])
  unfolding help_command
  help_command-Mem [] c h m = elim m [ ]
  help_command-Mem (d ∷ cs) c h (head e) = rw e (rw (str_eq_refl d.entry.name) refl)
  help_command-Mem (d ∷ cs) c h (tail m) =
      let (f, u) = both (fresh d.entry.name (names cs)) (distinct (names cs)) h in
      rw (str_eq_sym c.entry.name d.entry.name, fresh-Mem d.entry.name cs c f m)
        (help_command-Mem cs c u m)

pub names_distinct : {W : Type 0} (calls : Calls W) → distinct (names (commands calls)) ≡ true
unfolding str_eq
names_distinct calls = refl

pub names_carried : {W : Type 0} (calls : Calls W) → all_carried (names (commands calls)) ≡ true
unfolding is_quote
names_carried calls = refl
