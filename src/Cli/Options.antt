-- ===== src/Cli/Options.antt =====
-- bin/main.c: what the options of the program leave in `struct cli`.
use rcrpc.Base.{
  ℕ, suc, ◌-◌, ◌≡◌, ◌≢◌, ◌<◌, ◌⊎◌, inl, inr, refl, ap, ◌∙◌, arith, Bool, Bool-cases, true, false,
  ltb, ◌==◌, none, some, List, [], ◌∷◌, ◌++◌, map, length, drop, take, zero, ℤ,
}
use rcrpc.Commands.IrqPoll.{Line}
use rcrpc.Cli.Shell.{Text, Args}
use rcrpc.Cli.Exec.{slice_strdup}
use rcrpc.Cli.Program.{
  Cli, Invocation, Parsed, parse_option, parse_options, parsed_result, cli_parse_command_line,
}

-- What the program runs: no arguments, or a first word.
unfoldable pub RunsArgs : Args → Type 0
RunsArgs args =
    (args.argc ≡ 0) ⊎ ((n : List ℕ) × (rest : List Text) × (args.argv ≡ some (some n ∷ rest)))

pub zero_test : (n : ℕ) → (n == 0) ≡ false → n ≢ 0
zero_test n h e = ground arith

-- The options change neither the client nor the arguments.
parse_option-cli :
    (opt : ℕ) (optarg : List ℕ) (p : Parsed)
    → ((parse_option opt optarg p).cli.client ≡ p.cli.client)
      × ((parse_option opt optarg p).cli.args ≡ p.cli.args)
unfolding parse_option
parse_option-cli opt optarg p = ground arith

parse_options-cli :
    (options : List (ℕ × List ℕ)) (p : Parsed)
    → ((parse_options options p).cli.client ≡ p.cli.client)
      × ((parse_options options p).cli.args ≡ p.cli.args)
unfolding parse_options
parse_options-cli [] p = (refl, refl)
parse_options-cli ((opt, optarg) ∷ more) p =
    let (c, a) = parse_option-cli opt optarg p in
    let (c', a') = parse_options-cli more (parse_option opt optarg p) in (c' ∙ c, a' ∙ a)

drop-first :
    (argv : List (List ℕ)) (start : ℕ)
    → start < length argv
    → (n : List ℕ) × (rest : List (List ℕ)) × (drop start argv ≡ n ∷ rest)
drop-first [] start h = elim h [ ]
drop-first (a ∷ argv) zero h = (a, argv, refl)
drop-first (a ∷ argv) (suc start) h = drop-first argv start (omega arith)

take-first :
    (n : List ℕ) (rest : List (List ℕ)) (m : ℕ) → 0 < m → take m (n ∷ rest) ≡ n ∷ take (m - 1) rest
take-first n rest zero h = elim h [ ]
take-first n rest (suc m) h = ap (λ (k : ℕ). n ∷ take k rest) (omega arith)

below : (a b : ℕ) → a < b → ltb a b ≡ true
below a b h = ground arith

ltb_below : (a b : ℕ) → ltb a b ≡ true → a < b
ltb_below a b h = ground arith

slice_strdup-first :
    (alloc : ℕ → Bool) (plenty : (n : ℕ) → alloc n ≡ true) (argv : List (List ℕ)) (start : ℕ)
    → start < length argv
    → (n : List ℕ) × (rest : List Text) × (slice_strdup alloc (some argv) start (length argv)
        ≡ some (some n ∷ rest))
unfolding slice_strdup
slice_strdup-first alloc plenty argv start h =
    let (n, rest, e) = drop-first argv start h in
    (
      n,
      map some (take (length argv - start - 1) rest) ++ none ∷ [],
      rw
          (
            below start (length argv) h,
            plenty (suc (length argv - start)),
            e,
            take-first n rest (length argv - start) (omega arith),
          )
          refl,
    )

-- The client is not there yet, and there is something to run.
unfoldable pub IsParsed : ℤ × List Line × Cli → Type 0
IsParsed (ret, lines, cli) = (cli.client ≡ none) × RunsArgs cli.args

parsed_result-IsParsed :
    (alloc : ℕ → Bool) (plenty : (n : ℕ) → alloc n ≡ true) (summaries : List (List ℕ × List ℕ))
    (i : Invocation) (p : Parsed)
    → p.cli.client ≡ none
    → p.cli.args.argc ≡ 0
    → IsParsed (parsed_result alloc summaries i p)
unfolding parsed_result IsParsed RunsArgs
parsed_result-IsParsed alloc plenty summaries i p c a = elim (Bool-cases p.help) [
  | inl h ↦ rw h (c, inl a)
  | inr h ↦ elim (Bool-cases p.version) [
    | inl v ↦ rw (h, v) (c, inl a)
    | inr v ↦ elim (Bool-cases (ltb i.optind (length i.arguments))) [
      | inl l ↦
          rw (h, v, l)
            (
              c,
              inr (
                  slice_strdup-first alloc plenty i.arguments i.optind
                    (ltb_below i.optind (length i.arguments) l)),
            )
      | inr l ↦ rw (h, v, l) (c, inl a)
    ]
  ]
]

pub cli_parse_command_line-IsParsed :
    (alloc : ℕ → Bool) (plenty : (n : ℕ) → alloc n ≡ true) (summaries : List (List ℕ × List ℕ))
    (i : Invocation) (cli : Cli)
    → cli.client ≡ none
    → cli.args.argc ≡ 0
    → IsParsed (cli_parse_command_line alloc summaries i cli)
cli_parse_command_line-IsParsed alloc plenty summaries i cli c a =
    let start : Parsed = record { cli = cli; help = false; version = false; errors = [] } in
    let (c', a') = parse_options-cli i.options start in
    parsed_result-IsParsed alloc plenty summaries i (parse_options i.options start) (c' ∙ c)
      (ap (λ t. t.argc) a' ∙ a)
