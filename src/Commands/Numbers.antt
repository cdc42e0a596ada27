-- ===== src/Commands/Numbers.antt =====
-- strtoul and atol of the C library, as bin/commands.c uses them on a machine whose `long` has 64
-- bits, and the conversion to int32_t.
use rcrpc.Base.{
  ℕ, ◌+◌, ◌-◌, ◌*◌, ◌%◌, ◌^◌, Bool, true, false, ◌&&◌, ◌||◌, if◌then◌else◌, Option, none, some,
  List, [], ◌∷◌, ltb, leb, ◌==◌, ℤ, pos, negsuc, neg,
}
use rcrpc.Cli.Shell.{skip_spaces}

-- The value of a digit in any base up to 36.
unfoldable pub digit_value : ℕ → Option ℕ
digit_value c =
    if leb b'0' c && leb c b'9'
    then some (c - b'0')
    else if leb b'a' c && leb c b'z'
    then some (c - b'a' + 10)
    else if leb b'A' c && leb c b'Z'
    then some (c - b'A' + 10)
    else none

unfoldable pub digit_of : ℕ → ℕ → Option ℕ
unfolding digit_value
digit_of base c = elim (digit_value c) [
  | none ↦ none
  | some d ↦ if ltb d base then some d else none
]

-- The number that the leading digits make, behind those already read.
unfoldable pub more_digits : ℕ → ℕ → List ℕ → ℕ
unfolding digit_of
more_digits base acc [] = acc
more_digits base acc (c ∷ cs) = elim (digit_of base c) [
  | none ↦ acc
  | some d ↦ more_digits base (acc * base + d) cs
]

-- `none` if there is no digit.
unfoldable pub scan_digits : ℕ → List ℕ → Option ℕ
unfolding digit_of more_digits
scan_digits base [] = none
scan_digits base (c ∷ cs) = elim (digit_of base c) [
  | none ↦ none
  | some d ↦ some (more_digits base d cs)
]

-- The base 0 leaves the base to a prefix 0x or 0; a 0x without a digit behind it is the digit 0.
unfoldable pub scan_number : ℕ → List ℕ → Option ℕ
unfolding scan_digits
scan_number base [] = none
scan_number base (c ∷ []) = scan_digits (if base == 0 then 10 else base) (c ∷ [])
scan_number base (c ∷ x ∷ cs) =
    if base == 0
    then if c == b'0'
      then if x == b'x' || x == b'X'
        then elim (scan_digits 16 cs) [ none ↦ some 0 | some n ↦ some n ]
        else scan_digits 8 (c ∷ x ∷ cs)
      else scan_digits 10 (c ∷ x ∷ cs)
    else scan_digits base (c ∷ x ∷ cs)

-- An optional sign, and the text behind it.
unfoldable pub take_sign : List ℕ → Bool × List ℕ
take_sign [] = (false, [])
take_sign (c ∷ cs) =
    if c == b'-' then (true, cs) else if c == b'+' then (false, cs) else (false, c ∷ cs)

-- The value of strtoul, and whether `end` moved: a number was there.
unfoldable pub strtoul : ℕ → List ℕ → ℕ × Bool
unfolding take_sign scan_number
strtoul base s =
    let (negative, digits) = take_sign (skip_spaces s) in
    elim (scan_number base digits) [
      | none ↦ (0, false)
      | some n ↦ (
        if ltb n (2 ^ 64) then if negative then (2 ^ 64 - n) % 2 ^ 64 else n else 2 ^ 64 - 1,
        true,
      )
    ]

-- atol is strtol with base 10.
unfoldable pub atol : List ℕ → ℤ
unfolding take_sign scan_number
atol s =
    let (negative, digits) = take_sign (skip_spaces s) in
    elim (scan_number 10 digits) [
      | none ↦ pos 0
      | some n ↦
          if negative
          then if leb n (2 ^ 63) then neg n else neg (2 ^ 63)
          else if ltb n (2 ^ 63)
          then pos n
          else pos (2 ^ 63 - 1)
    ]

-- 32 bits read as a signed number, and the conversion of a `long` to them.
abbrev pub signed_32 : ℕ → ℤ
signed_32 m = if ltb m (2 ^ 31) then pos m else negsuc (2 ^ 32 - 1 - m)

unfoldable pub to_int32 : ℤ → ℤ
to_int32 (pos n) = signed_32 (n % 2 ^ 32)
to_int32 (negsuc n) = signed_32 (2 ^ 32 - 1 - n % 2 ^ 32)
