-- ===== src/Dump/Hex.antt =====
-- bin/utils.c: print_hex_dump. The text that is printed is a list of bytes.
use rcrpc.Base.{
  ℕ, zero, suc, ◌+◌, ◌/◌, ◌%◌, ◌^◌, Bool, ◌&&◌, if◌then◌else◌, Option, none, some, List, [], ◌∷◌,
  ◌++◌, ltb, leb, ◌==◌, length, get_or,
}
use rcrpc.Names.Tables.{codes}
use rcrpc.Net.Transfer.{hex_digit, hex_byte}

-- The prefix of a row: the address, which the caller's memory decides, the offset, or nothing.
pub data PrefixType : Type 0 where
  prefix_none : PrefixType
  prefix_address : (ℕ → List ℕ) → PrefixType
  prefix_offset : PrefixType

-- The last `w` hexadecimal digits of a number.
abbrev pub hex_pad : ℕ → ℕ → List ℕ
hex_pad zero n = []
hex_pad (suc w) n = hex_pad w (n / 16) ++ hex_digit (n % 16) ∷ []

abbrev pub skip_zeros : List ℕ → List ℕ
skip_zeros [] = []
skip_zeros (c ∷ cs) = if c == b'0' then skip_zeros cs else c ∷ cs

-- The conversion %.8zx.
abbrev pub offset_text : ℕ → List ℕ
offset_text j = if ltb j (2 ^ 32) then hex_pad 8 j else skip_zeros (hex_pad 16 j)

abbrev pub prefix_text : PrefixType → List ℕ → ℕ → List ℕ
prefix_text prefix_none prefix j = prefix
prefix_text (prefix_address text) prefix j = prefix ++ (text j ++ codes ": ")
prefix_text prefix_offset prefix j = prefix ++ (offset_text j ++ codes ": ")

-- `i ? " " : ""`.
abbrev pub separator : ℕ → List ℕ
separator i = if i == 0 then [] else codes " "

-- `isprint` of ASCII.
abbrev pub is_print : ℕ → Bool
is_print c = leb 32 c && leb c 126

-- The two loops over a row, from `i` on with `n` rounds left.
unfoldable pub hex_cells : List ℕ → ℕ → ℕ → ℕ → ℕ → List ℕ
hex_cells buf len j i zero = []
hex_cells buf len j i (suc n) =
    separator i
    ++ ((if ltb (j + i) len then hex_byte (get_or buf (j + i) 0) else codes "  ")
        ++ hex_cells buf len j (suc i) n)

unfoldable pub ascii_cells : List ℕ → ℕ → ℕ → ℕ → ℕ → List ℕ
ascii_cells buf len j i zero = []
ascii_cells buf len j i (suc n) =
    (if ltb (j + i) len
      then if is_print (get_or buf (j + i) 0) then get_or buf (j + i) 0 else b'.'
      else b' ')
    ∷ ascii_cells buf len j (suc i) n

unfoldable pub dump_row : PrefixType → List ℕ → ℕ → List ℕ → ℕ → ℕ → List ℕ
unfolding hex_cells ascii_cells
dump_row type prefix rowsize buf len j =
    prefix_text type prefix j
    ++ (hex_cells buf len j 0 rowsize
        ++ (codes " | " ++ (ascii_cells buf len j 0 rowsize ++ codes " |\n")))

-- The loop over the rows on fuel; `none` says that the fuel ran out.
unfoldable pub dump_rows : PrefixType → List ℕ → ℕ → List ℕ → ℕ → ℕ → ℕ → Option (List ℕ)
unfolding dump_row
dump_rows type prefix rowsize buf len j zero = if ltb j len then none else some []
dump_rows type prefix rowsize buf len j (suc fuel) =
    let rest = dump_rows type prefix rowsize buf len (j + rowsize) fuel in
    if ltb j len
    then elim rest [
      | none ↦ none
      | some text ↦ some (dump_row type prefix rowsize buf len j ++ text)
    ]
    else some []

-- The size of the groups and the wish for a text are not looked at. `none` is a read beyond `buf`, or
-- rows without an end, since a row of one byte or more needs at most `len` rounds.
unfoldable pub print_hex_dump : PrefixType → List ℕ → ℕ → ℕ → Bool → List ℕ → ℕ → Option (List ℕ)
print_hex_dump type prefix rowsize groupsize ascii buf len =
    if leb len (length buf) then dump_rows type prefix rowsize buf len 0 len else none
