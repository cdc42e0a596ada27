-- ===== src/Dump/ReadBack.antt =====
-- Reading a text of print_hex_dump back.
use rcrpc.Base.{
  ℕ, zero, suc, ◌+◌, ◌*◌, ◌/◌, ◌%◌, ◌^◌, ◌≤◌, ◌<◌, ◌≡◌, refl, sym, ap, ◌∙◌, arith, Bool, true, none,
  some, List, [], ◌∷◌, ◌++◌, append_assoc, length, length-append, ltb, drop, take, All, drop-empty,
  drop-length, take-drop, length-drop, length-take_le,
}
use rcrpc.Names.Tables.{codes}
use rcrpc.Net.Transfer.{hex_digit, hex_byte}
use rcrpc.Commands.Numbers.{digit_value, digit_of}
use rcrpc.Dump.Hex.{prefix_offset, prefix_text, offset_text, separator, hex_pad, print_hex_dump}
use rcrpc.Dump.Rows.{hex_row, ascii_row, row_of, rows_of, print_hex_dump-rows_of}

-- The bytes of `n` cells of two digits and a separator, and the text behind them; a cell that is no
-- number has no byte.
abbrev pub read_cells : ℕ → List ℕ → List ℕ × List ℕ
read_cells zero t = ([], t)
read_cells (suc n) (a ∷ b ∷ c ∷ t) =
    let (bytes, rest) = read_cells n t in
    (
      elim (digit_of 16 a) [
        | none ↦ bytes
        | some h ↦ elim (digit_of 16 b) [ none ↦ bytes | some l ↦ (h * 16 + l) ∷ bytes ]
      ],
      rest,
    )
read_cells (suc n) _ = ([], [])

-- The bytes of at most `fuel` rows with `skip` bytes of prefix and `n` cells. Behind the cells are the
-- text of the row with its two bars, and the end of the line.
abbrev pub read_dump : ℕ → ℕ → ℕ → List ℕ → List ℕ
read_dump zero skip n t = []
read_dump (suc fuel) skip n t =
    let (bytes, rest) = read_cells n (drop skip t) in
    bytes ++ read_dump fuel skip n (drop (n + 5) rest)

-- A row with the separators behind the cells.
abbrev hex_body : ℕ → List ℕ → List ℕ
hex_body zero xs = []
hex_body (suc n) [] = b' ' ∷ b' ' ∷ b' ' ∷ hex_body n []
hex_body (suc n) (x ∷ xs) = hex_digit (x / 16) ∷ hex_digit (x % 16) ∷ b' ' ∷ hex_body n xs

separator-suc : (i : ℕ) → separator (suc i) ≡ codes " "
separator-suc i = ground arith

hex_row-body :
    (i n : ℕ) (xs t : List ℕ) → hex_row (suc i) n xs ++ b' ' ∷ t ≡ b' ' ∷ (hex_body n xs ++ t)
unfolding hex_byte
hex_row-body i zero xs t = refl
hex_row-body i (suc n) [] t =
    rw (separator-suc i) (ap (λ u. b' ' ∷ b' ' ∷ b' ' ∷ u) (hex_row-body (suc i) n [] t))
hex_row-body i (suc n) (x ∷ xs) t =
    rw (separator-suc i)
      (ap (λ u. b' ' ∷ hex_digit (x / 16) ∷ hex_digit (x % 16) ∷ u) (hex_row-body (suc i) n xs t))

first_row-body : (n : ℕ) (xs t : List ℕ) → 0 < n → hex_row 0 n xs ++ b' ' ∷ t ≡ hex_body n xs ++ t
unfolding hex_byte
first_row-body zero xs t h = elim h [ ]
first_row-body (suc n) [] t h = ap (λ u. b' ' ∷ b' ' ∷ u) (hex_row-body 0 n [] t)
first_row-body (suc n) (x ∷ xs) t h =
    ap (λ u. hex_digit (x / 16) ∷ hex_digit (x % 16) ∷ u) (hex_row-body 0 n xs t)

digit_of-hex_digit : (d : ℕ) → d < 16 → digit_of 16 (hex_digit d) ≡ some d
unfolding digit_of digit_value hex_digit
digit_of-hex_digit d h = ground arith

abbrev pub Bytes : List ℕ → Type 0
Bytes xs = All (λ b. b < 256) xs

blank_cells : (n : ℕ) (t : List ℕ) → read_cells n (hex_body n [] ++ t) ≡ ([], t)
unfolding digit_of digit_value
blank_cells zero t = refl
blank_cells (suc n) t = rw (blank_cells n t) refl

read_cells-body :
    (n : ℕ) (xs t : List ℕ) → Bytes xs → read_cells n (hex_body n xs ++ t) ≡ (take n xs, t)
read_cells-body zero xs t h = refl
read_cells-body (suc n) [] t h = blank_cells (suc n) t
read_cells-body (suc n) (x ∷ xs) t (b, h) =
    rw
      (
        digit_of-hex_digit (x / 16) (omega arith),
        digit_of-hex_digit (x % 16) (omega arith),
        read_cells-body n xs t h,
      )
      (ap (λ (k : ℕ). (k ∷ take n xs, t)) (omega arith))

drop-Bytes : (n : ℕ) (xs : List ℕ) → Bytes xs → Bytes (drop n xs)
drop-Bytes zero xs h = h
drop-Bytes (suc n) [] h = h
drop-Bytes (suc n) (x ∷ xs) (b, h) = drop-Bytes n xs h

length-ascii_row : (n : ℕ) (xs : List ℕ) → length (ascii_row n xs) ≡ n
length-ascii_row zero xs = refl
length-ascii_row (suc n) [] = ap suc (length-ascii_row n [])
length-ascii_row (suc n) (x ∷ xs) = ap suc (length-ascii_row n xs)

length-hex_pad : (w n : ℕ) → length (hex_pad w n) ≡ w
length-hex_pad zero n = refl
length-hex_pad (suc w) n =
    omega (
      arith,
      length-append (hex_pad w (n / 16)) (hex_digit (n % 16) ∷ []),
      length-hex_pad w (n / 16),
    )

below : (a b : ℕ) → a < b → ltb a b ≡ true
below a b h = ground arith

length-offset_text : (j : ℕ) → j < 2 ^ 32 → length (offset_text j) ≡ 8
length-offset_text j h = rw (below j (2 ^ 32) h) (length-hex_pad 8 j)

length-prefix_text :
    (prefix : List ℕ) (j : ℕ)
    → j < 2 ^ 32
    → length (prefix_text prefix_offset prefix j) ≡ length prefix + 10
length-prefix_text prefix j h = omega (
  arith,
  length-append prefix (offset_text j ++ codes ": "),
  length-append (offset_text j) (codes ": "),
  length-offset_text j h,
)

-- The rest of a row behind its cells and one separator.
abbrev tail_of : ℕ → List ℕ → List ℕ
tail_of n xs = b'|' ∷ b' ' ∷ (ascii_row n xs ++ codes " |\n")

length-tail_of : (n : ℕ) (xs : List ℕ) → length (tail_of n xs) ≡ n + 5
length-tail_of n xs =
    omega (arith, length-append (ascii_row n xs) (codes " |\n"), length-ascii_row n xs)

read_row :
    (prefix : List ℕ) (n j : ℕ) (xs more : List ℕ)
    → 0 < n
    → j < 2 ^ 32
    → Bytes xs
    → read_cells n (drop (length prefix + 10) (row_of prefix_offset prefix n j xs ++ more))
      ≡ (take n xs, tail_of n xs ++ more)
read_row prefix n j xs more r o b =
    ap (read_cells n) (
      rw (sym (length-prefix_text prefix j o)) (
        ap (drop (length (prefix_text prefix_offset prefix j)))
          (append_assoc (prefix_text prefix_offset prefix j) _ more)
        ∙ drop-length (prefix_text prefix_offset prefix j) _
        ∙ append_assoc (hex_row 0 n xs) _ more
        ∙ first_row-body n xs (tail_of n xs ++ more) r))
    ∙ read_cells-body n xs (tail_of n xs ++ more) b

read_nothing : (fuel skip n : ℕ) → read_dump fuel skip (suc n) [] ≡ []
read_nothing zero skip n = refl
read_nothing (suc fuel) skip n =
    rw (drop-empty skip)
      (ap (read_dump fuel skip (suc n)) (drop-empty (suc n + 5)) ∙ read_nothing fuel skip n)

rows_read :
    (prefix : List ℕ) (n fuel j : ℕ) (xs : List ℕ)
    → length xs ≤ fuel
    → (0 < length xs → j + length xs ≤ 2 ^ 32)
    → Bytes xs
    → read_dump fuel (length prefix + 10) (suc n) (rows_of prefix_offset prefix (suc n) fuel j xs)
      ≡ xs
rows_read prefix n zero j [] f o b = refl
rows_read prefix n zero j (x ∷ xs) f o b = elim f [ ]
rows_read prefix n (suc fuel) j [] f o b = read_nothing (suc fuel) (length prefix + 10) n
rows_read prefix n (suc fuel) j (x ∷ xs) f o b =
    rw
      (
        read_row prefix (suc n) j (x ∷ xs)
            (rows_of prefix_offset prefix (suc n) fuel (j + suc n) (drop (suc n) (x ∷ xs)))
            (omega arith) (omega (arith, o (omega arith))) b,
        ap
            (λ (k : ℕ). drop k (
              tail_of (suc n) (x ∷ xs)
              ++ rows_of prefix_offset prefix (suc n) fuel (j + suc n) (drop (suc n) (x ∷ xs))))
            (sym (length-tail_of (suc n) (x ∷ xs))),
        drop-length (tail_of (suc n) (x ∷ xs))
            (rows_of prefix_offset prefix (suc n) fuel (j + suc n) (drop (suc n) (x ∷ xs))),
        rows_read prefix n fuel (j + suc n) (drop n xs) (omega (arith, length-drop n xs))
            (λ p. omega (arith, o (omega arith), length-drop n xs)) (drop-Bytes (suc n) (x ∷ xs) b),
      )
      (take-drop (suc n) (x ∷ xs))

-- What print_hex_dump prints with offsets, in rows of one byte or more, of at most 2^32 bytes, reads
-- back as the bytes that it was given: the cells of a row, as many as the row has, behind a prefix of
-- the same length everywhere.
pub read_dump-print_hex_dump :
    (prefix : List ℕ) (rowsize groupsize : ℕ) (ascii : Bool) (buf : List ℕ) (len : ℕ)
    → 0 < rowsize
    → len ≤ length buf
    → len ≤ 2 ^ 32
    → Bytes (take len buf)
    → (text : List ℕ) × (print_hex_dump prefix_offset prefix rowsize groupsize ascii buf len
        ≡ some text)
      × (read_dump len (length prefix + 10) rowsize text ≡ take len buf)
read_dump-print_hex_dump prefix zero groupsize ascii buf len r w l b = elim r [ ]
read_dump-print_hex_dump prefix (suc n) groupsize ascii buf len r w l b = (
  _,
  print_hex_dump-rows_of prefix_offset prefix (suc n) groupsize ascii buf len r w,
  rows_read prefix n len 0 (take len buf) (length-take_le len buf)
      (λ p. omega (arith, length-take_le len buf)) b,
)
