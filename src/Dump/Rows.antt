-- ===== src/Dump/Rows.antt =====
-- print_hex_dump against a definition that walks through the bytes instead of indices.
use rcrpc.Base.{
  ℕ, zero, suc, ◌+◌, ◌≤◌, ◌<◌, ◌≡◌, refl, ap, ◌∙◌, arith, inl, inr, Bool, if◌then◌else◌, Bool-cases,
  some, List, [], ◌∷◌, ◌++◌, ltb, length, get_or, drop, take, drop_same, drop-drop,
}
use rcrpc.Names.Tables.{codes}
use rcrpc.Net.Transfer.{hex_byte}
use rcrpc.Dump.Hex.{
  PrefixType, prefix_text, separator, is_print, hex_cells, ascii_cells, dump_row, dump_rows,
  print_hex_dump,
}

-- A row of `n` bytes, and blanks for what is missing.
abbrev pub hex_row : ℕ → ℕ → List ℕ → List ℕ
hex_row i zero xs = []
hex_row i (suc n) [] = separator i ++ (codes "  " ++ hex_row (suc i) n [])
hex_row i (suc n) (x ∷ xs) = separator i ++ (hex_byte x ++ hex_row (suc i) n xs)

abbrev pub ascii_row : ℕ → List ℕ → List ℕ
ascii_row zero xs = []
ascii_row (suc n) [] = b' ' ∷ ascii_row n []
ascii_row (suc n) (x ∷ xs) = (if is_print x then x else b'.') ∷ ascii_row n xs

abbrev pub row_of : PrefixType → List ℕ → ℕ → ℕ → List ℕ → List ℕ
row_of type prefix rowsize j xs =
    prefix_text type prefix j
    ++ (hex_row 0 rowsize xs ++ (codes " | " ++ (ascii_row rowsize xs ++ codes " |\n")))

-- The rows of the bytes from the offset `j` on, at most `n` of them.
abbrev pub rows_of : PrefixType → List ℕ → ℕ → ℕ → ℕ → List ℕ → List ℕ
rows_of type prefix rowsize zero j xs = []
rows_of type prefix rowsize (suc n) j [] = []
rows_of type prefix rowsize (suc n) j (x ∷ xs) =
    row_of type prefix rowsize j (x ∷ xs)
    ++ rows_of type prefix rowsize n (j + rowsize) (drop rowsize (x ∷ xs))

drop-take_below :
    (buf : List ℕ) (len k : ℕ)
    → k < len
    → len ≤ length buf
    → drop k (take len buf) ≡ get_or buf k 0 ∷ drop (suc k) (take len buf)
drop-take_below [] zero k h b = elim h [ ]
drop-take_below [] (suc len) k h b = elim b [ ]
drop-take_below (c ∷ cs) zero k h b = elim h [ ]
drop-take_below (c ∷ cs) (suc len) zero h b = refl
drop-take_below (c ∷ cs) (suc len) (suc k) h b =
    drop-take_below cs len k (omega arith) (omega arith)

drop-take_above : (buf : List ℕ) (len k : ℕ) → len ≤ k → drop k (take len buf) ≡ []
drop-take_above buf zero zero h = refl
drop-take_above buf zero (suc k) h = refl
drop-take_above buf (suc len) zero h = elim h [ ]
drop-take_above [] (suc len) (suc k) h = refl
drop-take_above (c ∷ cs) (suc len) (suc k) h = drop-take_above cs len k (omega arith)

rows_step :
    (type : PrefixType) (prefix : List ℕ) (rowsize n j y : ℕ) (ys xs : List ℕ)
    → xs ≡ y ∷ ys
    → rows_of type prefix rowsize (suc n) j xs
      ≡ row_of type prefix rowsize j xs
        ++ rows_of type prefix rowsize n (j + rowsize) (drop rowsize xs)
rows_step type prefix rowsize n j y ys xs e = rw e refl

module _ (buf : List ℕ) (len : ℕ) (whole : len ≤ length buf) where
  next_at : (j i : ℕ) → drop (j + suc i) (take len buf) ≡ drop (suc (j + i)) (take len buf)
  next_at j i = drop_same {b = suc (j + i)} (take len buf) (omega arith)

  hex_cells-row : (j i n : ℕ) → hex_cells buf len j i n ≡ hex_row i n (drop (j + i) (take len buf))
  unfolding hex_cells
  hex_cells-row j i zero = refl
  hex_cells-row j i (suc n) = elim (Bool-cases (ltb (j + i) len)) [
    | inl low ↦
        rw (low, drop-take_below buf len (j + i) (ground arith) whole)
          (ap (λ t. separator i ++ (hex_byte (get_or buf (j + i) 0) ++ t))
            (hex_cells-row j (suc i) n ∙ ap (hex_row (suc i) n) (next_at j i)))
    | inr high ↦
        rw (high, drop-take_above buf len (j + i) (ground arith))
          (ap (λ t. separator i ++ (codes "  " ++ t))
            (hex_cells-row j (suc i) n
              ∙ ap (hex_row (suc i) n) (drop-take_above buf len (j + suc i) (ground arith))))
  ]

  ascii_cells-row :
      (j i n : ℕ) → ascii_cells buf len j i n ≡ ascii_row n (drop (j + i) (take len buf))
  unfolding ascii_cells
  ascii_cells-row j i zero = refl
  ascii_cells-row j i (suc n) = elim (Bool-cases (ltb (j + i) len)) [
    | inl low ↦
        rw (low, drop-take_below buf len (j + i) (ground arith) whole)
          (ap (λ t. (if is_print (get_or buf (j + i) 0) then get_or buf (j + i) 0 else b'.') ∷ t)
            (ascii_cells-row j (suc i) n ∙ ap (ascii_row n) (next_at j i)))
    | inr high ↦
        rw (high, drop-take_above buf len (j + i) (ground arith))
          (ap (λ t. b' ' ∷ t)
            (ascii_cells-row j (suc i) n
              ∙ ap (ascii_row n) (drop-take_above buf len (j + suc i) (ground arith))))
  ]

  module _ (type : PrefixType) (prefix : List ℕ) (rowsize : ℕ) where
    dump_row-row :
        (j : ℕ)
        → dump_row type prefix rowsize buf len j
          ≡ row_of type prefix rowsize j (drop j (take len buf))
    unfolding dump_row
    dump_row-row j =
        rw (hex_cells-row j 0 rowsize, ascii_cells-row j 0 rowsize)
          (ap (row_of type prefix rowsize j) (drop_same (take len buf) (omega arith)))

    dump_rows-rows :
        (j fuel : ℕ)
        → 0 < rowsize
        → len ≤ j + fuel
        → dump_rows type prefix rowsize buf len j fuel
          ≡ some (rows_of type prefix rowsize fuel j (drop j (take len buf)))
    unfolding dump_rows
    dump_rows-rows j zero r h = ground arith
    dump_rows-rows j (suc fuel) r h = elim (Bool-cases (ltb j len)) [
      | inl low ↦
          rw
            (
              low,
              dump_rows-rows (j + rowsize) fuel r (omega arith),
              dump_row-row j,
              rows_step type prefix rowsize fuel j _ _ _
                  (drop-take_below buf len j (ground arith) whole),
              drop-drop rowsize j (take len buf),
            )
            refl
      | inr high ↦ rw (high, drop-take_above buf len j (ground arith)) refl
    ]

-- With rows of one byte or more, and a memory that holds `len` bytes, print_hex_dump ends and prints
-- the rows of these bytes, one after the other, as `rows_of` writes them.
pub print_hex_dump-rows_of :
    (type : PrefixType) (prefix : List ℕ) (rowsize groupsize : ℕ) (ascii : Bool) (buf : List ℕ)
    (len : ℕ)
    → 0 < rowsize
    → len ≤ length buf
    → print_hex_dump type prefix rowsize groupsize ascii buf len
      ≡ some (rows_of type prefix rowsize len 0 (take len buf))
unfolding print_hex_dump
print_hex_dump-rows_of type prefix rowsize groupsize ascii buf len r b =
    ground (arith, dump_rows-rows buf len b type prefix rowsize 0 len r (omega arith))
