-- ===== src/Interfaces/Route/Table.antt =====
-- The routing table as the kernel prints it, and the route that the search finds in it.
use smart_ac.Base.{
  ℕ, zero, suc, ◌+◌, ◌≤◌, ◌<◌, ◌≡◌, refl, ap, sym, ◌∙◌, Bool, true, false, Option, none, some, List,
  [], ◌∷◌, ◌++◌, Bytes, if◌then◌else◌, length, arith,
}
use smart_ac.Cstring.{equal, codes}
use smart_ac.Cstring.Number.{skip_spaces}
use smart_ac.Interfaces.Route.{
  scan_word, skip_words, second_word, first_word, scan_line, found_or, at_end, table_loop,
  find_default,
}
use smart_ac.Outcome.{Outcome, ok}
use smart_ac.Interfaces.Route.Columns.{
  Column, IsColumn, word, print_column, print_columns, AreColumns, skip_spaces-column,
  behind_column, scan_word-column, skip_words-columns, length-print_column, length-print_columns,
}

-- A line of the table: the interface, the destination and nine more columns, the last with the line's
-- end behind it.
pub record Row : Type 0 where
  pub device : Column
  pub destination : Column
  pub columns : List Column

pub record IsRow (r : Row) : Type 0 where
  pub device_column : IsColumn r.device
  pub destination_column : IsColumn r.destination
  pub other_columns : AreColumns r.columns
  pub nine : length r.columns ≡ 9
  pub device_fits : length (word r.device) ≤ 15
  pub destination_fits : length (word r.destination) ≤ 15

abbrev pub print_rows : List Row → Bytes
print_rows [] = []
print_rows (r ∷ rs) =
    print_column r.device (print_column r.destination (print_columns r.columns (print_rows rs)))

abbrev pub AreRows : List Row → Type 0
AreRows [] = Unit
AreRows (r ∷ rs) = IsRow r × AreRows rs

-- The interface of the first row whose destination is 0.0.0.0.
abbrev pub first_default : List Row → Option Bytes
first_default [] = none
first_default (r ∷ rs) =
    if equal (word r.destination) (codes "00000000") then some (word r.device) else first_default rs

skip_spaces-rows : (rs : List Row) → AreRows rs → skip_spaces (print_rows rs) ≡ print_rows rs
skip_spaces-rows [] are = unfold skip_spaces in refl
skip_spaces-rows (r ∷ rs) (is, are) = skip_spaces-column r.device is.device_column _

scan_line-row :
    (r : Row) (rs : List Row)
    → IsRow r
    → AreRows rs
    → scan_line (print_rows (r ∷ rs)) ≡ (some (word r.device, word r.destination), print_rows rs)
unfolding scan_line
scan_line-row r rs is are =
    let columns = print_columns r.columns (print_rows rs) in
    let second = print_column r.destination columns in
    let nine : 9 ≡ length r.columns = sym is.nine in
    ap first_word (
      scan_word-column r.device is.device_column second (print_rows (r ∷ rs))
        (skip_spaces-column r.device is.device_column second) is.device_fits)
    ∙ ap (second_word (word r.device)) (
        scan_word-column r.destination is.destination_column columns _
          (behind_column r.device is.device_column second
            ∙ skip_spaces-column r.destination is.destination_column columns)
          is.destination_fits)
    ∙ ap
        (λ n. (
          some (word r.device, word r.destination),
          skip_spaces (skip_words n (r.destination.gap ∷ (r.destination.gaps ++ columns))),
        ))
        nine
    ∙ ap (λ t. (some (word r.device, word r.destination), t))
        (skip_words-columns r.columns _ (print_rows rs) is.other_columns
            (behind_column r.destination is.destination_column columns)
          ∙ skip_spaces-rows rs are)

row_or_rest :
    (b : Bool) (device : Bytes) (rs : List Row) (rest : Outcome (Option Bytes))
    → rest ≡ ok (first_default rs)
    → found_or (if b then some device else none) (at_end (print_rows rs) rest)
      ≡ ok (if b then some device else first_default rs)
row_or_rest true device rs rest e = refl
row_or_rest false device [] rest e = refl
row_or_rest false device (r ∷ rs) rest e = e

table_loop-rows :
    (fuel : ℕ) (rs : List Row)
    → AreRows rs
    → length rs < fuel
    → table_loop fuel (print_rows rs) ≡ ok (first_default rs)
unfolding table_loop
table_loop-rows zero rs are lt = absurd (omega arith)
table_loop-rows (suc fuel) [] are lt = unfold scan_line scan_word skip_spaces in refl
table_loop-rows (suc fuel) (r ∷ rs) (is, are) lt = rw (scan_line-row r rs is are) (
    row_or_rest (equal (word r.destination) (codes "00000000")) (word r.device) rs _
      (table_loop-rows fuel rs are (omega arith)))

length-print_rows : (rs : List Row) → length rs ≤ length (print_rows rs)
length-print_rows [] = omega arith
length-print_rows (r ∷ rs) =
    let columns = print_columns r.columns (print_rows rs) in
    omega (
      arith,
      length-print_rows rs,
      length-print_columns r.columns (print_rows rs),
      length-print_column r.destination columns,
      length-print_column r.device (print_column r.destination columns),
    )

-- In a routing table of rows of eleven columns, each with white space behind it, whose first two have at
-- most 15 bytes, the search finds the interface of the first row whose second column is 00000000, and
-- none where there is no such row.
pub find_default-rows :
    (rs : List Row) → AreRows rs → find_default (print_rows rs) ≡ ok (first_default rs)
unfolding find_default
find_default-rows rs are =
    table_loop-rows (length (print_rows rs) + 1) rs are (omega (arith, length-print_rows rs))
