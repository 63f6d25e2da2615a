-- ===== src/Attendance/Writer/Lines.antt =====
-- The table in the file that src/tools/work_attendance/attendance.cpp writes.
use asio_coro_frame.Base.{
  suc, ◌≡◌, refl, ◌∙◌, sym, ap, List, [], ◌∷◌, ◌++◌, Text, All, append_assoc, append-nil, lit,
  length, drop, arith,
}
use asio_coro_frame.Base.Numbers.{ℤ}
use asio_coro_frame.Attendance.{Attendance}
use asio_coro_frame.Attendance.Writer.{
  string_to_datetime, without_last, write_two_line, write_rows, write_to_excel, attendance_columns,
}
use asio_coro_frame.Report.Excel.{
  Call, emit, add_columns, add_cell_string, add_cell_datetime, next_row, put_cells, set_row_height,
}
use asio_coro_frame.Report.Excel.Table.{sheet, columns, sheet-row, put_cells-append}

-- a row of a record: `mark` is 0 where the time is of coming and 1 where it is of going
abbrev pub clock_row : Attendance → ℤ → Text → Text → List (Call (Unit {0}))
clock_row x tt time mark =
    add_cell_string x.group
    ∷ add_cell_string x.id
    ∷ add_cell_string x.name
    ∷ add_cell_datetime tt
    ∷ add_cell_string time
    ∷ add_cell_string mark
    ∷ []

module _ (mktime : ℤ → ℤ → ℤ → ℤ) (unset : ℤ) where
  abbrev pub day_of : Attendance → ℤ
  day_of x = string_to_datetime mktime unset (without_last mktime unset x.dates)

  -- the rows of the records, two for each
  abbrev pub clock_rows : List Attendance → List (List (Call (Unit {0})))
  clock_rows [] = []
  clock_rows (x ∷ xs) =
      clock_row x (day_of x) x.on_duty (lit "0")
      ∷ clock_row x (day_of x) x.off_duty (lit "1")
      ∷ clock_rows xs

  abbrev row_calls : List (List (Call (Unit {0}))) → List (Call (Unit {0}))
  row_calls [] = []
  row_calls (cells ∷ rows) = cells ++ next_row ∷ row_calls rows

  put_line :
      (cells calls rest : List (Call (Unit {0})))
      → emit next_row (put_cells cells calls) ++ rest ≡ calls ++ (cells ++ next_row ∷ rest)
  unfolding emit
  put_line cells calls rest =
      ap (λ (t : List (Call (Unit {0}))). (t ++ next_row ∷ []) ++ rest)
        (put_cells-append cells calls)
      ∙ append_assoc (calls ++ cells) (next_row ∷ []) rest
      ∙ append_assoc calls cells (next_row ∷ rest)

  write_rows-append :
      (xs : List Attendance) (calls : List (Call (Unit {0})))
      → write_rows mktime unset xs calls ≡ calls ++ row_calls (clock_rows xs)
  unfolding write_rows write_two_line
  write_rows-append [] calls = sym (append-nil calls)
  write_rows-append (x ∷ xs) calls =
      let on = clock_row x (day_of x) x.on_duty (lit "0") in
      let off = clock_row x (day_of x) x.off_duty (lit "1") in
      let after : List (Call (Unit {0})) = emit next_row (put_cells on calls) in
      write_rows-append xs (emit next_row (put_cells off after))
      ∙ put_line off after (row_calls (clock_rows xs))
      ∙ put_line on calls (off ++ next_row ∷ row_calls (clock_rows xs))

  clock_row-sheet :
      (x : Attendance) (time mark : Text) (calls : List (Call (Unit {0})))
      → sheet (clock_row x (day_of x) time mark ++ next_row ∷ calls)
        ≡ clock_row x (day_of x) time mark ∷ sheet calls
  clock_row-sheet x time mark calls =
      sheet-row (clock_row x (day_of x) time mark) calls (ground arith)

  sheet-rows :
      (xs : List Attendance)
      → sheet (row_calls (clock_rows xs) ++ next_row ∷ []) ≡ clock_rows xs ++ [] ∷ []
  unfolding sheet
  sheet-rows [] = refl
  sheet-rows (x ∷ xs) =
      clock_row-sheet x x.on_duty (lit "0") (
        clock_row x (day_of x) x.off_duty (lit "1")
        ++ next_row ∷ (row_calls (clock_rows xs) ++ next_row ∷ []))
      ∙ ap (λ (t : List (List (Call (Unit {0})))). clock_row x (day_of x) x.on_duty (lit "0") ∷ t)
          (clock_row-sheet x x.off_duty (lit "1") (row_calls (clock_rows xs) ++ next_row ∷ [])
            ∙ ap
                (λ (t : List (List (Call (Unit {0})))).
                  clock_row x (day_of x) x.off_duty (lit "1") ∷ t)
                (sheet-rows xs))

  widths :
      (xs : List Attendance)
      → All
          (λ (cells : List (Call (Unit {0}))). length cells ≡ suc (length attendance_columns))
          (clock_rows xs)
  unfolding attendance_columns
  widths [] = tt
  widths (x ∷ xs) = (refl, (refl, widths xs))

  -- The sheet has the row of the five column names, for each record after the first two rows, with the
  -- time of coming and `0` and with the time of going and `1`, and an empty row at the end. The rows
  -- of records have one cell more than there are column names.
  pub write_to_excel-rows :
      (xs : List Attendance)
      → (sheet (write_to_excel mktime unset xs)
          ≡ columns attendance_columns ∷ (clock_rows (drop 1 xs) ++ [] ∷ []))
        × All
            (λ (cells : List (Call (Unit {0}))). length cells ≡ suc (length attendance_columns))
            (clock_rows (drop 1 xs))
  unfolding write_to_excel sheet emit attendance_columns add_columns
  write_to_excel-rows xs = (
    ap (λ (t : List (Call (Unit {0}))). sheet (t ++ next_row ∷ []))
          (write_rows-append (drop 1 xs)
            (emit next_row (add_columns attendance_columns (emit (set_row_height 1) []))))
        ∙ ap (λ (t : List (List (Call (Unit {0})))). columns attendance_columns ∷ t)
            (sheet-rows (drop 1 xs)),
    widths (drop 1 xs),
  )
