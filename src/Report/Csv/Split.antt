-- ===== src/Report/Csv/Split.antt =====
-- Reading back a file of write_to_csv (src/tools/all_report/all_month_report.cpp).
use asio_coro_frame.Base.{
  ◌≡◌, refl, ◌∙◌, sym, ap, List, [], ◌∷◌, ◌++◌, Text, map, All, append_assoc, append-nil, arith,
}
use asio_coro_frame.Base.Tables.{split_table, joined, split_table-joined}
use asio_coro_frame.Base.Tables
use asio_coro_frame.Report.{ReportData}
use asio_coro_frame.Report.Csv.{commas, csv_values, csv_line, write_lines, write_to_csv}

-- the lines of a file, each of them the values between its commas
abbrev pub split_csv : Text → List (List Text)
split_csv = split_table 44

-- no comma and no end of line
abbrev pub IsPlain : Text → Type 0
IsPlain = Tables.IsPlain 44

commas-joined : (vs : List Text) → commas vs ≡ joined 44 vs
unfolding commas
commas-joined [] = refl
commas-joined (v ∷ []) = refl
commas-joined (v ∷ w ∷ ws) = ap (λ (t : Text). v ++ 44 ∷ t) (commas-joined (w ∷ ws))

-- The values of a line, its end and what follows.
split_csv-commas :
    (v : Text) (vs : List Text) (s : Text)
    → All IsPlain (v ∷ vs)
    → split_csv (commas (v ∷ vs) ++ (13 ∷ 10 ∷ s)) ≡ (v ∷ vs) ∷ split_csv s
unfolding split_table
split_csv-commas v vs s h =
    ap (λ (t : Text). split_csv (t ++ (13 ∷ 10 ∷ s))) (commas-joined (v ∷ vs))
    ∙ split_table-joined 44 v vs (13 ∷ 10 ∷ []) s (omega arith) (omega arith) h refl

module _ {W : Type 0} (print : W → Text) where
  -- the text of the lines, one after the other
  abbrev lines : List (ReportData W) → Text
  lines [] = []
  lines (x ∷ xs) = csv_line print x ++ lines xs

  write_lines-append :
      (xs : List (ReportData W)) (file : Text) → write_lines print xs file ≡ file ++ lines xs
  unfolding write_lines
  write_lines-append [] file = sym (append-nil file)
  write_lines-append (x ∷ xs) file =
      write_lines-append xs (file ++ csv_line print x)
      ∙ append_assoc file (csv_line print x) (lines xs)

  split_csv-lines :
      (xs : List (ReportData W))
      → All (λ r. All IsPlain (csv_values print r)) xs
      → split_csv (lines xs) ≡ map (csv_values print) xs
  unfolding csv_line csv_values split_table
  split_csv-lines [] h = refl
  split_csv-lines (x ∷ xs) h =
      ap split_csv (append_assoc (commas (csv_values print x)) (13 ∷ 10 ∷ []) (lines xs))
      ∙ split_csv-commas _ _ (lines xs) h.0
      ∙ ap (λ (t : List (List Text)). csv_values print x ∷ t) (split_csv-lines xs h.1)

  -- Where no value holds a comma or an end of line, the file reads back as one line of the values of
  -- csv_line for each line of the report, in order.
  pub write_to_csv-split :
      (rows : List (ReportData W))
      → All (λ r. All IsPlain (csv_values print r)) rows
      → split_csv (write_to_csv print rows) ≡ map (csv_values print) rows
  unfolding write_to_csv
  write_to_csv-split rows h = ap split_csv (write_lines-append rows []) ∙ split_csv-lines rows h
