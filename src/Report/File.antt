-- ===== src/Report/File.antt =====
-- The file that start of src/tools/all_report/all_month_report.cpp writes, from the rows of its own
-- query to the rows of the sheet.
use asio_coro_frame.Base.{List, [], ◌∷◌, map, Option, some, get_elem?}
use asio_coro_frame.Report.Excel.{Call, add_cell_string, add_cell_float}
use asio_coro_frame.Report.Passed.{Source}

module _ {W : Type 0} where
  -- the cells under Quotation_NO., Qty(PCS), Power(Wp), Unit_price, Guidance_Price, Total_Price,
  -- Guided_Total_Price and Quotation_Date
  abbrev pub read_cells : List (Call W) → List (Option (Call W))
  read_cells cells = map (get_elem? cells) (0 ∷ 11 ∷ 12 ∷ 14 ∷ 16 ∷ 17 ∷ 18 ∷ 20 ∷ [])

  abbrev cells_of : Source W → List (Option (Call W))
  cells_of r =
      some (add_cell_string r.quotation_no)
      ∷ some (add_cell_float r.product_qty_pc)
      ∷ some (add_cell_float r.product_qty_w)
      ∷ some (add_cell_float r.unit_price)
      ∷ some (add_cell_float r.guidance_price)
      ∷ some (add_cell_float r.price_total)
      ∷ some (add_cell_float r.total_guidance_price)
      ∷ some (add_cell_string r.creat_at)
      ∷ []
