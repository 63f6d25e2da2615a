-- ===== src/Report/Sql.antt =====
-- The query texts of src/tools/all_report/all_month_report.cpp: a prefix, a key and a quote.
use asio_coro_frame.Base.{Text, String, List, [], ◌∷◌, ◌++◌, lit}

-- "…='" + id + "'"
unfoldable pub sql : String → Text → Text
unfolding lit
sql prefix id = lit prefix ++ (id ++ lit "'")

-- The lines of the source's literal after the first begin with a tab.
abbrev tab : Text → Text
tab s = 9 ∷ s

join : List Text → Text
join [] = []
join (s ∷ ss) = s ++ join ss

-- the query of `start`
unfoldable pub report_sql : Text
unfolding join lit
report_sql = join (
    lit "SELECT"
    ∷ tab (lit "t_quotation.quotation_id as quotation_id,")
    ∷ tab (lit "t_quotation_detail.quotation_detail_id as quotation_detail_id,")
    ∷ tab (lit "t_quotation.quotation_no as quotation_no,")
    ∷ tab (lit "t_quotation_detail.quantity as product_qty_pc,")
    ∷ tab (lit "t_quotation_detail.ss_guidance_price as guidance_price,")
    ∷ tab (lit "t_quotation_detail.module_extend_prop as module_extend_prop,")
    ∷ tab (lit "t_quotation_detail.applied_unit_price as unit_price,")
    ∷ tab (lit "t_quotation.createAt as creat_at")
    ∷ tab (lit "FROM")
    ∷ tab (lit "t_quotation INNER JOIN")
    ∷ tab (lit "t_quotation_detail")
    ∷ tab (lit "on")
    ∷ tab (lit "t_quotation_detail.quotation_id = t_quotation.quotation_id")
    ∷ tab (
        lit
          "and t_quotation_detail.dr=0 and t_quotation.createAt >'2016-01-01 00:00:01' and t_quotation.createAt <'2016-12-31 23:59:59'")
    ∷ tab (lit "ORDER BY t_quotation.createAt")
    ∷ [])
