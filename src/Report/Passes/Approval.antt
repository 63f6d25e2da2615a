-- ===== src/Report/Passes/Approval.antt =====
-- deal_with_approved_status of src/tools/all_report/all_month_report.cpp.
use asio_coro_frame.Base.{Text, List, [], ◌∷◌, lit, text_eq, if◌then◌else◌}
use asio_coro_frame.Report.{Env}
use asio_coro_frame.Report.Action.{
  Action, ◌>>=◌, ◌>>◌, continue_loop, this_row, modify, fetch, get_string_at, no_value,
}
use asio_coro_frame.Report.Sql.{sql}

-- `m[status]`, which is empty where the map has no entry
unfoldable pub entry : Text → List (Text × Text) → Text
entry key [] = []
entry key ((k, v) ∷ m) = if text_eq k key then v else entry key m

unfoldable pub status_map : List (Text × Text)
status_map =
    (lit "0", lit "Pending")
    ∷ (lit "1", lit "Draft")
    ∷ (lit "2", lit "Submitted")
    ∷ (lit "3", lit "Approved")
    ∷ (lit "4", lit "Accepted")
    ∷ (lit "5", lit "Canceled")
    ∷ (lit "6", lit "Expired")
    ∷ (lit "7", lit "Rejected")
    ∷ (lit "8", lit "QU_Generated")
    ∷ (lit "9", lit "Refused")
    ∷ (lit "10", lit "PI_Generated")
    ∷ (lit "11", lit "Paying")
    ∷ (lit "12", lit "AR_Confirmed")
    ∷ (lit "13", lit "SO_Generated")
    ∷ []

unfoldable pub status_name : Text → Text
unfolding entry status_map
status_name status = entry status status_map

module _ {R W : Type 0} ⦃e : Env R W⦄ where
  unfoldable pub approved_status_body : Action R W (Unit {0})
  approved_status_body = do
    i ← this_row
    fetch (sql "select approval_status from t_quotation where quotation_id='" i.quotation_id)
    missing ← no_value (lit "approval_status")
    if missing then continue_loop else do
      status ← get_string_at 1
      modify (λ r. record r { approval_status = status_name status })
