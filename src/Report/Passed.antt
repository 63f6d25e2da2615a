-- ===== src/Report/Passed.antt =====
-- What the `deal_with_…` passes of src/tools/all_report/all_month_report.cpp may do to a line.
pub mod Bodies
use asio_coro_frame.Base.{
  ◌≡◌, refl, sym, ap, ◌∙◌, ◌⊎◌, inl, inr, List, [], ◌∷◌, Option, none, some, Text, arith, All,
  Option-cases, lit,
}
use asio_coro_frame.Report.{ReportData, Env}
use asio_coro_frame.Report.Action.{modify, ◌>>=◌, ◌>>◌, get_string}
use asio_coro_frame.Report.Frame.{
  IsOrder, OnRow, OnRow-IsPreorder, OnRow-IsResFree, Keeps, Keeps-modify, keeps_rules,
}
use asio_coro_frame.Report.Run.{passes}
use asio_coro_frame.Report.Passes.{
  entry, status_map, status_name, sales_info_body, destination, import_area, customer_country,
  customer, customer_info_body, currency_body, currency_code, payment_method_body,
  product_info_body, product_names, trade_term_body, delivery_country, sales_account,
  sales_employee, sales_company, sales_country_body, approved_status_body, pi_body,
}

-- The columns that insert_data fills.
pub record Source (W : Type 0) : Type 0 where
  pub quotation_id : Text
  pub quotation_detail_id : Text
  pub quotation_no : Text
  pub product_qty_pc : W
  pub product_qty_w : W
  pub guidance_price : W
  pub total_guidance_price : W
  pub unit_price : W
  pub price_total : W
  pub creat_at : Text

abbrev pub source : {W : Type 0} → ReportData W → Source W
source r = record {
  quotation_id = r.quotation_id;
  quotation_detail_id = r.quotation_detail_id;
  quotation_no = r.quotation_no;
  product_qty_pc = r.product_qty_pc;
  product_qty_w = r.product_qty_w;
  guidance_price = r.guidance_price;
  total_guidance_price = r.total_guidance_price;
  unit_price = r.unit_price;
  price_total = r.price_total;
  creat_at = r.creat_at;
}

abbrev pub OneOf : Text → List (Text × Text) → Type 0
OneOf t [] = ⊥
OneOf t ((k, v) ∷ m) = (t ≡ v) ⊎ OneOf t m

-- empty, or one of the fourteen names
pub record IsStatus (t : Text) : Type 0 where
  pub named : (t ≡ []) ⊎ OneOf t status_map

-- The price's, the total's and the guidance price's currency agree.
pub record OneCurrency {W : Type 0} (r : ReportData W) : Type 0 where
  pub total : r.price_total_currency ≡ r.currency
  pub guided : r.guided_currency ≡ r.currency

pub record Passed {W : Type 0} (r s : ReportData W) : Type 0 where
  pub kept : source s ≡ source r
  pub status : (s.approval_status ≡ r.approval_status) ⊎ IsStatus s.approval_status
  pub one : OneCurrency r → OneCurrency s

chain-IsStatus : (a b c : Text) → (b ≡ a) ⊎ IsStatus b → (c ≡ b) ⊎ IsStatus c → (c ≡ a) ⊎ IsStatus c
chain-IsStatus a b c (inl p) (inl q) = inl (q ∙ p)
chain-IsStatus a b c (inr p) (inl q) = inr (rw q p)
chain-IsStatus a b c p (inr q) = inr q

instance pub Passed-IsOrder : {W : Type 0} → IsOrder (Passed {W = W})
Passed-IsOrder = record {
  here = λ r. record { kept = refl; status = inl refl; one = λ h. h };
  chain = λ r s t p q. record {
    kept = q.kept ∙ p.kept;
    status = chain-IsStatus r.approval_status s.approval_status t.approval_status p.status q.status;
    one = λ h. q.one (p.one h);
  };
}

entry-OneOf : (k : Text) (m : List (Text × Text)) → (entry k m ≡ []) ⊎ OneOf (entry k m) m
unfolding entry
entry-OneOf k [] = inl refl
entry-OneOf k ((j, v) ∷ m) = ground (arith, entry-OneOf k m)

status_name-IsStatus : (code : Text) → IsStatus (status_name code)
unfolding status_name
status_name-IsStatus code = record { named = entry-OneOf code status_map }

-- What most passes leave alone: the columns of insert_data, the approval and the currencies.
record Fixed (W : Type 0) : Type 0 where
  columns : Source W
  approval : Text
  first : Text
  second : Text
  third : Text

abbrev fixed : {W : Type 0} → ReportData W → Fixed W
fixed r = record {
  columns = source r;
  approval = r.approval_status;
  first = r.currency;
  second = r.price_total_currency;
  third = r.guided_currency;
}

fixed-Passed : {W : Type 0} (r s : ReportData W) → fixed s ≡ fixed r → Passed r s
fixed-Passed r s p = record {
  kept = ap (λ (f : Fixed _). f.columns) p;
  status = inl (ap (λ (f : Fixed _). f.approval) p);
  one = λ h. record {
    total = ap (λ (f : Fixed _). f.second) p ∙ h.total ∙ sym (ap (λ (f : Fixed _). f.first) p);
    guided = ap (λ (f : Fixed _). f.third) p ∙ h.guided ∙ sym (ap (λ (f : Fixed _). f.first) p);
  };
}

module _ {R W : Type 0} where
  pub Keeps-plain :
      (f : ReportData W → ReportData W)
      → ((r : ReportData W) → fixed (f r) ≡ fixed r)
      → Keeps {R = R} (OnRow Passed) (modify f)
  Keeps-plain f same =
      Keeps-modify f (λ c. record { related = fixed-Passed c.row (f c.row) (same c.row) })

  pub status-Keeps :
      (code : Text)
      → Keeps {R = R} {W = W}
          (OnRow Passed)
          (modify (λ r. record r { approval_status = status_name code }))
  status-Keeps code = Keeps-modify _ (λ c. record {
    related = record {
      kept = refl;
      status = inr (status_name-IsStatus code);
      one = λ h. record { total = h.total; guided = h.guided };
    };
  })

pub ruleset row_rules = (keeps_rules, Keeps-plain)

pub one-Passed :
    {W : Type 0} (row s : ReportData W)
    → (s ≡ row)
      ⊎ ((t : Text) × (s
            ≡ record row { currency = t; price_total_currency = t; guided_currency = t }))
    → Passed row s
one-Passed row s (inl same) = fixed-Passed row s (ap fixed same)
one-Passed row s (inr (t, set)) =
    rw set
      (record { kept = refl; status = inl refl; one = λ h. record { total = refl; guided = refl } })
