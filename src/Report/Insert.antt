-- ===== src/Report/Insert.antt =====
-- The lines that insert_data of src/tools/all_report/all_month_report.cpp makes.
pub mod Loop
pub mod Fuel
use asio_coro_frame.Base.{
  ℕ, zero, suc, ◌+◌, ◌<◌, ◌≤◌, ◌≡◌, refl, ◌⊎◌, inl, inr, List, [], ◌∷◌, Option, none, some, Text,
  Bool, true, false, arith, All, lit, if◌then◌else◌, Option-cases,
}
use mathlib.Core.Path.{subst}
use asio_coro_frame.Report.{ReportData, Env, blank}
use asio_coro_frame.Report.Action.{
  Action, Context, Exit, ok, skip, raised, fault, and_then, ◌>>=◌, ◌>>◌, pure, modify, is_null,
  get_string, get_double, with_res,
}
use asio_coro_frame.Report.Passed.{Source, source}
use asio_coro_frame.Report.Run.{MonthReport, insert_rows, pushed, after_next, consed}
use asio_coro_frame.Report.Passes.{
  insert_body, insert_keys, insert_watts, insert_guidance, insert_price,
}

module _ {R W A : Type 0} (P : ReportData W → Type 0) where
  -- a computation that does not end by `continue`, and ends normally only with the property
  abbrev pub Done : Exit A × Context R W → Type 0
  Done (ok _, c) = P c.row
  Done (skip, c) = ⊥
  Done (raised, c) = Unit
  Done (fault, c) = Unit

Done-and_then :
    {R W A B : Type 0} (P Q : ReportData W → Type 0) (x : Exit A) (c : Context R W)
    (f : A → Action R W B)
    → Done P (x, c)
    → ((a : A) (d : Context R W) → P d.row → Done Q (f a d))
    → Done Q (and_then (x, c) f)
Done-and_then P Q (ok a) c f h k = k a c h
Done-and_then P Q skip c f h k = absurd h
Done-and_then P Q raised c f h k = tt
Done-and_then P Q fault c f h k = tt

-- Each amount is the product of its price and the power in watts, or both are still 0.
pub record IsPriced {W : Type 0} (times : W → W → W) (nought : W) (r : Source W) : Type 0 where
  pub price :
      (r.price_total ≡ times r.unit_price r.product_qty_w)
      ⊎ ((r.unit_price ≡ nought) × (r.price_total ≡ nought))
  pub guidance :
      (r.total_guidance_price ≡ times r.product_qty_w r.guidance_price)
      ⊎ ((r.guidance_price ≡ nought) × (r.total_guidance_price ≡ nought))

abbrev NoPrice : {W : Type 0} → W → ReportData W → Type 0
NoPrice nought r = (r.unit_price ≡ nought) × (r.price_total ≡ nought)

abbrev NoGuidance : {W : Type 0} → W → ReportData W → Type 0
NoGuidance nought r = (r.guidance_price ≡ nought) × (r.total_guidance_price ≡ nought)

abbrev Guided : {W : Type 0} → (W → W → W) → W → ReportData W → Type 0
Guided times nought r =
    (r.total_guidance_price ≡ times r.product_qty_w r.guidance_price) ⊎ NoGuidance nought r

module _ {R W : Type 0} (e : Env R W) (c : Context R W) where
  insert_keys-Done :
      NoPrice e.nought c.row × NoGuidance e.nought c.row
      → Done (λ r. NoPrice e.nought r × NoGuidance e.nought r) (insert_keys ⦃e = e⦄ c)
  unfolding insert_keys ◌>>=◌ ◌>>◌ modify get_string get_double
  insert_keys-Done h = ground arith

  insert_watts-Done :
      NoPrice e.nought c.row × NoGuidance e.nought c.row
      → Done (λ r. NoPrice e.nought r × NoGuidance e.nought r) (insert_watts ⦃e = e⦄ c)
  unfolding insert_watts ◌>>=◌ ◌>>◌ modify is_null get_double
  insert_watts-Done h = ground arith

  insert_guidance-Done :
      NoPrice e.nought c.row × NoGuidance e.nought c.row
      → Done (λ r. NoPrice e.nought r × Guided e.times e.nought r) (insert_guidance ⦃e = e⦄ c)
  unfolding insert_guidance ◌>>=◌ ◌>>◌ modify is_null get_double pure
  insert_guidance-Done h = ground arith

  insert_price-Done :
      NoPrice e.nought c.row × Guided e.times e.nought c.row
      → Done (λ r. IsPriced e.times e.nought (source r)) (insert_price ⦃e = e⦄ c)
  unfolding insert_price ◌>>=◌ ◌>>◌ modify is_null get_double pure
  insert_price-Done h = ground arith

created-Done :
    {R W : Type 0} (e : Env R W) (c : Context R W)
    → IsPriced e.times e.nought (source c.row)
    → Done
        (λ r. IsPriced e.times e.nought (source r))
        (and_then
          (get_string ⦃e = e⦄ (lit "creat_at") c)
          (λ s. modify (λ r. record r { creat_at = s })))
unfolding get_string modify
created-Done e c h = ground arith

-- insert_body one part after the other
pub insert_body-IsPriced :
    {R W : Type 0} (e : Env R W) (r : R)
    → Done
        (λ r. IsPriced e.times e.nought (source r))
        (insert_body ⦃e = e⦄ (record { row = blank e.nought; res = some r }))
unfolding insert_body ◌>>=◌ ◌>>◌
insert_body-IsPriced e r =
    Done-and_then _ _ _ _ _ (insert_keys-Done e _ ((refl, refl), (refl, refl))) (λ _ c h.
      Done-and_then _ _ _ _ _ (insert_watts-Done e c h) (λ _ d k.
        Done-and_then _ _ _ _ _ (insert_guidance-Done e d k) (λ _ f l.
          Done-and_then _ _ _ _ _ (insert_price-Done e f l) (λ _ g m. created-Done e g m))))
