-- ===== src/Orders/LineItem/Totals.antt =====
-- internal/orders/domain/order/order.go, `computeTotals`, against sums over the natural numbers.
use leadkart_go.Base.{ℕ, ◌+◌, ◌*◌, ◌/◌, ◌≤◌, ◌<◌, ◌≡◌, List, [], ◌∷◌, All, length, arith}
use leadkart_go.Base.Int64.{
  ℤ, pos, pos_part, two63, add64, mul64, quot64, add64_pos, mul64_nonneg, pos_part-le,
}
use leadkart_go.Orders.LineItem.{LineItem, IsValid}

-- One round of the loop: `lineSubtotal` and `lineTax`.
unfoldable pub line_subtotal : LineItem → ℤ
line_subtotal li = mul64 li.unit_sale_paise li.quantity

unfoldable pub line_tax : LineItem → ℤ
unfolding quot64
line_tax li = quot64 (mul64 (line_subtotal li) li.gst_rate_bps) 10000

-- The loop, over the two sums so far.
unfoldable pub totals_from : ℤ → ℤ → List LineItem → ℤ × ℤ
totals_from subtotal tax [] = (subtotal, tax)
totals_from subtotal tax (li ∷ items) =
    totals_from (add64 subtotal (line_subtotal li)) (add64 tax (line_tax li)) items

-- `computeTotals`: subtotal, tax and grand total.
unfoldable pub compute_totals : List LineItem → ℤ × ℤ × ℤ
unfolding totals_from
compute_totals items =
    let (subtotal, tax) = totals_from (pos 0) (pos 0) items in (subtotal, tax, add64 subtotal tax)

-- The exact amounts of a line, as natural numbers.
abbrev pub amount : LineItem → ℕ
amount li = pos_part li.unit_sale_paise * pos_part li.quantity

abbrev pub rate : LineItem → ℕ
rate li = pos_part li.gst_rate_bps

abbrev pub sum_amounts : List LineItem → ℕ
sum_amounts [] = 0
sum_amounts (li ∷ items) = amount li + sum_amounts items

-- The tax of each line, rounded down to a paisa.
abbrev pub sum_taxes : List LineItem → ℕ
sum_taxes [] = 0
sum_taxes (li ∷ items) = amount li * rate li / 10000 + sum_taxes items

-- The tax in ten-thousandths of a paisa, before rounding.
abbrev pub sum_exact_taxes : List LineItem → ℕ
sum_exact_taxes [] = 0
sum_exact_taxes (li ∷ items) = amount li * rate li + sum_exact_taxes items

mul_mono_right : (a b c : ℕ) → b ≤ c → a * b ≤ a * c
mul_mono_right a b c h = grind arith

amount-rate-le : (li : LineItem) → IsValid li → amount li * rate li ≤ amount li * 10000
amount-rate-le li v =
    mul_mono_right (amount li) (rate li) 10000
      (pos_part-le li.gst_rate_bps 10000 v.rate_nonneg v.rate_capped)

pub line_tax-le-amount : (li : LineItem) → IsValid li → amount li * rate li / 10000 ≤ amount li
line_tax-le-amount li v = omega (arith, amount-rate-le li v)

module _ (li : LineItem) (v : IsValid li) (fits : amount li * 10000 < two63) where
  line_subtotal-exact : line_subtotal li ≡ pos (amount li)
  unfolding line_subtotal
  line_subtotal-exact =
      mul64_nonneg li.unit_sale_paise li.quantity (omega arith) (omega arith) (omega arith)

  line_tax-exact : line_tax li ≡ pos (amount li * rate li / 10000)
  unfolding line_tax quot64
  line_tax-exact = rw (
    line_subtotal-exact,
    mul64_nonneg (pos (amount li)) li.gst_rate_bps (omega arith) (omega arith)
        (omega (arith, amount-rate-le li v)),
  )

-- The loop adds the exact sums to what it was started with, as long as nothing overflows.
totals_from-exact :
    (s t : ℕ) (items : List LineItem)
    → All IsValid items
    → t ≤ s
    → (s + sum_amounts items) * 10000 < two63
    → totals_from (pos s) (pos t) items ≡ (pos (s + sum_amounts items), pos (t + sum_taxes items))
unfolding totals_from
totals_from-exact s t [] v le fits = ground arith
totals_from-exact s t (li ∷ items) v le fits =
    let small : amount li * 10000 < two63 = omega arith in
    let below : amount li * rate li / 10000 ≤ amount li = line_tax-le-amount li v.0 in
    rw
      (
        line_subtotal-exact li v.0 small,
        line_tax-exact li v.0 small,
        add64_pos s (amount li) (omega arith),
        add64_pos t (amount li * rate li / 10000) (omega arith),
      )
      (ground (
        arith,
        totals_from-exact (s + amount li) (t + amount li * rate li / 10000) items v.1 (omega arith)
            (omega arith),
      ))

sum_taxes-le : (items : List LineItem) → All IsValid items → sum_taxes items ≤ sum_amounts items
sum_taxes-le [] v = omega arith
sum_taxes-le (li ∷ items) v = omega (arith, line_tax-le-amount li v.0, sum_taxes-le items v.1)

-- For valid items whose subtotal stays below 2 ^ 63 / 10000, `computeTotals` returns the exact
-- subtotal, the sum of the taxes that are rounded down line by line, and their sum: nothing wraps.
pub compute_totals-exact :
    (items : List LineItem)
    → All IsValid items
    → sum_amounts items * 10000 < two63
    → compute_totals items
      ≡ (pos (sum_amounts items), pos (sum_taxes items), pos (sum_amounts items + sum_taxes items))
unfolding compute_totals
compute_totals-exact items v fits =
    rw
      (
        totals_from-exact 0 0 items v (omega arith) (omega arith),
        add64_pos (0 + sum_amounts items) (0 + sum_taxes items)
            (omega (arith, sum_taxes-le items v)),
      )
      (ground arith)

sum_taxes_rounding :
    (items : List LineItem)
    → (sum_taxes items * 10000 ≤ sum_exact_taxes items)
      × (sum_exact_taxes items ≤ sum_taxes items * 10000 + 9999 * length items)
sum_taxes_rounding [] = (omega arith, omega arith)
sum_taxes_rounding (li ∷ items) =
    (omega (arith, sum_taxes_rounding items), omega (arith, sum_taxes_rounding items))

-- For valid items whose subtotal stays below 2 ^ 63 / 10000, the tax that `computeTotals` returns
-- never exceeds the exact tax, and falls short of it by less than one paisa for each line.
pub compute_totals_rounding :
    (items : List LineItem)
    → All IsValid items
    → sum_amounts items * 10000 < two63
    → (pos_part (compute_totals items).1 * 10000 ≤ sum_exact_taxes items)
      × (sum_exact_taxes items ≤ pos_part (compute_totals items).1 * 10000 + 9999 * length items)
compute_totals_rounding items v fits =
    ground (arith, compute_totals-exact items v fits, sum_taxes_rounding items)
