-- ===== src/Orders/LineItem.antt =====
-- internal/orders/domain/quotation/quotation.go: the line item, its validation, and the money that
-- internal/orders/domain/order/order.go sums over line items.
pub mod Totals
use leadkart_go.Base.{
  ℕ, ◌+◌, ◌*◌, ◌≤◌, ◌<◌, ◌≡◌, refl, ◌≢◌, Bool, true, false, ◌&&◌, ◌||◌, List, [], ◌∷◌, Result, ok,
  err, ◌>>=◌, ◌>>◌, fail_if, is_empty, All, arith,
}
use leadkart_go.Base.Int64.{ℤ, pos, negsuc, ltb_ℤ, leb_ℤ, ◌≤ℤ◌, ◌<ℤ◌, add64, mul64, quot64}
use leadkart_go.Base.Text.{Str}

-- The sentinels of the package: `ErrInvalid`, `ErrInvalidTransition`, and the panic of an index
-- that is out of range.
pub data Err : Type 0 where
  invalid invalid_transition index_out_of_range : Err

pub record LineItem : Type 0 where
  pub product_id : Str
  pub sku : Str
  pub description : Str
  pub quantity : ℤ
  pub unit_mrp_paise : ℤ
  pub unit_sale_paise : ℤ
  pub gst_rate_bps : ℤ

-- `LineItem.Validate`.
unfoldable pub validate : LineItem → Result Err (Unit {0})
validate li = do
  fail_if (is_empty li.product_id) invalid
  fail_if (is_empty li.sku) invalid
  fail_if (leb_ℤ li.quantity (pos 0)) invalid
  fail_if (leb_ℤ li.unit_sale_paise (pos 0)) invalid
  fail_if (ltb_ℤ (pos 0) li.unit_mrp_paise && ltb_ℤ li.unit_mrp_paise li.unit_sale_paise) invalid
  fail_if (ltb_ℤ li.gst_rate_bps (pos 0) || ltb_ℤ (pos 10000) li.gst_rate_bps) invalid
  ok tt

-- The loop of the constructors and of `Revise` over the items.
unfoldable pub validate_all : List LineItem → Result Err (Unit {0})
unfolding validate
validate_all [] = ok tt
validate_all (li ∷ items) = validate li >> validate_all items

-- What a line item has to satisfy.
pub record IsValid (li : LineItem) : Type 0 where
  pub product : is_empty li.product_id ≡ false
  pub stock_unit : is_empty li.sku ≡ false
  pub some_quantity : pos 0 <ℤ li.quantity
  pub some_price : pos 0 <ℤ li.unit_sale_paise
  pub mrp_kept : pos 0 <ℤ li.unit_mrp_paise → li.unit_sale_paise ≤ℤ li.unit_mrp_paise
  pub rate_nonneg : pos 0 ≤ℤ li.gst_rate_bps
  pub rate_capped : li.gst_rate_bps ≤ℤ pos 10000

pub IsValid-of_validate : (li : LineItem) → validate li ≡ ok tt → IsValid li
unfolding validate
IsValid-of_validate li h = ground arith

pub validate_of_IsValid : (li : LineItem) → IsValid li → validate li ≡ ok tt
unfolding validate
validate_of_IsValid li v = ground arith

pub All-IsValid-of_validate_all :
    (items : List LineItem) → validate_all items ≡ ok tt → All IsValid items
unfolding validate_all
All-IsValid-of_validate_all [] h = tt
All-IsValid-of_validate_all (li ∷ items) h =
    grind (arith, IsValid-of_validate li, All-IsValid-of_validate_all items)

pub validate_all_of_All-IsValid :
    (items : List LineItem) → All IsValid items → validate_all items ≡ ok tt
unfolding validate_all
validate_all_of_All-IsValid [] v = refl
validate_all_of_All-IsValid (li ∷ items) v =
    ground (arith, validate_of_IsValid li v.0, validate_all_of_All-IsValid items v.1)
