-- ===== src/Crm/Lead/Taxonomy.antt =====
-- internal/crm/domain/crmlead/taxonomy.go: the closed sets of a lead's profile. The empty text is the
-- member `unset_…` of each, and `unknown_…` is any text outside the catalogue.
use leadkart_go.Base.{Bool, true, false, Result, ok, err, is_empty, if◌then◌else◌}
use leadkart_go.Base.Text.{Str, codes, str_eq}
use leadkart_go.Crm.Lead.Stages.{Err, invalid}

pub data BusinessType : Type 0 where
  unset_business_type pcd third_party : BusinessType
  unknown_business_type : Str → BusinessType

-- The conversion `BusinessType(s)`.
unfoldable pub business_type_of : Str → BusinessType
unfolding str_eq
business_type_of s =
    if is_empty s
    then unset_business_type
    else if str_eq s (codes "PCD")
    then pcd
    else if str_eq s (codes "ThirdParty")
    then third_party
    else unknown_business_type s

abbrev pub is_valid_business_type : BusinessType → Bool
is_valid_business_type (unknown_business_type s) = false
is_valid_business_type _ = true

unfoldable pub parse_business_type : Str → Result Err BusinessType
unfolding business_type_of
parse_business_type s =
    if is_valid_business_type (business_type_of s) then ok (business_type_of s) else err invalid

pub data MedicineSystem : Type 0 where
  unset_medicine_system allopathic ayurvedic : MedicineSystem
  unknown_medicine_system : Str → MedicineSystem

-- The conversion `MedicineSystem(s)`.
unfoldable pub medicine_system_of : Str → MedicineSystem
unfolding str_eq
medicine_system_of s =
    if is_empty s
    then unset_medicine_system
    else if str_eq s (codes "Allopathic")
    then allopathic
    else if str_eq s (codes "Ayurvedic")
    then ayurvedic
    else unknown_medicine_system s

abbrev pub is_valid_medicine_system : MedicineSystem → Bool
is_valid_medicine_system (unknown_medicine_system s) = false
is_valid_medicine_system _ = true

unfoldable pub parse_medicine_system : Str → Result Err MedicineSystem
unfolding medicine_system_of
parse_medicine_system s =
    if is_valid_medicine_system (medicine_system_of s)
    then ok (medicine_system_of s)
    else err invalid

pub data OrderValue : Type 0 where
  unset_order_value below_5000 upto_25000 upto_50000 above_50000 : OrderValue
  unknown_order_value : Str → OrderValue

-- The conversion `OrderValue(s)`.
unfoldable pub order_value_of : Str → OrderValue
unfolding str_eq
order_value_of s =
    if is_empty s
    then unset_order_value
    else if str_eq s (codes "Below5000")
    then below_5000
    else if str_eq s (codes "Upto25000")
    then upto_25000
    else if str_eq s (codes "Upto50000")
    then upto_50000
    else if str_eq s (codes "Above50000")
    then above_50000
    else unknown_order_value s

abbrev pub is_valid_order_value : OrderValue → Bool
is_valid_order_value (unknown_order_value s) = false
is_valid_order_value _ = true

unfoldable pub parse_order_value : Str → Result Err OrderValue
unfolding order_value_of
parse_order_value s =
    if is_valid_order_value (order_value_of s) then ok (order_value_of s) else err invalid

pub data BuyTimeline : Type 0 where
  unset_buy_timeline within_week within_15_days within_month : BuyTimeline
  unknown_buy_timeline : Str → BuyTimeline

-- The conversion `BuyTimeline(s)`.
unfoldable pub buy_timeline_of : Str → BuyTimeline
unfolding str_eq
buy_timeline_of s =
    if is_empty s
    then unset_buy_timeline
    else if str_eq s (codes "WithinWeek")
    then within_week
    else if str_eq s (codes "Within15Days")
    then within_15_days
    else if str_eq s (codes "WithinMonth")
    then within_month
    else unknown_buy_timeline s

abbrev pub is_valid_buy_timeline : BuyTimeline → Bool
is_valid_buy_timeline (unknown_buy_timeline s) = false
is_valid_buy_timeline _ = true

unfoldable pub parse_buy_timeline : Str → Result Err BuyTimeline
unfolding buy_timeline_of
parse_buy_timeline s =
    if is_valid_buy_timeline (buy_timeline_of s) then ok (buy_timeline_of s) else err invalid
