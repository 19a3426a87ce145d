-- ===== src/Crm/Lead/Profiles.antt =====
-- internal/crm/domain/crmlead/crmlead.go: the profile of a lead, the payload of a purchase, and
-- their validation.
use leadkart_go.Base.{
  Bool, true, false, not, ◌&&◌, ◌||◌, List, [], ◌∷◌, Result, ok, ◌>>=◌, ◌>>◌, fail_if, is_empty,
  length, ltb, leb, ◌==◌,
}
use leadkart_go.Base.Text.{Str, trim_space, byte_len}
use leadkart_go.Crm.Lead.Stages.{Err, invalid}
use leadkart_go.Crm.Lead.Taxonomy.{
  BusinessType, is_valid_business_type, parse_business_type, MedicineSystem,
  is_valid_medicine_system, parse_medicine_system, OrderValue, is_valid_order_value,
  parse_order_value, BuyTimeline, is_valid_buy_timeline, parse_buy_timeline,
}

pub record ExtraProfile : Type 0 where
  pub street : Str
  pub gst_number : Str
  pub pan_number : Str
  pub has_pan : Bool
  pub email : Str
  pub notes : Str

pub record Profile : Type 0 where
  pub contact_name : Str
  pub phone_e164 : Str
  pub city : Str
  pub district : Str
  pub state : Str
  pub pincode : Str
  pub business_type : BusinessType
  pub medicine_system : MedicineSystem
  pub order_value : OrderValue
  pub buy_timeline : BuyTimeline
  pub has_drug_licence : Bool
  pub has_gst : Bool
  pub gst_verified : Bool
  pub product_ranges : List Str
  pub dosage_forms : List Str
  pub extra : ExtraProfile

pub record PurchaseSnapshot : Type 0 where
  pub purchase_id : Str
  pub platform_lead_id : Str
  pub purchased_by_membership_id : Str
  pub contact_name : Str
  pub mobile_e164 : Str
  pub email : Str
  pub pin_code : Str
  pub city : Str
  pub district : Str
  pub state : Str
  pub street : Str
  pub has_drug_licence : Bool
  pub has_gst : Bool
  pub gst_number : Str
  pub has_pan : Bool
  pub pan_number : Str
  pub business_type : Str
  pub medicine_system : Str
  pub product_ranges : List Str
  pub dosage_forms : List Str
  pub order_value : Str
  pub buy_timeline : Str

abbrev all_digits : Str → Bool
all_digits [] = true
all_digits (c ∷ s) = leb b'0' c && leb c b'9' && all_digits s

-- `+91` and digits; the length is tested before.
abbrev has_mobile_shape : Str → Bool
has_mobile_shape (a ∷ b ∷ c ∷ s) = a == b'+' && b == b'9' && c == b'1' && all_digits s
has_mobile_shape _ = false

-- `isValidIndianMobile`. A text with a code point above 127 has a byte that fails the tests.
unfoldable pub is_valid_indian_mobile : Str → Bool
unfolding byte_len
is_valid_indian_mobile s = byte_len s == 13 && has_mobile_shape s

-- `pincodePattern.MatchString`: a digit from 1 to 9, and five digits.
unfoldable pub matches_pincode : Str → Bool
matches_pincode [] = false
matches_pincode (c ∷ s) = leb b'1' c && leb c b'9' && all_digits s && length s == 5

-- `validateProfile`.
unfoldable pub validate_profile : Profile → Result Err (Unit {0})
unfolding is_valid_indian_mobile matches_pincode
validate_profile p = do
  fail_if
      (ltb (byte_len (trim_space p.contact_name)) 1
        || ltb 200 (byte_len (trim_space p.contact_name)))
      invalid
  fail_if (not (is_valid_indian_mobile p.phone_e164)) invalid
  fail_if (not (is_empty p.pincode) && not (matches_pincode p.pincode)) invalid
  fail_if (not (is_valid_business_type p.business_type)) invalid
  fail_if (not (is_valid_medicine_system p.medicine_system)) invalid
  fail_if (not (is_valid_order_value p.order_value)) invalid
  fail_if (not (is_valid_buy_timeline p.buy_timeline)) invalid
  ok tt

-- The profile that `NewFromPurchaseSnapshot` builds, with the texts of the closed sets parsed.
unfoldable pub profile_of_snapshot : PurchaseSnapshot → Result Err Profile
unfolding parse_business_type parse_medicine_system parse_order_value parse_buy_timeline
profile_of_snapshot s = do
  biz_type ← parse_business_type s.business_type
  med_system ← parse_medicine_system s.medicine_system
  ord_value ← parse_order_value s.order_value
  buy_tl ← parse_buy_timeline s.buy_timeline
  ok (record {
    contact_name = s.contact_name;
    phone_e164 = s.mobile_e164;
    city = s.city;
    district = s.district;
    state = s.state;
    pincode = s.pin_code;
    business_type = biz_type;
    medicine_system = med_system;
    order_value = ord_value;
    buy_timeline = buy_tl;
    has_drug_licence = s.has_drug_licence;
    has_gst = s.has_gst;
    gst_verified = false;
    product_ranges = s.product_ranges;
    dosage_forms = s.dosage_forms;
    extra = record {
      street = s.street;
      gst_number = s.gst_number;
      pan_number = s.pan_number;
      has_pan = s.has_pan;
      email = s.email;
      notes = [];
    };
  })
