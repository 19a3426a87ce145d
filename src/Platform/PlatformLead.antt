-- ===== src/Platform/PlatformLead.antt =====
-- internal/platform/domain/platformlead/platformlead.go and pricing.go: a verified lead that is sold
-- to several tenants, and its price. The form of the lead is a parameter type `Form`: the code here
-- only carries it, and `has_contact` says whether its contact name is not blank.
pub mod Buyers
pub mod Price
use leadkart_go.Base.{
  ℕ, ◌≡◌, Bool, true, false, not, List, [], ◌∷◌, ◌++◌, Option, none, some, Result, ok, err, ◌>>=◌,
  ◌>>◌, fail_if, is_empty, ltb, length, if◌then◌else◌, ◌||◌,
}
use leadkart_go.Base.Int64.{ℤ, pos, ltb_ℤ, leb_ℤ, add64, sub64, mul64, quot64}
use leadkart_go.Base.Text.{Str, str_eq}
use leadkart_go.Base.Clock.{Time, is_zero_time}
use leadkart_go.Base.Uuid.{validate_uuid}

-- `ErrInvalid`, `ErrAlreadyPurchased` and `ErrSoldOut`.
pub data Err : Type 0 where
  invalid already_purchased sold_out : Err

-- The tiers, with any other text of the Go type.
pub data Tier : Type 0 where
  standard priority premium : Tier
  unknown : Str → Tier

pub record TierConfig : Type 0 where
  pub code : Tier
  pub default_sale_limit : ℤ
  pub base_price_paisa : ℤ

pub record LeadPurchase : Type 0 where
  pub id : Str
  pub lead_id : Str
  pub tenant_id : Str
  pub membership_id : Str
  pub amount_paisa : ℤ
  pub purchased_at : Time

pub record VerifiedEvent : Type 0 where
  pub platform_lead_id : Str
  pub verified_at : Time
  pub verified_by_membership_id : Str

pub record PurchasedEvent : Type 0 where
  pub platform_lead_id : Str
  pub purchase_id : Str
  pub tenant_id : Str
  pub purchased_at : Time
  pub purchased_by_membership_id : Str
  pub amount_paisa : ℤ

pub data Event : Type 0 where
  verified : VerifiedEvent → Event
  purchased : PurchasedEvent → Event

pub record PlatformLead (Form : Type 0) : Type 0 where
  pub id : Str
  pub source_contact_id : Str
  pub form : Form
  pub gst_verified : Bool
  pub tier : Tier
  pub sale_limit : Option ℤ
  pub buyers : List Str
  pub verified_at : Time
  pub verified_by_membership_id : Str
  pub created_at : Time
  pub pending_purchases : List LeadPurchase
  pub events : List Event

-- The limit of the lead, or else that of its tier.
abbrev pub or_default : Option ℤ → ℤ → ℤ
or_default none tier_default = tier_default
or_default (some limit) tier_default = limit

-- The loop of `HasBuyer`.
abbrev pub mem_str : Str → List Str → Bool
mem_str tenant_id [] = false
mem_str tenant_id (b ∷ buyers) = if str_eq b tenant_id then true else mem_str tenant_id buyers

module _ {Form : Type 0} where
  -- `NewFromUnverifiedContact`.
  unfoldable pub new_from_unverified_contact :
      (Str → Bool) → (Form → Bool) → Str → Str → Form → Str → Time → Result Err (PlatformLead Form)
  unfolding validate_uuid
  new_from_unverified_contact is_uuid has_contact id source_contact_id form verified_by now = do
    validate_uuid is_uuid invalid id
    validate_uuid is_uuid invalid source_contact_id
    validate_uuid is_uuid invalid verified_by
    fail_if (is_zero_time now) invalid
    fail_if (not (has_contact form)) invalid
    ok (record {
      id = id;
      source_contact_id = source_contact_id;
      form = form;
      gst_verified = false;
      tier = standard;
      sale_limit = none;
      buyers = [];
      verified_at = now;
      verified_by_membership_id = verified_by;
      created_at = now;
      pending_purchases = [];
      events =
          verified (record {
            platform_lead_id = id;
            verified_at = now;
            verified_by_membership_id = verified_by;
          })
          ∷ [];
    })

  -- `PurchaseCount`.
  abbrev pub purchase_count : PlatformLead Form → ℤ
  purchase_count l = pos (length l.buyers)

  -- `EffectiveSaleLimit`.
  abbrev pub effective_sale_limit : PlatformLead Form → ℤ → ℤ
  effective_sale_limit l tier_default = or_default l.sale_limit tier_default

  -- `IsAvailable`.
  abbrev pub is_available : PlatformLead Form → ℤ → Bool
  is_available l tier_default = ltb_ℤ (purchase_count l) (effective_sale_limit l tier_default)

  -- `HasBuyer`.
  abbrev pub has_buyer : PlatformLead Form → Str → Bool
  has_buyer l tenant_id = mem_str tenant_id l.buyers

  -- The lead with one more buyer, the pending row and the event.
  abbrev pub sold_to : PlatformLead Form → Str → Str → Str → ℤ → Time → PlatformLead Form
  sold_to l purchase_id tenant_id membership_id amount_paisa now = record l {
    buyers = l.buyers ++ tenant_id ∷ [];
    pending_purchases =
        l.pending_purchases
        ++ (record {
          id = purchase_id;
          lead_id = l.id;
          tenant_id = tenant_id;
          membership_id = membership_id;
          amount_paisa = amount_paisa;
          purchased_at = now;
        })
          ∷ [];
    events =
        l.events
        ++ purchased (record {
          platform_lead_id = l.id;
          purchase_id = purchase_id;
          tenant_id = tenant_id;
          purchased_at = now;
          purchased_by_membership_id = membership_id;
          amount_paisa = amount_paisa;
        })
          ∷ [];
  }

  -- `RecordPurchase`.
  unfoldable pub record_purchase :
      (Str → Bool)
      → PlatformLead Form
      → Str
      → Str
      → Str
      → ℤ
      → ℤ
      → Time
      → Result Err (PlatformLead Form)
  unfolding validate_uuid
  record_purchase is_uuid l purchase_id tenant_id membership_id amount_paisa tier_default now = do
    validate_uuid is_uuid invalid purchase_id
    validate_uuid is_uuid invalid tenant_id
    validate_uuid is_uuid invalid membership_id
    fail_if (leb_ℤ amount_paisa (pos 0)) invalid
    fail_if (leb_ℤ tier_default (pos 0)) invalid
    fail_if (has_buyer l tenant_id) already_purchased
    fail_if (leb_ℤ (effective_sale_limit l tier_default) (purchase_count l)) sold_out
    ok (sold_to l purchase_id tenant_id membership_id amount_paisa now)

  -- `PullPendingPurchases` and `PullEvents`.
  unfoldable pub pull_pending_purchases : PlatformLead Form → List LeadPurchase × PlatformLead Form
  pull_pending_purchases l = (l.pending_purchases, record l { pending_purchases = [] })

  unfoldable pub pull_events : PlatformLead Form → List Event × PlatformLead Form
  pull_events l = (l.events, record l { events = [] })

-- The constants of pricing.go.
abbrev pub volume_discount_bps_per_share : ℕ
volume_discount_bps_per_share = 500

abbrev pub volume_discount_bps_cap : ℕ
volume_discount_bps_cap = 3000

abbrev pub total_discount_bps_cap : ℕ
total_discount_bps_cap = 5000

abbrev pub bps_denominator : ℕ
bps_denominator = 10000

-- `totalBps`, with Go's int of 64 bits.
unfoldable pub total_bps : ℤ → ℤ → ℤ
total_bps prior_share_count package_discount_bps =
    let volume = mul64 prior_share_count (pos volume_discount_bps_per_share) in
    let capped =
      if ltb_ℤ (pos volume_discount_bps_cap) volume then pos volume_discount_bps_cap else volume in
    let bought = if ltb_ℤ package_discount_bps (pos 0) then pos 0 else package_discount_bps in
    let total = add64 capped bought in
    if ltb_ℤ (pos total_discount_bps_cap) total then pos total_discount_bps_cap else total

-- `ComputePurchasePricePaisa`.
unfoldable pub compute_purchase_price_paisa : ℤ → ℤ → ℤ → ℤ
unfolding total_bps
compute_purchase_price_paisa tier_base_paisa prior_share_count package_discount_bps =
    let price =
      quot64
        (mul64 tier_base_paisa
          (sub64 (pos bps_denominator) (total_bps prior_share_count package_discount_bps)))
        bps_denominator in
    if leb_ℤ tier_base_paisa (pos 0) then pos 0 else if ltb_ℤ price (pos 1) then pos 1 else price
