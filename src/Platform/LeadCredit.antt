-- ===== src/Platform/LeadCredit.antt =====
-- internal/platform/domain/leadcredit/leadcredit.go: the credit balance of a tenant.
pub mod Balance
use leadkart_go.Base.{
  ℕ, ◌≡◌, Bool, true, false, not, List, [], ◌∷◌, ◌++◌, Result, ok, err, ◌>>=◌, ◌>>◌, fail_if, after,
  is_empty, ltb, if◌then◌else◌,
}
use leadkart_go.Base.Int64.{ℤ, pos, ltb_ℤ, leb_ℤ, add64, sub64, neg64}
use leadkart_go.Base.Text.{Str, is_blank}
use leadkart_go.Base.Clock.{Time, is_zero_time}
use leadkart_go.Base.Uuid.{validate_uuid}

-- `ErrInvalid` and `ErrInsufficientBalance`.
pub data Err : Type 0 where
  invalid insufficient_balance : Err

pub record AdjustedEvent : Type 0 where
  pub tenant_id : Str
  pub delta : ℤ
  pub new_balance : ℤ
  pub reason : Str
  pub adjusted_at : Time
  pub adjusted_by_membership_id : Str

pub record LeadCredit : Type 0 where
  pub tenant_id : Str
  pub balance : ℤ
  pub version : ℤ
  pub created_at : Time
  pub updated_at : Time
  pub events : List AdjustedEvent

-- `NewForTenant`.
unfoldable pub new_for_tenant : (Str → Bool) → Str → Time → Result Err LeadCredit
unfolding validate_uuid
new_for_tenant is_uuid tenant_id now = do
  validate_uuid is_uuid invalid tenant_id
  fail_if (is_zero_time now) invalid
  ok (record {
    tenant_id = tenant_id;
    balance = pos 0;
    version = pos 0;
    created_at = now;
    updated_at = now;
    events = [];
  })

-- The new balance, and the event that `Topup` and `Charge` record for it.
abbrev pub adjusted : LeadCredit → ℤ → ℤ → Str → Str → Time → LeadCredit
adjusted l delta balance reason adjusted_by now = record l {
  balance = balance;
  updated_at = now;
  events =
      l.events
      ++ (record {
        tenant_id = l.tenant_id;
        delta = delta;
        new_balance = balance;
        reason = reason;
        adjusted_at = now;
        adjusted_by_membership_id = adjusted_by;
      })
        ∷ [];
}

-- `Topup`.
unfoldable pub topup : LeadCredit → ℤ → Str → Str → Time → Result Err LeadCredit
topup l delta reason adjusted_by now = do
  fail_if (leb_ℤ delta (pos 0)) invalid
  fail_if (is_blank reason) invalid
  fail_if (is_empty adjusted_by) invalid
  ok (adjusted l delta (add64 l.balance delta) reason adjusted_by now)

-- `Charge`.
unfoldable pub charge : LeadCredit → ℤ → Str → Str → Time → Result Err LeadCredit
charge l amount reason adjusted_by now = do
  fail_if (leb_ℤ amount (pos 0)) invalid
  fail_if (is_blank reason) invalid
  fail_if (is_empty adjusted_by) invalid
  fail_if (ltb_ℤ l.balance amount) insufficient_balance
  ok (adjusted l (neg64 amount) (sub64 l.balance amount) reason adjusted_by now)

-- A call of `Topup` or `Charge`, with its amount, reason, membership and instant.
pub data Call : Type 0 where
  tops_up charges : ℤ → Str → Str → Time → Call

-- A call that fails leaves the balance as it was.
unfoldable pub step : LeadCredit → Call → LeadCredit
unfolding topup charge
step l (tops_up delta reason adjusted_by now) = after l (topup l delta reason adjusted_by now)
step l (charges amount reason adjusted_by now) = after l (charge l amount reason adjusted_by now)

unfoldable pub run : LeadCredit → List Call → LeadCredit
run l [] = l
run l (c ∷ calls) = run (step l c) calls
