-- ===== src/Platform/PurchaseLead.antt =====
-- internal/platform/app/command/purchase_lead.go: the handler that sells a lead to a tenant for one
-- credit, with the repositories in internal/platform/adapters that it writes through.
--
-- The database has the credit rows by tenant, the lead rows by id (without buyers, which are read
-- from the purchase rows), the tiers, the purchase rows, the oldest first, and the outbox. What other
-- transactions commit between the read of the credit row and its update is a function of the
-- database that each attempt is given; they commit also when the attempt fails, and the attempt's own
-- writes are then lost. `Storage` says which rows the database accepts; it may refuse any.
pub mod Sold
pub mod Inversion
pub mod Failures
pub mod LateFailures
pub mod Refusals
pub mod Soundness
pub mod Answers
use leadkart_go.Base.{
  ℕ, ◌≡◌, Bool, true, false, not, ◌&&◌, ◌||◌, List, [], ◌∷◌, ◌++◌, Option, none, some, Result, ok,
  err, ◌>>=◌, ◌>>◌, fail_if, map_err, is_some, if◌then◌else◌,
}
use leadkart_go.Base.Int64.{ℤ, pos, ◌+ℤ◌, eqb_ℤ}
use leadkart_go.Base.Text.{Str, codes, str_eq}
use leadkart_go.Base.Clock.{Time}
use leadkart_go.Platform.LeadCredit.{LeadCredit, charge}
use leadkart_go.Platform.LeadCredit as Credits
use leadkart_go.Platform.PlatformLead.{
  PlatformLead, LeadPurchase, Tier, TierConfig, purchase_count, record_purchase,
  compute_purchase_price_paisa, pull_pending_purchases,
}
use leadkart_go.Platform.PlatformLead as Leads

pub record Command : Type 0 where
  pub platform_lead_id : Str
  pub purchasing_tenant_id : Str
  pub purchasing_membership_id : Str

pub record PurchaseResult : Type 0 where
  pub purchase_id : Str
  pub amount_paisa : ℤ

-- `purchaseChargeCredits`, and the reason of the charge.
abbrev pub purchase_charge_credits : ℕ
purchase_charge_credits = 1

abbrev pub reason_of : Command → Str
reason_of cmd = codes "Marketplace purchase: " ++ cmd.platform_lead_id

-- `conflict` is `leadcredit.ErrConflict`, which the loop retries on; `cancelled` is the error of a
-- context that ends while the handler sleeps.
pub data Err : Type 0 where
  lead_not_found sold_out already_purchased insufficient_credits conflict cancelled : Err
  tier_not_found bad_id storage : Err
  charge_error : Credits.Err → Err
  record_error : Leads.Err → Err

pub record LeadPurchased (Form : Type 0) : Type 0 where
  pub purchase_id : Str
  pub tenant_id : Str
  pub platform_lead_id : Str
  pub purchased_at : Time
  pub purchased_by_membership_id : Str
  pub amount_paisa : ℤ
  pub lead_snapshot : Form

-- The messages of the outbox that this handler adds.
pub data Message (Form : Type 0) : Type 0 where
  credit_adjusted : Credits.AdjustedEvent → Message Form
  lead_purchased : LeadPurchased Form → Message Form

pub record Database (Form : Type 0) : Type 0 where
  pub credits : Str → Option LeadCredit
  pub leads : Str → Option (PlatformLead Form)
  pub tiers : Tier → Option TierConfig
  pub purchases : List LeadPurchase
  pub outbox : List (Message Form)

pub record Storage : Type 0 where
  pub accepts_credit : LeadCredit → Bool
  pub accepts_purchase : LeadPurchase → Bool
  pub accepts_message : Str → Bool

-- What one round of the retry loop meets.
pub record Attempt (Form : Type 0) : Type 0 where
  pub now : Time
  pub between : Database Form → Database Form
  pub sleep_fails : Bool

abbrev pub find_row {ℓ} : {A : Type ℓ} → Option A → Err → Result Err A
find_row none e = err e
find_row (some a) e = ok a

-- `ErrInsufficientBalance` and the domain errors of the lead have errors of the handler.
abbrev pub of_charge : Credits.Err → Err
of_charge Credits.invalid = charge_error Credits.invalid
of_charge Credits.insufficient_balance = insufficient_credits

abbrev pub of_record : Leads.Err → Err
of_record Leads.invalid = record_error Leads.invalid
of_record Leads.already_purchased = already_purchased
of_record Leads.sold_out = sold_out

-- `errors.Is(err, leadcredit.ErrConflict)`.
abbrev pub is_conflict : Err → Bool
is_conflict conflict = true
is_conflict _ = false

abbrev pub put_credit : Str → LeadCredit → (Str → Option LeadCredit) → Str → Option LeadCredit
put_credit id l credits k = if str_eq k id then some l else credits k

-- `ListLeadPurchaseTenantIDs`: the buyers of a lead.
abbrev pub buyers_of : Str → List LeadPurchase → List Str
buyers_of id [] = []
buyers_of id (p ∷ ps) =
    if str_eq p.lead_id id then p.tenant_id ∷ buyers_of id ps else buyers_of id ps

abbrev pub at_version : Option LeadCredit → ℤ → Bool
at_version none expected = false
at_version (some row) expected = eqb_ℤ row.version expected

-- The row that the UPDATE of `upsertOnTx` writes, and the one that its INSERT writes. A version
-- beyond the range of the column is a row that the database refuses.
abbrev pub bumped : LeadCredit → LeadCredit
bumped l = record l { version = l.version +ℤ pos 1; events = [] }

abbrev pub inserted : LeadCredit → LeadCredit
inserted l = record l { version = pos 1; events = [] }

module _ {Form : Type 0} where
  abbrev pub announced : List Credits.AdjustedEvent → List (Message Form)
  announced [] = []
  announced (e ∷ es) = credit_adjusted e ∷ announced es

  abbrev pub write_credit : Database Form → Str → LeadCredit → LeadCredit → Database Form
  write_credit db id row l = record db {
    credits = put_credit id row db.credits;
    outbox = db.outbox ++ announced l.events;
  }

-- `isUniqueViolation` of an insert: the id is the primary key of the purchase rows, and the lead with the
-- tenant is unique.
abbrev pub is_taken : LeadPurchase → List LeadPurchase → Bool
is_taken p [] = false
is_taken p (q ∷ rows) =
    str_eq q.id p.id
    || ((str_eq q.lead_id p.lead_id && str_eq q.tenant_id p.tenant_id) || is_taken p rows)

-- `insertPendingPurchases`.
unfoldable pub insert_purchases :
    Storage → List LeadPurchase → List LeadPurchase → Result Err (List LeadPurchase)
insert_purchases storage_of rows [] = ok rows
insert_purchases storage_of rows (p ∷ pending) =
    if is_taken p rows
    then err already_purchased
    else if not (storage_of.accepts_purchase p)
    then err storage
    else insert_purchases storage_of (rows ++ p ∷ []) pending

module _ {Form : Type 0} (is_uuid : Str → Bool) (storage_of : Storage) where
  -- The UPDATE of `upsertOnTx` when it affects a row; or else the INSERT, for a fresh aggregate.
  abbrev pub write_row : Bool → Database Form → LeadCredit → Result Err (Database Form)
  write_row true db l = do
    fail_if (not (storage_of.accepts_credit (bumped l))) storage
    ok (write_credit db l.tenant_id (bumped l) l)
  write_row false db l = do
    fail_if (not (eqb_ℤ l.version (pos 0))) conflict
    fail_if (is_some (db.credits l.tenant_id)) storage
    fail_if (not (storage_of.accepts_credit (inserted l))) storage
    ok (write_credit db l.tenant_id (inserted l) l)

  -- `upsertOnTx`.
  unfoldable pub upsert_with_version : Database Form → LeadCredit → Result Err (Database Form)
  upsert_with_version db l = do
    fail_if (not (is_uuid l.tenant_id)) bad_id
    write_row (at_version (db.credits l.tenant_id) l.version) db l

  -- The update function that `runOnce` gives to `UpdateByID`, and the writes that follow it, for the
  -- lead as it was loaded: the price is computed from the buyers, and the pending rows are inserted.
  unfoldable pub sell :
      Database Form
      → Command
      → TierConfig
      → Str
      → Time
      → PlatformLead Form
      → Result Err (Database Form × ℤ)
  unfolding pull_pending_purchases
  sell db cmd config purchase_id now loaded = do
    let price = compute_purchase_price_paisa config.base_price_paisa (purchase_count loaded) (pos 0)
    sold ← map_err of_record (
        record_purchase is_uuid loaded purchase_id cmd.purchasing_tenant_id
          cmd.purchasing_membership_id price config.default_sale_limit now)
    rows ← insert_purchases storage_of db.purchases (pull_pending_purchases sold).0
    ok (record db { purchases = rows }, price)

  -- `UpdateByID` of the lead: the row is loaded with its buyers, under a lock.
  unfoldable pub update_lead :
      Database Form → Command → TierConfig → Str → Time → Result Err (Database Form × ℤ)
  update_lead db cmd config purchase_id now = do
    fail_if (not (is_uuid cmd.platform_lead_id)) bad_id
    row ← find_row (db.leads cmd.platform_lead_id) lead_not_found
    sell db cmd config purchase_id now (record row {
      buyers = buyers_of cmd.platform_lead_id db.purchases;
      pending_purchases = [];
    })

  -- `EnqueueInTx` of the event for the buyer.
  unfoldable pub enqueue : Database Form → LeadPurchased Form → Result Err (Database Form)
  enqueue db m = do
    fail_if (not (storage_of.accepts_message m.purchase_id)) storage
    ok (record db { outbox = db.outbox ++ lead_purchased m ∷ [] })

  -- The half of `runOnce` that follows the payment.
  unfoldable pub record_and_announce :
      Database Form → Command → Str → Time → Result Err (Database Form × ℤ)
  record_and_announce paid cmd purchase_id now = do
    fail_if (not (is_uuid cmd.platform_lead_id)) bad_id
    lead ← find_row (paid.leads cmd.platform_lead_id) lead_not_found
    config ← find_row (paid.tiers lead.tier) tier_not_found
    (recorded, price) ← update_lead paid cmd config purchase_id now
    reloaded ← find_row (recorded.leads cmd.platform_lead_id) lead_not_found
    written ← enqueue recorded (record {
      purchase_id = purchase_id;
      tenant_id = cmd.purchasing_tenant_id;
      platform_lead_id = cmd.platform_lead_id;
      purchased_at = now;
      purchased_by_membership_id = cmd.purchasing_membership_id;
      amount_paisa = price;
      lead_snapshot = reloaded.form;
    })
    ok (written, price)

  -- `runOnce`.
  unfoldable pub run_once :
      Database Form → Command → Str → Attempt Form → Result Err (Database Form × ℤ)
  run_once db cmd purchase_id attempt = do
    fail_if (not (is_uuid cmd.purchasing_tenant_id)) bad_id
    credit ← find_row (db.credits cmd.purchasing_tenant_id) insufficient_credits
    charged ← map_err of_charge (
        charge credit (pos purchase_charge_credits) (reason_of cmd) cmd.purchasing_membership_id
          attempt.now)
    paid ← upsert_with_version (attempt.between db) charged
    record_and_announce paid cmd purchase_id attempt.now

  -- The retry loop: the database after the rounds, and the answer. Only a conflict is retried, and
  -- only after a sleep that does not fail.
  unfoldable pub attempts :
      Database Form
      → Command
      → Str
      → Attempt Form
      → List (Attempt Form)
      → Database Form × Result Err PurchaseResult
  attempts db cmd purchase_id a [] = elim (run_once db cmd purchase_id a) [
    | ok (written, price) ↦
        (written, ok (record { purchase_id = purchase_id; amount_paisa = price }))
    | err e ↦ (a.between db, err e)
  ]
  attempts db cmd purchase_id a (b ∷ more) = elim (run_once db cmd purchase_id a) [
    | ok (written, price) ↦
        (written, ok (record { purchase_id = purchase_id; amount_paisa = price }))
    | err e ↦
        let rest = attempts (a.between db) cmd purchase_id b more in
        if is_conflict e && not a.sleep_fails
        then rest
        else (a.between db, err (if is_conflict e then cancelled else e))
  ]

  -- `Handle`: at most three rounds.
  unfoldable pub handle :
      Database Form
      → Command
      → Str
      → Attempt Form
      → Attempt Form
      → Attempt Form
      → Database Form × Result Err PurchaseResult
  unfolding attempts
  handle db cmd purchase_id first second third =
      attempts db cmd purchase_id first (second ∷ third ∷ [])
