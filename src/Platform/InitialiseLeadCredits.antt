-- ===== src/Platform/InitialiseLeadCredits.antt =====
-- internal/platform/app/command/initialise_lead_credits.go: the handler that inserts the credit row of a
-- new tenant, through the repository of the purchase handler. What other transactions commit between its
-- read and its write is `between`.
pub mod Effect
use leadkart_go.Base.{
  Bool, true, false, not, Option, none, some, Result, ok, err, is_empty, if◌then◌else◌,
}
use leadkart_go.Base.Text.{Str}
use leadkart_go.Base.Clock.{Time}
use leadkart_go.Platform.LeadCredit.{LeadCredit, new_for_tenant}
use leadkart_go.Platform.LeadCredit as Credits
use leadkart_go.Platform.PurchaseLead.{Database, Storage, upsert_with_version, is_conflict, bad_id}
use leadkart_go.Platform.PurchaseLead as Store

-- The error of the first test, those of the aggregate, and those of the repository.
pub data Err : Type 0 where
  no_tenant : Err
  credits_error : Credits.Err → Err
  store_error : Store.Err → Err

-- The end of the transaction: a conflict counts as a row that was there, and nothing is written.
abbrev pub acknowledge :
    {Form : Type 0}
    → Database Form
    → Result Store.Err (Database Form)
    → Database Form × Result Err Bool
acknowledge mid (ok written) = (written, ok false)
acknowledge mid (err e) = if is_conflict e then (mid, ok true) else (mid, err (store_error e))

module _ {Form : Type 0} (is_uuid : Str → Bool) (storage_of : Storage) where
  -- The insert of a fresh row, when the read has found none.
  unfoldable pub insert_fresh : Database Form → Str → Time → Database Form × Result Err Bool
  insert_fresh mid tenant_id now = elim (new_for_tenant is_uuid tenant_id now) [
    | ok credit ↦ acknowledge mid (upsert_with_version is_uuid storage_of mid credit)
    | err e ↦ (mid, err (credits_error e))
  ]

  -- What follows the read.
  unfoldable pub after_read :
      Option LeadCredit → Database Form → Str → Time → Database Form × Result Err Bool
  after_read (some l) mid tenant_id now = (mid, ok true)
  after_read none mid tenant_id now = insert_fresh mid tenant_id now

  -- `Handle`: the database afterwards, and whether the row was there already.
  unfoldable pub handle :
      Database Form → (Database Form → Database Form) → Str → Time → Database Form × Result Err Bool
  handle db between tenant_id now =
      if is_empty tenant_id
      then (between db, err no_tenant)
      else if not (is_uuid tenant_id)
      then (between db, err (store_error bad_id))
      else after_read (db.credits tenant_id) (between db) tenant_id now
