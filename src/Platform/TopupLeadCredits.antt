-- ===== src/Platform/TopupLeadCredits.antt =====
-- internal/platform/app/command/topup_lead_credits.go: the handler that credits a tenant, through the same
-- repository and with the same retry on a stale version as the purchase handler. What other
-- transactions commit between the read and the write of a round is the `between` of its attempt.
pub mod Effect
use leadkart_go.Base.{
  ◌≡◌, Bool, true, false, not, ◌&&◌, List, [], ◌∷◌, Option, none, some, Result, ok, err, ◌>>=◌,
  ◌>>◌, fail_if, map_err, if◌then◌else◌,
}
use leadkart_go.Base.Int64.{ℤ, pos, leb_ℤ}
use leadkart_go.Base.Text.{Str}
use leadkart_go.Base.Clock.{Time}
use leadkart_go.Platform.LeadCredit.{LeadCredit, new_for_tenant, topup}
use leadkart_go.Platform.LeadCredit as Credits
use leadkart_go.Platform.PurchaseLead.{
  Database, Storage, Attempt, upsert_with_version, is_conflict, bad_id, cancelled,
}
use leadkart_go.Platform.PurchaseLead as Store

-- `TopupLeadCreditsCommand`.
pub record Command : Type 0 where
  pub tenant_id : Str
  pub delta : ℤ
  pub reason : Str
  pub adjusted_by : Str

-- The error of the first test, those of the aggregate, and those of the repository.
pub data Err : Type 0 where
  bad_delta : Err
  credits_error : Credits.Err → Err
  store_error : Store.Err → Err

-- The row of the tenant, or a fresh one.
abbrev pub load_or_new : (Str → Bool) → Option LeadCredit → Str → Time → Result Err LeadCredit
load_or_new is_uuid (some l) tenant_id now = ok l
load_or_new is_uuid none tenant_id now =
    map_err credits_error (new_for_tenant is_uuid tenant_id now)

-- `errors.Is(err, leadcredit.ErrConflict)`.
abbrev pub is_stale : Err → Bool
is_stale bad_delta = false
is_stale (credits_error e) = false
is_stale (store_error e) = is_conflict e

module _ {Form : Type 0} (is_uuid : Str → Bool) (storage_of : Storage) where
  -- `runOnce`.
  unfoldable pub run_once : Database Form → Command → Attempt Form → Result Err (Database Form × ℤ)
  run_once db cmd attempt = do
    fail_if (not (is_uuid cmd.tenant_id)) (store_error bad_id)
    credit ← load_or_new is_uuid (db.credits cmd.tenant_id) cmd.tenant_id attempt.now
    topped ← map_err credits_error (topup credit cmd.delta cmd.reason cmd.adjusted_by attempt.now)
    written ←
        map_err store_error (upsert_with_version is_uuid storage_of (attempt.between db) topped)
    ok (written, topped.balance)

  -- The retry loop: the database after the rounds, and the answer.
  unfoldable pub attempts :
      Database Form → Command → Attempt Form → List (Attempt Form) → Database Form × Result Err ℤ
  attempts db cmd a [] = elim (run_once db cmd a) [
    | ok (written, balance) ↦ (written, ok balance)
    | err e ↦ (a.between db, err e)
  ]
  attempts db cmd a (b ∷ more) = elim (run_once db cmd a) [
    | ok (written, balance) ↦ (written, ok balance)
    | err e ↦
        let rest = attempts (a.between db) cmd b more in
        if is_stale e && not a.sleep_fails
        then rest
        else (a.between db, err (if is_stale e then store_error cancelled else e))
  ]

  -- `Handle`: at most three rounds.
  unfoldable pub handle :
      Database Form
      → Command
      → Attempt Form
      → Attempt Form
      → Attempt Form
      → Database Form × Result Err ℤ
  handle db cmd first second third =
      if leb_ℤ cmd.delta (pos 0)
      then (db, err bad_delta)
      else attempts db cmd first (second ∷ third ∷ [])
