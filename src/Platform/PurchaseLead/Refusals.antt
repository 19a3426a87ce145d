-- ===== src/Platform/PurchaseLead/Refusals.antt =====
-- internal/platform/app/command/purchase_lead.go: why a round of the handler fails, the payment included.
use leadkart_go.Base.{
  ◌≡◌, sym, ap, subst, ◌∙◌, ◌⊎◌, inl, inr, Bool, true, false, not, Bool-cases, none, some, ok, err,
  ◌>>=◌, fail_if, map_err, map_err_inversion, bind_failure, map_err_failure, fail_if_failure, arith,
}
use leadkart_go.Base.Int64.{pos, ◌≤ℤ◌, ◌<ℤ◌}
use leadkart_go.Base.Text.{Str}
use leadkart_go.Base.Clock.{Time}
use leadkart_go.Platform.LeadCredit.{LeadCredit, charge}
use leadkart_go.Platform.LeadCredit as Credits
use leadkart_go.Platform.LeadCredit.Balance.{charge_inversion}
use leadkart_go.Platform.PurchaseLead.Inversion.{find_row_inversion, upsert_inversion}
use leadkart_go.Platform.PurchaseLead.Failures.{LateFailure, find_row_failure}
use leadkart_go.Platform.PurchaseLead.LateFailures.{late_failure}
use leadkart_go.Platform.PurchaseLead.{
  Err, lead_not_found, sold_out, already_purchased, insufficient_credits, conflict, cancelled,
  tier_not_found, bad_id, storage, charge_error, record_error, Command, Database, Storage, Attempt,
  reason_of, find_row, of_charge, at_version, upsert_with_version, record_and_announce, run_once,
}

-- What the error of a round says of the database that it started from, and of the one that the other
-- transactions had left when it wrote.
abbrev pub RoundFailure :
    {Form : Type 0} → Command → Str → Database Form → Database Form → Err → Type 0
RoundFailure cmd purchase_id start mid insufficient_credits =
    (start.credits cmd.purchasing_tenant_id ≡ none)
    ⊎ ((l : LeadCredit) × (start.credits cmd.purchasing_tenant_id ≡ some l) × (l.balance <ℤ pos 1))
RoundFailure cmd purchase_id start mid conflict =
    (l : LeadCredit) × (start.credits cmd.purchasing_tenant_id ≡ some l)
    × (at_version (mid.credits cmd.purchasing_tenant_id) l.version ≡ false)
RoundFailure cmd purchase_id start mid (charge_error e) = Unit
RoundFailure cmd purchase_id start mid cancelled = true ≡ false
RoundFailure cmd purchase_id start mid lead_not_found =
    LateFailure cmd purchase_id mid lead_not_found
RoundFailure cmd purchase_id start mid sold_out = LateFailure cmd purchase_id mid sold_out
RoundFailure cmd purchase_id start mid already_purchased =
    LateFailure cmd purchase_id mid already_purchased
RoundFailure cmd purchase_id start mid tier_not_found =
    LateFailure cmd purchase_id mid tier_not_found
RoundFailure cmd purchase_id start mid bad_id = Unit
RoundFailure cmd purchase_id start mid storage = Unit
RoundFailure cmd purchase_id start mid (record_error e) = Unit

RoundFailure-late :
    {Form : Type 0} (cmd : Command) (purchase_id : Str) (start mid : Database Form) (e : Err)
    → LateFailure cmd purchase_id mid e
    → RoundFailure cmd purchase_id start mid e
RoundFailure-late cmd purchase_id start mid lead_not_found h = h
RoundFailure-late cmd purchase_id start mid sold_out h = h
RoundFailure-late cmd purchase_id start mid already_purchased h = h
RoundFailure-late cmd purchase_id start mid tier_not_found h = h
RoundFailure-late cmd purchase_id start mid bad_id h = tt
RoundFailure-late cmd purchase_id start mid storage h = tt
RoundFailure-late cmd purchase_id start mid (record_error e) h = tt
RoundFailure-late cmd purchase_id start mid (charge_error e) h = tt
RoundFailure-late cmd purchase_id start mid insufficient_credits h = cc
RoundFailure-late cmd purchase_id start mid conflict h = cc
RoundFailure-late cmd purchase_id start mid cancelled h = h

charge_failure :
    {Form : Type 0} (cmd : Command) (purchase_id : Str) (start mid : Database Form)
    (credit : LeadCredit) (now : Time) (d : Credits.Err)
    → start.credits cmd.purchasing_tenant_id ≡ some credit
    → charge credit (pos 1) (reason_of cmd) cmd.purchasing_membership_id now ≡ err d
    → RoundFailure cmd purchase_id start mid (of_charge d)
unfolding charge
charge_failure cmd purchase_id start mid credit now Credits.invalid found h = tt
charge_failure cmd purchase_id start mid credit now Credits.insufficient_balance found h =
    inr (credit, found, ground arith)

upsert_failure :
    {Form : Type 0} (is_uuid : Str → Bool) (storage_of : Storage) (db : Database Form)
    (l : LeadCredit) (e : Err)
    → upsert_with_version is_uuid storage_of db l ≡ err e
    → (bad_id ≡ e)
      ⊎ (storage ≡ e)
      ⊎ ((conflict ≡ e) × (at_version (db.credits l.tenant_id) l.version ≡ false))
unfolding upsert_with_version
upsert_failure is_uuid storage_of db l e h =
    elim (Bool-cases (at_version (db.credits l.tenant_id) l.version)) [
      | inl there ↦ ground arith
      | inr absent ↦ ground arith
    ]

module _ {Form : Type 0} (is_uuid : Str → Bool) (storage_of : Storage) where
  -- The failures of a round that has charged the credit row it read.
  written_failure :
      (db : Database Form) (cmd : Command) (purchase_id : Str) (a : Attempt Form) (e : Err)
      (credit charged : LeadCredit)
      → db.credits cmd.purchasing_tenant_id ≡ some credit
      → pos 1 ≤ℤ credit.version
      → credit.tenant_id ≡ cmd.purchasing_tenant_id
      → charge credit (pos 1) (reason_of cmd) cmd.purchasing_membership_id a.now ≡ ok charged
      → ◌>>=◌
          (upsert_with_version is_uuid storage_of (a.between db) charged)
          (λ paid. record_and_announce is_uuid storage_of paid cmd purchase_id a.now)
        ≡ err e
      → RoundFailure cmd purchase_id db (a.between db) e
  written_failure db cmd purchase_id a e credit charged found saved keyed debited h =
      let mid = a.between db in
      let Why = RoundFailure cmd purchase_id db mid in
      let (same, _, _) =
        charge_inversion credit charged (pos 1) (reason_of cmd) cmd.purchasing_membership_id a.now
          debited in
      let version : charged.version ≡ credit.version = ap (λ (l : LeadCredit). l.version) same in
      let tenant : charged.tenant_id ≡ cmd.purchasing_tenant_id =
        ap (λ (l : LeadCredit). l.tenant_id) same ∙ keyed in
      elim (bind_failure (upsert_with_version is_uuid storage_of mid charged) _ h) [
        | inl unsaved ↦ elim (upsert_failure is_uuid storage_of mid charged e unsaved) [
          | inl why ↦ subst Why why tt
          | inr (inl why) ↦ subst Why why tt
          | inr (inr (why, stale)) ↦
              subst Why why (credit, found, rw (sym tenant, sym version) stale)
        ]
        | inr (paid, stored, h₁) ↦
            let (_, _, _, written) =
              upsert_inversion is_uuid storage_of mid paid charged
                (subst (λ v. pos 1 ≤ℤ v) (sym version) saved) stored in
            RoundFailure-late cmd purchase_id db mid e (
              subst (λ (x : Database Form). LateFailure cmd purchase_id x e) written
                (late_failure is_uuid storage_of paid cmd purchase_id a.now e h₁))
      ]

  -- What a round that fails has found.
  pub round_failure :
      (db : Database Form) (cmd : Command) (purchase_id : Str) (a : Attempt Form) (e : Err)
      → ((l : LeadCredit) → db.credits cmd.purchasing_tenant_id ≡ some l → pos 1 ≤ℤ l.version)
      → ((l : LeadCredit)
          → db.credits cmd.purchasing_tenant_id ≡ some l
          → l.tenant_id ≡ cmd.purchasing_tenant_id)
      → run_once is_uuid storage_of db cmd purchase_id a ≡ err e
      → RoundFailure cmd purchase_id db (a.between db) e
  unfolding run_once
  round_failure db cmd purchase_id a e saved keyed h =
      let t = cmd.purchasing_tenant_id in
      let Why = RoundFailure cmd purchase_id db (a.between db) in
      elim (bind_failure (fail_if (not (is_uuid t)) bad_id) _ h) [
        | inl bad ↦ let (_, why) = fail_if_failure (not (is_uuid t)) bad_id bad in subst Why why tt
        | inr (_, _, h₁) ↦ elim (bind_failure (find_row (db.credits t) insufficient_credits) _ h₁) [
          | inl missing ↦
              let (absent, why) = find_row_failure (db.credits t) insufficient_credits missing in
              subst Why why (inl absent)
          | inr (credit, read, h₂) ↦
              let found = find_row_inversion (db.credits t) insufficient_credits read in
              let debit =
                charge credit (pos 1) (reason_of cmd) cmd.purchasing_membership_id a.now in
              elim (bind_failure (map_err of_charge debit) _ h₂) [
                | inl unpaid ↦
                    let (d, failed, why) = map_err_failure of_charge debit unpaid in
                    subst Why why
                      (charge_failure cmd purchase_id db (a.between db) credit a.now d found failed)
                | inr (charged, paid, h₃) ↦
                    written_failure db cmd purchase_id a e credit charged found (saved credit found)
                      (keyed credit found) (map_err_inversion of_charge debit paid) h₃
              ]
        ]
      ]
