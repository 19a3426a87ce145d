-- ===== src/Platform/InitialiseLeadCredits/Effect.antt =====
-- internal/platform/app/command/initialise_lead_credits.go: what is stored when the handler answers.
use leadkart_go.Base.{
  ◌≡◌, refl, sym, ap, ◌∙◌, inl, inr, Bool, true, false, not, Option, none, some, Result, ok, err,
  Result-cases, Bool-cases, is_some, is_empty, arith,
}
use leadkart_go.Base.Int64.{pos}
use leadkart_go.Base.Text.{Str}
use leadkart_go.Base.Clock.{Time}
use leadkart_go.Platform.LeadCredit.{LeadCredit, new_for_tenant}
use leadkart_go.Platform.PurchaseLead.{
  Database, Storage, put_credit, at_version, upsert_with_version, is_conflict, conflict,
}
use leadkart_go.Platform.PurchaseLead as Store
use leadkart_go.Platform.PurchaseLead.Answers.{upsert_with_version-fresh}
use leadkart_go.Platform.TopupLeadCredits.Effect.{
  IsStored, Written, written, Written-upsert_with_version, new_for_tenant_inversion, at_version_row,
  not_saved,
}
use leadkart_go.Platform.InitialiseLeadCredits.{
  Err, credits_error, store_error, acknowledge, insert_fresh, after_read, handle,
}

-- What the handler answers, and what it has done: a row that is there stays as it is, a missing one is
-- inserted without credits, and an error leaves what the others had committed.
pub data Answer {Form : Type 0} (mid final : Database Form) (tenant_id : Str)
    : Result Err Bool → Type 0 where
  existed :
      final ≡ mid → is_some (mid.credits tenant_id) ≡ true → Answer mid final tenant_id (ok true)
  inserted :
      (row : LeadCredit)
      → mid.credits tenant_id ≡ none
      → final.credits ≡ put_credit tenant_id row mid.credits
      → row.balance ≡ pos 0
      → final.purchases ≡ mid.purchases
      → Answer mid final tenant_id (ok false)
  refused : (e : Err) → final ≡ mid → Answer mid final tenant_id (err e)

is_conflict_inversion : (e : Store.Err) → is_conflict e ≡ true → e ≡ conflict
is_conflict_inversion e h = ground arith

-- A fresh row is written only where there is none.
inserted-Answer :
    {Form : Type 0} (mid d : Database Form) (tenant_id : Str) (credit : LeadCredit)
    → IsStored mid
    → credit.tenant_id ≡ tenant_id
    → credit.version ≡ pos 0
    → credit.balance ≡ pos 0
    → Written mid d credit
    → Answer mid d tenant_id (ok false)
inserted-Answer mid d tenant_id credit stored tenant version empty
      (written row same rows purchases how) =
    elim how [
      | inl current ↦
          let (old, found, is_zero) =
            at_version_row (mid.credits credit.tenant_id) credit.version current in
          absurd
            (not_saved old.version (stored.saved credit.tenant_id old found) (is_zero ∙ version))
      | inr (absent, _) ↦
          inserted row (rw (sym tenant) absent) (rw (sym tenant) rows) (same ∙ empty) purchases
    ]

module _ {Form : Type 0} (is_uuid : Str → Bool) (storage_of : Storage) where
  acknowledge-Answer :
      (mid : Database Form) (tenant_id : Str) (credit : LeadCredit)
      → IsStored mid
      → credit.tenant_id ≡ tenant_id
      → credit.version ≡ pos 0
      → credit.balance ≡ pos 0
      → let (final, answer) = acknowledge mid (upsert_with_version is_uuid storage_of mid credit) in
        Answer mid final tenant_id answer
  acknowledge-Answer mid tenant_id credit stored tenant version empty =
      elim (Result-cases (upsert_with_version is_uuid storage_of mid credit)) [
        | inl (d, saved) ↦
            rw (saved, acknowledge)
              (inserted-Answer mid d tenant_id credit stored tenant version empty
                (Written-upsert_with_version is_uuid storage_of mid d credit saved))
        | inr (e, failed) ↦ elim (Bool-cases (is_conflict e)) [
          | inl stale ↦ absurd (
              upsert_with_version-fresh is_uuid storage_of mid credit version
                (failed ∙ ap (λ x. err x) (is_conflict_inversion e stale)))
          | inr other ↦ rw (failed, acknowledge, other) (refused (store_error e) refl)
        ]
      ]

  insert_fresh-Answer :
      (mid : Database Form) (tenant_id : Str) (now : Time)
      → IsStored mid
      → let (final, answer) = insert_fresh is_uuid storage_of mid tenant_id now in
        Answer mid final tenant_id answer
  unfolding insert_fresh
  insert_fresh-Answer mid tenant_id now stored =
      elim (Result-cases (new_for_tenant is_uuid tenant_id now)) [
        | inl (credit, fresh) ↦
            let (tenant, version, empty) =
              new_for_tenant_inversion is_uuid tenant_id now credit fresh in
            rw (fresh, insert_fresh)
              (acknowledge-Answer mid tenant_id credit stored tenant version empty)
        | inr (e, failed) ↦ rw (failed, insert_fresh) (refused (credits_error e) refl)
      ]

  after_read-Answer :
      (o : Option LeadCredit) (mid : Database Form) (tenant_id : Str) (now : Time)
      → IsStored mid
      → (is_some o ≡ true → is_some (mid.credits tenant_id) ≡ true)
      → let (final, answer) = after_read is_uuid storage_of o mid tenant_id now in
        Answer mid final tenant_id answer
  unfolding after_read
  after_read-Answer (some l) mid tenant_id now stored kept = existed refl (kept refl)
  after_read-Answer none mid tenant_id now stored kept =
      insert_fresh-Answer mid tenant_id now stored

-- An answer without an error means that the tenant has a row, if the rows that the others leave stand
-- under their keys and have been saved, and a row that was read is not deleted: one that is there
-- already is left as it is, and a missing one is inserted without credits, with no other row and no
-- purchase touched. An error leaves what the others had committed.
pub handle-Ready :
    {Form : Type 0} (is_uuid : Str → Bool) (storage_of : Storage) (db : Database Form)
    (between : Database Form → Database Form) (tenant_id : Str) (now : Time)
    → IsStored (between db)
    → (is_some (db.credits tenant_id) ≡ true → is_some ((between db).credits tenant_id) ≡ true)
    → let (final, answer) = handle is_uuid storage_of db between tenant_id now in
      Answer (between db) final tenant_id answer
unfolding handle
handle-Ready is_uuid storage_of db between tenant_id now stored kept =
    elim (Bool-cases (is_empty tenant_id)) [
      | inl missing ↦ rw missing (refused _ refl)
      | inr given ↦ elim (Bool-cases (not (is_uuid tenant_id))) [
        | inl bad ↦ rw (given, bad) (refused _ refl)
        | inr good ↦
            rw (given, good)
              (after_read-Answer is_uuid storage_of (db.credits tenant_id) (between db) tenant_id
                now stored kept)
      ]
    ]
