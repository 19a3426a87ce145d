-- ===== src/Platform/PurchaseLead/Answers.antt =====
-- internal/platform/app/command/purchase_lead.go: what the answer of the handler says of the database.
use leadkart_go.Base.{
  arith, ◌≢◌, ◌≡◌, Bool, true, List, [], ◌∷◌, ◌++◌, some, Result, ok, err, Bool-cases, ◌⊎◌, inl,
  inr,
}
use leadkart_go.Base.Int64.{pos, ◌≤ℤ◌, ◌<ℤ◌, sub64}
use leadkart_go.Base.Text.{Str}
use leadkart_go.Base.Clock.{Time}
use leadkart_go.Platform.PlatformLead.{PlatformLead, LeadPurchase}
use leadkart_go.Platform.LeadCredit.{LeadCredit}
use leadkart_go.Platform.PurchaseLead.Sold.{message_of}
use leadkart_go.Platform.PurchaseLead.Refusals.{RoundFailure}
use leadkart_go.Platform.PurchaseLead.{
  upsert_with_version, at_version, conflict, cancelled, Command, PurchaseResult, Database, Storage,
  Attempt, Message, Err,
}

-- A sale on top of what the others had committed: the row of the command under the answered id and at
-- the answered amount, the message to the buyer with the form of the lead, and one credit less in the
-- row of the tenant.
pub record IsBought {Form : Type 0} (cmd : Command) (r : PurchaseResult) (mid d : Database Form)
    (now : Time) : Type 0 where
  pub row : LeadPurchase
  pub lead : PlatformLead Form
  pub credit : LeadCredit
  pub debited : LeadCredit
  pub earlier : List (Message Form)
  pub listed : mid.leads cmd.platform_lead_id ≡ some lead
  pub id_answered : row.id ≡ r.purchase_id
  pub lead_requested : row.lead_id ≡ cmd.platform_lead_id
  pub tenant_requested : row.tenant_id ≡ cmd.purchasing_tenant_id
  pub membership_requested : row.membership_id ≡ cmd.purchasing_membership_id
  pub amount_answered : row.amount_paisa ≡ r.amount_paisa
  pub amount_positive : pos 0 <ℤ r.amount_paisa
  pub instant : row.purchased_at ≡ now
  pub recorded : d.purchases ≡ mid.purchases ++ row ∷ []
  pub announced :
      d.outbox ≡ earlier ++ message_of cmd r.purchase_id now r.amount_paisa lead.form ∷ []
  pub credit_before : mid.credits cmd.purchasing_tenant_id ≡ some credit
  pub covered : pos 1 ≤ℤ credit.balance
  pub credit_after : d.credits cmd.purchasing_tenant_id ≡ some debited
  pub paid : debited.balance ≡ sub64 credit.balance (pos 1)

-- What an answered error says: the failure of the round, or a sleep that failed after a conflict.
abbrev pub AnswerFailure :
    {Form : Type 0} → Command → Str → Database Form → Attempt Form → Err → Type 0
AnswerFailure cmd purchase_id start a cancelled =
    (a.sleep_fails ≡ true) × RoundFailure cmd purchase_id start (a.between start) conflict
AnswerFailure cmd purchase_id start a e = RoundFailure cmd purchase_id start (a.between start) e

-- In one of the rounds, which start from what the others committed in the rounds before.
abbrev pub SomeRound :
    {Form : Type 0}
    → (Database Form → Attempt Form → Type 0)
    → Database Form
    → Attempt Form
    → List (Attempt Form)
    → Type 0
SomeRound P db a [] = P db a
SomeRound P db a (b ∷ more) = P db a ⊎ SomeRound P (a.between db) b more

module _ {Form : Type 0} (cmd : Command) (purchase_id : Str) where
  -- A purchase took place as answered; a refusal left what the others had committed, and its error is
  -- what the round has found.
  abbrev pub IsExplained :
      Database Form
      → Attempt Form
      → List (Attempt Form)
      → Database Form
      → Result Err PurchaseResult
      → Type 0
  IsExplained db a more d (ok r) =
      (r.purchase_id ≡ purchase_id)
      × SomeRound (λ start x. IsBought cmd r (x.between start) d x.now) db a more
  IsExplained db a more d (err e) =
      SomeRound (λ start x. (d ≡ x.between start) × AnswerFailure cmd purchase_id start x e) db a
        more

-- Saving a credit row that was never saved, of version 0, never answers with a conflict, whatever the
-- database has, also when another transaction has inserted the tenant's row meanwhile.
pub upsert_with_version-fresh :
    {Form : Type 0} (is_uuid : Str → Bool) (storage_of : Storage) (db : Database Form)
    (l : LeadCredit)
    → l.version ≡ pos 0
    → upsert_with_version is_uuid storage_of db l ≢ err conflict
unfolding upsert_with_version
upsert_with_version-fresh is_uuid storage_of db l v h =
    elim (Bool-cases (at_version (db.credits l.tenant_id) l.version)) [
      | inl there ↦ ground arith
      | inr absent ↦ ground arith
    ]
