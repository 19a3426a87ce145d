-- ===== src/Platform/PurchaseLead/Inversion.antt =====
-- internal/platform/app/command/purchase_lead.go: how a round of the handler that succeeds has gone.
use leadkart_go.Platform.PurchaseLead.Sold.{
  IsRowOf, Sale, Recorded, Recorded-of_parts, Sale-of_parts,
}
use leadkart_go.Base.{
  Result, ◌≡◌, refl, sym, ap, ◌∙◌, Bool, true, false, not, List, [], ◌∷◌, ◌++◌, Option, none, some,
  ok, map_err, fail_if, bind_inversion, map_err_inversion, length, arith, subst, ◌>>=◌, ◌>>◌,
}
use leadkart_go.Base.Int64.{ℤ, pos, ◌≤ℤ◌, ◌<ℤ◌}
use leadkart_go.Base.Text.{Str}
use leadkart_go.Base.Clock.{Time}
use leadkart_go.Platform.LeadCredit.{LeadCredit, charge}
use leadkart_go.Platform.LeadCredit.Balance.{charge_inversion}
use leadkart_go.Platform.PlatformLead.{
  PlatformLead, LeadPurchase, TierConfig, or_default, mem_str, record_purchase,
  compute_purchase_price_paisa, purchase_count, pull_pending_purchases,
}
use leadkart_go.Platform.PlatformLead.Buyers.{record_purchase_inversion}
use leadkart_go.Platform.PurchaseLead.{
  Err, Command, Database, Storage, Attempt, LeadPurchased, insufficient_credits, lead_not_found,
  tier_not_found, storage, bad_id, reason_of, find_row, of_charge, of_record, buyers_of, bumped,
  at_version, write_credit, write_row, upsert_with_version, insert_purchases, sell, update_lead,
  enqueue, record_and_announce, lead_purchased, run_once,
}

pub find_row_inversion {ℓ} :
    {A : Type ℓ} (o : Option A) (e : _) {a : A} → find_row o e ≡ ok a → o ≡ some a
find_row_inversion none e h = cc
find_row_inversion (some a) e h = ground arith

-- What follows a successful parse of an id.
pub parsed {ℓ} :
    {A : Type ℓ} (b : Bool) (rest : Result Err A) {a : A}
    → (fail_if (not b) bad_id >> rest) ≡ ok a
    → rest ≡ ok a
parsed true rest h = h
parsed false rest h = cc

at_version_inversion :
    (o : Option LeadCredit) (v : ℤ)
    → at_version o v ≡ true
    → (row : LeadCredit) × (o ≡ some row) × (row.version ≡ v)
at_version_inversion none v h = cc
at_version_inversion (some row) v h = (row, refl, ground arith)

insert_inversion :
    (storage_of : Storage) (rows : List LeadPurchase) (p : LeadPurchase)
    (after_insert : List LeadPurchase)
    → insert_purchases storage_of rows (p ∷ []) ≡ ok after_insert
    → after_insert ≡ rows ++ p ∷ []
unfolding insert_purchases
insert_inversion storage_of rows p after_insert h = ground arith

module _ {Form : Type 0} (is_uuid : Str → Bool) (storage_of : Storage) where
  write_row_inversion :
      (b : Bool) (db d : Database Form) (l : LeadCredit)
      → pos 1 ≤ℤ l.version
      → write_row is_uuid storage_of b db l ≡ ok d
      → (b ≡ true) × (d ≡ write_credit db l.tenant_id (bumped l) l)
  write_row_inversion true db d l v h =
      let (_, _, e) =
        bind_inversion (fail_if (not (storage_of.accepts_credit (bumped l))) storage) _ h in
      (refl, ground arith)
  write_row_inversion false db d l v h = absurd (ground arith)

  pub upsert_inversion :
      (db d : Database Form) (l : LeadCredit)
      → pos 1 ≤ℤ l.version
      → upsert_with_version is_uuid storage_of db l ≡ ok d
      → (row : LeadCredit) × (db.credits l.tenant_id ≡ some row)
        × (row.version ≡ l.version)
        × (d ≡ write_credit db l.tenant_id (bumped l) l)
  unfolding upsert_with_version
  upsert_inversion db d l v h =
      let (_, _, h₁) = bind_inversion (fail_if (not (is_uuid l.tenant_id)) bad_id) _ h in
      let (same, written) =
        write_row_inversion (at_version (db.credits l.tenant_id) l.version) db d l v h₁ in
      let (row, found, version) = at_version_inversion (db.credits l.tenant_id) l.version same in
      (row, found, version, written)

  -- What a successful sale of a loaded lead has checked and done.
  pub sell_inversion :
      (db d : Database Form) (cmd : Command) (config : TierConfig) (purchase_id : Str) (now : Time)
      (price : ℤ) (l : PlatformLead Form)
      → l.pending_purchases ≡ []
      → sell is_uuid storage_of db cmd config purchase_id now l ≡ ok (d, price)
      → (p : LeadPurchase) × (p.lead_id ≡ l.id)
        × (p.tenant_id ≡ cmd.purchasing_tenant_id)
        × IsRowOf cmd purchase_id now price p
        × (mem_str cmd.purchasing_tenant_id l.buyers ≡ false)
        × (pos (length l.buyers) <ℤ or_default l.sale_limit config.default_sale_limit)
        × (pos 0 <ℤ price)
        × (d ≡ record db { purchases = db.purchases ++ p ∷ [] })
  unfolding sell pull_pending_purchases
  sell_inversion db d cmd config purchase_id now price l fresh h =
      let asked = compute_purchase_price_paisa config.base_price_paisa (purchase_count l) (pos 0) in
      let (sold, accepted, h₁) =
        bind_inversion
          (map_err of_record (
            record_purchase is_uuid l purchase_id cmd.purchasing_tenant_id
              cmd.purchasing_membership_id asked config.default_sale_limit now))
          _ h in
      let (same, absent, room, positive) =
        record_purchase_inversion is_uuid l sold purchase_id cmd.purchasing_tenant_id
          cmd.purchasing_membership_id asked config.default_sale_limit now
          (map_err_inversion of_record _ accepted) in
      let row : LeadPurchase = record {
        id = purchase_id;
        lead_id = l.id;
        tenant_id = cmd.purchasing_tenant_id;
        membership_id = cmd.purchasing_membership_id;
        amount_paisa = asked;
        purchased_at = now;
      } in
      let pending : sold.pending_purchases ≡ row ∷ [] =
        ap (λ (m : PlatformLead Form). m.pending_purchases) same
        ∙ ap (λ ps. ps ++ row ∷ []) fresh in
      let (rows, inserted_rows, h₂) =
        bind_inversion (insert_purchases storage_of db.purchases sold.pending_purchases) _ h₁ in
      let grown = insert_inversion storage_of db.purchases row rows (
        subst (λ ps. insert_purchases storage_of db.purchases ps ≡ ok rows) pending
          inserted_rows) in
      (
        row,
        refl,
        refl,
        record {
          id_same = refl;
          membership_same = refl;
          amount_same = ground arith;
          instant_same = refl;
        },
        absent,
        room,
        ground arith,
        ground arith,
      )

  pub update_lead_inversion :
      (db d : Database Form) (cmd : Command) (config : TierConfig) (purchase_id : Str) (now : Time)
      (price : ℤ)
      → update_lead is_uuid storage_of db cmd config purchase_id now ≡ ok (d, price)
      → (row : PlatformLead Form) × (db.leads cmd.platform_lead_id ≡ some row)
        × (sell is_uuid storage_of db cmd config purchase_id now (record row {
          buyers = buyers_of cmd.platform_lead_id db.purchases;
          pending_purchases = [];
        })
            ≡ ok (d, price))
  unfolding update_lead
  update_lead_inversion db d cmd config purchase_id now price h =
      let (row, found, h₁) =
        bind_inversion (find_row (db.leads cmd.platform_lead_id) lead_not_found) _
          (parsed (is_uuid cmd.platform_lead_id) _ h) in
      (row, find_row_inversion (db.leads cmd.platform_lead_id) lead_not_found found, h₁)

  enqueue_inversion :
      (db d : Database Form) (m : LeadPurchased Form) (price paid : ℤ)
      → ◌>>=◌ {B = Database Form × ℤ}
          (enqueue is_uuid storage_of db m)
          (λ written. ok (written, price))
        ≡ ok (d, paid)
      → (price ≡ paid) × (d ≡ record db { outbox = db.outbox ++ lead_purchased m ∷ [] })
  unfolding enqueue
  enqueue_inversion db d m price paid h = ground arith

  -- What the half after the payment has done when it succeeds.
  Recorded-record_and_announce :
      (paid d : Database Form) (cmd : Command) (purchase_id : Str) (now : Time) (price : ℤ)
      → record_and_announce is_uuid storage_of paid cmd purchase_id now ≡ ok (d, price)
      → Recorded paid d cmd purchase_id now price
  unfolding record_and_announce
  Recorded-record_and_announce paid d cmd purchase_id now price h =
      let (lead, read, h₁) =
        bind_inversion (find_row (paid.leads cmd.platform_lead_id) lead_not_found) _
          (parsed (is_uuid cmd.platform_lead_id) _ h) in
      let found = find_row_inversion (paid.leads cmd.platform_lead_id) lead_not_found read in
      let (config, read_tier, h₂) =
        bind_inversion (find_row (paid.tiers lead.tier) tier_not_found) _ h₁ in
      let ((updated, asked), changed, h₃) =
        bind_inversion (update_lead is_uuid storage_of paid cmd config purchase_id now) _ h₂ in
      let (reloaded, reread, h₄) =
        bind_inversion (find_row (updated.leads cmd.platform_lead_id) lead_not_found) _ h₃ in
      let (same_price, sent) = enqueue_inversion updated d _ asked price h₄ in
      let (row, locked, sold) =
        update_lead_inversion paid updated cmd config purchase_id now asked changed in
      let (p, lead_id, tenant, amount, absent, room, positive, grown) =
        sell_inversion paid updated cmd config purchase_id now asked _ refl sold in
      Recorded-of_parts paid updated d cmd purchase_id now lead row reloaded config p asked price _
        found (find_row_inversion (paid.tiers lead.tier) tier_not_found read_tier) locked lead_id
        tenant amount absent room positive grown
        (find_row_inversion (updated.leads cmd.platform_lead_id) lead_not_found reread) same_price
        sent

  pub run_once_inversion :
      (db d : Database Form) (cmd : Command) (purchase_id : Str) (a : Attempt Form) (price : ℤ)
      → ((l : LeadCredit) → db.credits cmd.purchasing_tenant_id ≡ some l → pos 1 ≤ℤ l.version)
      → run_once is_uuid storage_of db cmd purchase_id a ≡ ok (d, price)
      → Sale db (a.between db) d cmd purchase_id a.now price
  unfolding run_once
  run_once_inversion db d cmd purchase_id a price saved h =
      let (credit, read, h₁) =
        bind_inversion (find_row (db.credits cmd.purchasing_tenant_id) insufficient_credits) _
          (parsed (is_uuid cmd.purchasing_tenant_id) _ h) in
      let found =
        find_row_inversion (db.credits cmd.purchasing_tenant_id) insufficient_credits read in
      let (charged, debited, h₂) =
        bind_inversion
          (map_err of_charge
            (charge credit (pos 1) (reason_of cmd) cmd.purchasing_membership_id a.now))
          _ h₁ in
      let (same, _, covered) =
        charge_inversion credit charged (pos 1) (reason_of cmd) cmd.purchasing_membership_id a.now
          (map_err_inversion of_charge _ debited) in
      let version : charged.version ≡ credit.version = ap (λ (l : LeadCredit). l.version) same in
      let (paid, stored, h₃) =
        bind_inversion (upsert_with_version is_uuid storage_of (a.between db) charged) _ h₂ in
      let (row, there, unchanged, written) =
        upsert_inversion (a.between db) paid charged
          (subst (λ v. pos 1 ≤ℤ v) (sym version) (saved credit found)) stored in
      Sale-of_parts db (a.between db) d cmd purchase_id a.now price credit charged row found
        (ap (λ (l : LeadCredit). l.tenant_id) same) version
        (ap (λ (l : LeadCredit). l.balance) same) covered there unchanged
        (subst (λ (x : Database Form). Recorded x d cmd purchase_id a.now price) written
          (Recorded-record_and_announce paid d cmd purchase_id a.now price h₃))
