-- ===== src/Platform/PurchaseLead/Failures.antt =====
-- internal/platform/app/command/purchase_lead.go: what a sale that fails has found.
use leadkart_go.Base.{
  ◌≡◌, refl, sym, ap, subst, ◌∙◌, ◌⊎◌, inl, inr, Bool, true, false, not, List, [], ◌∷◌, ◌++◌,
  Option, none, some, err, fail_if, map_err, bind_failure, map_err_failure, fail_if_failure,
  map_err_inversion, length, arith,
}
use leadkart_go.Base.Int64.{ℤ, pos, ◌≤ℤ◌}
use leadkart_go.Base.Text.{Str}
use leadkart_go.Base.Clock.{Time}
use leadkart_go.Platform.PlatformLead.{
  PlatformLead, LeadPurchase, TierConfig, or_default, mem_str, sold_to, record_purchase,
  compute_purchase_price_paisa, purchase_count, pull_pending_purchases,
}
use leadkart_go.Platform.PlatformLead as Leads
use leadkart_go.Platform.PlatformLead.Buyers.{record_purchase_inversion}
use leadkart_go.Platform.PurchaseLead.Inversion.{find_row_inversion}
use leadkart_go.Platform.PurchaseLead.Sold.{some_injective}
use leadkart_go.Platform.PurchaseLead.{
  Err, lead_not_found, sold_out, already_purchased, insufficient_credits, conflict, cancelled,
  tier_not_found, bad_id, storage, charge_error, record_error, Command, Database, Storage, find_row,
  of_record, buyers_of, is_taken, insert_purchases, sell, update_lead,
}

pub find_row_failure {ℓ} :
    {A : Type ℓ} (o : Option A) (d : Err) {e : Err} → find_row o d ≡ err e → (o ≡ none) × (d ≡ e)
find_row_failure none d h = (refl, ground arith)
find_row_failure (some a) d h = cc

-- A row that would break a key of the purchase rows: the id of the purchase, or its tenant.
abbrev pub IsDuplicate : Command → Str → List LeadPurchase → Type 0
IsDuplicate cmd purchase_id rows =
    (p : LeadPurchase) × (p.id ≡ purchase_id)
    × (p.tenant_id ≡ cmd.purchasing_tenant_id)
    × (is_taken p rows ≡ true)

module _ {Form : Type 0} (cmd : Command) (purchase_id : Str) where
  -- What an error of a sale says of the loaded lead and the purchase rows.
  abbrev SaleFailure : PlatformLead Form → TierConfig → List LeadPurchase → Err → Type 0
  SaleFailure l config rows already_purchased =
      (mem_str cmd.purchasing_tenant_id l.buyers ≡ true) ⊎ IsDuplicate cmd purchase_id rows
  SaleFailure l config rows sold_out =
      or_default l.sale_limit config.default_sale_limit ≤ℤ pos (length l.buyers)
  SaleFailure l config rows storage = Unit
  SaleFailure l config rows (record_error e) = Unit
  SaleFailure l config rows _ = true ≡ false

  -- What an error after the payment says of the leads, the tiers and the purchase rows.
  abbrev pub LateFailure : Database Form → Err → Type 0
  LateFailure mid lead_not_found = mid.leads cmd.platform_lead_id ≡ none
  LateFailure mid tier_not_found =
      (lead : PlatformLead Form) × (mid.leads cmd.platform_lead_id ≡ some lead)
      × (mid.tiers lead.tier ≡ none)
  LateFailure mid already_purchased =
      (mem_str cmd.purchasing_tenant_id (buyers_of cmd.platform_lead_id mid.purchases) ≡ true)
      ⊎ IsDuplicate cmd purchase_id mid.purchases
  LateFailure mid sold_out =
      (lead : PlatformLead Form) × (config : TierConfig) × (mid.leads cmd.platform_lead_id
        ≡ some lead)
      × (mid.tiers lead.tier ≡ some config)
      × (or_default lead.sale_limit config.default_sale_limit
          ≤ℤ pos (length (buyers_of cmd.platform_lead_id mid.purchases)))
  LateFailure mid bad_id = Unit
  LateFailure mid storage = Unit
  LateFailure mid (record_error e) = Unit
  LateFailure mid _ = true ≡ false

insert_failure :
    (storage_of : Storage) (rows : List LeadPurchase) (p : LeadPurchase) (e : Err)
    → insert_purchases storage_of rows (p ∷ []) ≡ err e
    → ((is_taken p rows ≡ true) × (already_purchased ≡ e)) ⊎ (storage ≡ e)
unfolding insert_purchases
insert_failure storage_of rows p e h = ground arith

module _ {Form : Type 0} (cmd : Command) (purchase_id : Str) (paid : Database Form)
    (lead : PlatformLead Form) (config : TierConfig)
    (found : paid.leads cmd.platform_lead_id ≡ some lead)
    (tier : paid.tiers lead.tier ≡ some config) where
  -- What a sale of the lead, with its buyers, says of the database.
  LateFailure-sale :
      (e : Err)
      → SaleFailure cmd purchase_id
          (record lead {
            buyers = buyers_of cmd.platform_lead_id paid.purchases;
            pending_purchases = [];
          })
          config
          paid.purchases
          e
      → LateFailure cmd purchase_id paid e
  LateFailure-sale lead_not_found h = cc
  LateFailure-sale tier_not_found h = cc
  LateFailure-sale already_purchased h = h
  LateFailure-sale sold_out h = (lead, config, found, tier, h)
  LateFailure-sale bad_id h = tt
  LateFailure-sale storage h = tt
  LateFailure-sale (record_error e) h = tt
  LateFailure-sale (charge_error e) h = h
  LateFailure-sale insufficient_credits h = h
  LateFailure-sale conflict h = h
  LateFailure-sale cancelled h = h

module _ {Form : Type 0} (is_uuid : Str → Bool) (storage_of : Storage) where
  record_failure :
      (l : PlatformLead Form) (cmd : Command) (purchase_id : Str) (config : TierConfig)
      (rows : List LeadPurchase) (price : ℤ) (now : Time) (e : Leads.Err)
      → record_purchase is_uuid l purchase_id cmd.purchasing_tenant_id cmd.purchasing_membership_id
          price config.default_sale_limit now
        ≡ err e
      → SaleFailure cmd purchase_id l config rows (of_record e)
  unfolding record_purchase
  record_failure l cmd purchase_id config rows price now Leads.invalid h = tt
  record_failure l cmd purchase_id config rows price now Leads.already_purchased h =
      inl (ground arith)
  record_failure l cmd purchase_id config rows price now Leads.sold_out h = ground arith

  sell_failure :
      (db : Database Form) (cmd : Command) (config : TierConfig) (purchase_id : Str) (now : Time)
      (l : PlatformLead Form) (e : Err)
      → l.pending_purchases ≡ []
      → sell is_uuid storage_of db cmd config purchase_id now l ≡ err e
      → SaleFailure cmd purchase_id l config db.purchases e
  unfolding sell pull_pending_purchases
  sell_failure db cmd config purchase_id now l e fresh h =
      let asked = compute_purchase_price_paisa config.base_price_paisa (purchase_count l) (pos 0) in
      let sold_by =
        record_purchase is_uuid l purchase_id cmd.purchasing_tenant_id cmd.purchasing_membership_id
          asked config.default_sale_limit now in
      elim (bind_failure (map_err of_record sold_by) _ h) [
        | inl refused ↦
            let (d, failed, same) = map_err_failure of_record sold_by refused in
            subst (SaleFailure cmd purchase_id l config db.purchases) same
              (record_failure l cmd purchase_id config db.purchases asked now d failed)
        | inr (sold, accepted, h₁) ↦
            let (same, _, _, _) =
              record_purchase_inversion is_uuid l sold purchase_id cmd.purchasing_tenant_id
                cmd.purchasing_membership_id asked config.default_sale_limit now
                (map_err_inversion of_record sold_by accepted) in
            let row : LeadPurchase = record {
              id = purchase_id;
              lead_id = l.id;
              tenant_id = cmd.purchasing_tenant_id;
              membership_id = cmd.purchasing_membership_id;
              amount_paisa = asked;
              purchased_at = now;
            } in
            let pending : sold.pending_purchases ≡ row ∷ [] =
              ap (λ (m : PlatformLead Form). m.pending_purchases) same
              ∙ ap (λ ps. ps ++ row ∷ []) fresh in
            elim (bind_failure (insert_purchases storage_of db.purchases sold.pending_purchases) _
              h₁) [
                | inl failed ↦
                    elim (insert_failure storage_of db.purchases row e (
                      subst (λ ps. insert_purchases storage_of db.purchases ps ≡ err e) pending
                        failed)) [
                          | inl (taken, why) ↦
                              subst (SaleFailure cmd purchase_id l config db.purchases) why
                                (inr (row, refl, refl, taken))
                          | inr why ↦
                              subst (SaleFailure cmd purchase_id l config db.purchases) why tt
                        ]
                | inr (rows, _, h₂) ↦ cc
              ]
      ]

  pub update_failure :
      (paid : Database Form) (cmd : Command) (config : TierConfig) (purchase_id : Str) (now : Time)
      (lead : PlatformLead Form) (e : Err)
      → paid.leads cmd.platform_lead_id ≡ some lead
      → paid.tiers lead.tier ≡ some config
      → update_lead is_uuid storage_of paid cmd config purchase_id now ≡ err e
      → LateFailure cmd purchase_id paid e
  unfolding update_lead
  update_failure paid cmd config purchase_id now lead e found tier h =
      elim (bind_failure (fail_if (not (is_uuid cmd.platform_lead_id)) bad_id) _ h) [
        | inl bad ↦
            let (_, why) = fail_if_failure (not (is_uuid cmd.platform_lead_id)) bad_id bad in
            subst (LateFailure cmd purchase_id paid) why tt
        | inr (_, _, h₁) ↦
            elim (bind_failure (find_row (paid.leads cmd.platform_lead_id) lead_not_found) _ h₁) [
              | inl missing ↦
                  let (absent, why) =
                    find_row_failure (paid.leads cmd.platform_lead_id) lead_not_found missing in
                  subst (LateFailure cmd purchase_id paid) why absent
              | inr (row, locked, h₂) ↦
                  let there =
                    find_row_inversion (paid.leads cmd.platform_lead_id) lead_not_found locked in
                  let one : lead ≡ row = some_injective (sym found ∙ there) in
                  LateFailure-sale cmd purchase_id paid row config there
                    (ap (λ (l : PlatformLead Form). paid.tiers l.tier) (sym one) ∙ tier) e
                    (sell_failure paid cmd config purchase_id now _ e refl h₂)
            ]
      ]
