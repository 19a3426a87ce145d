-- ===== src/Platform/PurchaseLead/Sold.antt =====
-- internal/platform/app/command/purchase_lead.go: what a round of the handler that succeeds has read,
-- checked and written.
use leadkart_go.Base.{◌≡◌, sym, ap, ◌∙◌, false, List, [], ◌∷◌, ◌++◌, some, length, arith, subst}
use leadkart_go.Base.Int64.{ℤ, pos, ◌≤ℤ◌, ◌<ℤ◌, sub64}
use leadkart_go.Base.Text.{Str}
use leadkart_go.Base.Clock.{Time}
use leadkart_go.Platform.LeadCredit.{LeadCredit}
use leadkart_go.Platform.PlatformLead.{PlatformLead, LeadPurchase, TierConfig, or_default, mem_str}
use leadkart_go.Platform.PurchaseLead.{
  Command, Database, Message, put_credit, buyers_of, bumped, write_credit, lead_purchased,
}

pub some_injective {ℓ} : {A : Type ℓ} {a b : A} → some a ≡ some b → a ≡ b
some_injective h = ground arith

-- The purchase row of a command, but for its lead and its tenant.
pub record IsRowOf (cmd : Command) (purchase_id : Str) (now : Time) (price : ℤ) (p : LeadPurchase)
    : Type 0 where
  pub id_same : p.id ≡ purchase_id
  pub membership_same : p.membership_id ≡ cmd.purchasing_membership_id
  pub amount_same : p.amount_paisa ≡ price
  pub instant_same : p.purchased_at ≡ now

-- The message to the buyer.
abbrev pub message_of : {Form : Type 0} → Command → Str → Time → ℤ → Form → Message Form
message_of cmd purchase_id now price form = lead_purchased (record {
  purchase_id = purchase_id;
  tenant_id = cmd.purchasing_tenant_id;
  platform_lead_id = cmd.platform_lead_id;
  purchased_at = now;
  purchased_by_membership_id = cmd.purchasing_membership_id;
  amount_paisa = price;
  lead_snapshot = form;
})

-- What a successful round has read and written.
pub data Sale {Form : Type 0} (db mid d : Database Form) (cmd : Command) (purchase_id : Str)
    (now : Time) (price : ℤ) : Type 0 where
  sale :
      (credit charged row : LeadCredit) (lead : PlatformLead Form) (config : TierConfig)
      (p : LeadPurchase) (earlier : List (Message Form))
      → db.credits cmd.purchasing_tenant_id ≡ some credit
      → charged.tenant_id ≡ credit.tenant_id
      → charged.version ≡ credit.version
      → charged.balance ≡ sub64 credit.balance (pos 1)
      → pos 1 ≤ℤ credit.balance
      → mid.credits charged.tenant_id ≡ some row
      → row.version ≡ charged.version
      → mid.leads cmd.platform_lead_id ≡ some lead
      → mid.tiers lead.tier ≡ some config
      → p.lead_id ≡ lead.id
      → p.tenant_id ≡ cmd.purchasing_tenant_id
      → IsRowOf cmd purchase_id now price p
      → pos 0 <ℤ price
      → mem_str cmd.purchasing_tenant_id (buyers_of cmd.platform_lead_id mid.purchases) ≡ false
      → pos (length (buyers_of cmd.platform_lead_id mid.purchases))
        <ℤ or_default lead.sale_limit config.default_sale_limit
      → d ≡ record {
        credits = put_credit charged.tenant_id (bumped charged) mid.credits;
        leads = mid.leads;
        tiers = mid.tiers;
        purchases = mid.purchases ++ p ∷ [];
        outbox = earlier ++ message_of cmd purchase_id now price lead.form ∷ [];
      }
      → Sale db mid d cmd purchase_id now price

-- The half after the payment.
pub data Recorded {Form : Type 0} (paid d : Database Form) (cmd : Command) (purchase_id : Str)
    (now : Time) (price : ℤ) : Type 0 where
  recorded :
      (lead : PlatformLead Form) (config : TierConfig) (p : LeadPurchase)
      (earlier : List (Message Form))
      → paid.leads cmd.platform_lead_id ≡ some lead
      → paid.tiers lead.tier ≡ some config
      → p.lead_id ≡ lead.id
      → p.tenant_id ≡ cmd.purchasing_tenant_id
      → IsRowOf cmd purchase_id now price p
      → pos 0 <ℤ price
      → mem_str cmd.purchasing_tenant_id (buyers_of cmd.platform_lead_id paid.purchases) ≡ false
      → pos (length (buyers_of cmd.platform_lead_id paid.purchases))
        <ℤ or_default lead.sale_limit config.default_sale_limit
      → d ≡ record paid {
        purchases = paid.purchases ++ p ∷ [];
        outbox = earlier ++ message_of cmd purchase_id now price lead.form ∷ [];
      }
      → Recorded paid d cmd purchase_id now price

module _ {Form : Type 0} (paid updated d : Database Form) (cmd : Command) (purchase_id : Str)
    (now : Time) (lead row reloaded : PlatformLead Form) (config : TierConfig) (p : LeadPurchase)
    (asked price : ℤ) (earlier : List (Message Form)) where
  pub Recorded-of_parts :
      paid.leads cmd.platform_lead_id ≡ some lead
      → paid.tiers lead.tier ≡ some config
      → paid.leads cmd.platform_lead_id ≡ some row
      → p.lead_id ≡ row.id
      → p.tenant_id ≡ cmd.purchasing_tenant_id
      → IsRowOf cmd purchase_id now asked p
      → mem_str cmd.purchasing_tenant_id (buyers_of cmd.platform_lead_id paid.purchases) ≡ false
      → pos (length (buyers_of cmd.platform_lead_id paid.purchases))
        <ℤ or_default row.sale_limit config.default_sale_limit
      → pos 0 <ℤ asked
      → updated ≡ record paid { purchases = paid.purchases ++ p ∷ [] }
      → updated.leads cmd.platform_lead_id ≡ some reloaded
      → asked ≡ price
      → d ≡ record updated {
        outbox = earlier ++ message_of cmd purchase_id now asked reloaded.form ∷ [];
      }
      → Recorded paid d cmd purchase_id now price
  Recorded-of_parts found tier locked lead_id tenant own absent room positive grown again same
        sent =
      let one : lead ≡ row = ground arith in
      let kept : reloaded ≡ lead =
        some_injective
          (sym again ∙ ap (λ (u : Database Form). u.leads cmd.platform_lead_id) grown ∙ found) in
      recorded lead config p earlier found tier
        (lead_id ∙ ap (λ (l : PlatformLead Form). l.id) (sym one)) tenant
        (subst (λ q. IsRowOf cmd purchase_id now q p) same own)
        (subst (λ (z : ℤ). pos 0 <ℤ z) same positive) absent
        (subst
          (λ (l : PlatformLead Form).
            pos (length (buyers_of cmd.platform_lead_id paid.purchases))
            <ℤ or_default l.sale_limit config.default_sale_limit)
          (sym one) room)
        (sent
          ∙ ap
              (λ (u : Database Form). record u {
                outbox = earlier ++ message_of cmd purchase_id now asked reloaded.form ∷ [];
              })
              grown
          ∙ ap
              (λ (q : ℤ). record paid {
                purchases = paid.purchases ++ p ∷ [];
                outbox = earlier ++ message_of cmd purchase_id now q reloaded.form ∷ [];
              })
              same
          ∙ ap
              (λ (l : PlatformLead Form). record paid {
                purchases = paid.purchases ++ p ∷ [];
                outbox = earlier ++ message_of cmd purchase_id now price l.form ∷ [];
              })
              kept)

module _ {Form : Type 0} (db mid d : Database Form) (cmd : Command) (purchase_id : Str) (now : Time)
    (price : ℤ) (credit charged row : LeadCredit) where
  pub Sale-of_parts :
      db.credits cmd.purchasing_tenant_id ≡ some credit
      → charged.tenant_id ≡ credit.tenant_id
      → charged.version ≡ credit.version
      → charged.balance ≡ sub64 credit.balance (pos 1)
      → pos 1 ≤ℤ credit.balance
      → mid.credits charged.tenant_id ≡ some row
      → row.version ≡ charged.version
      → Recorded
          (write_credit mid charged.tenant_id (bumped charged) charged)
          d
          cmd
          purchase_id
          now
          price
      → Sale db mid d cmd purchase_id now price
  Sale-of_parts read id version balance covered there unchanged
        (recorded lead config p earlier found tier lead_id tenant amount positive absent room
          grown) =
      sale credit charged row lead config p earlier read id version balance covered there unchanged
        found tier lead_id tenant amount positive absent room grown
