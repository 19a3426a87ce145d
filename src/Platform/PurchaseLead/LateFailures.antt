-- ===== src/Platform/PurchaseLead/LateFailures.antt =====
-- internal/platform/app/command/purchase_lead.go: what the half of a round after the payment has found when
-- it fails.
use leadkart_go.Platform.PurchaseLead.Failures.{LateFailure, find_row_failure, update_failure}
use leadkart_go.Base.{
  ◌≡◌, refl, sym, ap, subst, ◌∙◌, inl, inr, Bool, not, Option, ok, err, ◌>>=◌, fail_if,
  bind_failure, fail_if_failure, arith,
}
use leadkart_go.Base.Int64.{ℤ}
use leadkart_go.Base.Text.{Str}
use leadkart_go.Base.Clock.{Time}
use leadkart_go.Platform.PlatformLead.{PlatformLead, TierConfig}
use leadkart_go.Platform.PurchaseLead.Inversion.{
  find_row_inversion, sell_inversion, update_lead_inversion,
}
use leadkart_go.Platform.PurchaseLead.{
  Err, lead_not_found, tier_not_found, bad_id, storage, Command, Database, Storage, LeadPurchased,
  find_row, update_lead, enqueue, record_and_announce,
}

module _ {Form : Type 0} (is_uuid : Str → Bool) (storage_of : Storage) where
  -- A sale leaves the leads as they are.
  leads_kept :
      (paid updated : Database Form) (cmd : Command) (config : TierConfig) (purchase_id : Str)
      (now : Time) (price : ℤ)
      → update_lead is_uuid storage_of paid cmd config purchase_id now ≡ ok (updated, price)
      → updated.leads ≡ paid.leads
  leads_kept paid updated cmd config purchase_id now price h =
      let (row, _, sold) =
        update_lead_inversion is_uuid storage_of paid updated cmd config purchase_id now price h in
      let (p, _, _, _, _, _, _, grown) =
        sell_inversion is_uuid storage_of paid updated cmd config purchase_id now price _ refl
          sold in
      ap (λ (u : Database Form). u.leads) grown

  enqueue_failure :
      (db : Database Form) (m : LeadPurchased Form) (price : ℤ) (e : Err)
      → ◌>>=◌ {B = Database Form × ℤ}
          (enqueue is_uuid storage_of db m)
          (λ written. ok (written, price))
        ≡ err e
      → storage ≡ e
  unfolding enqueue
  enqueue_failure db m price e h = ground arith

  pub late_failure :
      (paid : Database Form) (cmd : Command) (purchase_id : Str) (now : Time) (e : Err)
      → record_and_announce is_uuid storage_of paid cmd purchase_id now ≡ err e
      → LateFailure cmd purchase_id paid e
  unfolding record_and_announce
  late_failure paid cmd purchase_id now e h =
      elim (bind_failure (fail_if (not (is_uuid cmd.platform_lead_id)) bad_id) _ h) [
        | inl bad ↦
            let (_, why) = fail_if_failure (not (is_uuid cmd.platform_lead_id)) bad_id bad in
            subst (LateFailure cmd purchase_id paid) why tt
        | inr (_, _, h₁) ↦
            elim (bind_failure (find_row (paid.leads cmd.platform_lead_id) lead_not_found) _ h₁) [
              | inl missing ↦
                  let (absent, why) =
                    find_row_failure (paid.leads cmd.platform_lead_id) lead_not_found missing in
                  subst (LateFailure cmd purchase_id paid) why absent
              | inr (lead, read, h₂) ↦
                  let found =
                    find_row_inversion (paid.leads cmd.platform_lead_id) lead_not_found read in
                  elim (bind_failure (find_row (paid.tiers lead.tier) tier_not_found) _ h₂) [
                    | inl no_tier ↦
                        let (absent, why) =
                          find_row_failure (paid.tiers lead.tier) tier_not_found no_tier in
                        subst (LateFailure cmd purchase_id paid) why (lead, found, absent)
                    | inr (config, tier, h₃) ↦
                        elim (bind_failure
                          (update_lead is_uuid storage_of paid cmd config purchase_id now) _ h₃) [
                            | inl unsold ↦
                                update_failure is_uuid storage_of paid cmd config purchase_id now
                                  lead e found
                                  (find_row_inversion (paid.tiers lead.tier) tier_not_found tier)
                                  unsold
                            | inr ((recorded, price), sold, h₄) ↦
                                elim (bind_failure
                                  (find_row (recorded.leads cmd.platform_lead_id) lead_not_found) _
                                  h₄) [
                                    | inl gone ↦
                                        let (absent, why) =
                                          find_row_failure (recorded.leads cmd.platform_lead_id)
                                            lead_not_found gone in
                                        subst (LateFailure cmd purchase_id paid) why (
                                          sym (
                                            ap
                                              (λ (f : Str → Option (PlatformLead Form)).
                                                f cmd.platform_lead_id)
                                              (leads_kept paid recorded cmd config purchase_id now
                                                price sold))
                                          ∙ absent)
                                    | inr (reloaded, _, h₅) ↦
                                        subst (LateFailure cmd purchase_id paid)
                                          (enqueue_failure recorded _ price e h₅) tt
                                  ]
                          ]
                  ]
            ]
      ]
