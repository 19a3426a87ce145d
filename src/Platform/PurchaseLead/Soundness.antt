-- ===== src/Platform/PurchaseLead/Soundness.antt =====
-- internal/platform/app/command/purchase_lead.go: credits, buyers and sale limits under purchases
-- that race with other transactions.
use leadkart_go.Base.{
  ◌&&◌, ℕ, suc, ◌+◌, ◌≤◌, ◌≡◌, sym, ap, ◌∙◌, Bool, false, not, List, [], ◌∷◌, ◌++◌, some, ok,
  Result-cases, Bool-cases, inl, inr, length, if◌then◌else◌, arith, length-snoc, subst, All,
}
use leadkart_go.Base.Int64.{ℤ, pos, pos_part, ◌+ℤ◌, ◌≤ℤ◌, ◌<ℤ◌, IsInt64, sub64}
use leadkart_go.Base.Text.{Str, str_eq, eq_of_str_eq, str_eq_refl}
use leadkart_go.Platform.LeadCredit.{LeadCredit}
use leadkart_go.Platform.PlatformLead.{PlatformLead, LeadPurchase, TierConfig, or_default, mem_str}
use leadkart_go.Platform.PlatformLead.Buyers.{IsDistinct, IsDistinct-snoc}
use leadkart_go.Platform.PurchaseLead.Inversion.{run_once_inversion}
use leadkart_go.Platform.PurchaseLead.Sold.{some_injective, message_of, Sale, sale}
use leadkart_go.Platform.PurchaseLead.{
  Command, Database, Storage, Attempt, Message, put_credit, buyers_of, bumped, run_once, attempts,
  handle, is_conflict,
}

-- How many purchases a tenant made.
abbrev pub bought : Str → List LeadPurchase → ℕ
bought k [] = 0
bought k (p ∷ ps) = (if str_eq p.tenant_id k then 1 else 0) + bought k ps

bought-snoc :
    (k : Str) (ps : List LeadPurchase) (p : LeadPurchase)
    → bought k (ps ++ p ∷ []) ≡ bought k ps + (if str_eq p.tenant_id k then 1 else 0)
bought-snoc k [] p = omega arith
bought-snoc k (q ∷ ps) p = omega (arith, bought-snoc k ps p)

buyers_of-snoc :
    (id : Str) (ps : List LeadPurchase) (p : LeadPurchase)
    → p.lead_id ≡ id
    → buyers_of id (ps ++ p ∷ []) ≡ buyers_of id ps ++ p.tenant_id ∷ []
buyers_of-snoc id [] p e = ground (arith, str_eq_refl id)
buyers_of-snoc id (q ∷ ps) p e = ground (arith, buyers_of-snoc id ps p e)

buyers_of_other :
    (id : Str) (ps : List LeadPurchase) (p : LeadPurchase)
    → str_eq p.lead_id id ≡ false
    → buyers_of id (ps ++ p ∷ []) ≡ buyers_of id ps
buyers_of_other id [] p e = ground arith
buyers_of_other id (q ∷ ps) p e = ground (arith, buyers_of_other id ps p e)

-- The rows stand under their keys and have been saved at least once; every balance is a count, and
-- with what the tenant bought it makes the credits that were granted; no tenant bought a lead twice,
-- and no lead is sold more often than its limit, its own or that of its tier.
pub record IsSound {Form : Type 0} (granted : Str → ℕ) (db : Database Form) : Type 0 where
  pub keyed : (k : Str) (l : LeadCredit) → db.credits k ≡ some l → l.tenant_id ≡ k
  pub saved : (k : Str) (l : LeadCredit) → db.credits k ≡ some l → pos 1 ≤ℤ l.version
  pub funded :
      (k : Str) (l : LeadCredit) → db.credits k ≡ some l → (pos 0 ≤ℤ l.balance) × IsInt64 l.balance
  pub settled :
      (k : Str) (l : LeadCredit)
      → db.credits k ≡ some l
      → pos_part l.balance + bought k db.purchases ≡ granted k
  pub lead_keyed : (k : Str) (l : PlatformLead Form) → db.leads k ≡ some l → l.id ≡ k
  pub distinct : (k : Str) → IsDistinct (buyers_of k db.purchases)
  pub limited :
      (k : Str) (l : PlatformLead Form) (config : TierConfig)
      → db.leads k ≡ some l
      → db.tiers l.tier ≡ some config
      → length (buyers_of k db.purchases)
        ≤ pos_part (or_default l.sale_limit config.default_sale_limit)

-- What is asked of the other transactions: they keep the database sound without granting credits,
-- and a credit row with the version it had has the balance it had.
pub record IsFair {Form : Type 0} (granted : Str → ℕ) (between : Database Form → Database Form)
    : Type 0 where
  pub sound : (db : Database Form) → IsSound granted db → IsSound granted (between db)
  pub versioned :
      (db : Database Form) (k : Str) (l m : LeadCredit)
      → db.credits k ≡ some l
      → (between db).credits k ≡ some m
      → m.version ≡ l.version
      → m.balance ≡ l.balance

version_grows : (v : ℤ) → pos 1 ≤ℤ v → pos 1 ≤ℤ v +ℤ pos 1
unfolding ◌+ℤ◌
version_grows v h = ground arith

-- The row that a round replaces is the one of the tenant, with the balance that the round read.
pub current_row :
    {Form : Type 0} (granted : Str → ℕ) (db : Database Form)
    (between : Database Form → Database Form) (t : Str) (credit charged row : LeadCredit)
    → IsSound granted db
    → IsFair granted between
    → db.credits t ≡ some credit
    → charged.tenant_id ≡ credit.tenant_id
    → charged.version ≡ credit.version
    → (between db).credits charged.tenant_id ≡ some row
    → row.version ≡ charged.version
    → (charged.tenant_id ≡ t) × ((between db).credits t ≡ some row) × (row.balance ≡ credit.balance)
current_row granted db between t credit charged row w fair read tenant version there same =
    let self : charged.tenant_id ≡ t = tenant ∙ w.keyed t credit read in
    let at_t : (between db).credits t ≡ some row = ap (between db).credits (sym self) ∙ there in
    (self, at_t, fair.versioned db t credit row read at_t (same ∙ version))

-- The write of a round that succeeds: the debited row, and one more purchase.
module _ {Form : Type 0} (granted : Str → ℕ) (mid : Database Form) (w : IsSound granted mid)
    (t id : Str) (charged row : LeadCredit) (lead : PlatformLead Form) (config : TierConfig)
    (p : LeadPurchase) (outbox : List (Message Form)) (there : mid.credits t ≡ some row)
    (tenant : charged.tenant_id ≡ t) (version : charged.version ≡ row.version)
    (balance : charged.balance ≡ sub64 row.balance (pos 1)) (covered : pos 1 ≤ℤ row.balance)
    (found : mid.leads id ≡ some lead) (tier : mid.tiers lead.tier ≡ some config)
    (lead_id : p.lead_id ≡ id) (buyer : p.tenant_id ≡ t)
    (absent : mem_str t (buyers_of id mid.purchases) ≡ false)
    (room : pos (length (buyers_of id mid.purchases))
      <ℤ or_default lead.sale_limit config.default_sale_limit) where
  debited :
      (pos 0 ≤ℤ charged.balance)
      × IsInt64 charged.balance
      × (suc (pos_part charged.balance) ≡ pos_part row.balance)
  unfolding sub64
  debited = let f = w.funded t row there in ground (arith, f)

  bought-written :
      (k : Str)
      → bought k (mid.purchases ++ p ∷ []) ≡ bought k mid.purchases + (if str_eq k t then 1 else 0)
  bought-written k =
      ground
        (arith, bought-snoc k mid.purchases p, eq_of_str_eq t k, eq_of_str_eq k t, str_eq_refl t)

  settled-written :
      (k : Str) (l : LeadCredit)
      → put_credit t (bumped charged) mid.credits k ≡ some l
      → pos_part l.balance + bought k (mid.purchases ++ p ∷ []) ≡ granted k
  settled-written k l h = elim (Bool-cases (str_eq k t)) [
    | inl here ↦
        let same : k ≡ t = eq_of_str_eq k t here in
        ground (arith, same, debited, bought-written k, w.settled t row there)
    | inr other ↦ ground (arith, bought-written k, w.settled k l)
  ]

  sold_here : buyers_of id (mid.purchases ++ p ∷ []) ≡ buyers_of id mid.purchases ++ t ∷ []
  sold_here =
      buyers_of-snoc id mid.purchases p lead_id
      ∙ ap (λ b. buyers_of id mid.purchases ++ b ∷ []) buyer

  IsDistinct-here : IsDistinct (buyers_of id (mid.purchases ++ p ∷ []))
  IsDistinct-here =
      subst IsDistinct (sym sold_here)
        (IsDistinct-snoc (buyers_of id mid.purchases) t absent (w.distinct id))

  within_here :
      length (buyers_of id (mid.purchases ++ p ∷ []))
      ≤ pos_part (or_default lead.sale_limit config.default_sale_limit)
  within_here = rw sold_here (omega (arith, length-snoc (buyers_of id mid.purchases) t, room))

  IsDistinct-written : (k : Str) → IsDistinct (buyers_of k (mid.purchases ++ p ∷ []))
  IsDistinct-written k = elim (Bool-cases (str_eq p.lead_id k)) [
    | inl here ↦
        subst (λ j. IsDistinct (buyers_of j (mid.purchases ++ p ∷ [])))
          (sym lead_id ∙ eq_of_str_eq p.lead_id k here) IsDistinct-here
    | inr other ↦ subst IsDistinct (sym (buyers_of_other k mid.purchases p other)) (w.distinct k)
  ]

  limited-written :
      (k : Str) (l : PlatformLead Form) (c : TierConfig)
      → mid.leads k ≡ some l
      → mid.tiers l.tier ≡ some c
      → length (buyers_of k (mid.purchases ++ p ∷ []))
        ≤ pos_part (or_default l.sale_limit c.default_sale_limit)
  limited-written k l c h h₁ = elim (Bool-cases (str_eq p.lead_id k)) [
    | inl here ↦
        let same : id ≡ k = sym lead_id ∙ eq_of_str_eq p.lead_id k here in
        let one : l ≡ lead = some_injective (sym h ∙ ap mid.leads (sym same) ∙ found) in
        let tiers : c ≡ config =
          some_injective (sym h₁ ∙ ap (λ (x : PlatformLead Form). mid.tiers x.tier) one ∙ tier) in
        rw (one, tiers)
          (subst
            (λ j.
              length (buyers_of j (mid.purchases ++ p ∷ []))
              ≤ pos_part (or_default lead.sale_limit config.default_sale_limit))
            same within_here)
    | inr other ↦ rw (buyers_of_other k mid.purchases p other) (w.limited k l c h h₁)
  ]

  written-IsSound : IsSound granted (record {
    credits = put_credit t (bumped charged) mid.credits;
    leads = mid.leads;
    tiers = mid.tiers;
    purchases = mid.purchases ++ p ∷ [];
    outbox = outbox;
  })
  written-IsSound = record {
    keyed = λ k l h. ground (arith, eq_of_str_eq k t, w.keyed k l);
    saved =
        λ k l h. ground (arith, version_grows charged.version, w.saved k l, w.saved t row there);
    funded = λ k l h. ground (arith, debited, w.funded k l);
    settled = settled-written;
    lead_keyed = w.lead_keyed;
    distinct = IsDistinct-written;
    limited = limited-written;
  }

module _ {Form : Type 0} (is_uuid : Str → Bool) (storage_of : Storage) (granted : Str → ℕ) where
  run_once-IsSound :
      (db d : Database Form) (cmd : Command) (purchase_id : Str) (a : Attempt Form) (price : ℤ)
      → IsSound granted db
      → IsFair granted a.between
      → run_once is_uuid storage_of db cmd purchase_id a ≡ ok (d, price)
      → IsSound granted d
  run_once-IsSound db d cmd purchase_id a price w fair h = of_sale (
      run_once_inversion is_uuid storage_of db d cmd purchase_id a price
        (w.saved cmd.purchasing_tenant_id) h)
    where
      of_sale : Sale db (a.between db) d cmd purchase_id a.now price → IsSound granted d
      of_sale
            (sale credit charged row lead config p earlier read tenant version balance covered there
              same found tier lead_id buyer amount positive absent room grown) =
          let sound = fair.sound db w in
          let t = cmd.purchasing_tenant_id in
          let (self, at_t, equal) =
            current_row granted db a.between t credit charged row w fair read tenant version there
              same in
          let outbox = earlier ++ message_of cmd purchase_id a.now price lead.form ∷ [] in
          subst (IsSound granted) (sym grown) (
            subst
              (λ id. IsSound granted (record {
                credits = put_credit id (bumped charged) (a.between db).credits;
                leads = (a.between db).leads;
                tiers = (a.between db).tiers;
                purchases = (a.between db).purchases ++ p ∷ [];
                outbox = outbox;
              }))
              (sym self)
              (written-IsSound granted (a.between db) sound t cmd.platform_lead_id charged row lead
                config p outbox at_t self (sym same)
                (balance ∙ ap (λ x. sub64 x (pos 1)) (sym equal))
                (subst (λ x. pos 1 ≤ℤ x) (sym equal) covered) found tier
                (lead_id ∙ sound.lead_keyed cmd.platform_lead_id lead found) buyer absent room))

  attempts-IsSound :
      (db : Database Form) (cmd : Command) (purchase_id : Str) (a : Attempt Form)
      (more : List (Attempt Form))
      → IsSound granted db
      → IsFair granted a.between
      → All (λ (b : Attempt Form). IsFair granted b.between) more
      → IsSound granted (attempts is_uuid storage_of db cmd purchase_id a more).0
  unfolding attempts
  attempts-IsSound db cmd purchase_id a [] w fair others =
      elim (Result-cases (run_once is_uuid storage_of db cmd purchase_id a)) [
        | inl ((d, price), e) ↦
            rw (e, attempts) (run_once-IsSound db d cmd purchase_id a price w fair e)
        | inr (_, e) ↦ rw (e, attempts) (fair.sound db w)
      ]
  attempts-IsSound db cmd purchase_id a (b ∷ more) w fair others =
      elim (Result-cases (run_once is_uuid storage_of db cmd purchase_id a)) [
        | inl ((d, price), e) ↦
            rw (e, attempts) (run_once-IsSound db d cmd purchase_id a price w fair e)
        | inr (f, e) ↦ elim (Bool-cases (is_conflict f && not a.sleep_fails)) [
          | inl again ↦
              rw (e, attempts, again)
                (attempts-IsSound (a.between db) cmd purchase_id b more (fair.sound db w) others.0
                  others.1)
          | inr stop ↦ rw (e, attempts, stop) (fair.sound db w)
        ]
      ]

  -- Purchases that race with other transactions: if the others are fair in each of the three rounds,
  -- then a sound database is sound after the handler, whatever it answers. So no tenant is charged
  -- without a purchase or buys without a charge, no tenant buys a lead twice, and no lead is sold
  -- beyond its limit.
  pub handle-IsSound :
      (db : Database Form) (cmd : Command) (purchase_id : Str) (first second third : Attempt Form)
      → IsSound granted db
      → IsFair granted first.between
      → IsFair granted second.between
      → IsFair granted third.between
      → IsSound granted (handle is_uuid storage_of db cmd purchase_id first second third).0
  unfolding handle
  handle-IsSound db cmd purchase_id first second third w fair₁ fair₂ fair₃ =
      attempts-IsSound db cmd purchase_id first (second ∷ third ∷ []) w fair₁ (fair₂, (fair₃, tt))
