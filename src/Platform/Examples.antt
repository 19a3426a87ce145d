-- ===== src/Platform/Examples.antt =====
-- Runs of the platform module at concrete inputs, and the theorems at these inputs.
use leadkart_go.Base.{
  ◌≢◌, err, sym, subst, ap, ◌∙◌, ℕ, ◌+◌, ◌*◌, ◌/◌, ◌-◌, ◌≡◌, refl, Bool, true, false, not, List, [],
  ◌∷◌, Option, none, some, ok, is_empty, if◌then◌else◌, arith,
}
use leadkart_go.Base.Int64.{IsInt64, pos_part, ◌+ℤ◌, pos, ◌≤ℤ◌, add64, sub64, neg64, mul64, quot64}
use leadkart_go.Base.Text.{Str, codes, str_eq, eq_of_str_eq, trim_space, is_blank}
use leadkart_go.Platform.LeadCredit as C
use leadkart_go.Platform.LeadCredit.{LeadCredit}
use leadkart_go.Platform.LeadCredit.Balance.{IsFunded, run-IsFunded}
use leadkart_go.Platform.PlatformLead as L
use leadkart_go.Platform.PlatformLead.{PlatformLead, compute_purchase_price_paisa}
use leadkart_go.Platform.PlatformLead.Price.{
  compute_price-exact, compute_price_bounds, compute_price_antitone, discount, at_least_one,
}
use leadkart_go.Platform.PlatformLead.Buyers.{IsSold, Request, buy, buy_all, buy_all-IsSold}
use leadkart_go.Platform.PurchaseLead as P
use leadkart_go.Platform.PurchaseLead.{Database, Attempt}
use leadkart_go.Platform.PurchaseLead.Sold.{some_injective}
use leadkart_go.Platform.PurchaseLead.Soundness.{bought, IsSound, IsFair, handle-IsSound}
use leadkart_go.Platform.PurchaseLead.Answers.{upsert_with_version-fresh}
use leadkart_go.Platform.InitialiseLeadCredits as I
use leadkart_go.Platform.InitialiseLeadCredits.Effect.{handle-Ready}
use leadkart_go.Platform.InitialiseLeadCredits.Effect as Ready
use leadkart_go.Platform.TopupLeadCredits as T
use leadkart_go.Platform.TopupLeadCredits.Effect.{IsStored, IsCareful, Answer, handle-Answer}

-- A parser that takes every text that is not empty.
abbrev any_text : Str → Bool
any_text s = not (is_empty s)

abbrev credit : LeadCredit
credit = record {
  tenant_id = codes "t-1";
  balance = pos 0;
  version = pos 0;
  created_at = 5;
  updated_at = 5;
  events = [];
}

new_for_tenant-credit : C.new_for_tenant any_text (codes "t-1") 5 ≡ ok credit
unfolding C.new_for_tenant trim_space
new_for_tenant-credit = refl

-- The second charge asks for more than there is, and is refused.
abbrev calls : List C.Call
calls =
    C.tops_up (pos 10) (codes "paid") (codes "m-9") 6
    ∷ C.charges (pos 4) (codes "buy") (codes "m-1") 7
    ∷ C.charges (pos 7) (codes "buy") (codes "m-1") 8
    ∷ []

balance_after : (C.run credit calls).balance ≡ pos 6
unfolding C.run C.step C.topup C.charge add64 sub64 neg64 is_blank trim_space
balance_after = refl

run-IsFunded_example : IsFunded (C.run credit calls)
run-IsFunded_example =
    run-IsFunded credit calls (omega arith) (record { nonneg = omega arith; summed = refl })

price_third : compute_purchase_price_paisa (pos 9999) (pos 2) (pos 0) ≡ pos 8999
unfolding compute_purchase_price_paisa mul64 quot64 add64 sub64
price_third = refl

compute_price-exact_example :
    compute_purchase_price_paisa (pos 9999) (pos 2) (pos 0)
    ≡ pos (at_least_one (9999 * (10000 - discount 2 0) / 10000))
compute_price-exact_example =
    compute_price-exact 9999 2 0 (omega arith) (omega arith) (omega arith) (omega arith)

compute_price_bounds_example :
    (pos 1 ≤ℤ compute_purchase_price_paisa (pos 9999) (pos 9) (pos 4000))
    × (compute_purchase_price_paisa (pos 9999) (pos 9) (pos 4000) ≤ℤ pos 9999)
    × (pos (9999 / 2) ≤ℤ compute_purchase_price_paisa (pos 9999) (pos 9) (pos 4000))
compute_price_bounds_example =
    compute_price_bounds 9999 9 4000 (omega arith) (omega arith) (omega arith) (omega arith)

compute_price_antitone_example :
    compute_purchase_price_paisa (pos 9999) (pos 5) (pos 0)
    ≤ℤ compute_purchase_price_paisa (pos 9999) (pos 2) (pos 0)
compute_price_antitone_example =
    compute_price_antitone 9999 2 5 0 (omega arith) (omega arith) (omega arith) (omega arith)
      (omega arith)

-- A lead whose form is a text.
abbrev lead : PlatformLead Str
lead = record {
  id = codes "lead-1";
  source_contact_id = codes "c-1";
  form = codes "Asha";
  gst_verified = false;
  tier = L.standard;
  sale_limit = some (pos 2);
  buyers = [];
  verified_at = 3;
  verified_by_membership_id = codes "m-9";
  created_at = 3;
  pending_purchases = [];
  events = [];
}

-- The second request is of a tenant that has the lead, and the last one meets the limit.
abbrev buy_requests : List Request
buy_requests =
    (codes "p-1", codes "t-1", codes "m-1", pos 100, 10)
    ∷ (codes "p-2", codes "t-1", codes "m-1", pos 100, 11)
    ∷ (codes "p-3", codes "t-2", codes "m-2", pos 95, 12)
    ∷ (codes "p-4", codes "t-3", codes "m-3", pos 90, 13)
    ∷ []

buyers_after : (buy_all any_text (pos 3) lead buy_requests).buyers ≡ codes "t-1" ∷ codes "t-2" ∷ []
unfolding buy_all buy L.record_purchase trim_space str_eq
buyers_after = refl

buy_all-IsSold_example : IsSold (pos 3) (buy_all any_text (pos 3) lead buy_requests)
buy_all-IsSold_example = buy_all-IsSold any_text (pos 3) lead buy_requests (tt, omega arith)

-- Another transaction that saves the credit row of the tenant again, with the same balance.
abbrev touched : Option LeadCredit → Option LeadCredit
touched none = none
touched (some l) = some (record l { version = l.version +ℤ pos 1 })

abbrev touch : Database Str → Database Str
touch db = record db {
  credits = λ k. if str_eq k (codes "t-1") then touched (db.credits k) else db.credits k;
}

abbrev quiet : Attempt Str
quiet = record { now = 20; between = λ db. db; sleep_fails = false }

abbrev raced : Attempt Str
raced = record { now = 19; between = touch; sleep_fails = false }

abbrev market : Database Str
market = record {
  credits = λ k.
      if str_eq k (codes "t-1")
      then some (record credit { balance = pos 5; version = pos 3 })
      else none;
  leads = λ k. if str_eq k (codes "lead-1") then some lead else none;
  tiers = λ t. some (record { code = t; default_sale_limit = pos 3; base_price_paisa = pos 9999 });
  purchases = [];
  outbox = [];
}

abbrev granted : Str → ℕ
granted k = if str_eq k (codes "t-1") then 5 else 0

abbrev accepting : P.Storage
accepting = record {
  accepts_credit = λ l. true;
  accepts_purchase = λ p. true;
  accepts_message = λ id. true;
}

abbrev request : P.Command
request = record {
  platform_lead_id = codes "lead-1";
  purchasing_tenant_id = codes "t-1";
  purchasing_membership_id = codes "m-1";
}

-- The first round meets a conflict, and the second one sells.
sold_in_second_round :
    (P.handle any_text accepting market request (codes "p-1") raced quiet quiet).1
    ≡ ok (record { purchase_id = codes "p-1"; amount_paisa = pos 9999 })
unfolding P.handle P.attempts P.run_once P.upsert_with_version P.record_and_announce P.update_lead
    P.sell P.insert_purchases P.enqueue C.charge L.record_purchase L.pull_pending_purchases
    compute_purchase_price_paisa trim_space is_blank str_eq ◌+ℤ◌ add64 sub64 neg64 mul64 quot64
sold_in_second_round = refl

market-IsSound : IsSound granted market
market-IsSound = record {
  keyed = λ k l h. ground (arith, eq_of_str_eq k (codes "t-1"));
  saved = λ k l h. ground arith;
  funded = λ k l h. ground arith;
  settled = λ k l h. ground arith;
  lead_keyed = λ k l h. ground (arith, eq_of_str_eq k (codes "lead-1"));
  distinct = λ k. tt;
  limited = λ k l c h t. omega arith;
}

quiet-IsFair : IsFair {Form = Str} granted (λ db. db)
quiet-IsFair = record { sound = λ db w. w; versioned = λ db k l m h i v. ground arith }

touched_inversion :
    (b : Bool) (o : Option LeadCredit) (m : LeadCredit)
    → (if b then touched o else o) ≡ some m
    → (l : LeadCredit) × (o ≡ some l)
      × (m.tenant_id ≡ l.tenant_id)
      × (m.balance ≡ l.balance)
      × ((pos 1 ≤ℤ l.version) → (pos 1 ≤ℤ m.version))
unfolding ◌+ℤ◌
touched_inversion b none m h = absurd (ground arith)
touched_inversion b (some l) m h = (l, refl, ground arith, ground arith, λ v. ground arith)

touch-IsFair : IsFair granted touch
touch-IsFair = record {
  sound = λ db w. record {
    keyed = λ k l h.
        let (o, found, id, _, _) = touched_inversion (str_eq k (codes "t-1")) (db.credits k) l h in
        id ∙ w.keyed k o found;
    saved = λ k l h.
        let (o, found, _, _, grows) =
          touched_inversion (str_eq k (codes "t-1")) (db.credits k) l h in
        grows (w.saved k o found);
    funded = λ k l h.
        let (o, found, _, same, _) =
          touched_inversion (str_eq k (codes "t-1")) (db.credits k) l h in
        subst (λ b. (pos 0 ≤ℤ b) × IsInt64 b) (sym same) (w.funded k o found);
    settled = λ k l h.
        let (o, found, _, same, _) =
          touched_inversion (str_eq k (codes "t-1")) (db.credits k) l h in
        ap (λ b. pos_part b + bought k db.purchases) same ∙ w.settled k o found;
    lead_keyed = w.lead_keyed;
    distinct = w.distinct;
    limited = w.limited;
  };
  versioned = λ db k l m h i v.
      let (o, found, _, same, _) = touched_inversion (str_eq k (codes "t-1")) (db.credits k) m i in
      same ∙ ap (λ (x : LeadCredit). x.balance) (some_injective (sym found ∙ h));
}

handle-IsSound_example :
    IsSound granted (P.handle any_text accepting market request (codes "p-1") raced quiet quiet).0
handle-IsSound_example =
    handle-IsSound any_text accepting granted market request (codes "p-1") raced quiet quiet
      market-IsSound touch-IsFair quiet-IsFair quiet-IsFair

-- A tenant without a credit row is refused.
refused_without_credits :
    (P.handle any_text accepting market
      (record request { purchasing_tenant_id = codes "t-2" })
      (codes "p-1")
      raced
      quiet
      quiet).1
    ≡ err P.insufficient_credits
unfolding P.handle P.attempts P.run_once str_eq
refused_without_credits = refl

-- The tenant's row is there already, and the fresh aggregate is not told of a conflict.
upsert_with_version-fresh_example :
    P.upsert_with_version any_text accepting market credit ≢ err P.conflict
upsert_with_version-fresh_example = upsert_with_version-fresh any_text accepting market credit refl

fresh_refused : P.upsert_with_version any_text accepting market credit ≡ err P.storage
unfolding P.upsert_with_version str_eq trim_space
fresh_refused = refl

abbrev topup_request : T.Command
topup_request = record {
  tenant_id = codes "t-1";
  delta = pos 10;
  reason = codes "paid";
  adjusted_by = codes "m-9";
}

-- The first round meets a conflict, and the second one credits the tenant.
credited_in_second_round :
    (T.handle any_text accepting market topup_request raced quiet quiet).1 ≡ ok (pos 15)
unfolding T.handle T.attempts T.run_once P.upsert_with_version C.topup trim_space is_blank str_eq
    ◌+ℤ◌ add64
credited_in_second_round = refl

market-IsStored : IsStored market
market-IsStored = record {
  keyed = λ k l h. ground (arith, eq_of_str_eq k (codes "t-1"));
  saved = λ k l h. ground arith;
}

quiet-IsCareful : IsCareful {Form = Str} (λ db. db)
quiet-IsCareful = record { stored = λ db w. w; versioned = λ db k l m h i v. ground arith }

touch-IsCareful : IsCareful touch
touch-IsCareful = record {
  stored = λ db w. record {
    keyed = λ k l h.
        let (o, found, id, _, _) = touched_inversion (str_eq k (codes "t-1")) (db.credits k) l h in
        id ∙ w.keyed k o found;
    saved = λ k l h.
        let (o, found, _, _, grows) =
          touched_inversion (str_eq k (codes "t-1")) (db.credits k) l h in
        grows (w.saved k o found);
  };
  versioned = touch-IsFair.versioned;
}

handle-Answer_example :
    Answer market
      (T.handle any_text accepting market topup_request raced quiet quiet).0
      topup_request
      (raced ∷ quiet ∷ quiet ∷ [])
      (T.handle any_text accepting market topup_request raced quiet quiet).1
handle-Answer_example =
    handle-Answer any_text accepting market topup_request raced quiet quiet market-IsStored
      (touch-IsCareful, (quiet-IsCareful, (quiet-IsCareful, tt)))

-- A new tenant gets a row, and the row of a tenant that has one is left alone.
new_tenant_ready : (I.handle any_text accepting market touch (codes "t-2") 30).1 ≡ ok false
unfolding I.handle I.after_read I.insert_fresh P.upsert_with_version C.new_for_tenant trim_space
    str_eq ◌+ℤ◌
new_tenant_ready = refl

old_tenant_ready : (I.handle any_text accepting market touch (codes "t-1") 30).1 ≡ ok true
unfolding I.handle I.after_read str_eq
old_tenant_ready = refl

handle-Ready_example :
    Ready.Answer
      (touch market)
      (I.handle any_text accepting market touch (codes "t-2") 30).0
      (codes "t-2")
      (I.handle any_text accepting market touch (codes "t-2") 30).1
unfolding str_eq
handle-Ready_example =
    handle-Ready any_text accepting market touch (codes "t-2") 30
      (touch-IsCareful.stored market market-IsStored) (λ h. h)
