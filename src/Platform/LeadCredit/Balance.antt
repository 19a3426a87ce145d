-- ===== src/Platform/LeadCredit/Balance.antt =====
-- The balance of a tenant against the deltas of the recorded events.
use leadkart_go.Base.{
  ℕ, ◌+◌, ◌<◌, ◌≤◌, ◌≡◌, sym, ap, ◌∙◌, List, [], ◌∷◌, ◌++◌, ok, Result-cases, inl, inr, arith,
}
use leadkart_go.Base.Int64.{
  ℤ, pos, pos_part, two63, ◌+ℤ◌, ◌≤ℤ◌, IsInt64, add64, sub64, neg64, +ℤ_assoc,
}
use leadkart_go.Base.Clock.{Time}
use leadkart_go.Base.Text.{Str}
use leadkart_go.Platform.LeadCredit.{
  LeadCredit, AdjustedEvent, Call, tops_up, charges, topup, charge, step, run, adjusted,
}

abbrev pub sum_deltas : List AdjustedEvent → ℤ
sum_deltas [] = pos 0
sum_deltas (e ∷ es) = e.delta +ℤ sum_deltas es

+ℤ_zero : (a : ℤ) → a +ℤ pos 0 ≡ a
unfolding ◌+ℤ◌
+ℤ_zero a = ground arith

zero_+ℤ : (a : ℤ) → pos 0 +ℤ a ≡ a
unfolding ◌+ℤ◌
zero_+ℤ a = ground arith

sum_deltas-snoc :
    (es : List AdjustedEvent) (e : AdjustedEvent)
    → sum_deltas (es ++ e ∷ []) ≡ sum_deltas es +ℤ e.delta
sum_deltas-snoc [] e = +ℤ_zero e.delta ∙ sym (zero_+ℤ e.delta)
sum_deltas-snoc (d ∷ es) e =
    ap (λ s. d.delta +ℤ s) (sum_deltas-snoc es e) ∙ sym (+ℤ_assoc d.delta (sum_deltas es) e.delta)

-- What a call can add to the balance.
abbrev pub topped_up : Call → ℕ
topped_up (tops_up delta reason adjusted_by now) = pos_part delta
topped_up (charges amount reason adjusted_by now) = 0

abbrev pub sum_topups : List Call → ℕ
sum_topups [] = 0
sum_topups (c ∷ calls) = topped_up c + sum_topups calls

-- The balance is at least zero and is the sum of the recorded deltas.
pub record IsFunded (l : LeadCredit) : Type 0 where
  pub nonneg : pos 0 ≤ℤ l.balance
  pub summed : l.balance ≡ sum_deltas l.events

module _ (l : LeadCredit) (w : IsFunded l) where
  adjusted-IsFunded :
      (delta balance : ℤ) (reason adjusted_by : Str) (now : Time)
      → pos 0 ≤ℤ balance
      → balance ≡ l.balance +ℤ delta
      → IsFunded (adjusted l delta balance reason adjusted_by now)
  adjusted-IsFunded delta balance reason adjusted_by now n e = record {
    nonneg = n;
    summed =
        e
        ∙ ap (λ s. s +ℤ delta) w.summed
        ∙ sym (
            sum_deltas-snoc l.events (record {
              tenant_id = l.tenant_id;
              delta = delta;
              new_balance = balance;
              reason = reason;
              adjusted_at = now;
              adjusted_by_membership_id = adjusted_by;
            }));
  }

add64-exact :
    (a b : ℤ)
    → pos 0 ≤ℤ a
    → pos 0 ≤ℤ b
    → pos_part a + pos_part b < two63
    → (pos 0 ≤ℤ add64 a b) × (add64 a b ≡ a +ℤ b) × (pos_part (add64 a b) ≡ pos_part a + pos_part b)
unfolding add64 ◌+ℤ◌
add64-exact a b h k f = ground arith

pub sub64-exact :
    (a b : ℤ)
    → pos 0 ≤ℤ b
    → b ≤ℤ a
    → IsInt64 a
    → (pos 0 ≤ℤ sub64 a b) × (sub64 a b ≡ a +ℤ neg64 b) × (pos_part (sub64 a b) ≤ pos_part a)
unfolding sub64 neg64 ◌+ℤ◌
sub64-exact a b h k f = ground arith

-- What a successful `Topup` and a successful `Charge` have done.
topup_inversion :
    (l m : LeadCredit) (delta : ℤ) (reason adjusted_by : Str) (now : Time)
    → topup l delta reason adjusted_by now ≡ ok m
    → (m ≡ adjusted l delta (add64 l.balance delta) reason adjusted_by now) × (pos 0 ≤ℤ delta)
unfolding topup
topup_inversion l m delta reason adjusted_by now h = ground arith

pub charge_inversion :
    (l m : LeadCredit) (paid : ℤ) (reason adjusted_by : Str) (now : Time)
    → charge l paid reason adjusted_by now ≡ ok m
    → (m ≡ adjusted l (neg64 paid) (sub64 l.balance paid) reason adjusted_by now)
      × (pos 0 ≤ℤ paid)
      × (paid ≤ℤ l.balance)
unfolding charge
charge_inversion l m paid reason adjusted_by now h = ground arith

-- A balance that is sound, and at most `bound`.
abbrev IsWithin : ℕ → LeadCredit → Type 0
IsWithin bound l = IsFunded l × (pos_part l.balance ≤ bound)

step-IsFunded :
    (l : LeadCredit) (c : Call)
    → pos_part l.balance + topped_up c < two63
    → IsFunded l
    → IsWithin (pos_part l.balance + topped_up c) (step l c)
unfolding step
step-IsFunded l (tops_up delta reason adjusted_by now) fits w =
    elim (Result-cases (topup l delta reason adjusted_by now)) [
      | inl (m, e) ↦
          let (same, n) = topup_inversion l m delta reason adjusted_by now e in
          let (nonneg, sum, part) = add64-exact l.balance delta w.nonneg n fits in
          rw (e, same)
            (
              adjusted-IsFunded l w delta (add64 l.balance delta) reason adjusted_by now nonneg sum,
              omega (arith, part),
            )
      | inr (_, e) ↦ rw e (w, omega arith)
    ]
step-IsFunded l (charges paid reason adjusted_by now) fits w =
    elim (Result-cases (charge l paid reason adjusted_by now)) [
      | inl (m, e) ↦
          let (same, n, covered) = charge_inversion l m paid reason adjusted_by now e in
          let (nonneg, sum, part) =
            sub64-exact l.balance paid n covered (omega (arith, w.nonneg)) in
          rw (e, same)
            (
              adjusted-IsFunded l w (neg64 paid) (sub64 l.balance paid) reason adjusted_by now
                  nonneg sum,
              omega (arith, part),
            )
      | inr (_, e) ↦ rw e (w, omega arith)
    ]

-- Whatever top-ups and charges are called, refused ones included: as long as the balance and all
-- top-ups together stay below 2 ^ 63, a balance that is at least zero and equal to the sum of the
-- recorded deltas stays so.
pub run-IsFunded :
    (l : LeadCredit) (calls : List Call)
    → pos_part l.balance + sum_topups calls < two63
    → IsFunded l
    → IsFunded (run l calls)
unfolding run
run-IsFunded l [] fits w = w
run-IsFunded l (c ∷ calls) fits w =
    let (next, bound) = step-IsFunded l c (omega arith) w in
    run-IsFunded (step l c) calls (omega (arith, bound)) next
