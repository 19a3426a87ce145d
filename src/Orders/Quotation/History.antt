-- ===== src/Orders/Quotation/History.antt =====
-- The revision chain over any sequence of calls, and what the terminal states fix.
use mathlib.Core.List.{append-nil, append_assoc}
use leadkart_go.Base.{
  ◌≡◌, sym, ◌∙◌, true, List, [], ◌∷◌, ◌++◌, ok, arith, ap, get_last?-snoc, Result-cases, inl, inr,
}
use leadkart_go.Orders.Quotation.{
  Quotation, Revision, draft, is_terminal, ReviseInput, Call, revises, approves, rejects, pulls,
  revise, next_revision, current_revision, step, run,
}

revise-revisions :
    (q r : Quotation) (x : ReviseInput)
    → revise q x ≡ ok r
    → r.revisions ≡ q.revisions ++ next_revision q x ∷ []
unfolding revise
revise-revisions q r x h = ground arith

step-revisions :
    (q : Quotation) (c : Call)
    → (later : List Revision) × ((step q c).revisions ≡ q.revisions ++ later)
unfolding step
step-revisions q (revises x) = elim (Result-cases (revise q x)) [
  | inl (r, e) ↦ (next_revision q x ∷ [], rw e (revise-revisions q r x e))
  | inr (_, e) ↦ ([], rw e (sym (append-nil q.revisions)))
]
step-revisions q (approves approver_id now) = ([], ground (arith, append-nil q.revisions))
step-revisions q (rejects rejector_id reason now) = ([], ground (arith, append-nil q.revisions))
step-revisions q pulls = ([], ground (arith, append-nil q.revisions))

-- Calls only ever append to the revision chain: no revision is changed, moved or lost.
pub run-revisions :
    (q : Quotation) (calls : List Call)
    → (later : List Revision) × ((run q calls).revisions ≡ q.revisions ++ later)
unfolding run
run-revisions q [] = ([], sym (append-nil q.revisions))
run-revisions q (c ∷ calls) =
    let (first, e) = step-revisions q c in
    let (rest, f) = run-revisions (step q c) calls in
    (first ++ rest, f ∙ ap (λ rs. rs ++ rest) e ∙ append_assoc q.revisions first rest)

-- The fields of a quotation other than its pending events.
pub record SameButEvents (q r : Quotation) : Type 0 where
  pub state : r.state ≡ q.state
  pub revisions : r.revisions ≡ q.revisions
  pub approved_at : r.approved_at ≡ q.approved_at
  pub approved_by : r.approved_by_membership_id ≡ q.approved_by_membership_id
  pub rejected_at : r.rejected_at ≡ q.rejected_at
  pub rejected_by : r.rejected_by_membership_id ≡ q.rejected_by_membership_id
  pub reason : r.rejection_reason ≡ q.rejection_reason

step_of_terminal :
    (q : Quotation) (c : Call) → is_terminal q.state ≡ true → SameButEvents q (step q c)
unfolding step
step_of_terminal q (revises x) h = ground arith
step_of_terminal q (approves approver_id now) h = ground arith
step_of_terminal q (rejects rejector_id reason now) h = ground arith
step_of_terminal q pulls h = ground arith

-- Once a quotation is approved or rejected, no sequence of calls changes its state, its revisions
-- or its stamps any more.
pub run_of_terminal :
    (q : Quotation) (calls : List Call) → is_terminal q.state ≡ true → SameButEvents q (run q calls)
unfolding run
run_of_terminal q [] h = ground arith
run_of_terminal q (c ∷ calls) h =
    let one = step_of_terminal q c h in
    let more = run_of_terminal (step q c) calls (ground (arith, one)) in ground (arith, one, more)

-- A revision that is accepted becomes the tip, with the number after the last one.
pub revise-current_revision :
    (q r : Quotation) (x : ReviseInput)
    → revise q x ≡ ok r
    → (current_revision r ≡ ok (next_revision q x)) × (r.state ≡ draft) × (q.state ≡ draft)
unfolding revise current_revision
revise-current_revision q r x h = ground (arith, get_last?-snoc q.revisions (next_revision q x))
