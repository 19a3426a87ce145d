-- ===== src/Orders/Quotation/Invariant.antt =====
-- What holds of a quotation between two calls.
use leadkart_go.Base.{
  ℕ, suc, ◌+◌, ◌<◌, ◌≡◌, true, false, List, [], ◌∷◌, ◌++◌, ok, after, is_empty, is_some, length,
  length-snoc, All, All-append, arith,
}
use leadkart_go.Orders.LineItem.{IsValid, All-IsValid-of_validate_all}
use leadkart_go.Orders.Quotation.{
  Quotation, Revision, approved, rejected, NewInput, ReviseInput, Call, revises, approves, rejects,
  pulls, new, next_revision, revise, step, run,
}

-- Revisions numbered one after the other, from `n` on.
abbrev pub Numbered : ℕ → List Revision → Type 0
Numbered n [] = Unit
Numbered n (r ∷ rs) = (r.number ≡ n) × Numbered (suc n) rs

-- A revision quotes at least one item, and valid ones only.
pub record IsQuotable (r : Revision) : Type 0 where
  pub some_items : is_empty r.items ≡ false
  pub items_valid : All IsValid r.items

pub record IsWellFormed (q : Quotation) : Type 0 where
  pub numbered : Numbered 1 q.revisions
  pub some_revision : 0 < length q.revisions
  pub quotable : All IsQuotable q.revisions
  pub approved_stamped :
      q.state ≡ approved
      → (is_some q.approved_at ≡ true) × (is_some q.approved_by_membership_id ≡ true)
  pub approved_only : is_some q.approved_at ≡ true → q.state ≡ approved
  pub rejected_stamped :
      q.state ≡ rejected → (is_some q.rejected_at ≡ true) × (is_empty q.rejection_reason ≡ false)
  pub rejected_only : is_some q.rejected_at ≡ true → q.state ≡ rejected

Numbered-snoc :
    (n : ℕ) (rs : List Revision) (r : Revision)
    → Numbered n rs
    → r.number ≡ n + length rs
    → Numbered n (rs ++ r ∷ [])
Numbered-snoc n [] r h e = (omega arith, tt)
Numbered-snoc n (x ∷ rs) r h e = (h.0, Numbered-snoc (suc n) rs r h.1 (omega arith))

new-IsWellFormed : (x : NewInput) (q : Quotation) → new x ≡ ok q → IsWellFormed q
unfolding new
new-IsWellFormed x q h = ground (arith, All-IsValid-of_validate_all x.initial_items)

revise-IsWellFormed :
    (q : Quotation) (x : ReviseInput) → IsWellFormed q → IsWellFormed (after q (revise q x))
unfolding revise
revise-IsWellFormed q x w = ground (
  arith,
  All-IsValid-of_validate_all x.items,
  Numbered-snoc 1 q.revisions (next_revision q x),
  length-snoc q.revisions (next_revision q x),
  All-append IsQuotable q.revisions (next_revision q x ∷ []),
)

step-IsWellFormed : (q : Quotation) (c : Call) → IsWellFormed q → IsWellFormed (step q c)
unfolding step
step-IsWellFormed q (revises x) w = revise-IsWellFormed q x w
step-IsWellFormed q (approves approver_id now) w = ground arith
step-IsWellFormed q (rejects rejector_id reason now) w = ground arith
step-IsWellFormed q pulls w = ground arith

pub run-IsWellFormed :
    (q : Quotation) (calls : List Call) → IsWellFormed q → IsWellFormed (run q calls)
unfolding run
run-IsWellFormed q [] w = w
run-IsWellFormed q (c ∷ calls) w = run-IsWellFormed (step q c) calls (step-IsWellFormed q c w)

-- Whatever calls are made on a quotation that `New` returned, its revisions are numbered 1, 2, 3
-- and so on, there is at least one, each holds at least one item and valid items only, and the
-- approval and rejection stamps are set exactly in the states approved and rejected.
pub run-new-IsWellFormed :
    (x : NewInput) (q : Quotation) (calls : List Call) → new x ≡ ok q → IsWellFormed (run q calls)
run-new-IsWellFormed x q calls h = run-IsWellFormed q calls (new-IsWellFormed x q h)
