-- ===== src/Orders/Order/Terminal.antt =====
-- The terminal states of an order, the step from an approved quotation to its order, and the second
-- attachment of an invoice.
use leadkart_go.Base.{◌≡◌, true, false, some, ok, is_empty, All-get_last?, get_last?, arith}
use leadkart_go.Base.Text.{Str, is_blank}
use leadkart_go.Base.Clock.{Time, is_zero_time}
use leadkart_go.Orders.LineItem.{validate_all_of_All-IsValid}
use leadkart_go.Orders.LineItem.Totals.{compute_totals}
use leadkart_go.Orders.Quotation.{Quotation, Revision, current_revision}
use leadkart_go.Orders.Quotation.Invariant as Quoted
use leadkart_go.Orders.Order.States.{invoiced, is_terminal}
use leadkart_go.Orders.Order.Invariant.{IsConsistent}
use leadkart_go.Orders.Order.{
  Order, NewInput, opened, new, attach_invoice, Call, attaches_invoice, attaches_consignment, step,
}

-- In a consistent order that is completed or cancelled, no call changes any field but the list of
-- pending events.
pub step_of_terminal :
    (o : Order) (c : Call)
    → IsConsistent o
    → is_terminal o.state ≡ true
    → (step o c).1 ≡ record o { events = (step o c).1.events }
unfolding step
step_of_terminal o (attaches_invoice invoice_id actor now) w h = ground arith
step_of_terminal o (attaches_consignment note_id actor now) w h = ground arith
step_of_terminal o _ w h = ground arith

-- The inputs of `New` that do not come from the quotation are present.
pub record IsFilled (x : NewInput) : Type 0 where
  pub order : is_empty x.id ≡ false
  pub tenant : is_empty x.tenant_id ≡ false
  pub quotation : is_empty x.approved_quotation_id ≡ false
  pub lead : is_empty x.customer_lead_id ≡ false
  pub actor : is_empty x.created_by_membership_id ≡ false
  pub clock : is_zero_time x.now ≡ false

get_last?_of_current_revision :
    (q : Quotation) (r : Revision) → current_revision q ≡ ok r → get_last? q.revisions ≡ some r
unfolding current_revision
get_last?_of_current_revision q r h = ground arith

tip-IsQuotable :
    (q : Quotation) (r : Revision)
    → Quoted.IsWellFormed q
    → current_revision q ≡ ok r
    → Quoted.IsQuotable r
tip-IsQuotable q r w h =
    All-get_last? Quoted.IsQuotable q.revisions w.quotable (get_last?_of_current_revision q r h)

-- The items of a well-formed quotation's tip pass the checks of the order's
-- constructor: with the other inputs present, `New` opens the order with exactly these items and
-- their totals.
pub new-current_revision :
    (q : Quotation) (r : Revision) (x : NewInput)
    → Quoted.IsWellFormed q
    → current_revision q ≡ ok r
    → x.confirmed_items ≡ r.items
    → IsFilled x
    → new x ≡ ok (opened x (compute_totals r.items))
unfolding new
new-current_revision q r x w tip items filled =
    let v = tip-IsQuotable q r w tip in
    ground (arith, v, validate_all_of_All-IsValid r.items v.items_valid)

-- A second `AttachInvoice` on an invoiced order is no no-op: it replaces the invoice link by the new
-- one, whoever calls it and whenever, and records no event.
pub attach_invoice_replaces :
    (o : Order) (invoice_id actor : Str) (now : Time)
    → IsConsistent o
    → o.state ≡ invoiced
    → is_blank invoice_id ≡ false
    → attach_invoice o invoice_id actor now ≡ ok (record o { invoice_id = invoice_id })
unfolding attach_invoice
attach_invoice_replaces o invoice_id actor now w s b = ground arith
