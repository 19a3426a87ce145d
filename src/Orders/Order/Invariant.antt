-- ===== src/Orders/Order/Invariant.antt =====
-- What holds of an order between two calls: its items, its totals, its stamps and its links.
use leadkart_go.Base.{
  ◌≡◌, refl, Bool, false, not, List, [], ◌∷◌, ◌++◌, ok, is_empty, is_some, leb, All, arith,
}
use leadkart_go.Base.Text.{Str, is_blank}
use leadkart_go.Orders.LineItem.{IsValid, All-IsValid-of_validate_all}
use leadkart_go.Orders.LineItem.Totals.{compute_totals}
use leadkart_go.Orders.Order.States.{
  State, quotation_draft, confirmed, packed, invoiced, dispatched, delivered, complete, cancelled,
  rank, same_state,
}
use leadkart_go.Orders.Order.{
  Order, NewInput, Event, new, Call, records_token_payment, attaches_invoice, attaches_consignment,
  cancels, step, run,
}

-- `s` stands at the stage `t` or later; cancelled orders have left the stages.
abbrev pub has_reached : State → State → Bool
has_reached s t = leb (rank t) (rank s)

-- The money and the items that `New` fixed.
pub record IsPriced (o : Order) : Type 0 where
  pub some_items : is_empty o.confirmed_items ≡ false
  pub items_valid : All IsValid o.confirmed_items
  pub totals :
      compute_totals o.confirmed_items ≡ (o.subtotal_paise, o.tax_paise, o.grand_total_paise)

-- The stamps of an order that is not cancelled say which stages it has reached, and the links are
-- set with the stamps of their stages.
pub record IsStamped (o : Order) : Type 0 where
  pub started : same_state o.state quotation_draft ≡ false
  pub confirmed_iff :
      same_state o.state cancelled ≡ false → is_some o.confirmed_at ≡ has_reached o.state confirmed
  pub packed_iff :
      same_state o.state cancelled ≡ false → is_some o.packed_at ≡ has_reached o.state packed
  pub invoiced_iff :
      same_state o.state cancelled ≡ false → is_some o.invoiced_at ≡ has_reached o.state invoiced
  pub dispatched_iff :
      same_state o.state cancelled ≡ false
      → is_some o.dispatched_at ≡ has_reached o.state dispatched
  pub delivered_iff :
      same_state o.state cancelled ≡ false → is_some o.delivered_at ≡ has_reached o.state delivered
  pub completed_iff : is_some o.completed_at ≡ same_state o.state complete
  pub cancelled_iff : is_some o.cancelled_at ≡ same_state o.state cancelled
  pub reason_given : is_empty o.cancellation_reason ≡ not (same_state o.state cancelled)
  pub invoice_linked : is_empty o.invoice_id ≡ not (is_some o.invoiced_at)
  pub consignment_linked : is_empty o.consignment_note_id ≡ not (is_some o.dispatched_at)

pub record IsConsistent (o : Order) : Type 0 where
  pub priced : IsPriced o
  pub stamped : IsStamped o

is_blank_of_empty : (s : Str) → is_blank s ≡ false → is_empty s ≡ false
unfolding is_blank
is_blank_of_empty [] h = h
is_blank_of_empty (c ∷ s) h = refl

new-IsConsistent : (x : NewInput) (o : Order) → new x ≡ ok o → IsConsistent o
unfolding new
new-IsConsistent x o h = record {
  priced = ground (arith, All-IsValid-of_validate_all x.confirmed_items);
  stamped = ground arith;
}

step-IsPriced : (o : Order) (c : Call) → IsPriced o → IsPriced (step o c).1
unfolding step
step-IsPriced o (records_token_payment actor now) p = ground arith
step-IsPriced o (attaches_invoice invoice_id actor now) p = ground arith
step-IsPriced o (attaches_consignment note_id actor now) p = ground arith
step-IsPriced o (cancels reason actor now) p = ground arith
step-IsPriced o _ p = ground arith

step-IsStamped : (o : Order) (c : Call) → IsStamped o → IsStamped (step o c).1
unfolding step
step-IsStamped o (attaches_invoice invoice_id actor now) w =
    ground (arith, is_blank_of_empty invoice_id)
step-IsStamped o (attaches_consignment note_id actor now) w =
    ground (arith, is_blank_of_empty note_id)
step-IsStamped o _ w = ground arith

run-IsConsistent :
    (outbox : List Event) (o : Order) (calls : List Call)
    → IsConsistent o
    → IsConsistent (run outbox o calls).1
unfolding run
run-IsConsistent outbox o [] w = w
run-IsConsistent outbox o (c ∷ calls) w =
    run-IsConsistent (outbox ++ (step o c).0) (step o c).1 calls
      (record { priced = step-IsPriced o c w.priced; stamped = step-IsStamped o c w.stamped })

-- Whatever calls are made on an order that `New` returned: it keeps valid items and the totals that
-- `computeTotals` gives for them; while it is not cancelled, each stage's stamp is set exactly when
-- the order stands at that stage or later; the completion and cancellation stamps are set exactly in
-- those states, a reason exactly in the cancelled state; and the invoice and consignment links are
-- set exactly when the stamps of their stages are.
pub run-new-IsConsistent :
    (x : NewInput) (o : Order) (calls : List Call) → new x ≡ ok o → IsConsistent (run [] o calls).1
run-new-IsConsistent x o calls h = run-IsConsistent [] o calls (new-IsConsistent x o h)
