-- ===== src/Orders/Order.antt =====
-- internal/orders/domain/order/order.go and events.go: the order aggregate. A method that returns
-- an error before its first write is a function into `Result Err Order`.
pub mod States
pub mod Invariant
pub mod Replay
pub mod Terminal
use leadkart_go.Base.{
  ℕ, ◌≡◌, Bool, true, false, not, List, [], ◌∷◌, ◌++◌, Option, none, some, Result, ok, err, ◌>>=◌,
  ◌>>◌, fail_if, wrap_err, after, is_empty, if◌then◌else◌,
}
use leadkart_go.Base.Int64.{ℤ}
use leadkart_go.Base.Text.{Str, trim_space, is_blank}
use leadkart_go.Base.Clock.{Time, is_zero_time}
use leadkart_go.Orders.LineItem.{LineItem, validate_all}
use leadkart_go.Orders.LineItem.Totals.{compute_totals}
use States.{
  State, Err, invalid, invalid_transition, quotation_approved, token_paid, confirmed, packed,
  invoiced, dispatched, delivered, complete, cancelled, same_state, is_terminal, can_advance,
}

pub record CreatedEvent : Type 0 where
  pub order_id : Str
  pub tenant_id : Str
  pub approved_quotation_id : Str
  pub customer_lead_id : Str
  pub grand_total_paise : ℤ
  pub created_at : Time
  pub created_by_membership_id : Str

pub record AdvancedEvent : Type 0 where
  pub order_id : Str
  pub tenant_id : Str
  pub prior_state : State
  pub new_state : State
  pub transitioned_at : Time
  pub transitioned_by_membership : Str

pub record CancelledEvent : Type 0 where
  pub order_id : Str
  pub tenant_id : Str
  pub prior_state : State
  pub reason : Str
  pub cancelled_at : Time
  pub cancelled_by_membership : Str

pub data Event : Type 0 where
  created_event : CreatedEvent → Event
  advanced_event : AdvancedEvent → Event
  cancelled_event : CancelledEvent → Event

pub record Order : Type 0 where
  pub id : Str
  pub tenant_id : Str
  pub approved_quotation_id : Str
  pub customer_lead_id : Str
  pub state : State
  pub confirmed_items : List LineItem
  pub subtotal_paise : ℤ
  pub tax_paise : ℤ
  pub grand_total_paise : ℤ
  pub invoice_id : Str
  pub consignment_note_id : Str
  pub confirmed_at : Option Time
  pub packed_at : Option Time
  pub invoiced_at : Option Time
  pub dispatched_at : Option Time
  pub delivered_at : Option Time
  pub completed_at : Option Time
  pub cancelled_at : Option Time
  pub cancellation_reason : Str
  pub created_at : Time
  pub created_by_membership_id : Str
  pub events : List Event

pub record NewInput : Type 0 where
  pub id : Str
  pub tenant_id : Str
  pub approved_quotation_id : Str
  pub customer_lead_id : Str
  pub confirmed_items : List LineItem
  pub created_by_membership_id : Str
  pub now : Time

-- `recordEvent`.
abbrev pub record_event : Order → Event → Order
record_event o e = record o { events = o.events ++ e ∷ [] }

-- The order that `New` builds once its input has passed, from the totals of its items.
abbrev pub opened : NewInput → ℤ × ℤ × ℤ → Order
opened x (subtotal, tax, grand) =
    record_event
      (record {
        id = x.id;
        tenant_id = x.tenant_id;
        approved_quotation_id = x.approved_quotation_id;
        customer_lead_id = x.customer_lead_id;
        state = quotation_approved;
        confirmed_items = x.confirmed_items;
        subtotal_paise = subtotal;
        tax_paise = tax;
        grand_total_paise = grand;
        invoice_id = [];
        consignment_note_id = [];
        confirmed_at = none;
        packed_at = none;
        invoiced_at = none;
        dispatched_at = none;
        delivered_at = none;
        completed_at = none;
        cancelled_at = none;
        cancellation_reason = [];
        created_at = x.now;
        created_by_membership_id = x.created_by_membership_id;
        events = [];
      })
      (created_event (record {
        order_id = x.id;
        tenant_id = x.tenant_id;
        approved_quotation_id = x.approved_quotation_id;
        customer_lead_id = x.customer_lead_id;
        grand_total_paise = grand;
        created_at = x.now;
        created_by_membership_id = x.created_by_membership_id;
      }))

-- `New`.
unfoldable pub new : NewInput → Result Err Order
new x = do
  fail_if (is_empty x.id) invalid
  fail_if (is_empty x.tenant_id) invalid
  fail_if (is_empty x.approved_quotation_id) invalid
  fail_if (is_empty x.customer_lead_id) invalid
  fail_if (is_empty x.confirmed_items) invalid
  fail_if (is_empty x.created_by_membership_id) invalid
  fail_if (is_zero_time x.now) invalid
  wrap_err invalid (validate_all x.confirmed_items)
  ok (opened x (compute_totals x.confirmed_items))

-- The event of a transition.
abbrev pub advanced_to : Order → State → Str → Time → Event
advanced_to o target actor now = advanced_event (record {
  order_id = o.id;
  tenant_id = o.tenant_id;
  prior_state = o.state;
  new_state = target;
  transitioned_at = now;
  transitioned_by_membership = actor;
})

-- The transition of `advance`, once the state differs from the target.
move : Order → State → Str → Time → Result Err Order
move o target actor now = do
  fail_if (is_terminal o.state) invalid_transition
  fail_if (not (can_advance o.state target)) invalid_transition
  fail_if (is_empty actor) invalid
  fail_if (is_zero_time now) invalid
  ok (record_event (record o { state = target }) (advanced_to o target actor now))

-- `advance`.
unfoldable pub advance : Order → State → Str → Time → Result Err Order
unfolding move
advance o target actor now = if same_state o.state target then ok o else move o target actor now

-- `if o.packedAt == nil { o.packedAt = &now }`.
abbrev pub stamp_once : Option Time → Time → Option Time
stamp_once none now = some now
stamp_once (some t) now = some t

unfoldable pub record_token_payment : Order → Str → Time → Result Err Order
unfolding advance
record_token_payment o actor now = advance o token_paid actor now

unfoldable pub confirm : Order → Str → Time → Result Err Order
unfolding advance
confirm o actor now = do
  p ← advance o confirmed actor now
  ok (record p { confirmed_at = stamp_once p.confirmed_at now })

unfoldable pub mark_packed : Order → Str → Time → Result Err Order
unfolding advance
mark_packed o actor now = do
  p ← advance o packed actor now
  ok (record p { packed_at = stamp_once p.packed_at now })

unfoldable pub attach_invoice : Order → Str → Str → Time → Result Err Order
unfolding advance
attach_invoice o invoice_id actor now = do
  fail_if (is_blank invoice_id) invalid
  p ← advance o invoiced actor now
  ok (record p { invoice_id = invoice_id; invoiced_at = stamp_once p.invoiced_at now })

unfoldable pub attach_consignment : Order → Str → Str → Time → Result Err Order
unfolding advance
attach_consignment o consignment_id actor now = do
  fail_if (is_blank consignment_id) invalid
  p ← advance o dispatched actor now
  ok (record p {
    consignment_note_id = consignment_id;
    dispatched_at = stamp_once p.dispatched_at now;
  })

unfoldable pub mark_delivered : Order → Str → Time → Result Err Order
unfolding advance
mark_delivered o actor now = do
  p ← advance o delivered actor now
  ok (record p { delivered_at = stamp_once p.delivered_at now })

unfoldable pub mark_complete : Order → Str → Time → Result Err Order
unfolding advance
mark_complete o actor now = do
  p ← advance o complete actor now
  ok (record p { completed_at = stamp_once p.completed_at now })

-- The event of a cancellation, with the reason trimmed.
abbrev pub cancelled_for : Order → Str → Str → Time → Event
cancelled_for o reason actor now = cancelled_event (record {
  order_id = o.id;
  tenant_id = o.tenant_id;
  prior_state = o.state;
  reason = trim_space reason;
  cancelled_at = now;
  cancelled_by_membership = actor;
})

-- `Cancel` of an order that is not cancelled yet.
cancel_open : Order → Str → Str → Time → Result Err Order
cancel_open o reason actor now = do
  fail_if (same_state o.state complete) invalid_transition
  fail_if (is_empty (trim_space reason)) invalid
  fail_if (is_empty actor) invalid
  fail_if (is_zero_time now) invalid
  ok (
      record_event
        (record o {
          state = cancelled;
          cancellation_reason = trim_space reason;
          cancelled_at = some now;
        })
        (cancelled_for o reason actor now))

-- `Cancel`.
unfoldable pub cancel : Order → Str → Str → Time → Result Err Order
unfolding cancel_open
cancel o reason actor now =
    if same_state o.state cancelled then ok o else cancel_open o reason actor now

-- `PullEvents`: the events, and the order without them.
unfoldable pub pull_events : Order → List Event × Order
pull_events o = (o.events, record o { events = [] })

-- The calls that change an order.
pub data Call : Type 0 where
  records_token_payment confirms marks_packed marks_delivered marks_complete : Str → Time → Call
  attaches_invoice attaches_consignment cancels : Str → Str → Time → Call
  pulls_events : Call

-- A call with the events that it hands out. A call that returns an error leaves the order as it was.
unfoldable pub step : Order → Call → List Event × Order
unfolding record_token_payment confirm mark_packed attach_invoice attach_consignment mark_delivered
    mark_complete cancel pull_events
step o (records_token_payment actor now) = ([], after o (record_token_payment o actor now))
step o (confirms actor now) = ([], after o (confirm o actor now))
step o (marks_packed actor now) = ([], after o (mark_packed o actor now))
step o (attaches_invoice invoice_id actor now) =
    ([], after o (attach_invoice o invoice_id actor now))
step o (attaches_consignment note_id actor now) =
    ([], after o (attach_consignment o note_id actor now))
step o (marks_delivered actor now) = ([], after o (mark_delivered o actor now))
step o (marks_complete actor now) = ([], after o (mark_complete o actor now))
step o (cancels reason actor now) = ([], after o (cancel o reason actor now))
step o pulls_events = pull_events o

-- A sequence of calls, with the events handed out so far.
unfoldable pub run : List Event → Order → List Call → List Event × Order
run outbox o [] = (outbox, o)
run outbox o (c ∷ calls) = let (es, p) = step o c in run (outbox ++ es) p calls
