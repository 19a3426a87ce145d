-- ===== src/Orders/Quotation.antt =====
-- internal/orders/domain/quotation/quotation.go and events.go: the quotation aggregate. A method
-- that returns an error before its first write is a function into `Result Err Quotation`.
pub mod Invariant
pub mod History
use leadkart_go.Base.{
  ℕ, suc, ◌≡◌, Bool, true, false, List, [], ◌∷◌, ◌++◌, Option, none, some, Result, ok, err, ◌>>=◌,
  ◌>>◌, fail_if, after, is_empty, length, get_last?, if◌then◌else◌,
}
use leadkart_go.Base.Text.{Str, str_eq, codes, trim_space}
use leadkart_go.Base.Clock.{Time, is_zero_time}
use leadkart_go.Orders.LineItem.{LineItem, Err, validate_all}
pub use leadkart_go.Orders.LineItem.{invalid, invalid_transition, index_out_of_range}

pub record Revision : Type 0 where
  pub number : ℕ
  pub items : List LineItem
  pub note : Str
  pub revised_at : Time
  pub revised_by_membership : Str

pub data State : Type 0 where
  draft approved rejected : State

abbrev pub is_terminal : State → Bool
is_terminal draft = false
is_terminal approved = true
is_terminal rejected = true

-- `State.String`.
unfoldable pub to_string : State → Str
to_string draft = codes "draft"
to_string approved = codes "approved"
to_string rejected = codes "rejected"

-- `ParseState`, over the catalogue of `State.IsValid`.
unfoldable pub parse_state : Str → Result Err State
parse_state raw =
    if str_eq raw (codes "draft")
    then ok draft
    else if str_eq raw (codes "approved")
    then ok approved
    else if str_eq raw (codes "rejected")
    then ok rejected
    else err invalid

pub record CreatedEvent : Type 0 where
  pub quotation_id : Str
  pub tenant_id : Str
  pub customer_lead_id : Str
  pub line_item_count : ℕ
  pub created_at : Time
  pub created_by_membership_id : Str

pub record RevisedEvent : Type 0 where
  pub quotation_id : Str
  pub tenant_id : Str
  pub revision_number : ℕ
  pub line_item_count : ℕ
  pub note : Str
  pub revised_at : Time
  pub revised_by_membership : Str

pub record ApprovedEvent : Type 0 where
  pub quotation_id : Str
  pub tenant_id : Str
  pub customer_lead_id : Str
  pub approved_revision_number : ℕ
  pub approved_at : Time
  pub approved_by_membership : Str

pub record RejectedEvent : Type 0 where
  pub quotation_id : Str
  pub tenant_id : Str
  pub reason : Str
  pub rejected_at : Time
  pub rejected_by_membership : Str

pub data Event : Type 0 where
  created_event : CreatedEvent → Event
  revised_event : RevisedEvent → Event
  approved_event : ApprovedEvent → Event
  rejected_event : RejectedEvent → Event

pub record Quotation : Type 0 where
  pub id : Str
  pub tenant_id : Str
  pub customer_lead_id : Str
  pub state : State
  pub revisions : List Revision
  pub approved_at : Option Time
  pub approved_by_membership_id : Option Str
  pub rejected_at : Option Time
  pub rejected_by_membership_id : Option Str
  pub rejection_reason : Str
  pub created_at : Time
  pub created_by_membership_id : Str
  pub events : List Event

pub record NewInput : Type 0 where
  pub id : Str
  pub tenant_id : Str
  pub customer_lead_id : Str
  pub initial_items : List LineItem
  pub initial_note : Str
  pub created_by_membership_id : Str
  pub now : Time

pub record ReviseInput : Type 0 where
  pub items : List LineItem
  pub note : Str
  pub revised_by_membership : Str
  pub now : Time

-- `recordEvent`.
abbrev pub record_event : Quotation → Event → Quotation
record_event q e = record q { events = q.events ++ e ∷ [] }

-- The quotation that `New` builds once its input has passed.
abbrev pub seeded : NewInput → Quotation
seeded x =
    record_event
      (record {
        id = x.id;
        tenant_id = x.tenant_id;
        customer_lead_id = x.customer_lead_id;
        state = draft;
        revisions =
            (record {
              number = 1;
              items = x.initial_items;
              note = trim_space x.initial_note;
              revised_at = x.now;
              revised_by_membership = x.created_by_membership_id;
            })
            ∷ [];
        approved_at = none;
        approved_by_membership_id = none;
        rejected_at = none;
        rejected_by_membership_id = none;
        rejection_reason = [];
        created_at = x.now;
        created_by_membership_id = x.created_by_membership_id;
        events = [];
      })
      (created_event (record {
        quotation_id = x.id;
        tenant_id = x.tenant_id;
        customer_lead_id = x.customer_lead_id;
        line_item_count = length x.initial_items;
        created_at = x.now;
        created_by_membership_id = x.created_by_membership_id;
      }))

-- `New`.
unfoldable pub new : NewInput → Result Err Quotation
new x = do
  fail_if (is_empty x.id) invalid
  fail_if (is_empty x.tenant_id) invalid
  fail_if (is_empty x.customer_lead_id) invalid
  fail_if (is_empty x.created_by_membership_id) invalid
  fail_if (is_zero_time x.now) invalid
  fail_if (is_empty x.initial_items) invalid
  validate_all x.initial_items
  ok (seeded x)

-- `CurrentRevision`, which panics on a quotation without revisions.
unfoldable pub current_revision : Quotation → Result Err Revision
current_revision q = elim (get_last? q.revisions) [ none ↦ err index_out_of_range | some r ↦ ok r ]

-- The revision that `Revise` appends.
abbrev pub next_revision : Quotation → ReviseInput → Revision
next_revision q x = record {
  number = suc (length q.revisions);
  items = x.items;
  note = trim_space x.note;
  revised_at = x.now;
  revised_by_membership = x.revised_by_membership;
}

-- `Revise`.
unfoldable pub revise : Quotation → ReviseInput → Result Err Quotation
revise q x = do
  fail_if (is_terminal q.state) invalid_transition
  fail_if (is_empty x.items) invalid
  validate_all x.items
  fail_if (is_empty x.revised_by_membership) invalid
  fail_if (is_zero_time x.now) invalid
  ok (
      record_event (record q { revisions = q.revisions ++ next_revision q x ∷ [] })
        (revised_event (record {
          quotation_id = q.id;
          tenant_id = q.tenant_id;
          revision_number = suc (length q.revisions);
          line_item_count = length x.items;
          note = trim_space x.note;
          revised_at = x.now;
          revised_by_membership = x.revised_by_membership;
        })))

approve_draft : Quotation → Str → Time → Result Err Quotation
unfolding current_revision
approve_draft q approver_id now = do
  fail_if (is_empty approver_id) invalid
  fail_if (is_zero_time now) invalid
  tip ← current_revision q
  ok (
      record_event
        (record q {
          state = approved;
          approved_at = some now;
          approved_by_membership_id = some approver_id;
        })
        (approved_event (record {
          quotation_id = q.id;
          tenant_id = q.tenant_id;
          customer_lead_id = q.customer_lead_id;
          approved_revision_number = tip.number;
          approved_at = now;
          approved_by_membership = approver_id;
        })))

-- `Approve`: by the state, a no-op, a refusal, or the approval of a draft.
unfoldable pub approve : Quotation → Str → Time → Result Err Quotation
unfolding approve_draft
approve q approver_id now = elim q.state [
  | approved ↦ ok q
  | rejected ↦ err invalid_transition
  | draft ↦ approve_draft q approver_id now
]

reject_draft : Quotation → Str → Str → Time → Result Err Quotation
reject_draft q rejector_id reason now = do
  fail_if (is_empty (trim_space reason)) invalid
  fail_if (is_empty rejector_id) invalid
  fail_if (is_zero_time now) invalid
  ok (
      record_event
        (record q {
          state = rejected;
          rejected_at = some now;
          rejected_by_membership_id = some rejector_id;
          rejection_reason = trim_space reason;
        })
        (rejected_event (record {
          quotation_id = q.id;
          tenant_id = q.tenant_id;
          reason = trim_space reason;
          rejected_at = now;
          rejected_by_membership = rejector_id;
        })))

-- `Reject`.
unfoldable pub reject : Quotation → Str → Str → Time → Result Err Quotation
unfolding reject_draft
reject q rejector_id reason now = elim q.state [
  | rejected ↦ ok q
  | approved ↦ err invalid_transition
  | draft ↦ reject_draft q rejector_id reason now
]

-- `PullEvents`: the events, and the quotation without them.
unfoldable pub pull_events : Quotation → List Event × Quotation
pull_events q = (q.events, record q { events = [] })

-- The calls that change a quotation.
pub data Call : Type 0 where
  revises : ReviseInput → Call
  approves : Str → Time → Call
  rejects : Str → Str → Time → Call
  pulls : Call

-- A call that returns an error leaves the quotation as it was.
unfoldable pub step : Quotation → Call → Quotation
unfolding revise approve reject pull_events
step q (revises x) = after q (revise q x)
step q (approves approver_id now) = after q (approve q approver_id now)
step q (rejects rejector_id reason now) = after q (reject q rejector_id reason now)
step q pulls = (pull_events q).1

unfoldable pub run : Quotation → List Call → Quotation
run q [] = q
run q (c ∷ calls) = run (step q c) calls
