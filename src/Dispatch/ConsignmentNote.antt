-- ===== src/Dispatch/ConsignmentNote.antt =====
-- internal/dispatch/domain/consignmentnote: consignmentnote.go and events.go. The carriage of an order.
pub mod Statuses
pub mod Journey
use leadkart_go.Base.{
  Bool, not, List, [], ◌∷◌, ◌++◌, Option, none, some, Result, ok, err, ◌>>=◌, ◌>>◌, fail_if, after,
  false, is_empty, if◌then◌else◌,
}
use leadkart_go.Base.Int64.{ℤ, pos, leb_ℤ}
use leadkart_go.Base.Text.{Str, str_eq, trim_space}
use leadkart_go.Base.Clock.{Time, is_zero_time, is_after}
use leadkart_go.Base.Uuid.{validate_uuid}
use leadkart_go.Dispatch.ConsignmentNote.Statuses.{
  Err, invalid, invalid_transition, Status, pending, dispatched, in_transit, delivered, failed,
  is_status, is_terminal, can_advance,
}

pub record CreatedEvent : Type 0 where
  pub consignment_note_id : Str
  pub tenant_id : Str
  pub order_id : Str
  pub carrier_name : Str
  pub box_count : ℤ
  pub weight_grams : ℤ
  pub expected_delivery_at : Option Time
  pub created_at : Time
  pub created_by_membership_id : Str

pub record StatusChangedEvent : Type 0 where
  pub consignment_note_id : Str
  pub tenant_id : Str
  pub order_id : Str
  pub prior_status : Status
  pub new_status : Status
  pub transitioned_at : Time
  pub transitioned_by_membership : Str

pub data Event : Type 0 where
  created_event : CreatedEvent → Event
  status_changed_event : StatusChangedEvent → Event

-- `ConsignmentNote`.
pub record Note : Type 0 where
  pub id : Str
  pub tenant_id : Str
  pub order_id : Str
  pub status : Status
  pub carrier_name : Str
  pub docket_number : Str
  pub box_count : ℤ
  pub weight_grams : ℤ
  pub expected_delivery_at : Option Time
  pub dispatched_at : Option Time
  pub in_transit_at : Option Time
  pub delivered_at : Option Time
  pub failed_at : Option Time
  pub failure_reason : Str
  pub created_at : Time
  pub created_by_membership_id : Str
  pub events : List Event

pub record NewInput : Type 0 where
  pub id : Str
  pub tenant_id : Str
  pub order_id : Str
  pub carrier_name : Str
  pub box_count : ℤ
  pub weight_grams : ℤ
  pub expected_delivery_at : Option Time
  pub created_by_membership_id : Str
  pub now : Time

-- Whether an expected time is before another; there may be none.
abbrev is_past : Option Time → Time → Bool
is_past none now = false
is_past (some t) now = is_after now t

-- The note that `New` returns.
abbrev pub created : NewInput → Note
created x = record {
  id = x.id;
  tenant_id = x.tenant_id;
  order_id = x.order_id;
  status = pending;
  carrier_name = trim_space x.carrier_name;
  docket_number = [];
  box_count = x.box_count;
  weight_grams = x.weight_grams;
  expected_delivery_at = x.expected_delivery_at;
  dispatched_at = none;
  in_transit_at = none;
  delivered_at = none;
  failed_at = none;
  failure_reason = [];
  created_at = x.now;
  created_by_membership_id = x.created_by_membership_id;
  events =
      created_event (record {
        consignment_note_id = x.id;
        tenant_id = x.tenant_id;
        order_id = x.order_id;
        carrier_name = trim_space x.carrier_name;
        box_count = x.box_count;
        weight_grams = x.weight_grams;
        expected_delivery_at = x.expected_delivery_at;
        created_at = x.now;
        created_by_membership_id = x.created_by_membership_id;
      })
      ∷ [];
}

-- `New`.
unfoldable pub new : (Str → Bool) → NewInput → Result Err Note
new is_uuid x = do
  validate_uuid is_uuid invalid x.id
  validate_uuid is_uuid invalid x.tenant_id
  validate_uuid is_uuid invalid x.order_id
  fail_if (is_empty (trim_space x.carrier_name)) invalid
  fail_if (leb_ℤ x.box_count (pos 0)) invalid
  fail_if (leb_ℤ x.weight_grams (pos 0)) invalid
  validate_uuid is_uuid invalid x.created_by_membership_id
  fail_if (is_zero_time x.now) invalid
  fail_if (is_past x.expected_delivery_at x.now) invalid
  ok (created x)

-- The writes of `advance`.
abbrev pub advanced : Note → Status → Str → Time → Note
advanced n target actor now = record n {
  status = target;
  events =
      n.events
      ++ status_changed_event (record {
        consignment_note_id = n.id;
        tenant_id = n.tenant_id;
        order_id = n.order_id;
        prior_status = n.status;
        new_status = target;
        transitioned_at = now;
        transitioned_by_membership = actor;
      })
        ∷ [];
}

-- The end of `advance`, for a status that differs from the present one.
abbrev advance_other : Note → Status → Str → Time → Result Err Note
advance_other n target actor now = do
  fail_if (is_terminal n.status) invalid_transition
  fail_if (not (can_advance n.status target)) invalid_transition
  fail_if (is_empty actor) invalid
  fail_if (is_zero_time now) invalid
  ok (advanced n target actor now)

-- `advance`.
unfoldable pub advance : Note → Status → Str → Time → Result Err Note
advance n target actor now =
    if is_status n.status target then ok n else advance_other n target actor now

-- A stamp that is set only once.
abbrev pub stamp_once : Option Time → Time → Option Time
stamp_once none now = some now
stamp_once (some t) now = some t

-- A second `MarkDispatched`: the docket number must be the same.
abbrev mark_again : Note → Str → Result Err Note
mark_again n docket = if not (str_eq n.docket_number docket) then err invalid else ok n

abbrev hand_over : Note → Str → Str → Time → Result Err Note
hand_over n docket actor now = do
  m ← advance n dispatched actor now
  ok (record m { docket_number = docket; dispatched_at = stamp_once m.dispatched_at now })

-- `MarkDispatched`.
unfoldable pub mark_dispatched : Note → Str → Str → Time → Result Err Note
mark_dispatched n raw actor now = do
  let docket = trim_space raw
  fail_if (is_empty docket) invalid
  if is_status n.status dispatched then mark_again n docket else hand_over n docket actor now

-- `MarkInTransit`.
unfoldable pub mark_in_transit : Note → Str → Time → Result Err Note
mark_in_transit n actor now = do
  m ← advance n in_transit actor now
  ok (record m { in_transit_at = stamp_once m.in_transit_at now })

-- `MarkDelivered`.
unfoldable pub mark_delivered : Note → Str → Time → Result Err Note
mark_delivered n actor now = do
  m ← advance n delivered actor now
  ok (record m { delivered_at = stamp_once m.delivered_at now })

-- `MarkFailed`.
unfoldable pub mark_failed : Note → Str → Str → Time → Result Err Note
mark_failed n reason actor now = do
  fail_if (is_empty (trim_space reason)) invalid
  m ← advance n failed actor now
  ok (record m { failure_reason = trim_space reason; failed_at = stamp_once m.failed_at now })

-- `PullEvents`: the events, and the note without them.
unfoldable pub pull_events : Note → List Event × Note
pull_events n = (n.events, record n { events = [] })

-- The calls that change a note.
pub data Call : Type 0 where
  marks_dispatched : Str → Str → Time → Call
  marks_in_transit : Str → Time → Call
  marks_delivered : Str → Time → Call
  marks_failed : Str → Str → Time → Call
  pulls_events : Call

-- A call with the events that it hands out; a call that fails leaves the note as it was.
unfoldable pub step : Note → Call → List Event × Note
step n (marks_dispatched docket actor now) = ([], after n (mark_dispatched n docket actor now))
step n (marks_in_transit actor now) = ([], after n (mark_in_transit n actor now))
step n (marks_delivered actor now) = ([], after n (mark_delivered n actor now))
step n (marks_failed reason actor now) = ([], after n (mark_failed n reason actor now))
step n pulls_events = pull_events n

-- A sequence of calls, with the events handed out so far.
unfoldable pub run : List Event → Note → List Call → List Event × Note
run outbox n [] = (outbox, n)
run outbox n (c ∷ calls) = let (es, m) = step n c in run (outbox ++ es) m calls
